-- ===== src/Queue/Order.antt =====
-- Packets leave in the order in which they came (quisp/modules/Queue.cc).
use quisp.Prelude.{
  ℕ, zero, suc, ℤ, pos, ltb_ℤ, ◌==ℤ◌, Bool, true, false, not, ◌||◌, if◌then◌else◌, List, [], ◌∷◌,
  ◌++◌, length, Option, none, some, Bool-cases, inl, inr, ◌≡◌, refl, sym, ap, ◌∙◌, arith,
}
use quisp.Queue.{
  Queue, Message, end_transmission, arrived_on_line, arrived_on_in, Output, line_out, up_out,
  start_transmitting, is_full, handle_message,
}

-- The queue on a sequence of messages.
unfoldable pub run : {A : Type 0} → List (Message A) → Queue A → List (Output A) × Queue A
unfolding handle_message
run [] q = ([], q)
run (m ∷ ms) q =
    let (outs, q1) = handle_message m q in let (rest, q2) = run ms q1 in (outs ++ rest, q2)

abbrev pub transmitted : {A : Type 0} → List (Output A) → List A
transmitted [] = []
transmitted (line_out pk ∷ outs) = pk ∷ transmitted outs
transmitted (_ ∷ outs) = transmitted outs

abbrev pub passed_up : {A : Type 0} → List (Output A) → List A
passed_up [] = []
passed_up (up_out pk ∷ outs) = pk ∷ passed_up outs
passed_up (_ ∷ outs) = passed_up outs

abbrev pub from_line : {A : Type 0} → List (Message A) → List A
from_line [] = []
from_line (arrived_on_line pk ∷ ms) = pk ∷ from_line ms
from_line (_ ∷ ms) = from_line ms

-- A server with room for one packet in transmission and as many waiting as the capacity says, 0 being
-- no limit, of which only the number of packets within is known: the packets that it lets in.
abbrev pub has_room : (capacity : ℤ) → (load : ℕ) → Bool
has_room capacity zero = true
has_room capacity (suc waiting) = (capacity ==ℤ pos 0) || ltb_ℤ (pos waiting) capacity

abbrev one_less : ℕ → ℕ
one_less zero = 0
one_less (suc n) = n

pub admitted : {A : Type 0} → (capacity : ℤ) → (load : ℕ) → List (Message A) → List A
admitted capacity load [] = []
admitted capacity load (end_transmission ∷ ms) = admitted capacity (one_less load) ms
admitted capacity load (arrived_on_line pk ∷ ms) = admitted capacity load ms
admitted capacity load (arrived_on_in pk ∷ ms) =
    let let_in = admitted capacity (suc load) ms in
    let kept_out = admitted capacity load ms in
    if has_room capacity load then pk ∷ let_in else kept_out

abbrev pub load_of : {A : Type 0} → Queue A → ℕ
load_of q = if q.is_busy then suc (length q.queue) else 0

-- The queue transmits exactly while its event is scheduled, and packets wait only then.
pub data IsSound {A : Type 0} : Queue A → Type 0 where
  idle :
      (capacity : ℤ)
      → IsSound
          (record { frame_capacity = capacity; queue = []; is_busy = false; is_scheduled = false })
  busy :
      (capacity : ℤ) (queue : List A)
      → IsSound
          (record { frame_capacity = capacity; queue = queue; is_busy = true; is_scheduled = true })

append_nil : {A : Type 0} (xs : List A) → xs ++ [] ≡ xs
append_nil [] = refl
append_nil (x ∷ xs) = ap (λ ys. x ∷ ys) (append_nil xs)

append_assoc : {A : Type 0} (xs ys zs : List A) → (xs ++ ys) ++ zs ≡ xs ++ (ys ++ zs)
append_assoc [] ys zs = refl
append_assoc (x ∷ xs) ys zs = ap (λ l. x ∷ l) (append_assoc xs ys zs)

-- What a run ends with.
record IsOrdered {A : Type 0} (ms : List (Message A)) (q : Queue A) : Type 0 where
  order :
      transmitted (run ms q).0 ++ (run ms q).1.queue
      ≡ q.queue ++ admitted q.frame_capacity (load_of q) ms
  up : passed_up (run ms q).0 ≡ from_line ms
  sound : IsSound (run ms q).1

length_add : {A : Type 0} (xs : List A) (x : A) → length (xs ++ (x ∷ [])) ≡ suc (length xs)
length_add [] x = refl
length_add (y ∷ xs) x = ap suc (length_add xs x)

-- An idle queue, or a busy one with the packets that wait.
abbrev state : {A : Type 0} → ℤ → Option (List A) → Queue A
state capacity none = record {
  frame_capacity = capacity;
  queue = [];
  is_busy = false;
  is_scheduled = false;
}
state capacity (some queue) = record {
  frame_capacity = capacity;
  queue = queue;
  is_busy = true;
  is_scheduled = true;
}

full_or_room :
    {A : Type 0} (c : ℤ) (queue : List A)
    → has_room c (suc (length queue)) ≡ not (is_full (state c (some queue)))
full_or_room c queue = ground arith

run-IsOrdered :
    {A : Type 0} (ms : List (Message A)) (c : ℤ) (o : Option (List A)) → IsOrdered ms (state c o)
unfolding run handle_message start_transmitting admitted
run-IsOrdered [] c none = record { order = refl; up = refl; sound = idle c }
run-IsOrdered [] c (some queue) = record {
  order = sym (append_nil queue);
  up = refl;
  sound = busy c queue;
}
run-IsOrdered (end_transmission ∷ ms) c none =
    let h = run-IsOrdered ms c none in record { order = h.order; up = h.up; sound = h.sound }
run-IsOrdered (end_transmission ∷ ms) c (some []) =
    let h = run-IsOrdered ms c none in record { order = h.order; up = h.up; sound = h.sound }
run-IsOrdered (end_transmission ∷ ms) c (some (p ∷ ps)) =
    let h = run-IsOrdered ms c (some ps) in
    record { order = ap (λ l. p ∷ l) h.order; up = h.up; sound = h.sound }
run-IsOrdered (arrived_on_line p ∷ ms) c none =
    let h = run-IsOrdered ms c none in
    record { order = h.order; up = ap (λ l. p ∷ l) h.up; sound = h.sound }
run-IsOrdered (arrived_on_line p ∷ ms) c (some queue) =
    let h = run-IsOrdered ms c (some queue) in
    record { order = h.order; up = ap (λ l. p ∷ l) h.up; sound = h.sound }
run-IsOrdered (arrived_on_in p ∷ ms) c none =
    let h = run-IsOrdered ms c (some []) in
    record { order = ap (λ l. p ∷ l) h.order; up = h.up; sound = h.sound }
run-IsOrdered (arrived_on_in p ∷ ms) c (some queue) =
    elim (Bool-cases (is_full (state c (some queue)))) [
      | inl e ↦
          let h = run-IsOrdered ms c (some queue) in
          let no_room = full_or_room c queue ∙ ap not e in
          record {
            order = rw (run, handle_message, e, no_room) h.order;
            up = rw (run, handle_message, e) h.up;
            sound = rw (run, handle_message, e) h.sound;
          }
      | inr e ↦
          let h = run-IsOrdered ms c (some (queue ++ (p ∷ []))) in
          let room = full_or_room c queue ∙ ap not e in
          record {
            order =
                rw (run, handle_message, e, room)
                  (h.order
                    ∙ append_assoc queue (p ∷ []) (admitted c (suc (length (queue ++ (p ∷ [])))) ms)
                    ∙ ap (λ n. queue ++ (p ∷ admitted c (suc n) ms)) (length_add queue p));
            up = rw (run, handle_message, e) h.up;
            sound = rw (run, handle_message, e) h.sound;
          }
    ]

-- From a sound queue, whatever comes, the packets that were transmitted followed by those that wait
-- are the packets that waited at the start followed by those that a server of the same capacity and
-- load lets in, in the order in which they came; every packet of the line is passed up in order; and
-- the queue is sound again.
pub run-admitted :
    {A : Type 0} (ms : List (Message A)) (q : Queue A)
    → IsSound q
    → (transmitted (run ms q).0 ++ (run ms q).1.queue
        ≡ q.queue ++ admitted q.frame_capacity (load_of q) ms)
      × (passed_up (run ms q).0 ≡ from_line ms)
      × IsSound (run ms q).1
run-admitted ms _ (idle c) = let h = run-IsOrdered ms c none in (h.order, h.up, h.sound)
run-admitted ms _ (busy c queue) =
    let h = run-IsOrdered ms c (some queue) in (h.order, h.up, h.sound)
