-- ===== src/HomController/Rounds.antt =====
-- The results of a round at the controller (quisp/modules/HoM_Controller.cc), and how the analyzer
-- and the controller of a link work together.
use mathlib.Core.List.{append-nil}
use quisp.Prelude.{
  ℕ, suc, ◌+◌, ltb, ◌==◌, ℤ, pos, Bool, true, false, not, if◌then◌else◌, List, [], ◌∷◌, ◌++◌, All,
  length, replicate, set, set_from, set_from-cover, length-append, length-replicate, insert_new,
  assign, Result, ok, ◌>>=◌, ◌≡◌, ◌⊎◌, refl, ap, ◌∙◌, arith,
}
use quisp.Qubits.{World}
use quisp.Analyzer.{Analyzer, BsaMessage, bsa_result, bsa_finish}
use quisp.Analyzer.Rounds.{
  Arrival, receive, Pair, all_arrivals, IsBurst, IsInTime, IsLate, IsIdle, messages, results,
}
use quisp.Analyzer.Rounds.Burst.{receive-round}
use quisp.HomController.{
  HomController, Packet, from_analyzer, handle_message, push_to_bsa_results, fill_failed,
  list_of_failed, send_bsa_results_to_neighbors, combined_bsa_results, combined_bsa_results_epps,
  for_results, first_notifier, second_notifier, stored,
}

-- Results as the map stores them: from key `n` on.
abbrev indexed : ℕ → List Bool → List (ℤ × Bool)
indexed n [] = []
indexed n (b ∷ bs) = (pos n, b) ∷ indexed (n + 1) bs

length-indexed : (n : ℕ) (bs : List Bool) → length (indexed n bs) ≡ length bs
length-indexed n [] = refl
length-indexed n (b ∷ bs) = ap suc (length-indexed (n + 1) bs)

insert_new-indexed :
    (n k : ℕ) (bs : List Bool) (v : Bool)
    → k ≡ n + length bs
    → insert_new (pos k) v (indexed n bs) ≡ indexed n (bs ++ v ∷ [])
unfolding insert_new
insert_new-indexed n k [] v h = ground arith
insert_new-indexed n k (b ∷ bs) v h =
    let e : insert_new (pos k) v (indexed (n + 1) bs) ≡ indexed (n + 1) (bs ++ v ∷ []) =
      insert_new-indexed (n + 1) k bs v (omega arith) in
    let different : (n == k) ≡ false = ground arith in
    let above : ltb (k + 0) (n + 0) ≡ false = ground arith in
    rw (different, above) (ap (◌∷◌ (pos n, b)) e)

assign-indexed :
    (n k : ℕ) (bs : List Bool) (v : Bool)
    → k ≡ n + length bs
    → assign (pos k) v (indexed n (bs ++ v ∷ [])) ≡ indexed n (bs ++ v ∷ [])
unfolding assign
assign-indexed n k [] v h = ground arith
assign-indexed n k (b ∷ bs) v h =
    let e : assign (pos k) v (indexed (n + 1) (bs ++ v ∷ [])) ≡ indexed (n + 1) (bs ++ v ∷ []) =
      assign-indexed (n + 1) k bs v (omega arith) in
    let different : (n == k) ≡ false = ground arith in rw different (ap (◌∷◌ (pos n, b)) e)

-- A result is stored behind the others.
push-indexed :
    (c : HomController) (bs : List Bool) (b : Bool)
    → c.results ≡ indexed 0 bs
    → push_to_bsa_results b c ≡ ok (record c { results = indexed 0 (bs ++ b ∷ []) })
unfolding push_to_bsa_results
push-indexed c bs b h =
    let e : stored c ≡ 0 + length bs = omega (arith, ap length h, length-indexed 0 bs) in
    let f : assign (pos (stored c)) b (insert_new (pos (stored c)) b c.results)
        ≡ indexed 0 (bs ++ b ∷ []) =
      (λ i. assign (pos (stored c)) b (insert_new (pos (stored c)) b (h i)))
      ∙ ap (assign (pos (stored c)) b) (insert_new-indexed 0 (stored c) bs b e)
      ∙ assign-indexed 0 (stored c) bs b e in
    let n : length (indexed 0 (bs ++ b ∷ [])) ≡ stored c + 1 =
      length-indexed 0 (bs ++ b ∷ []) ∙ omega (arith, length-append bs (b ∷ []), e) in
    let same : (stored c + 1 == stored c + 1) ≡ true = ground arith in rw (f, n, same)

fill_failed-indexed :
    (n : ℕ) (bs failed : List Bool) → fill_failed (indexed n bs) failed ≡ set_from failed n bs
unfolding fill_failed
fill_failed-indexed n [] failed = refl
fill_failed-indexed n (b ∷ bs) failed = fill_failed-indexed (n + 1) bs (set failed n b)

list_of_failed-indexed :
    (c : HomController) (bs : List Bool) → c.results ≡ indexed 0 bs → list_of_failed c ≡ bs
unfolding list_of_failed
list_of_failed-indexed c bs h =
    let e : stored c ≡ length bs = ap length h ∙ length-indexed 0 bs in
    rw (e, h)
      (fill_failed-indexed 0 bs (replicate (length bs) false)
        ∙ set_from-cover (replicate (length bs) false) bs (length-replicate (length bs) false))

-- Messages of the analyzer in their order, with all packets that result.
unfoldable pub collect :
    (rand : ℕ) → List BsaMessage → HomController → Result (List Packet × HomController)
unfolding handle_message
collect rand [] c = ok ([], c)
collect rand (m ∷ ms) c = do
  (ps, c1) ← handle_message rand (from_analyzer m) c
  (qs, c2) ← collect rand ms c1
  ok (ps ++ qs, c2)

-- Each neighbour of an active controller has its notifier with the list, each neighbour of a passive
-- one the list alone.
abbrev pub answers : HomController → List Bool → List Packet
answers c failed =
    if not c.passive
    then combined_bsa_results (for_results c (first_notifier c)) failed
      ∷ combined_bsa_results (for_results c (second_notifier c)) failed
      ∷ []
    else combined_bsa_results_epps c.address c.neighbor_address 6 failed
      ∷ combined_bsa_results_epps c.address c.neighbor_address_two 6 failed
      ∷ []

-- The controller after a round.
abbrev pub cleared : (rand : ℕ) → HomController → HomController
cleared rand c = record c { results = []; auto_resend_bsa_notifier = true; current_trial_id = rand }

abbrev holding : HomController → List Bool → HomController
holding c bs = record c { results = indexed 0 bs }

finish_round :
    (rand : ℕ) (c : HomController) (bs : List Bool) (b : Bool)
    → c.results ≡ indexed 0 bs
    → handle_message rand (from_analyzer (bsa_finish b)) c
      ≡ ok (answers c (bs ++ b ∷ []), cleared rand c)
unfolding handle_message send_bsa_results_to_neighbors first_notifier second_notifier
finish_round rand c bs b h =
    let c' = holding c (bs ++ b ∷ []) in
    let e = push-indexed c bs b h in
    rw e (
      ap (λ (l : List Bool). ok (answers c l, cleared rand c))
        (list_of_failed-indexed c' (bs ++ b ∷ []) refl))

store_result :
    (rand : ℕ) (c : HomController) (bs : List Bool) (b : Bool)
    → c.results ≡ indexed 0 bs
    → handle_message rand (from_analyzer (bsa_result b)) c
      ≡ ok ([], record c { auto_resend_bsa_notifier = false; results = indexed 0 (bs ++ b ∷ []) })
unfolding handle_message
store_result rand c bs b h =
    rw (push-indexed (record c { auto_resend_bsa_notifier = false }) bs b h)

append_one : (xs ys : List Bool) (b : Bool) → (xs ++ b ∷ []) ++ ys ≡ xs ++ b ∷ ys
append_one [] ys b = refl
append_one (x ∷ xs) ys b = ap (◌∷◌ x) (append_one xs ys b)

collect_from :
    (rand : ℕ) (c : HomController) (bs : List Bool) (b : Bool) (more : List Bool)
    → c.results ≡ indexed 0 bs
    → collect rand (messages (b ∷ more)) c ≡ ok (answers c (bs ++ b ∷ more), cleared rand c)
unfolding collect first_notifier second_notifier
collect_from rand c bs b [] h =
    rw (finish_round rand c bs b h)
      (ap (λ (ps : List Packet). ok (ps, cleared rand c)) (append-nil (answers c (bs ++ b ∷ []))))
collect_from rand c bs b (b' ∷ more) h =
    let c' = record c { auto_resend_bsa_notifier = false; results = indexed 0 (bs ++ b ∷ []) } in
    rw (
      store_result rand c bs b h,
      collect_from rand c' (bs ++ b ∷ []) b' more refl,
      append_one bs (b' ∷ more) b,
    )

-- A round of photons makes the controller of the link answer: the pairs and late photons of a burst
-- at an analyzer that is ready, with the messages of the analyzer handed to an empty controller, lead
-- to one packet for each neighbour. The entry of the list at position i is true exactly if the pair i
-- failed by the random numbers that are its turn. Then the trial is over, and the controller is empty.
pub collect-receive :
    (rand : ℕ) (c : HomController) (p : Pair) (ps : List Pair) (late : List Arrival) (w : World)
    (a : Analyzer)
    → IsBurst (p ∷ ps)
    → All (IsInTime a.required_precision) (p ∷ ps)
    → All IsLate late
    → IsIdle a
      ⊎ ((a.this_trial_done ≡ true)
          × ((if p.left_first then p.left.first else p.right.first) ≡ true))
    → c.results ≡ []
    → (ms : List BsaMessage) × (w' : World) × (a' : Analyzer) × (receive
          (all_arrivals (p ∷ ps) late)
          w
          a
        ≡ ok (ms, w', a'))
      × (a'.this_trial_done ≡ true)
      × (collect rand ms c
          ≡ ok (
            answers c (results a.bsa_success_rate a.darkcount_probability w.rand w.drawn (p ∷ ps)),
            cleared rand c,
          ))
collect-receive rand c p ps late w a b t l s h =
    let (w', a', e, over) = receive-round p ps late w a b t l s in
    (
      _,
      w',
      a',
      e,
      over,
      collect_from rand c [] _
          (results a.bsa_success_rate a.darkcount_probability w.rand (w.drawn + 3) ps) h,
    )
