-- ===== src/Queue.antt =====
-- quisp/modules/Queue.cc: the queue before a classical channel. The event of the end of a
-- transmission is a message to the queue itself; when it comes is left to the channel. What is
-- recorded for statistics is left out.
pub mod Order
mod Tests
use quisp.Prelude.{
  ℕ, ℤ, pos, ltb_ℤ, ◌==ℤ◌, Bool, true, false, not, ◌&&◌, if◌then◌else◌, List, [], ◌∷◌, ◌++◌, length,
}

pub record Queue (A : Type 0) : Type 0 where
  pub frame_capacity : ℤ
  pub queue : List A
  pub is_busy : Bool
  -- endTransmissionEvent->isScheduled()
  pub is_scheduled : Bool

-- What comes: the event, or a packet on the gate line$i or in.
pub data Message (A : Type 0) : Type 0 where
  end_transmission : Message A
  arrived_on_line arrived_on_in : A → Message A

-- What the queue does with packets: sends one on the gate line$o or out, or deletes it.
pub data Output (A : Type 0) : Type 0 where
  line_out up_out deleted : A → Output A

-- startTransmitting
unfoldable pub start_transmitting : {A : Type 0} → A → Queue A → List (Output A) × Queue A
start_transmitting pk q = (line_out pk ∷ [], record q { is_busy = true; is_scheduled = true })

-- `frameCapacity && queue.getLength() >= frameCapacity`
abbrev pub is_full : {A : Type 0} → Queue A → Bool
is_full q = not (q.frame_capacity ==ℤ pos 0) && not (ltb_ℤ (pos (length q.queue)) q.frame_capacity)

-- The end of a transmission, with the packets that wait.
abbrev pub next_transmission : {A : Type 0} → List A → Queue A → List (Output A) × Queue A
unfolding start_transmitting
next_transmission [] q = ([], q)
next_transmission (pk ∷ queue) q = start_transmitting pk (record q { queue = queue })

-- handleMessage
unfoldable pub handle_message : {A : Type 0} → Message A → Queue A → List (Output A) × Queue A
unfolding start_transmitting
handle_message end_transmission q =
    next_transmission q.queue (record q { is_busy = false; is_scheduled = false })
handle_message (arrived_on_line pk) q = (up_out pk ∷ [], q)
handle_message (arrived_on_in pk) q =
    if q.is_scheduled
    then if is_full q then (deleted pk ∷ [], q) else ([], record q { queue = q.queue ++ (pk ∷ []) })
    else start_transmitting pk q
