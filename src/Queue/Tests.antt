-- ===== src/Queue/Tests.antt =====
-- A queue for one packet: of three packets that come at once the third is deleted.
use quisp.Prelude.{ℕ, pos, false, List, [], ◌∷◌, ◌++◌, ◌≡◌, refl}
use quisp.Queue.{Queue, Message, arrived_on_in, arrived_on_line, end_transmission}
use quisp.Queue.Order.{
  run, transmitted, passed_up, from_line, admitted, load_of, IsSound, idle, run-admitted,
}

abbrev start : Queue ℕ
start = record { frame_capacity = pos 1; queue = []; is_busy = false; is_scheduled = false }

abbrev messages : List (Message ℕ)
messages =
    arrived_on_in 1
    ∷ arrived_on_in 2
    ∷ arrived_on_in 3
    ∷ arrived_on_line 4
    ∷ end_transmission
    ∷ arrived_on_in 5
    ∷ []

transmitted_first : transmitted (run messages start).0 ≡ 1 ∷ 2 ∷ []
unfolding run
transmitted_first = refl

run-admitted_example :
    (transmitted (run messages start).0 ++ (run messages start).1.queue
      ≡ start.queue ++ admitted start.frame_capacity (load_of start) messages)
    × (passed_up (run messages start).0 ≡ from_line messages)
    × IsSound (run messages start).1
run-admitted_example = run-admitted messages start (idle (pos 1))
