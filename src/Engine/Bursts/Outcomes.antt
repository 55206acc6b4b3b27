-- ===== src/Engine/Bursts/Outcomes.antt =====
-- What the results of a burst do with the qubits that were sent (quisp/modules/RuleEngine.cc,
-- freeFailedQubits_and_AddAsResource).
use quisp.Prelude.{ℕ, ◌+◌, ℤ, Bool, List, All, length, Option, ◌≡◌}
use quisp.Network.{QnicType}
use quisp.Engine.{Engine}
use quisp.Engine.Bursts.{QubitAddr}
use quisp.Engine.Bursts.Shots.{failed_shots, entangled_shots, unlisted_shots, Tracks}
use quisp.Engine.Bursts.Sorting.{IsShot, Sorts, Finds}

module _ (type : QnicType) (qnic_index neighbor : ℤ) (find : ℤ → Option ℕ) where
  -- What the loop over the list leaves: the shots sorted as far as the list goes, and the others as
  -- they are tracked.
  record IsSorted (m : List (ℤ × QubitAddr)) (i : ℕ) (shots : List QubitAddr) (list : List Bool)
      (e e' : Engine) : Type 0 where
    sorts :
        Sorts type qnic_index neighbor find e e'
          (failed_shots shots list)
          (entangled_shots shots list)
    tracks : Tracks m (i + length list) (unlisted_shots shots list)
    size : length shots ≡ length list + length (unlisted_shots shots list)
    finds : Finds type qnic_index neighbor find e'
    in_table : All (IsShot type qnic_index e') (unlisted_shots shots list)
