-- ===== src/Engine/Actions/Tests.antt =====
-- A dual selection that is given the same pair as trash for X and as the further pair for Z.
use quisp.Prelude.{
  ℕ, ℤ, Option, some, none, pos, true, false, [], ◌∷◌, err, already_free, ◌≡◌, refl,
}
use quisp.Network.{qnic_e}
use quisp.Rules.Types.{Resources, DualAction}
use quisp.Slots.{QubitState}
use quisp.Qubits.Tests.{world}
use quisp.Engine.Actions.{Run}
use quisp.Engine.Actions.Duals.{run_dual}

abbrev four_pairs : Resources
four_pairs = (pos 4, 0) ∷ (pos 4, 1) ∷ (pos 4, 2) ∷ (pos 4, 3) ∷ []

abbrev slot : ℕ → QubitState
slot n = record { qnic_index = pos 0; qubit_index = pos n; is_busy = true }

abbrev start : Run
start = record {
  engine = record {
    parent_address = pos 1;
    world = world 0;
    busy_or_free = λ t. slot 0 ∷ slot 1 ∷ slot 2 ∷ slot 3 ∷ [];
    all_resources = λ t i. four_pairs;
    stat_qubit = λ t i a. index_of_address a;
  };
  resources = four_pairs;
}
  where
    index_of_address : ℤ → Option ℕ
    index_of_address (pos n) = some n
    index_of_address _ = none

abbrev twice_used : DualAction
twice_used = record {
  ruleset_id = 9;
  rule_id = pos 0;
  partner = pos 4;
  qnic_type = qnic_e;
  qnic_id = pos 0;
  resource = pos 0;
  trash_resource_x = pos 1;
  trash_resource_z = pos 2;
  ds_trash_resource_x = pos 3;
  ds_trash_resource_z = pos 1;
  action_index = pos 5;
}

-- The pair is freed twice, which stops the run.
twice_used_runs : run_dual false twice_used start ≡ err already_free
unfolding run_dual
twice_used_runs = refl
