-- ===== src/Engine/Tests.antt =====
-- A node with the pairs of Qubits/Tests.antt in a rule that purifies, and a rule behind it.
use quisp.Prelude.{
  ℕ, ℤ, pos, Bool, true, false, List, [], ◌∷◌, Option, none, some, Result, ok, err, ◌≡◌, refl,
}
use quisp.Network.{qnic_e}
use quisp.Rules.Types.{Resources, PurifyAction, Rule, purify}
use quisp.Qubits.{World, update}
use quisp.Qubits.Symmetry.{IsWired}
use quisp.Qubits.Tests.{world, world-IsWired}
use quisp.Engine.{Engine}
use quisp.Engine.Actions.{Run, ActionPacket, run_purify, must_differ}
use quisp.Engine.Actions.Purify.{run_purify-IsWired}
use quisp.Engine.Unlock.{ProcessId, Node, upgrade_rules, upgrade_partners}
use quisp.Engine.Agreement.{
  PurificationResult, QuatroPurificationResult, decide, find_result, agree_single, is_running,
  store_check_purification_agreement,
}
use quisp.Engine.Agreement.Results.{IsOrderless, store_check_purification_agreement-order}
use quisp.Engine.Unlock.Upgrade.{all_copies, upgrade_rules-copies, upgrade_partners-first}

abbrev index_of_address : ℤ → Option ℕ
index_of_address (pos n) = some n
index_of_address _ = none

abbrev engine : World → Engine
engine w = record {
  parent_address = pos 1;
  world = w;
  busy_or_free = λ t.
      record { qnic_index = pos 0; qubit_index = pos 0; is_busy = true }
      ∷ record { qnic_index = pos 0; qubit_index = pos 1; is_busy = true }
      ∷ [];
  all_resources = λ t i. (pos 4, 0) ∷ (pos 4, 1) ∷ [];
  stat_qubit = λ t i a. index_of_address a;
}

abbrev x_purification : PurifyAction
x_purification = record {
  ruleset_id = 9;
  rule_id = pos 0;
  partner = pos 4;
  qnic_type = qnic_e;
  qnic_id = pos 0;
  resource = pos 0;
  trash_resource = pos 1;
  x = true;
  z = false;
  action_index = pos 5;
}

abbrev start : Run
start = record { engine = engine (world 0); resources = (pos 4, 0) ∷ (pos 4, 1) ∷ [] }

abbrev run_of : Result (ActionPacket × PurifyAction × Run) → ActionPacket × PurifyAction × Run
run_of (ok r) = r
run_of (err e) = (must_differ, x_purification, start)

abbrev purified : ActionPacket × PurifyAction × Run
purified = run_of (run_purify x_purification start)

purified_runs : run_purify x_purification start ≡ ok purified
unfolding run_purify
purified_runs = refl

purified_left : purified.2.resources ≡ (pos 4, 0) ∷ []
unfolding run_purify
purified_left = refl

run_purify-IsWired_example : IsWired pos purified.2.engine.world
run_purify-IsWired_example =
    run_purify-IsWired x_purification start purified (refl, (refl, tt)) (world-IsWired 0)
      purified_runs

abbrev rule : ℤ → Resources → Rule
rule i r = record {
  ruleset_id = pos 9;
  rule_index = i;
  condition = [];
  action = purify x_purification;
  resources = r;
}

abbrev rules : List Rule
rules = rule (pos 0) ((pos 4, 0) ∷ []) ∷ rule (pos 1) [] ∷ []

-- Qubit 0 waits for the result of the action 5.
abbrev waiting : World
waiting = update 0 (λ q. record q { locked = true; action_index = pos 5 }) (world 0)

abbrev node : Node
node = record {
  engine = engine waiting;
  rp =
      record {
        owner = pos 1;
        entangled_partner = pos 4 ∷ pos 8 ∷ [];
        entangled_partner_rule = [];
        ruleset_id = 9;
        rules = rules;
      }
      ∷ [];
}

abbrev action_5 : ProcessId
action_5 = record { ruleset_id = 9; rule_id = pos 0; index = pos 5 }

abbrev single : Bool → PurificationResult
single b = record { id = action_5; outcome = b }

abbrev quatro : Bool → QuatroPurificationResult
quatro b = record {
  id = action_5;
  x_purification_outcome = true;
  z_purification_outcome = true;
  ds_x_purification_outcome = true;
  ds_z_purification_outcome = b;
}

node-is_running : is_running 9 node.rp ≡ true
unfolding is_running
node-is_running = refl

store_check_purification_agreement-order_example :
    IsOrderless store_check_purification_agreement
      (decide (λ r. r.id) agree_single (single true) (single true) node)
      []
      node
      (single true)
      (single true)
unfolding find_result
store_check_purification_agreement-order_example =
    store_check_purification_agreement-order (single true) (single true) [] node refl
      node-is_running refl

abbrev upgraded : ℕ × List Rule
upgraded = (0, rule (pos 0) [] ∷ rule (pos 1) ((pos 4, 0) ∷ []) ∷ [])

upgrade_runs : upgrade_rules waiting (pos 0) (pos 5) (pos 4) rules ≡ some (ok upgraded)
unfolding upgrade_rules
upgrade_runs = refl

upgrade_rules-copies_example : all_copies 0 upgraded.1 ≡ all_copies 0 rules
upgrade_rules-copies_example =
    upgrade_rules-copies 0 waiting (pos 0) (pos 5) (pos 4) rules upgraded upgrade_runs

upgrade_partners-first_example :
    upgrade_partners waiting (pos 0) (pos 5) (pos 8 ∷ pos 4 ∷ []) rules
    ≡ upgrade_rules waiting (pos 0) (pos 5) (pos 8) rules
upgrade_partners-first_example =
    upgrade_partners-first waiting (pos 0) (pos 5) (pos 8) (pos 4 ∷ []) rules
