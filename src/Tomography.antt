-- ===== src/Tomography.antt =====
-- quisp/modules/HardwareMonitor.cc, sendLinkTomographyRuleSet: the rule sets that purify the pairs of
-- a link and then measure them. The packet that takes the rule set to the rule engine is left out.
pub mod Rounds
mod Tests
use quisp.Prelude.{
  ℕ, zero, suc, ◌+◌, ◌%◌, ℤ, pos, pos_part, suc_ℤ, ltb_ℤ, ◌==◌, Bool, true, false, not, ◌&&◌, ◌||◌,
  if◌then◌else◌, List, [], ◌∷◌, ◌++◌, Result, ok, err, ◌>>=◌, unknown_purification,
}
use quisp.Network.{QnicType}
use quisp.Rules.Types.{
  Clause, enough_resource, measure_count, Action, purify, double_purify, double_purify_inv,
  double_selection, double_selection_inv, dual, dual_inv, dual_second, dual_second_inv,
  random_measure, PurifyAction, DoubleAction, DualAction, as_int, Rule, RuleSet,
}

-- The arguments of the call, and the parameters of the hardware monitor.
pub record Request : Type 0 where
  pub ruleset_id : ℕ
  pub my_address : ℤ
  pub partner_address : ℤ
  pub qnic_type : QnicType
  pub qnic_index : ℤ
  pub num_purification : ℤ
  pub purification_type : ℕ
  pub x_purification : Bool
  pub z_purification : Bool
  pub num_measure : ℤ

-- A rule, its condition and its action. The resources of an action are those with the first indices.
abbrev rule_of : Request → (rule_index : ℤ) → List Clause → Action → Rule
rule_of r rule_index condition action = record {
  ruleset_id = as_int r.ruleset_id;
  rule_index = rule_index;
  condition = condition;
  action = action;
  resources = [];
}

abbrev enough : Request → ℤ → List Clause
enough r n = enough_resource r.partner_address n ∷ []

abbrev purify_rule : Request → (x z : Bool) → (rule_index : ℤ) → Rule
purify_rule r x z rule_index = rule_of r rule_index (enough r (pos 2)) (
    purify (record {
      ruleset_id = r.ruleset_id;
      rule_id = rule_index;
      partner = r.partner_address;
      qnic_type = r.qnic_type;
      qnic_id = r.qnic_index;
      resource = pos 0;
      trash_resource = pos 1;
      x = x;
      z = z;
      action_index = pos 0;
    }))

abbrev double_action : Request → (rule_index : ℤ) → DoubleAction
double_action r rule_index = record {
  ruleset_id = r.ruleset_id;
  rule_id = rule_index;
  partner = r.partner_address;
  qnic_type = r.qnic_type;
  qnic_id = r.qnic_index;
  resource = pos 0;
  trash_resource_x = pos 1;
  trash_resource_z = pos 2;
  action_index = pos 0;
}

abbrev double_rule : Request → (DoubleAction → Action) → (rule_index : ℤ) → Rule
double_rule r kind rule_index =
    rule_of r rule_index (enough r (pos 3)) (kind (double_action r rule_index))

abbrev dual_action : Request → (ds_x ds_z rule_index : ℤ) → DualAction
dual_action r ds_x ds_z rule_index = record {
  ruleset_id = r.ruleset_id;
  rule_id = rule_index;
  partner = r.partner_address;
  qnic_type = r.qnic_type;
  qnic_id = r.qnic_index;
  resource = pos 0;
  trash_resource_x = pos 1;
  trash_resource_z = pos 2;
  ds_trash_resource_x = ds_x;
  ds_trash_resource_z = ds_z;
  action_index = pos 0;
}

abbrev dual_rule : Request → (DualAction → Action) → (rule_index : ℤ) → Rule
dual_rule r kind rule_index =
    rule_of r rule_index (enough r (pos 5)) (kind (dual_action r (pos 3) (pos 4) rule_index))

-- The second forms have one further resource, at index 3.
abbrev dual_second_rule : Request → (DualAction → Action) → (rule_index : ℤ) → Rule
dual_second_rule r kind rule_index =
    rule_of r rule_index (enough r (pos 4)) (kind (dual_action r (pos 3) (pos 3) rule_index))

-- `for (int i = 0; i < count; i++)` with `rule_index++` after each rule, and the rules after it.
pub repeat : (even odd : ℤ → Rule) → (i count : ℕ) → (rule_index : ℤ) → (ℤ → List Rule) → List Rule
repeat even odd i zero rule_index rest = rest rule_index
repeat even odd i (suc count) rule_index rest =
    (if i % 2 == 0 then even rule_index else odd rule_index)
    ∷ repeat even odd (i + 1) count (suc_ℤ rule_index) rest

-- The same with both rules in each round.
pub repeat_both :
    (first second : ℤ → Rule) → (count : ℕ) → (rule_index : ℤ) → (ℤ → List Rule) → List Rule
repeat_both first second zero rule_index rest = rest rule_index
repeat_both first second (suc count) rule_index rest =
    first rule_index
    ∷ second (suc_ℤ rule_index)
    ∷ repeat_both first second count (suc_ℤ (suc_ℤ rule_index)) rest

abbrev measure_rule : Request → List Clause → (rule_index : ℤ) → Rule
measure_rule r more rule_index = rule_of r rule_index (measure_count r.num_measure (pos 0) ∷ more) (
    random_measure (record {
      partner = r.partner_address;
      qnic_type = r.qnic_type;
      qnic_id = r.qnic_index;
      resource = pos 0;
      src = r.my_address;
      dst = r.partner_address;
      current_count = pos 0;
      max_count = r.num_measure;
    }))

abbrev x_rule : Request → ℤ → Rule
x_rule r = purify_rule r true false

abbrev z_rule : Request → ℤ → Rule
z_rule r = purify_rule r false true

-- The chain of purification types.
unfoldable pub purified_rules : Request → (ℤ → List Rule) → Result (List Rule)
unfolding repeat repeat_both
purified_rules r rest =
    let type = r.purification_type in
    let n = pos_part r.num_purification in
    let start = pos 0 in
    if type == 2002
    then ok (repeat_both (x_rule r) (z_rule r) n start rest)
    else if type == 3003
    then ok (repeat (x_rule r) (z_rule r) 0 n start rest)
    else if type == 1001
    then ok (repeat (double_rule r double_purify) (double_rule r double_purify) 0 n start rest)
    else if type == 1221
    then ok (repeat (double_rule r double_purify) (double_rule r double_purify_inv) 0 n start rest)
    else if type == 1011
    then ok
        (repeat (double_rule r double_selection) (double_rule r double_selection) 0 n start rest)
    else if type == 1021
    then ok (
        repeat (double_rule r double_selection) (double_rule r double_selection_inv) 0 n start rest)
    else if type == 1031
    then ok (repeat (dual_rule r dual) (dual_rule r dual_inv) 0 n start rest)
    else if type == 1061
    then ok (
        repeat (dual_second_rule r dual_second) (dual_second_rule r dual_second_inv) 0 n start rest)
    else if type == 5555
    then ok (
        repeat (double_rule r double_selection) (double_rule r double_selection_inv) 0 2 start
          (λ index. repeat (x_rule r) (z_rule r) 0 n index rest))
    else if type == 5556
    then ok
        (double_rule r double_selection start ∷ repeat (z_rule r) (x_rule r) 0 n (suc_ℤ start) rest)
    else if (r.x_purification && not r.z_purification) || (not r.x_purification && r.z_purification)
    then ok (purify_rule r r.x_purification r.z_purification start ∷ rest (suc_ℤ start))
    else err unknown_purification

-- sendLinkTomographyRuleSet. After purifications the measuring rule asks for no resource.
unfoldable pub link_tomography_rule_set : Request → Result RuleSet
unfolding purified_rules
link_tomography_rule_set r = do
  rules ←
      (if ltb_ℤ (pos 0) r.num_purification
        then purified_rules r (λ index. measure_rule r [] index ∷ [])
        else ok (measure_rule r (enough r (pos 1)) (pos 0) ∷ []))
  ok (record {
    owner = r.my_address;
    entangled_partner = r.partner_address ∷ [];
    entangled_partner_rule = [];
    ruleset_id = r.ruleset_id;
    rules = rules;
  })
