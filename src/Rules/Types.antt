-- ===== src/Rules/Types.antt =====
-- quisp/rules/{Clause,Condition,Action,Rule,RuleSet}.h: the data of rule sets. A unique_ptr to an
-- object is the object; a pointer to a stationary qubit is its number in the store of qubits. The
-- fields that nothing reads are left out.
use quisp.Prelude.{ℕ, ◌-◌, ◌%◌, ltb, ℤ, pos, negsuc, Bool, if◌then◌else◌, List}
use quisp.Network.{QnicType}

-- std::multimap<int, StationaryQubit*>
abbrev pub Resources : Type 0
Resources = List (ℤ × ℕ)

pub data Clause : Type 0 where
  enough_resource : (partner num_resource_required : ℤ) → Clause
  enough_resource_left : (partner_left num_resource_required_left : ℤ) → Clause
  enough_resource_right : (partner_right num_resource_required_right : ℤ) → Clause
  no_clause : Clause
  measure_count : (max_count current_count : ℤ) → Clause

pub record SwappingAction : Type 0 where
  pub ruleset_id : ℕ
  pub rule_id : ℤ
  pub left_partner : ℤ
  pub left_qnic_type : QnicType
  pub left_qnic_id : ℤ
  pub left_qnic_address : ℤ
  pub left_resource : ℤ
  pub right_partner : ℤ
  pub right_qnic_type : QnicType
  pub right_qnic_id : ℤ
  pub right_qnic_address : ℤ
  pub right_resource : ℤ
  pub action_index : ℤ
  pub self_left_qnic_id : ℤ
  pub self_left_qnic_type : QnicType
  pub self_right_qnic_id : ℤ
  pub self_right_qnic_type : QnicType

pub record PurifyAction : Type 0 where
  pub ruleset_id : ℕ
  pub rule_id : ℤ
  pub partner : ℤ
  pub qnic_type : QnicType
  pub qnic_id : ℤ
  pub resource : ℤ
  pub trash_resource : ℤ
  pub x : Bool
  pub z : Bool
  pub action_index : ℤ

-- DoublePurifyAction, DoublePurifyActionInv, DoubleSelectionAction and DoubleSelectionActionInv,
-- which differ in their `run` alone.
pub record DoubleAction : Type 0 where
  pub ruleset_id : ℕ
  pub rule_id : ℤ
  pub partner : ℤ
  pub qnic_type : QnicType
  pub qnic_id : ℤ
  pub resource : ℤ
  pub trash_resource_x : ℤ
  pub trash_resource_z : ℤ
  pub action_index : ℤ

-- The DoubleSelectionDualAction classes. The second forms have one of the last two resources only.
pub record DualAction : Type 0 where
  pub ruleset_id : ℕ
  pub rule_id : ℤ
  pub partner : ℤ
  pub qnic_type : QnicType
  pub qnic_id : ℤ
  pub resource : ℤ
  pub trash_resource_x : ℤ
  pub trash_resource_z : ℤ
  pub ds_trash_resource_x : ℤ
  pub ds_trash_resource_z : ℤ
  pub action_index : ℤ

pub record RandomMeasureAction : Type 0 where
  pub partner : ℤ
  pub qnic_type : QnicType
  pub qnic_id : ℤ
  pub resource : ℤ
  pub src : ℤ
  pub dst : ℤ
  pub current_count : ℤ
  pub max_count : ℤ

pub data Action : Type 0 where
  swapping : SwappingAction → Action
  purify : PurifyAction → Action
  double_purify double_purify_inv double_selection double_selection_inv : DoubleAction → Action
  dual dual_inv dual_second dual_second_inv : DualAction → Action
  random_measure : RandomMeasureAction → Action

-- The `int` that an unsigned long becomes.
abbrev pub as_int : ℕ → ℤ
as_int n =
    let low = n % 4294967296 in if ltb low 2147483648 then pos low else negsuc (4294967295 - low)

-- The id of the rule set is an unsigned long elsewhere, and an `int` here.
pub record Rule : Type 0 where
  pub ruleset_id : ℤ
  pub rule_index : ℤ
  pub condition : List Clause
  pub action : Action
  pub resources : Resources

-- The pointers of `entangled_partner_rule` are positions in the list of rules.
pub record RuleSet : Type 0 where
  pub owner : ℤ
  pub entangled_partner : List ℤ
  pub entangled_partner_rule : List ℕ
  pub ruleset_id : ℕ
  pub rules : List Rule
