-- ===== src/Engine/Unlock.antt =====
-- quisp/modules/RuleEngine.cc: what becomes of a resource that a purification has locked. It moves on
-- to the next rule, or is discarded.
pub mod Upgrade
use Prim.Native.Nat.{◌%◌}
use quisp.Prelude.{
  ℕ, ℤ, ◌==ℤ◌, ◌==◌, ◌==ᵇ◌, Bool, true, false, ◌&&◌, not, if◌then◌else◌, List, [], ◌∷◌, ◌++◌,
  Option, none, some, Result, ok, err, ◌>>=◌, insert_multi, rule_at_end, upgrade_not_found,
  discard_not_found,
}
use quisp.Rules.Types.{Resources, Rule, RuleSet}
use quisp.Qubits.{World, Qubit, update, unlock}
use quisp.Engine.{Engine, free_consumed_resource}

pub record ProcessId : Type 0 where
  pub ruleset_id : ℕ
  pub rule_id : ℤ
  pub index : ℤ

-- The engine and its running processes, in the order of their keys.
pub record Node : Type 0 where
  pub engine : Engine
  pub rp : List RuleSet

-- The first resource locked with the index of an action, and the others.
unfoldable pub find_action : World → ℤ → Resources → Option ℕ
find_action w index [] = none
find_action w index ((a, q) ∷ r) =
    if (w.qubits q).action_index ==ℤ index then some q else find_action w index r

unfoldable pub erase_action : World → ℤ → Resources → Resources
erase_action w index [] = []
erase_action w index ((a, q) ∷ r) =
    if (w.qubits q).action_index ==ℤ index then r else (a, q) ∷ erase_action w index r

-- Rule::addResource
unfoldable pub add_resource : ℤ → ℕ → Rule → Rule
unfolding insert_multi
add_resource a q rule = record rule { resources = insert_multi a q rule.resources }

-- `rule++`, with the resource added to the rule that comes next.
unfoldable pub hand_on : ℤ → ℕ → List Rule → Result (List Rule)
unfolding add_resource
hand_on a q [] = err rule_at_end
hand_on a q (rule ∷ rules) = ok (add_resource a q rule ∷ rules)

-- The rules after one that was passed over.
keep : Rule → Option (Result (ℕ × List Rule)) → Option (Result (ℕ × List Rule))
keep rule none = none
keep rule (some (ok (q, rules))) = some (ok (q, rule ∷ rules))
keep rule (some (err e)) = some (err e)

-- The resource goes from a rule to the next one.
unfoldable pub move_on : World → (index address : ℤ) → ℕ → Rule → List Rule → Result (ℕ × List Rule)
unfolding erase_action hand_on
move_on w index address q rule rules = do
  rules' ← hand_on address q rules
  ok (q, record rule { resources = erase_action w index rule.resources } ∷ rules')

-- The two inner loops of Unlock_resource_and_upgrade_stage: the qubit and the rules afterwards.
unfoldable pub upgrade_rules :
    World → (rule_id index address : ℤ) → List Rule → Option (Result (ℕ × List Rule))
unfolding find_action move_on keep
upgrade_rules w rule_id index address [] = none
upgrade_rules w rule_id index address (rule ∷ rules) =
    let later = keep rule (upgrade_rules w rule_id index address rules) in
    let here : Option (Result (ℕ × List Rule)) = elim (find_action w index rule.resources) [
      | none ↦ later
      | some q ↦ some (move_on w index address q rule rules)
    ] in
    if rule.rule_index ==ℤ rule_id then here else later

-- The loop over the partners of the rule set.
unfoldable pub upgrade_partners :
    World → (rule_id index : ℤ) → List ℤ → List Rule → Option (Result (ℕ × List Rule))
unfolding upgrade_rules
upgrade_partners w rule_id index [] rules = none
upgrade_partners w rule_id index (address ∷ partners) rules =
    let later = upgrade_partners w rule_id index partners rules in
    elim (upgrade_rules w rule_id index address rules) [ none ↦ later | some r ↦ some r ]

-- Unlock_resource_and_upgrade_stage
unfoldable pub upgrade_from : World → ProcessId → List RuleSet → Result (ℕ × List RuleSet)
unfolding upgrade_partners
upgrade_from w id [] = err upgrade_not_found
upgrade_from w id (process ∷ rp) =
    let later : Result (ℕ × List RuleSet) = do
      (q, rp') ← upgrade_from w id rp
      ok (q, process ∷ rp')
    in let here : Result (ℕ × List RuleSet) =
        elim (upgrade_partners w id.rule_id id.index process.entangled_partner process.rules) [
          | none ↦ later
          | some r ↦ do (q, rules) ← r; ok (q, record process { rules = rules } ∷ rp)
        ] in
      if process.ruleset_id == id.ruleset_id then here else later

unfoldable pub unlock_resource_and_upgrade_stage : ProcessId → Node → Result Node
unfolding upgrade_from unlock
unlock_resource_and_upgrade_stage id n = do
  let w = n.engine.world
  (q, rp) ← upgrade_from w id n.rp
  ok (record { engine = record n.engine { world = unlock q w }; rp = rp })

-- The two inner loops of Unlock_resource_and_discard.
unfoldable pub discard_rules : World → (rule_id index : ℤ) → List Rule → Option (ℕ × List Rule)
unfolding find_action erase_action
discard_rules w rule_id index [] = none
discard_rules w rule_id index (rule ∷ rules) =
    let later : Option (ℕ × List Rule) = elim (discard_rules w rule_id index rules) [
      | none ↦ none
      | some (q, rules') ↦ some (q, rule ∷ rules')
    ] in
    let here : Option (ℕ × List Rule) = elim (find_action w index rule.resources) [
      | none ↦ later
      | some q ↦ some (q, record rule { resources = erase_action w index rule.resources } ∷ rules)
    ] in
    if rule.rule_index ==ℤ rule_id then here else later

unfoldable pub discard_from : World → ProcessId → List RuleSet → Result (ℕ × List RuleSet)
unfolding discard_rules
discard_from w id [] = err discard_not_found
discard_from w id (process ∷ rp) =
    let later : Result (ℕ × List RuleSet) = do
      (q, rp') ← discard_from w id rp
      ok (q, process ∷ rp')
    in let here : Result (ℕ × List RuleSet) =
        elim (discard_rules w id.rule_id id.index process.rules) [
          | none ↦ later
          | some (q, rules) ↦ ok (q, record process { rules = rules } ∷ rp)
        ] in
      if process.ruleset_id == id.ruleset_id then here else later

abbrev without_pauli : Qubit → Qubit
without_pauli q = record q { god_x_error = false; god_z_error = false }

-- Unlock_resource_and_discard
unfoldable pub unlock_resource_and_discard : ProcessId → Node → Result Node
unfolding discard_from free_consumed_resource
unlock_resource_and_discard id n = do
  let w = n.engine.world
  (q, rp) ← discard_from w id n.rp
  e ←
      free_consumed_resource (w.qubits q).qnic_index q (w.qubits q).qnic_type
        (record n.engine { world = update q without_pauli w })
  ok (record { engine = e; rp = rp })
