-- ===== src/Engine/Agreement.antt =====
-- quisp/modules/RuleEngine.cc: what happens to a locked resource when the results of a purification
-- at both ends have arrived. The tables of results are multimaps from an `int`, so the key is the
-- id of the rule set without its upper half; the results of one key are in the order of arrival.
pub mod Results
use Prim.Native.Nat.{◌%◌}
use quisp.Prelude.{
  ℕ, ℤ, ◌==ℤ◌, ◌==◌, ◌==ᵇ◌, Bool, true, false, ◌&&◌, not, if◌then◌else◌, List, [], ◌∷◌, ◌++◌,
  Option, none, some, Result, ok, err, ◌>>=◌, insert_multi, rule_at_end, upgrade_not_found,
  discard_not_found,
}
use quisp.Rules.Types.{Resources, Rule, RuleSet}
use quisp.Qubits.{World, Qubit, update, unlock}
use quisp.Engine.{Engine, free_consumed_resource}
use quisp.Engine.Unlock.{
  ProcessId, Node, unlock_resource_and_upgrade_stage, unlock_resource_and_discard,
}

pub record PurificationResult : Type 0 where
  pub id : ProcessId
  pub outcome : Bool

pub record DoublePurificationResult : Type 0 where
  pub id : ProcessId
  pub x_purification_outcome : Bool
  pub z_purification_outcome : Bool

pub record TriplePurificationResult : Type 0 where
  pub id : ProcessId
  pub x_purification_outcome : Bool
  pub z_purification_outcome : Bool
  pub ds_purification_outcome : Bool

pub record QuatroPurificationResult : Type 0 where
  pub id : ProcessId
  pub x_purification_outcome : Bool
  pub z_purification_outcome : Bool
  pub ds_x_purification_outcome : Bool
  pub ds_z_purification_outcome : Bool

-- The key of a table.
abbrev pub key : ℕ → ℕ
key ruleset_id = ruleset_id % 4294967296

-- `ruleset_running`
unfoldable pub is_running : ℕ → List RuleSet → Bool
is_running ruleset_id [] = false
is_running ruleset_id (process ∷ rp) =
    if process.ruleset_id == ruleset_id then true else is_running ruleset_id rp

-- The result is stored under the same key for the same rule and index.
abbrev pub is_same_process : ProcessId → ProcessId → Bool
is_same_process a b =
    (key a.ruleset_id == key b.ruleset_id) && (a.rule_id ==ℤ b.rule_id) && (a.index ==ℤ b.index)

-- The four storeCheck functions, which differ in the kind of result: `id_of` is its id, and `agree`
-- compares the outcomes.
module _ {R : Type 0} (id_of : R → ProcessId) where
  unfoldable pub find_result : ProcessId → List R → Option R
  find_result id [] = none
  find_result id (r ∷ table) = if is_same_process (id_of r) id then some r else find_result id table

  unfoldable pub erase_result : ProcessId → List R → List R
  erase_result id [] = []
  erase_result id (r ∷ table) =
      if is_same_process (id_of r) id then table else r ∷ erase_result id table

module _ {R : Type 0} (id_of : R → ProcessId) (agree : R → R → Bool) where
  -- What the two results decide.
  unfoldable pub decide : R → R → Node → Result Node
  unfolding unlock_resource_and_upgrade_stage unlock_resource_and_discard
  decide stored pr n =
      if agree stored pr
      then unlock_resource_and_upgrade_stage (id_of pr) n
      else unlock_resource_and_discard (id_of pr) n

  unfoldable pub store_check : R → List R × Node → Result (List R × Node)
  unfolding find_result erase_result decide is_running
  store_check pr (table, n) =
      let found : Result (List R × Node) = elim (find_result id_of (id_of pr) table) [
        | none ↦ ok (table ++ pr ∷ [], n)
        | some stored ↦ do n' ← decide stored pr n; ok (erase_result id_of (id_of pr) table, n')
      ] in
      if is_running (id_of pr).ruleset_id n.rp then found else ok (table, n)

abbrev pub agree_single : PurificationResult → PurificationResult → Bool
agree_single a b = a.outcome ==ᵇ b.outcome

abbrev pub agree_double : DoublePurificationResult → DoublePurificationResult → Bool
agree_double a b =
    (a.x_purification_outcome ==ᵇ b.x_purification_outcome)
    && (a.z_purification_outcome ==ᵇ b.z_purification_outcome)

abbrev pub agree_triple : TriplePurificationResult → TriplePurificationResult → Bool
agree_triple a b =
    (a.x_purification_outcome ==ᵇ b.x_purification_outcome)
    && (a.z_purification_outcome ==ᵇ b.z_purification_outcome)
    && (a.ds_purification_outcome ==ᵇ b.ds_purification_outcome)

abbrev pub agree_quatro : QuatroPurificationResult → QuatroPurificationResult → Bool
agree_quatro a b =
    (a.x_purification_outcome ==ᵇ b.x_purification_outcome)
    && (a.z_purification_outcome ==ᵇ b.z_purification_outcome)
    && (a.ds_z_purification_outcome ==ᵇ b.ds_z_purification_outcome)
    && (a.ds_x_purification_outcome ==ᵇ b.ds_x_purification_outcome)

unfoldable pub store_check_purification_agreement :
    PurificationResult → List PurificationResult × Node → Result (List PurificationResult × Node)
unfolding store_check
store_check_purification_agreement = store_check (λ r. r.id) agree_single

unfoldable pub store_check_double_purification_agreement :
    DoublePurificationResult
    → List DoublePurificationResult × Node
    → Result (List DoublePurificationResult × Node)
unfolding store_check
store_check_double_purification_agreement = store_check (λ r. r.id) agree_double

unfoldable pub store_check_triple_purification_agreement :
    TriplePurificationResult
    → List TriplePurificationResult × Node
    → Result (List TriplePurificationResult × Node)
unfolding store_check
store_check_triple_purification_agreement = store_check (λ r. r.id) agree_triple

unfoldable pub store_check_quatro_purification_agreement :
    QuatroPurificationResult
    → List QuatroPurificationResult × Node
    → Result (List QuatroPurificationResult × Node)
unfolding store_check
store_check_quatro_purification_agreement = store_check (λ r. r.id) agree_quatro
