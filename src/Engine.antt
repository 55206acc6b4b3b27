-- ===== src/Engine.antt =====
-- quisp/modules/RuleEngine.{h,cc} and RealTimeController.cc: the state of a node's engine that the
-- actions of rules touch. `stat_qubit` is the module tree of the simulator, which finds a qubit of
-- the node by the type and index of its qnic and its own index.
pub mod Actions
pub mod Unlock
pub mod Agreement
pub mod Bursts
pub mod Processes
pub mod Swapping
mod Tests
use quisp.Prelude.{
  ℕ, ℤ, ◌==ℤ◌, ◌==◌, Bool, true, false, ◌&&◌, if◌then◌else◌, List, [], ◌∷◌, Option, none, some,
  Result, ok, err, ◌>>=◌, ◌>>◌, fail_if, or_fail, no_such_module,
}
use quisp.Network.{QnicType, qnic_e, qnic_r, qnic_rp, qnic_n}
use quisp.Rules.Types.{Resources}
use quisp.Qubits.{World, set_free}
use quisp.Slots.{QubitStateTable, set_qubit_free_in_qnic}

pub record Engine : Type 0 where
  pub parent_address : ℤ
  pub world : World
  pub busy_or_free : QnicType → QubitStateTable
  pub all_resources : QnicType → ℤ → Resources
  pub stat_qubit : QnicType → ℤ → ℤ → Option ℕ

abbrev pub same_type : QnicType → QnicType → Bool
same_type qnic_e qnic_e = true
same_type qnic_r qnic_r = true
same_type qnic_rp qnic_rp = true
same_type qnic_n qnic_n = true
same_type _ _ = false

-- RealTimeController::ReInitialize_StationaryQubit
unfoldable pub re_initialize_stationary_qubit :
    (qnic_index qubit_index : ℤ) → QnicType → Engine → Result Engine
unfolding set_free
re_initialize_stationary_qubit qnic_index qubit_index qnic_type e = do
  fail_if (same_type qnic_type qnic_n) no_such_module
  q ← or_fail (e.stat_qubit qnic_type qnic_index qubit_index) no_such_module
  ok (record e { world = set_free q e.world })

-- The first entry with the qubit is erased. This is also removeResource_fromRule
-- (quisp/rules/Action.cc).
unfoldable pub remove_resource : ℕ → Resources → Resources
remove_resource q [] = []
remove_resource q ((a, q') ∷ resources) =
    if q' == q then resources else (a, q') ∷ remove_resource q resources

-- freeConsumedResource
unfoldable pub free_consumed_resource :
    (qnic_index : ℤ) (qubit : ℕ) → QnicType → Engine → Result Engine
unfolding re_initialize_stationary_qubit set_qubit_free_in_qnic remove_resource
free_consumed_resource qnic_index qubit qnic_type e = do
  let address = (e.world.qubits qubit).stationary_qubit_address
  e1 ← re_initialize_stationary_qubit qnic_index address qnic_type e
  table ← set_qubit_free_in_qnic (e1.busy_or_free qnic_type) qnic_index address
  ok (record e1 {
    busy_or_free = λ t. if same_type t qnic_type then table else e1.busy_or_free t;
    all_resources = λ t i.
        if same_type t qnic_type && (i ==ℤ qnic_index)
        then remove_resource qubit (e1.all_resources t i)
        else e1.all_resources t i;
  })
