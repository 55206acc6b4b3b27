-- ===== src/Engine/Swapping.antt =====
-- Entanglement swapping: SwappingAction::run of quisp/rules/Action.cc at the node in the middle, the
-- two packets that traverseThroughAllProcesses2 makes of its result, and
-- updateResources_EntanglementSwapping of quisp/modules/RuleEngine.cc at the two ends.
pub mod Outcome
pub mod Filing
mod Tests
use quisp.Prelude.{
  ℕ, zero, suc, ℤ, pos, ltb_ℤ, ◌==◌, Bool, true, false, not, ◌&&◌, ◌||◌, if◌then◌else◌, List,
  Option, none, some, Result, ok, err, ◌>>=◌, ◌>>◌, or_fail, null_pointer, no_such_module,
  operation_not_recorded,
}
use quisp.Network.{
  QnicType, QnicId, InterfaceInf, return_setup_inf, return_qnic_address_to_dest_addr,
}
use quisp.Rules.Types.{SwappingAction}
use quisp.Qubits.{Qubit, World, update, is_locked, set_entangled_partner_info}
use quisp.Qubits.Gates.{hadamard_gate, cnot_gate, measure_z, x_gate, z_gate}
use quisp.Engine.{Engine, remove_resource}
use quisp.Engine.Actions.{Run, get_resource_from_top_with_partner}
use quisp.Engine.Bursts.{QubitAddr, add_as_resource}

-- What the packet says to one of the two ends.
pub record SwappingResult : Type 0 where
  pub dest : ℤ
  pub operation_type : ℕ
  pub measured_qubit_index : ℤ
  pub new_partner : ℤ
  pub new_partner_qnic_index : ℤ
  pub new_partner_qnic_type : QnicType
  pub new_partner_qnic_address : ℤ

-- The packet of the action: two errors, or the result for the left end and that for the right one.
pub data SwappingPacket : Type 0 where
  resource_missing qnics_missing : SwappingPacket
  swapping_result :
      (ruleset_id : ℕ) (rule_id action_index : ℤ) (left right : SwappingResult) → SwappingPacket

abbrev pub idle : Qubit → Qubit
idle q = record q { is_busy = false }

abbrev pub operation_type_left : (left_measure : Bool) → ℕ
operation_type_left left_measure = if left_measure then 2 else 0

abbrev pub operation_type_right : (right_measure : Bool) → ℕ
operation_type_right right_measure = if right_measure then 1 else 0

-- The gates and the measurements of the swap.
unfoldable pub bell_measurement : (left right : ℕ) → World → Bool × Bool × World
unfolding hadamard_gate cnot_gate measure_z
bell_measurement left right w =
    let (left_measure, w1) = measure_z left (cnot_gate right left (hadamard_gate left w)) in
    let (right_measure, w2) = measure_z right w1 in (left_measure, right_measure, w2)

-- What follows the measurements. `std::rand() / RAND_MAX` divides integers: it is 0, and 1 where the
-- random number is RAND_MAX.
unfoldable pub swap_after :
    (rand_is_max : Bool)
    → SwappingAction
    → Run
    → (left right left_partner right_partner : ℕ) → Bool × Bool × World
    → SwappingPacket × Run
unfolding set_entangled_partner_info remove_resource
swap_after rand_is_max a s left right left_partner right_partner (left_measure, right_measure, w1) =
    let w = s.engine.world in
    let w2 =
      if rand_is_max
      then update right_partner idle (update left_partner idle w1)
      else set_entangled_partner_info left_partner right_partner
          (set_entangled_partner_info right_partner left_partner w1) in
    let for_left : SwappingResult = record {
      dest = a.left_partner;
      operation_type = operation_type_left left_measure;
      measured_qubit_index = (w.qubits left_partner).stationary_qubit_address;
      new_partner = a.right_partner;
      new_partner_qnic_index = a.right_qnic_id;
      new_partner_qnic_type = a.right_qnic_type;
      new_partner_qnic_address = a.right_qnic_address;
    } in
    let for_right : SwappingResult = record {
      dest = a.right_partner;
      operation_type = operation_type_right right_measure;
      measured_qubit_index = (w.qubits right_partner).stationary_qubit_address;
      new_partner = a.left_partner;
      new_partner_qnic_index = a.left_qnic_id;
      new_partner_qnic_type = a.left_qnic_type;
      new_partner_qnic_address = a.left_qnic_address;
    } in
    (
      swapping_result a.ruleset_id a.rule_id a.action_index for_left for_right,
      record {
        engine = record s.engine { world = update right idle (update left idle w2) };
        resources = remove_resource right (remove_resource left s.resources);
      },
    )

-- SwappingAction::run, once the two qubits are known.
unfoldable pub swap_with :
    (rand_is_max : Bool) → SwappingAction → Run → (left right : ℕ) → Result (SwappingPacket × Run)
unfolding bell_measurement swap_after
swap_with rand_is_max a s left right = do
  let w = s.engine.world
  right_partner ← or_fail (w.qubits right).entangled_partner null_pointer
  left_partner ← or_fail (w.qubits left).entangled_partner null_pointer
  ok (
      swap_after rand_is_max a s left right left_partner right_partner
        (bell_measurement left right w))

-- SwappingAction::run
unfoldable pub run_swapping :
    (rand_is_max : Bool) → SwappingAction → Run → Result (SwappingPacket × Run)
unfolding swap_with get_resource_from_top_with_partner
run_swapping rand_is_max a s =
    let locked = is_locked s.engine.world in
    let left =
      get_resource_from_top_with_partner a.left_resource a.left_partner locked s.resources in
    let right =
      get_resource_from_top_with_partner a.right_resource a.right_partner locked s.resources in
    elim left [
      | none ↦ ok (resource_missing, s)
      | some l ↦ elim right [
        | none ↦ ok (resource_missing, s)
        | some r ↦
            if ltb_ℤ a.left_qnic_id (pos 0) || ltb_ℤ a.right_qnic_id (pos 0)
            then ok (qnics_missing, s)
            else swap_with rand_is_max a s l r
      ]
    ]

-- The correction at one end.
unfoldable pub apply_operation : (operation_type qubit : ℕ) → World → Result World
unfolding x_gate z_gate
apply_operation operation_type qubit w =
    if operation_type == 0
    then ok w
    else if operation_type == 1
    then ok (x_gate qubit w)
    else if operation_type == 2
    then ok (z_gate qubit w)
    else err operation_not_recorded

-- updateResources_EntanglementSwapping up to the allocation of the resource, with the tables of the
-- routing daemon and the hardware monitor.
unfoldable pub update_resources :
    List (ℤ × QnicId) → List (ℤ × InterfaceInf) → SwappingResult → Engine → Result Engine
unfolding return_qnic_address_to_dest_addr return_setup_inf apply_operation add_as_resource
update_resources qrtable ntable swapr e = do
  let inf = return_setup_inf ntable (return_qnic_address_to_dest_addr qrtable swapr.new_partner)
  let addr : QubitAddr = record {
    qnic_index = inf.qnic.index;
    qubit_index = swapr.measured_qubit_index;
  }
  qubit ←
      or_fail (e.stat_qubit inf.qnic.type inf.qnic.index swapr.measured_qubit_index) no_such_module
  w ← apply_operation swapr.operation_type qubit e.world
  add_as_resource inf.qnic.type inf.qnic.index swapr.new_partner addr (record e { world = w })
