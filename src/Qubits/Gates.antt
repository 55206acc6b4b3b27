-- ===== src/Qubits/Gates.antt =====
-- quisp/modules/stationaryQubit.cc: the gates, measurements and purifications, which track how
-- Pauli errors spread, with the noise of the gates.
pub mod Parity
pub mod Pointers
use quisp.Prelude.{
  ℕ, ◌==◌, ltb, leb, Bool, true, false, not, ◌&&◌, if◌then◌else◌, Result, ok, ◌>>=◌,
}
use quisp.Qubits.{Qubit, World, GateError, TwoQubitGateError, update, draw}
use quisp.Qubits.Memory.{apply_memory_error}

-- addXerror
abbrev pub add_x_error : ℕ → World → World
add_x_error i w = update i (λ q. record q { god_x_error = not q.god_x_error }) w

-- addZerror
abbrev pub add_z_error : ℕ → World → World
add_z_error i w = update i (λ q. record q { god_z_error = not q.god_z_error }) w

-- `low < rand && rand <= high && low != high`
abbrev pub above : ℕ → ℕ → ℕ → Bool
above low rand high = ltb low rand && leb rand high && not (low == high)

pub single_error : ℕ → GateError → ℕ → World → World
single_error rand gate i w =
    if leb rand gate.no_error_ceil
    then w
    else if above gate.no_error_ceil rand gate.x_error_ceil
    then add_x_error i w
    else if above gate.x_error_ceil rand gate.z_error_ceil
    then add_z_error i w
    else add_x_error i (add_z_error i w)

unfoldable pub apply_single_qubit_gate_error : GateError → ℕ → World → World
unfolding single_error
apply_single_qubit_gate_error gate i w =
    let (rand, w') = draw w in if gate.pauli_error_rate == 0 then w else single_error rand gate i w'

pub two_error : ℕ → TwoQubitGateError → (first second : ℕ) → World → World
two_error rand gate first second w =
    if leb rand gate.no_error_ceil
    then w
    else if above gate.no_error_ceil rand gate.ix_error_ceil
    then add_x_error first w
    else if above gate.ix_error_ceil rand gate.xi_error_ceil
    then add_x_error second w
    else if above gate.xi_error_ceil rand gate.xx_error_ceil
    then add_x_error second (add_x_error first w)
    else if above gate.xx_error_ceil rand gate.iz_error_ceil
    then add_z_error first w
    else if above gate.iz_error_ceil rand gate.zi_error_ceil
    then add_z_error second w
    else if above gate.zi_error_ceil rand gate.zz_error_ceil
    then add_z_error second (add_z_error first w)
    else if above gate.zz_error_ceil rand gate.iy_error_ceil
    then add_z_error first (add_x_error first w)
    else if above gate.iy_error_ceil rand gate.yi_error_ceil
    then add_z_error second (add_x_error second w)
    else add_z_error second (add_x_error second (add_z_error first (add_x_error first w)))

unfoldable pub apply_two_qubit_gate_error : TwoQubitGateError → (first second : ℕ) → World → World
unfolding two_error
apply_two_qubit_gate_error gate first second w =
    let (rand, w') = draw w in
    if gate.pauli_error_rate == 0 then w else two_error rand gate first second w'

-- measure_Z
unfoldable pub measure_z : ℕ → World → Bool × World
unfolding apply_single_qubit_gate_error
measure_z i w =
    let w' = apply_single_qubit_gate_error (w.qubits i).measurement_error i w in
    (not (w'.qubits i).god_x_error, w')

abbrev pub exchanged : Qubit → Qubit
exchanged q = record q { god_x_error = q.god_z_error; god_z_error = q.god_x_error }

-- Hadamard_gate
unfoldable pub hadamard_gate : ℕ → World → World
unfolding apply_single_qubit_gate_error
hadamard_gate i w = update i exchanged (apply_single_qubit_gate_error (w.qubits i).hgate_error i w)

-- Z_gate
unfoldable pub z_gate : ℕ → World → World
unfolding apply_single_qubit_gate_error
z_gate i w = add_z_error i (apply_single_qubit_gate_error (w.qubits i).zgate_error i w)

-- X_gate
unfoldable pub x_gate : ℕ → World → World
unfolding apply_single_qubit_gate_error
x_gate i w = add_x_error i (apply_single_qubit_gate_error (w.qubits i).xgate_error i w)

-- CNOT_gate, called on the target
unfoldable pub cnot_gate : (target control : ℕ) → World → World
unfolding apply_two_qubit_gate_error
cnot_gate target control w =
    let w1 = apply_two_qubit_gate_error (w.qubits target).cnot_gate_error target control w in
    let w2 = if (w1.qubits control).god_x_error then add_x_error target w1 else w1 in
    if (w2.qubits target).god_z_error then add_z_error control w2 else w2

-- Xpurify, called on `self`
unfoldable pub xpurify : (self resource_qubit : ℕ) → World → Result (Bool × World)
unfolding apply_memory_error cnot_gate measure_z
xpurify self resource_qubit w = do
  w1 ← apply_memory_error self self w
  w2 ← apply_memory_error self resource_qubit w1
  ok (measure_z self (cnot_gate self resource_qubit w2))

-- Zpurify, called on `self`
unfoldable pub zpurify : (self resource_qubit : ℕ) → World → Result (Bool × World)
unfolding apply_memory_error cnot_gate hadamard_gate measure_z
zpurify self resource_qubit w = do
  w1 ← apply_memory_error self self w
  w2 ← apply_memory_error self resource_qubit w1
  ok (measure_z self (hadamard_gate self (cnot_gate resource_qubit self w2)))
