-- ===== src/Qubits/Tests.antt =====
-- Two entangled pairs, 0 with 2 and 1 with 3, without noise; qubit 0 has an X error.
use quisp.Prelude.{
  ℕ, ◌==◌, pos, Result, err, minus_one, Bool, true, false, not, if◌then◌else◌, Option, none, some,
  ok, ◌≡◌, refl, arith,
}
use quisp.Network.{qnic_e}
use quisp.Qubits.{Qubit, World, GateError, TwoQubitGateError, not_set, no_ruleset}
use quisp.Qubits.Memory.{apply_memory_error}
use quisp.Qubits.Gates.{xpurify, zpurify}
use quisp.Qubits.Gates.Parity.{IsQuiet, ◌xor◌, xpurify-parity, zpurify-parity}
use quisp.Qubits.Symmetry.{IsSymmetric, IsWired, apply_memory_error-IsWired}

abbrev pub no_gate_error : GateError
no_gate_error = record {
  pauli_error_rate = 0;
  no_error_ceil = 0;
  x_error_ceil = 0;
  z_error_ceil = 0;
}

abbrev pub no_cnot_error : TwoQubitGateError
no_cnot_error = record {
  pauli_error_rate = 0;
  no_error_ceil = 0;
  ix_error_ceil = 0;
  xi_error_ceil = 0;
  xx_error_ceil = 0;
  iz_error_ceil = 0;
  zi_error_ceil = 0;
  zz_error_ceil = 0;
  iy_error_ceil = 0;
  yi_error_ceil = 0;
}

-- A memory at an address, entangled with a qubit, with a memory that errs at the given rate and has
-- no known evolution.
abbrev pub memory : (address : ℕ) → Option ℕ → (x : Bool) → (rate : ℕ) → Qubit
memory address partner x rate = record {
  stationary_qubit_address = pos address;
  node_address = pos 1;
  qnic_address = pos 0;
  qnic_type = qnic_e;
  qnic_index = pos 0;
  entangled_partner = partner;
  is_busy = true;
  allocated = true;
  locked = false;
  locked_ruleset_id = no_ruleset;
  locked_rule_id = minus_one;
  action_index = minus_one;
  updated_time = pos 0;
  partner_measured = false;
  completely_mixed = false;
  excited_or_relaxed = false;
  density = not_set;
  no_density_matrix_nullptr_entangled_partner_ok = false;
  god_dm_x_error = false;
  god_dm_z_error = false;
  god_x_error = x;
  god_z_error = false;
  god_cm_error = false;
  god_ex_error = false;
  god_re_error = false;
  god_entangled_stationary_qubit_address = minus_one;
  god_entangled_node_address = minus_one;
  god_entangled_qnic_address = minus_one;
  god_entangled_qnic_type = none;
  hgate_error = no_gate_error;
  xgate_error = no_gate_error;
  zgate_error = no_gate_error;
  cnot_gate_error = no_cnot_error;
  measurement_error = no_gate_error;
  memory_error_rate = rate;
  evolution = λ s t t'. some (record {
    no_error_ceil = 1;
    x_error_ceil = 2;
    z_error_ceil = 3;
    y_error_ceil = 4;
    ex_error_ceil = 5;
    re_error_ceil = 6;
  });
}

abbrev pub partner_of : ℕ → Option ℕ
partner_of i =
    if i == 0
    then some 2
    else if i == 1
    then some 3
    else if i == 2
    then some 0
    else if i == 3
    then some 1
    else none

abbrev pub world : (rate : ℕ) → World
world rate = record {
  qubits = λ i. memory i (partner_of i) (i == 0) rate;
  now = pos 10;
  rand = λ n. 4;
  drawn = 0;
}

first-IsQuiet : IsQuiet ((world 0).qubits 0)
first-IsQuiet = record {
  memory = refl;
  hgate = refl;
  cnot = refl;
  measurement = refl;
  known = refl;
}

second-IsQuiet : IsQuiet ((world 0).qubits 1)
second-IsQuiet = record {
  memory = refl;
  hgate = refl;
  cnot = refl;
  measurement = refl;
  known = refl;
}

-- Qubit 1 tells by an X purification that it and qubit 0 differ in their X errors.
xpurify-parity_example :
    (w' : World) × (xpurify 1 0 (world 0) ≡ ok (not (false xor true), w'))
    × ((w'.qubits 0).god_x_error ≡ true)
    × ((w'.qubits 0).god_z_error ≡ (false xor false))
xpurify-parity_example = xpurify-parity 1 0 (world 0) refl refl second-IsQuiet first-IsQuiet

zpurify-parity_example :
    (w' : World) × (zpurify 1 0 (world 0) ≡ ok (not (false xor false), w'))
    × ((w'.qubits 0).god_x_error ≡ (true xor false))
    × ((w'.qubits 0).god_z_error ≡ false)
zpurify-parity_example = zpurify-parity 1 0 (world 0) refl refl second-IsQuiet first-IsQuiet

partner_of_mutual : (i j : ℕ) → partner_of i ≡ some j → partner_of j ≡ some i
partner_of_mutual i j h = ground arith

pub world-IsWired : (rate : ℕ) → IsWired pos (world rate)
unfolding IsSymmetric
world-IsWired rate = record { symmetric = partner_of_mutual; located = λ i. refl }

abbrev world_of : Result World → World
world_of (ok w) = w
world_of (err e) = world 0

-- The draw excites qubit 0, so its entanglement with qubit 2 is gone.
abbrev excited_world : World
excited_world = world_of (apply_memory_error 0 0 (world 1))

excited_runs : apply_memory_error 0 0 (world 1) ≡ ok excited_world
unfolding apply_memory_error
excited_runs = refl

excited_cut : (excited_world.qubits 2).entangled_partner ≡ none
unfolding apply_memory_error
excited_cut = refl

apply_memory_error-IsWired_example : IsWired pos excited_world
apply_memory_error-IsWired_example =
    apply_memory_error-IsWired 0 0 (world 1) excited_world excited_runs (world-IsWired 1)
