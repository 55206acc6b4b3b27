-- ===== src/Qubits.antt =====
-- quisp/modules/stationaryQubit.{h,cc}: the qubits of the memories. A pointer to a qubit is its
-- number in the store, nullptr is `none`. What only the display reads is left out. Doubles are only
-- compared here, so they are natural numbers in a common unit; dblrand() is a stream of them. The
-- powers of the transition matrix are Eigen's: a qubit has its `evolution`, which gives for a state
-- and two times the ceilings of the output distribution, none where the matrix is refused.
pub mod Memory
pub mod Gates
pub mod Symmetry
pub mod Tests
use quisp.Network.{QnicType}
use quisp.Prelude.{
  ℕ, zero, suc, ◌+◌, ℤ, pos, minus_one, ◌==ℤ◌, ◌==◌, Bool, true, false, ◌||◌, if◌then◌else◌, Option,
  none, some, Result, ok, err, lock_without_id,
}

pub record GateError : Type 0 where
  pub pauli_error_rate : ℕ
  pub no_error_ceil : ℕ
  pub x_error_ceil : ℕ
  pub z_error_ceil : ℕ

pub record TwoQubitGateError : Type 0 where
  pub pauli_error_rate : ℕ
  pub no_error_ceil : ℕ
  pub ix_error_ceil : ℕ
  pub xi_error_ceil : ℕ
  pub xx_error_ceil : ℕ
  pub iz_error_ceil : ℕ
  pub zi_error_ceil : ℕ
  pub zz_error_ceil : ℕ
  pub iy_error_ceil : ℕ
  pub yi_error_ceil : ℕ

-- The states of the Markov chain of memory errors.
pub data MemoryState : Type 0 where
  no_error x_error z_error y_error excited relaxed mixed : MemoryState

pub record Ceilings : Type 0 where
  pub no_error_ceil : ℕ
  pub x_error_ceil : ℕ
  pub z_error_ceil : ℕ
  pub y_error_ceil : ℕ
  pub ex_error_ceil : ℕ
  pub re_error_ceil : ℕ

-- Density_Matrix_Collapsed: `not_set` is the matrix of -111.
pub data Density : Type 0 where
  not_set density_mixed density_excited density_relaxed : Density

pub record Qubit : Type 0 where
  pub stationary_qubit_address : ℤ
  pub node_address : ℤ
  pub qnic_address : ℤ
  pub qnic_type : QnicType
  pub qnic_index : ℤ
  pub entangled_partner : Option ℕ
  pub is_busy : Bool
  pub allocated : Bool
  pub locked : Bool
  pub locked_ruleset_id : ℕ
  pub locked_rule_id : ℤ
  pub action_index : ℤ
  pub updated_time : ℤ
  pub partner_measured : Bool
  pub completely_mixed : Bool
  pub excited_or_relaxed : Bool
  pub density : Density
  pub no_density_matrix_nullptr_entangled_partner_ok : Bool
  pub god_dm_x_error : Bool
  pub god_dm_z_error : Bool
  pub god_x_error : Bool
  pub god_z_error : Bool
  pub god_cm_error : Bool
  pub god_ex_error : Bool
  pub god_re_error : Bool
  pub god_entangled_stationary_qubit_address : ℤ
  pub god_entangled_node_address : ℤ
  pub god_entangled_qnic_address : ℤ
  pub god_entangled_qnic_type : Option QnicType
  pub hgate_error : GateError
  pub xgate_error : GateError
  pub zgate_error : GateError
  pub cnot_gate_error : TwoQubitGateError
  pub measurement_error : GateError
  pub memory_error_rate : ℕ
  pub evolution : MemoryState → ℤ → ℤ → Option Ceilings

-- The store, the time, and the random numbers with how many have been drawn.
pub record World : Type 0 where
  pub qubits : ℕ → Qubit
  pub now : ℤ
  pub rand : ℕ → ℕ
  pub drawn : ℕ

abbrev pub put : ℕ → (Qubit → Qubit) → (ℕ → Qubit) → ℕ → Qubit
put i f qs j = if j == i then f (qs j) else qs j

abbrev pub update : ℕ → (Qubit → Qubit) → World → World
update i f w = record w { qubits = put i f w.qubits }

-- dblrand()
abbrev pub draw : World → ℕ × World
draw w = (w.rand w.drawn, record w { drawn = w.drawn + 1 })

-- -1 as an unsigned long
abbrev pub no_ruleset : ℕ
no_ruleset = 18446744073709551615

abbrev pub locked_for : ℕ → ℤ → ℤ → Qubit → Qubit
locked_for rs_id rule_id action_id q = record q {
  locked = true;
  locked_ruleset_id = rs_id;
  locked_rule_id = rule_id;
  action_index = action_id;
}

-- Lock
unfoldable pub lock : ℕ → (rs_id : ℕ) → (rule_id action_id : ℤ) → World → Result World
lock i rs_id rule_id action_id w =
    if (rs_id == no_ruleset) || (rule_id ==ℤ minus_one) || (action_id ==ℤ minus_one)
    then err lock_without_id
    else ok (update i (locked_for rs_id rule_id action_id) w)

abbrev pub unlocked : Qubit → Qubit
unlocked q = record q {
  locked = false;
  locked_ruleset_id = no_ruleset;
  locked_rule_id = minus_one;
  action_index = minus_one;
}

-- Unlock
unfoldable pub unlock : ℕ → World → World
unlock i w = update i unlocked w

-- isLocked
abbrev pub is_locked : World → ℕ → Bool
is_locked w i = (w.qubits i).locked

abbrev pub freed : Qubit → Qubit
freed q = record q {
  locked = false;
  locked_ruleset_id = no_ruleset;
  locked_rule_id = minus_one;
  action_index = minus_one;
  is_busy = false;
  allocated = false;
  updated_time = minus_one;
  partner_measured = false;
  completely_mixed = false;
  excited_or_relaxed = false;
  god_dm_z_error = false;
  god_dm_x_error = false;
  density = not_set;
  no_density_matrix_nullptr_entangled_partner_ok = false;
  god_x_error = false;
  god_z_error = false;
  god_cm_error = false;
  god_ex_error = false;
  god_re_error = false;
  god_entangled_stationary_qubit_address = minus_one;
  god_entangled_node_address = minus_one;
  god_entangled_qnic_address = minus_one;
  god_entangled_qnic_type = none;
  entangled_partner = none;
}

-- setFree
unfoldable pub set_free : ℕ → World → World
set_free i w = update i freed w

-- setEntangledPartnerInfo
unfoldable pub set_entangled_partner_info : (self partner : ℕ) → World → World
set_entangled_partner_info self partner w =
    let p = w.qubits partner in
    update self
      (λ q. record q {
        entangled_partner = some partner;
        god_entangled_stationary_qubit_address = p.stationary_qubit_address;
        god_entangled_node_address = p.node_address;
        god_entangled_qnic_address = p.qnic_address;
        god_entangled_qnic_type = some p.qnic_type;
      })
      w
