-- ===== src/Qubits/Memory.antt =====
-- quisp/modules/stationaryQubit.cc: the states without Pauli errors, and apply_memory_error.
use quisp.Prelude.{
  ℕ, ℤ, ◌==◌, ltb, ltb_ℤ, Bool, true, false, not, ◌&&◌, ◌||◌, ◌==ᵇ◌, if◌then◌else◌, Option, none,
  some, Result, ok, ◌>>=◌, ◌>>◌, fail_if, or_fail, state_not_known, mixed_flag, excited_flag,
  transition_matrix,
}
use quisp.Qubits.{
  Qubit, World, MemoryState, Ceilings, Density, not_set, density_mixed, density_excited,
  density_relaxed, no_error, x_error, z_error, y_error, excited, relaxed, mixed, update, draw,
}

abbrev pub apart : Qubit → Qubit
apart q = record q { entangled_partner = none }

-- `if (entangled_partner != nullptr)` both pointers are cut.
unfoldable pub cut_entanglement : ℕ → World → World
cut_entanglement i w = elim (w.qubits i).entangled_partner [
  | none ↦ w
  | some j ↦ update i apart (update j apart w)
]

-- What the three states set, with their own flags.
abbrev pub collapsed : Density → (cm ex re : Bool) → Qubit → Qubit
collapsed d cm ex re q = record q {
  density = d;
  completely_mixed = cm;
  excited_or_relaxed = ex || re;
  god_cm_error = cm;
  god_ex_error = ex;
  god_re_error = re;
  god_x_error = false;
  god_z_error = false;
  god_dm_x_error = false;
  god_dm_z_error = false;
}

-- setCompletelyMixedDensityMatrix
unfoldable pub set_completely_mixed : ℕ → World → World
unfolding cut_entanglement
set_completely_mixed i w =
    update i (collapsed density_mixed true false false) (cut_entanglement i w)

abbrev pub stamped : ℤ → Qubit → Qubit
stamped t q = record q { updated_time = t }

-- `if (entangled_partner != nullptr)` the partner is brought up to date and completely mixed.
unfoldable pub mix_partner : ℕ → World → World
unfolding set_completely_mixed
mix_partner i w = elim (w.qubits i).entangled_partner [
  | none ↦ w
  | some j ↦ set_completely_mixed j (update j (stamped w.now) w)
]

-- setExcitedDensityMatrix
unfoldable pub set_excited : ℕ → World → World
unfolding mix_partner
set_excited i w = mix_partner i (update i (collapsed density_excited false true false) w)

-- setRelaxedDensityMatrix
unfoldable pub set_relaxed : ℕ → World → World
unfolding mix_partner
set_relaxed i w = mix_partner i (update i (collapsed density_relaxed false false true) w)

-- The initial condition.
abbrev pub memory_state : Qubit → MemoryState
memory_state q =
    if q.god_ex_error
    then excited
    else if q.god_re_error
    then relaxed
    else if q.god_cm_error
    then mixed
    else if q.god_z_error && q.god_x_error
    then y_error
    else if q.god_z_error
    then z_error
    else if q.god_x_error
    then x_error
    else no_error

abbrev pub with_pauli : (x z : Bool) → Qubit → Qubit
with_pauli x z q = record q { god_x_error = x; god_z_error = z }

-- `low <= rand && rand < high && low != high`, where an earlier test has failed
abbrev within : ℕ → ℕ → ℕ → Bool
within low rand high = not (ltb rand low) && ltb rand high && not (low == high)

-- The last state: the draw selects it.
unfoldable pub settle : ℕ → Ceilings → ℕ → World → World
unfolding set_excited set_relaxed mix_partner set_completely_mixed
settle i c rand w =
    if ltb rand c.no_error_ceil
    then update i (with_pauli false false) w
    else if within c.no_error_ceil rand c.x_error_ceil
    then update i (with_pauli true false) w
    else if within c.x_error_ceil rand c.z_error_ceil
    then update i (with_pauli false true) w
    else if within c.z_error_ceil rand c.y_error_ceil
    then update i (with_pauli true true) w
    else if within c.y_error_ceil rand c.ex_error_ceil
    then set_excited i w
    else if within c.ex_error_ceil rand c.re_error_ceil
    then set_relaxed i w
    else set_completely_mixed i (mix_partner i w)

abbrev pub is_not_set : Density → Bool
is_not_set not_set = true
is_not_set _ = false

abbrev pub is_none : Option ℕ → Bool
is_none none = true
is_none (some j) = false

-- The block under `if (time_evolution_microsec > 0)`.
unfoldable pub evolve : (self i : ℕ) → World → Result World
unfolding settle
evolve self i w = do
  let q = w.qubits i
  fail_if (not (q.completely_mixed ==ᵇ q.god_cm_error)) mixed_flag
  fail_if
      (not (q.excited_or_relaxed ==ᵇ q.god_ex_error)
        && not (q.excited_or_relaxed ==ᵇ q.god_re_error))
      excited_flag
  c ← or_fail ((w.qubits self).evolution (memory_state q) q.updated_time w.now) transition_matrix
  let (rand, w') = draw w
  ok (settle i c rand w')

-- apply_memory_error(qubit), called on `self`
unfoldable pub apply_memory_error : (self i : ℕ) → World → Result World
unfolding evolve
apply_memory_error self i w = do
  let q = w.qubits i
  fail_if
      (is_none q.entangled_partner
        && is_not_set q.density
        && not q.no_density_matrix_nullptr_entangled_partner_ok)
      state_not_known
  let evolved = do
    w' ← (if ltb_ℤ q.updated_time w.now then evolve self i w else ok w)
    ok (update i (stamped w.now) w')
  if q.memory_error_rate == 0 then ok w else evolved
