-- ===== src/Channel.antt =====
-- quisp/channels/QuantumChannel.cc, processMessage: the errors that a photon gets on its way. The
-- product of its condition and the power of the transition matrix is Eigen's: `output` gives for a
-- condition the ceilings of the distribution, natural numbers in the unit of the random number.
pub mod Ideal
mod Tests
use quisp.Prelude.{ℕ, ◌==◌, ltb, leb, Bool, true, false, not, ◌&&◌, if◌then◌else◌}
use quisp.Analyzer.{Photon}

-- The columns I, X, Z, Y and lost.
pub data Condition : Type 0 where
  no_error x_error z_error y_error lost : Condition

pub record OutputCeilings : Type 0 where
  pub no_error_ceil : ℕ
  pub x_error_ceil : ℕ
  pub z_error_ceil : ℕ
  pub y_error_ceil : ℕ

-- The condition that a photon comes with.
abbrev pub initial_condition : Photon → Condition
initial_condition q =
    if q.photon_lost
    then lost
    else if q.pauli_z_err && q.pauli_x_err
    then y_error
    else if q.pauli_z_err && not q.pauli_x_err
    then z_error
    else if not q.pauli_z_err && q.pauli_x_err
    then x_error
    else no_error

-- `low <= rand && rand < high && low != high`
abbrev within : ℕ → ℕ → ℕ → Bool
within low rand high = leb low rand && ltb rand high && not (low == high)

-- The error that the random number selects.
abbrev pub suffer : OutputCeilings → (rand : ℕ) → Photon → Photon
suffer out rand q =
    if ltb rand out.no_error_ceil
    then q
    else if within out.no_error_ceil rand out.x_error_ceil
    then record q { pauli_x_err = not q.pauli_x_err }
    else if within out.x_error_ceil rand out.z_error_ceil
    then record q { pauli_z_err = not q.pauli_z_err }
    else if within out.z_error_ceil rand out.y_error_ceil
    then record q { pauli_x_err = not q.pauli_x_err; pauli_z_err = not q.pauli_z_err }
    else record q { photon_lost = true }

-- processMessage
unfoldable pub process_message : (Condition → OutputCeilings) → (rand : ℕ) → Photon → Photon
process_message output rand q = suffer (output (initial_condition q)) rand q
