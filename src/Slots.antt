-- ===== src/Slots.antt =====
-- quisp/modules/RuleEngine.cc: the tables of busy and free qubits (QubitStateTable), in the order of
-- their keys; the key of an entry does not matter beyond that. Of its address only the two indices
-- are read.
pub mod Emission
pub mod Taking
pub mod Freeing
mod Tests
use quisp.Prelude.{
  ℕ, ◌+◌, ℤ, minus_one, ◌==ℤ◌, Bool, true, false, not, ◌&&◌, if◌then◌else◌, List, [], ◌∷◌, Result,
  ok, err, ◌>>=◌, no_free_qubit, already_busy, already_free,
}

pub record QubitState : Type 0 where
  pub qnic_index : ℤ
  pub qubit_index : ℤ
  pub is_busy : Bool

abbrev pub QubitStateTable : Type 0
QubitStateTable = List QubitState

-- countFreeQubits_inQnic
unfoldable pub count_free_qubits_in_qnic : QubitStateTable → ℤ → ℕ
count_free_qubits_in_qnic [] qnic = 0
count_free_qubits_in_qnic (e ∷ table) qnic =
    (if (e.qnic_index ==ℤ qnic) && not e.is_busy then 1 else 0)
    + count_free_qubits_in_qnic table qnic

-- The loop of getOneFreeQubit_inQnic.
unfoldable pub first_free : QubitStateTable → ℤ → ℤ
first_free [] qnic = minus_one
first_free (e ∷ table) qnic =
    if (e.qnic_index ==ℤ qnic) && not e.is_busy then e.qubit_index else first_free table qnic

unfoldable pub get_one_free_qubit_in_qnic : QubitStateTable → ℤ → Result ℤ
unfolding first_free
get_one_free_qubit_in_qnic table qnic =
    let free_index = first_free table qnic in
    if free_index ==ℤ minus_one then err no_free_qubit else ok free_index

abbrev pub is_at : QubitState → (qnic qubit : ℤ) → Bool
is_at e qnic qubit = (e.qnic_index ==ℤ qnic) && (e.qubit_index ==ℤ qubit)

-- setQubitBusy_inQnic
unfoldable pub set_qubit_busy_in_qnic : QubitStateTable → (qnic qubit : ℤ) → Result QubitStateTable
set_qubit_busy_in_qnic [] qnic qubit = ok []
set_qubit_busy_in_qnic (e ∷ table) qnic qubit =
    let later = set_qubit_busy_in_qnic table qnic qubit >>= λ t. ok (e ∷ t) in
    if is_at e qnic qubit
    then (if e.is_busy then err already_busy else ok (record e { is_busy = true } ∷ table))
    else later

-- setQubitFree_inQnic
unfoldable pub set_qubit_free_in_qnic : QubitStateTable → (qnic qubit : ℤ) → Result QubitStateTable
set_qubit_free_in_qnic [] qnic qubit = ok []
set_qubit_free_in_qnic (e ∷ table) qnic qubit =
    let later = set_qubit_free_in_qnic table qnic qubit >>= λ t. ok (e ∷ t) in
    if is_at e qnic qubit
    then (if e.is_busy then ok (record e { is_busy = false } ∷ table) else err already_free)
    else later
