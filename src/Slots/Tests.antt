-- ===== src/Slots/Tests.antt =====
-- A table of two qnics with two qubits each, the first of which is busy.
use quisp.Prelude.{◌+◌, ℤ, pos, true, false, [], ◌∷◌, ok, ◌≡◌, refl, arith}
use quisp.Slots.{
  QubitStateTable, count_free_qubits_in_qnic, get_one_free_qubit_in_qnic, set_qubit_busy_in_qnic,
  set_qubit_free_in_qnic,
}
use quisp.Slots.Emission.{IsDistinct, get_one_free-set_busy}

abbrev slots : QubitStateTable
slots =
    record { qnic_index = pos 0; qubit_index = pos 0; is_busy = true }
    ∷ record { qnic_index = pos 0; qubit_index = pos 1; is_busy = false }
    ∷ record { qnic_index = pos 1; qubit_index = pos 0; is_busy = false }
    ∷ record { qnic_index = pos 1; qubit_index = pos 1; is_busy = false }
    ∷ []

slots_count : count_free_qubits_in_qnic slots (pos 1) ≡ 2
unfolding count_free_qubits_in_qnic
slots_count = refl

slots-IsDistinct : IsDistinct slots
slots-IsDistinct = ((refl, (refl, (refl, tt))), ((refl, (refl, tt)), ((refl, tt), (tt, tt))))

get_one_free-set_busy_example :
    (qubit : ℤ) × (t : QubitStateTable) × (get_one_free_qubit_in_qnic slots (pos 1) ≡ ok qubit)
    × (set_qubit_busy_in_qnic slots (pos 1) qubit ≡ ok t)
    × (count_free_qubits_in_qnic t (pos 1) + 1 ≡ count_free_qubits_in_qnic slots (pos 1))
    × (set_qubit_free_in_qnic t (pos 1) qubit ≡ ok slots)
get_one_free-set_busy_example =
    get_one_free-set_busy slots (pos 1) slots-IsDistinct (refl, (refl, (refl, (refl, tt))))
      (omega (arith, slots_count))
