-- ===== src/Slots/Taking.antt =====
-- What taking a qubit leaves as it is in the table (quisp/modules/RuleEngine.cc,
-- setQubitBusy_inQnic): the addresses of the entries.
use quisp.Prelude.{
  ℤ, minus_one, ◌&&◌, ◌==ℤ◌, true, false, [], ◌∷◌, All, ok, err, ◌>>=◌, bind_ok, ok_injective,
  err_not_ok, if_ok, ◌≡◌, ◌⊎◌, subst, inl, inr, already_busy,
}
use quisp.Slots.{QubitState, QubitStateTable, is_at, set_qubit_busy_in_qnic}
use quisp.Slots.Emission.{IsDistinct, IsIndexed}

-- Either the first entry is taken, or one behind it.
set_busy-cases :
    (e : QubitState) (table t : QubitStateTable) (qnic qubit : ℤ)
    → set_qubit_busy_in_qnic (e ∷ table) qnic qubit ≡ ok t
    → (record e { is_busy = true } ∷ table ≡ t)
      ⊎ ((u : QubitStateTable) × (set_qubit_busy_in_qnic table qnic qubit ≡ ok u) × (e ∷ u ≡ t))
unfolding set_qubit_busy_in_qnic
set_busy-cases e table t qnic qubit h =
    if_ok (is_at e qnic qubit) _ (set_qubit_busy_in_qnic table qnic qubit >>= λ u. ok (e ∷ u)) t
      (λ r.
        if_ok e.is_busy (err already_busy) (ok (record e { is_busy = true } ∷ table)) t
          (λ x. absurd (err_not_ok already_busy t x)) (λ x. inl (ok_injective _ t x)) r)
      (λ r.
        let (u, g, k) = bind_ok (set_qubit_busy_in_qnic table qnic qubit) (λ u. ok (e ∷ u)) t r in
        inr (u, g, ok_injective (e ∷ u) t k))
      h

-- What holds of the addresses of all entries.
pub set_busy-All :
    (P : ℤ → ℤ → Type 0) (table t : QubitStateTable) (qnic qubit : ℤ)
    → set_qubit_busy_in_qnic table qnic qubit ≡ ok t
    → All (λ (e : QubitState). P e.qnic_index e.qubit_index) table
    → All (λ (e : QubitState). P e.qnic_index e.qubit_index) t
unfolding set_qubit_busy_in_qnic
set_busy-All P [] t qnic qubit h all =
    subst (All (λ (e : QubitState). P e.qnic_index e.qubit_index)) (ok_injective [] t h) tt
set_busy-All P (e ∷ table) t qnic qubit h all = elim (set_busy-cases e table t qnic qubit h) [
  | inl r ↦ subst (All (λ (e' : QubitState). P e'.qnic_index e'.qubit_index)) r all
  | inr (u, g, k) ↦
      subst (All (λ (e' : QubitState). P e'.qnic_index e'.qubit_index)) k
        (all.0, set_busy-All P table u qnic qubit g all.1)
]

pub set_busy-IsDistinct :
    (table t : QubitStateTable) (qnic qubit : ℤ)
    → set_qubit_busy_in_qnic table qnic qubit ≡ ok t
    → IsDistinct table
    → IsDistinct t
unfolding set_qubit_busy_in_qnic
set_busy-IsDistinct [] t qnic qubit h d = subst IsDistinct (ok_injective [] t h) tt
set_busy-IsDistinct (e ∷ table) t qnic qubit h d = elim (set_busy-cases e table t qnic qubit h) [
  | inl r ↦ subst IsDistinct r d
  | inr (u, g, k) ↦ subst IsDistinct k (
    set_busy-All (λ a b. ((a ==ℤ e.qnic_index) && (b ==ℤ e.qubit_index)) ≡ false) table u qnic qubit
        g d.0,
    set_busy-IsDistinct table u qnic qubit g d.1,
  )
]

pub set_busy-IsIndexed :
    (table t : QubitStateTable) (qnic qubit : ℤ)
    → set_qubit_busy_in_qnic table qnic qubit ≡ ok t
    → IsIndexed table
    → IsIndexed t
set_busy-IsIndexed = set_busy-All (λ a b. (b ==ℤ minus_one) ≡ false)
