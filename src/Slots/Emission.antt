-- ===== src/Slots/Emission.antt =====
-- Taking a free qubit and giving it back (quisp/modules/RuleEngine.cc, as shootPhoton and
-- freeConsumedResource do).
use quisp.Prelude.{
  ◌+◌, ◌<◌, ℤ, minus_one, ◌==ℤ◌, ==ℤ_iff, Bool, true, false, not, ◌&&◌, if◌then◌else◌, Bool-cases,
  [], ◌∷◌, All, Result, ok, err, ◌>>=◌, bind_ok, ok_injective, err_not_ok, ◌≡◌, refl, sym, ap,
  subst, inl, inr, arith, already_busy,
}
use quisp.Slots.{
  QubitState, QubitStateTable, count_free_qubits_in_qnic, first_free, get_one_free_qubit_in_qnic,
  is_at, set_qubit_busy_in_qnic, set_qubit_free_in_qnic,
}

set_free_hit :
    (e : QubitState) (table : QubitStateTable) (qnic qubit : ℤ)
    → is_at e qnic qubit ≡ true
    → e.is_busy ≡ false
    → set_qubit_free_in_qnic (record e { is_busy = true } ∷ table) qnic qubit ≡ ok (e ∷ table)
unfolding set_qubit_free_in_qnic
set_free_hit e table qnic qubit h b =
    rw (set_qubit_free_in_qnic, h) (ap (λ v. ok (record e { is_busy = v } ∷ table)) (sym b))

set_free_miss :
    (e : QubitState) (table table' : QubitStateTable) (qnic qubit : ℤ)
    → is_at e qnic qubit ≡ false
    → set_qubit_free_in_qnic table qnic qubit ≡ ok table'
    → set_qubit_free_in_qnic (e ∷ table) qnic qubit ≡ ok (e ∷ table')
unfolding set_qubit_free_in_qnic
set_free_miss e table table' qnic qubit h b = ground (arith, b)

-- A qubit that can be taken is given back by freeing it: the table is the one from before.
pub set_free-set_busy :
    (table t : QubitStateTable) (qnic qubit : ℤ)
    → set_qubit_busy_in_qnic table qnic qubit ≡ ok t
    → set_qubit_free_in_qnic t qnic qubit ≡ ok table
unfolding set_qubit_busy_in_qnic set_qubit_free_in_qnic
set_free-set_busy [] t qnic qubit h = rw (sym (ok_injective [] t h)) refl
set_free-set_busy (e ∷ table) t qnic qubit h =
    let taken : Result QubitStateTable =
      if e.is_busy then err already_busy else ok (record e { is_busy = true } ∷ table) in
    let later : Result QubitStateTable =
      set_qubit_busy_in_qnic table qnic qubit >>= λ u. ok (e ∷ u) in
    elim (Bool-cases (is_at e qnic qubit)) [
      | inl a ↦
          let h1 : taken ≡ ok t = subst (λ b. (if b then taken else later) ≡ ok t) a h in
          elim (Bool-cases e.is_busy) [
            | inl c ↦ absurd (
                err_not_ok already_busy t (
                  subst
                    (λ b.
                      (if b then err already_busy else ok (record e { is_busy = true } ∷ table))
                      ≡ ok t)
                    c h1))
            | inr c ↦
                let h2 = ok_injective (record e { is_busy = true } ∷ table) t (
                  subst
                    (λ b.
                      (if b then err already_busy else ok (record e { is_busy = true } ∷ table))
                      ≡ ok t)
                    c h1) in
                rw (sym h2) (set_free_hit e table qnic qubit a c)
          ]
      | inr a ↦
          let h1 : later ≡ ok t = subst (λ b. (if b then taken else later) ≡ ok t) a h in
          let (u, eu, g) =
            bind_ok (set_qubit_busy_in_qnic table qnic qubit) (λ u. ok (e ∷ u)) t h1 in
          rw (sym (ok_injective (e ∷ u) t g))
            (set_free_miss e u table qnic qubit a (set_free-set_busy table u qnic qubit eu))
    ]

-- No two entries have the same address.
abbrev pub IsDistinct : QubitStateTable → Type 0
IsDistinct [] = Unit
IsDistinct (e ∷ table) =
    All (λ (e' : QubitState). is_at e' e.qnic_index e.qubit_index ≡ false) table × IsDistinct table

-- A free qubit of the qnic.
abbrev is_free_at : QubitState → ℤ → Bool
is_free_at e qnic = (e.qnic_index ==ℤ qnic) && not e.is_busy

free_apart :
    (e e' : QubitState) (qnic : ℤ)
    → is_at e' e.qnic_index e.qubit_index ≡ false
    → is_free_at e' qnic ≡ true
    → is_at e qnic e'.qubit_index ≡ false
free_apart e e' qnic h f = ground (
  arith,
  ==ℤ_iff e'.qnic_index e.qnic_index,
  ==ℤ_iff e'.qubit_index e.qubit_index,
  ==ℤ_iff e.qnic_index qnic,
  ==ℤ_iff e'.qnic_index qnic,
  ==ℤ_iff e.qubit_index e'.qubit_index,
)

first_free-apart :
    (e : QubitState) (table : QubitStateTable) (qnic : ℤ)
    → All (λ (e' : QubitState). is_at e' e.qnic_index e.qubit_index ≡ false) table
    → 0 < count_free_qubits_in_qnic table qnic
    → is_at e qnic (first_free table qnic) ≡ false
unfolding first_free count_free_qubits_in_qnic
first_free-apart e [] qnic d h = absurd (omega arith)
first_free-apart e (e' ∷ table) qnic d h = elim (Bool-cases (is_free_at e' qnic)) [
  | inl f ↦ rw f (free_apart e e' qnic d.0 f)
  | inr f ↦
      let rest : 0 < 0 + count_free_qubits_in_qnic table qnic =
        subst (λ b. 0 < (if b then 1 else 0) + count_free_qubits_in_qnic table qnic) f h in
      rw f (first_free-apart e table qnic d.1 (omega arith))
]

-- Only an entry with both the qnic and its own index is at its address.
is_at_self :
    (e : QubitState) (qnic : ℤ) → is_free_at e qnic ≡ true → is_at e qnic e.qubit_index ≡ true
is_at_self e qnic f = ground (arith, ==ℤ_iff e.qubit_index e.qubit_index)

is_free_not_busy : (e : QubitState) (qnic : ℤ) → is_free_at e qnic ≡ true → e.is_busy ≡ false
is_free_not_busy e qnic f = ground arith

taken_not_free : (e : QubitState) (qnic : ℤ) → is_free_at (record e { is_busy = true }) qnic ≡ false
taken_not_free e qnic = ground arith

-- What taking the first free qubit comes to.
abbrev TakesOne : QubitStateTable → ℤ → Type 0
TakesOne table qnic =
    (t : QubitStateTable) × (set_qubit_busy_in_qnic table qnic (first_free table qnic) ≡ ok t)
    × (count_free_qubits_in_qnic t qnic + 1 ≡ count_free_qubits_in_qnic table qnic)

takes_later :
    (e : QubitState) (table t : QubitStateTable) (qnic : ℤ)
    → is_free_at e qnic ≡ false
    → is_at e qnic (first_free table qnic) ≡ false
    → set_qubit_busy_in_qnic table qnic (first_free table qnic) ≡ ok t
    → count_free_qubits_in_qnic t qnic + 1 ≡ count_free_qubits_in_qnic table qnic
    → TakesOne (e ∷ table) qnic
unfolding set_qubit_busy_in_qnic first_free count_free_qubits_in_qnic
takes_later e table t qnic f apart taken fewer =
    (e ∷ t, rw (f, apart, taken) refl, rw f (omega arith))

first_free-set_busy :
    (table : QubitStateTable) (qnic : ℤ)
    → IsDistinct table
    → 0 < count_free_qubits_in_qnic table qnic
    → TakesOne table qnic
unfolding set_qubit_busy_in_qnic first_free count_free_qubits_in_qnic
first_free-set_busy [] qnic d h = absurd (omega arith)
first_free-set_busy (e ∷ table) qnic d h = elim (Bool-cases (is_free_at e qnic)) [
  | inl f ↦ (
    record e { is_busy = true } ∷ table,
    rw (f, is_at_self e qnic f, is_free_not_busy e qnic f) refl,
    rw (taken_not_free e qnic, f) (omega arith),
  )
  | inr f ↦
      let some_left : 0 < 0 + count_free_qubits_in_qnic table qnic =
        subst (λ b. 0 < (if b then 1 else 0) + count_free_qubits_in_qnic table qnic) f h in
      let (t, taken, fewer) = first_free-set_busy table qnic d.1 (omega arith) in
      takes_later e table t qnic f (first_free-apart e table qnic d.0 (omega arith)) taken fewer
]

-- No entry has the index -1, which stands for no qubit.
abbrev pub IsIndexed : QubitStateTable → Type 0
IsIndexed table = All (λ (e : QubitState). (e.qubit_index ==ℤ minus_one) ≡ false) table

first_free-IsIndexed :
    (table : QubitStateTable) (qnic : ℤ)
    → IsIndexed table
    → 0 < count_free_qubits_in_qnic table qnic
    → (first_free table qnic ==ℤ minus_one) ≡ false
unfolding first_free count_free_qubits_in_qnic
first_free-IsIndexed [] qnic x h = absurd (omega arith)
first_free-IsIndexed (e ∷ table) qnic x h = elim (Bool-cases (is_free_at e qnic)) [
  | inl f ↦ rw f x.0
  | inr f ↦
      let rest : 0 < 0 + count_free_qubits_in_qnic table qnic =
        subst (λ b. 0 < (if b then 1 else 0) + count_free_qubits_in_qnic table qnic) f h in
      rw f (first_free-IsIndexed table qnic x.1 (omega arith))
]

-- If a qnic has a free qubit in a table without two entries of the same address and without the
-- index -1, then one is found, it can be taken, one free qubit less is left, and freeing it brings
-- the table back.
pub get_one_free-set_busy :
    (table : QubitStateTable) (qnic : ℤ)
    → IsDistinct table
    → IsIndexed table
    → 0 < count_free_qubits_in_qnic table qnic
    → (qubit : ℤ) × (t : QubitStateTable) × (get_one_free_qubit_in_qnic table qnic ≡ ok qubit)
      × (set_qubit_busy_in_qnic table qnic qubit ≡ ok t)
      × (count_free_qubits_in_qnic t qnic + 1 ≡ count_free_qubits_in_qnic table qnic)
      × (set_qubit_free_in_qnic t qnic qubit ≡ ok table)
unfolding get_one_free_qubit_in_qnic
get_one_free-set_busy table qnic d x h =
    let (t, taken, fewer) = first_free-set_busy table qnic d h in
    (
      first_free table qnic,
      t,
      rw (get_one_free_qubit_in_qnic, first_free-IsIndexed table qnic x h) refl,
      taken,
      fewer,
      set_free-set_busy table t qnic (first_free table qnic) taken,
    )
