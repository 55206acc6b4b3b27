-- ===== src/Slots/Freeing.antt =====
-- What freeing a qubit does to the table (quisp/modules/RuleEngine.cc, setQubitFree_inQnic).
use quisp.Prelude.{
  ℕ, ◌+◌, ℤ, ◌==ℤ◌, ==ℤ_iff, not, ◌&&◌, if◌then◌else◌, Bool, true, false, ◌||◌, Bool-cases, [], ◌∷◌,
  ok, err, ◌>>=◌, bind_ok, ok_injective, err_not_ok, ◌≡◌, ◌⊎◌, sym, ap, ◌∙◌, inl, inr, arith,
  already_free,
}
use quisp.Slots.{
  QubitState, QubitStateTable, is_at, set_qubit_free_in_qnic, count_free_qubits_in_qnic,
}

-- An address of the table.
abbrev pub has_entry : QubitStateTable → (qnic qubit : ℤ) → Bool
has_entry [] qnic qubit = false
has_entry (e ∷ table) qnic qubit = is_at e qnic qubit || has_entry table qnic qubit

-- Either the first entry is busy and freed, or one behind it.
set_free-cases :
    (e : QubitState) (table t : QubitStateTable) (qnic qubit : ℤ)
    → set_qubit_free_in_qnic (e ∷ table) qnic qubit ≡ ok t
    → ((is_at e qnic qubit ≡ true)
        × (e.is_busy ≡ true)
        × (record e { is_busy = false } ∷ table ≡ t))
      ⊎ ((u : QubitStateTable) × (is_at e qnic qubit ≡ false)
          × (set_qubit_free_in_qnic table qnic qubit ≡ ok u)
          × (e ∷ u ≡ t))
unfolding set_qubit_free_in_qnic
set_free-cases e table t qnic qubit h = elim (Bool-cases (is_at e qnic qubit)) [
  | inl a ↦ elim (Bool-cases e.is_busy) [
    | inl b ↦ inl (a, b, ok_injective (record e { is_busy = false } ∷ table) t (freed_here a b))
    | inr b ↦ absurd (err_not_ok already_free t (not_freed a b))
  ]
  | inr a ↦
      let (u, g, k) =
        bind_ok (set_qubit_free_in_qnic table qnic qubit) (λ u. ok (e ∷ u)) t (later a) in
      inr (u, a, g, ok_injective (e ∷ u) t k)
]
  where
    freed_here :
        is_at e qnic qubit ≡ true
        → e.is_busy ≡ true
        → ok (record e { is_busy = false } ∷ table) ≡ ok t
    freed_here a b = ground arith

    not_freed : is_at e qnic qubit ≡ true → e.is_busy ≡ false → err already_free ≡ ok t
    not_freed a b = ground arith

    later :
        is_at e qnic qubit ≡ false
        → (set_qubit_free_in_qnic table qnic qubit >>= λ u. ok (e ∷ u)) ≡ ok t
    later a = ground arith

pub set_free-has_entry :
    (table t : QubitStateTable) (qnic qubit a b : ℤ)
    → set_qubit_free_in_qnic table qnic qubit ≡ ok t
    → has_entry t a b ≡ has_entry table a b
unfolding set_qubit_free_in_qnic
set_free-has_entry [] t qnic qubit a b h = ap (λ x. has_entry x a b) (sym (ok_injective [] t h))
set_free-has_entry (e ∷ table) t qnic qubit a b h = elim (set_free-cases e table t qnic qubit h) [
  | inl (at, busy, k) ↦ ap (λ x. has_entry x a b) (sym k)
  | inr (u, at, g, k) ↦
      ap (λ x. has_entry x a b) (sym k)
      ∙ ap (λ x. is_at e a b || x) (set_free-has_entry table u qnic qubit a b g)
]

-- A qubit that the table has is one more free qubit of its qnic.
pub set_free-count :
    (table t : QubitStateTable) (qnic qubit : ℤ)
    → set_qubit_free_in_qnic table qnic qubit ≡ ok t
    → has_entry table qnic qubit ≡ true
    → count_free_qubits_in_qnic t qnic ≡ count_free_qubits_in_qnic table qnic + 1
unfolding count_free_qubits_in_qnic
set_free-count [] t qnic qubit h x = cc
set_free-count (e ∷ table) t qnic qubit h x = elim (set_free-cases e table t qnic qubit h) [
  | inl (at, busy, k) ↦ ap (λ x. count_free_qubits_in_qnic x qnic) (sym k) ∙ ground arith
  | inr (u, at, g, k) ↦
      let x' : has_entry table qnic qubit ≡ true = ground arith in
      let ih = set_free-count table u qnic qubit g x' in
      ap (λ x. count_free_qubits_in_qnic x qnic) (sym k) ∙ ground (arith, ih)
]

-- How many entries of an address are free.
abbrev pub free_at : QubitStateTable → (qnic qubit : ℤ) → ℕ
free_at [] qnic qubit = 0
free_at (e ∷ table) qnic qubit =
    (if is_at e qnic qubit && not e.is_busy then 1 else 0) + free_at table qnic qubit

same_index : (a b c : ℤ) → (a ==ℤ b) ≡ true → (a ==ℤ c) ≡ (b ==ℤ c)
same_index a b c h = ap (λ x. x ==ℤ c) ((==ℤ_iff a b).0 h)

freed-free_at :
    (e : QubitState) (table : QubitStateTable) (qnic qubit x : ℤ)
    → is_at e qnic qubit ≡ true
    → e.is_busy ≡ true
    → free_at (record e { is_busy = false } ∷ table) qnic x
      ≡ free_at (e ∷ table) qnic x + (if qubit ==ℤ x then 1 else 0)
freed-free_at e table qnic qubit x at busy =
    let i : (e.qubit_index ==ℤ qubit) ≡ true = ground (arith, at) in
    let q : (e.qnic_index ==ℤ qnic) ≡ true = ground (arith, at) in
    let same = same_index e.qubit_index qubit x i in ground (arith, q, busy, same)

-- The entry that is freed is that of the address.
pub set_free-free_at :
    (table t : QubitStateTable) (qnic qubit x : ℤ)
    → set_qubit_free_in_qnic table qnic qubit ≡ ok t
    → has_entry table qnic qubit ≡ true
    → free_at t qnic x ≡ free_at table qnic x + (if qubit ==ℤ x then 1 else 0)
set_free-free_at [] t qnic qubit x h y = cc
set_free-free_at (e ∷ table) t qnic qubit x h y = elim (set_free-cases e table t qnic qubit h) [
  | inl (at, busy, k) ↦
      ap (λ v. free_at v qnic x) (sym k) ∙ freed-free_at e table qnic qubit x at busy
  | inr (u, at, g, k) ↦
      let y' : has_entry table qnic qubit ≡ true = ground arith in
      let ih = set_free-free_at table u qnic qubit x g y' in
      ap (λ v. free_at v qnic x) (sym k) ∙ omega (arith, ih)
]
