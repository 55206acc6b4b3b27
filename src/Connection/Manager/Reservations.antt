-- ===== src/Connection/Manager/Reservations.antt =====
-- The table of reservations (quisp/modules/ConnectionManager.cc, reserveQnic, releaseQnic and
-- isQnicBusy) and what the handlers of the nodes that forward do to it.
use quisp.Prelude.{
  ℤ, ◌==ℤ◌, ==ℤ_iff, Bool, true, false, List, [], ◌∷◌, Option, some, lookup, assign, lookup-assign,
  Result-cases, err_not_ok, inl, inr, subst, ok, ◌>>=◌, ◌≡◌, refl, ap, arith,
}
use quisp.Connection.Manager.{Manager, reserve_qnic, release_qnic}

-- The entry that the table has for a qnic.
abbrev pub entry : ℤ → Manager → Option Bool
entry a m = lookup a m.qnic_res_table

assign-assign :
    (a : ℤ) (v w : Bool) (t : List (ℤ × Bool)) → assign a v (assign a w t) ≡ assign a v t
unfolding assign
assign-assign a v w [] = refl
assign-assign a v w ((j, u) ∷ t) = ground (arith, assign-assign a v w t)

assign_same : (a : ℤ) (v : Bool) (t : List (ℤ × Bool)) → lookup a t ≡ some v → assign a v t ≡ t
unfolding assign lookup
assign_same a v [] h = refl
assign_same a v ((j, u) ∷ t) h = ground (arith, assign_same a v t)

-- The state with the entry of a qnic set.
abbrev pub marked : Bool → ℤ → Manager → Manager
marked b a m = record m { qnic_res_table = assign a b m.qnic_res_table }

pub reserve_free :
    (a : ℤ) (m : Manager) → entry a m ≡ some false → reserve_qnic a m ≡ ok (marked true a m)
unfolding reserve_qnic assign
reserve_free a m h = rw (reserve_qnic, h) refl

release_held :
    (a : ℤ) (m : Manager) → entry a m ≡ some true → release_qnic a m ≡ ok (marked false a m)
unfolding release_qnic assign
release_held a m h = rw (release_qnic, h) refl

pub reserve_qnic-ok :
    (a : ℤ) (m m' : Manager)
    → reserve_qnic a m ≡ ok m'
    → (entry a m ≡ some false) × (m' ≡ marked true a m)
unfolding reserve_qnic
reserve_qnic-ok a m m' h = ground arith

==ℤ_refl : (a : ℤ) → (a ==ℤ a) ≡ true
==ℤ_refl a = (==ℤ_iff a a).1 refl

pub ==ℤ_sym : (a b : ℤ) → (a ==ℤ b) ≡ false → (b ==ℤ a) ≡ false
==ℤ_sym a b h = ground arith

-- After a reservation the qnic is held, every other entry is as before, and giving the qnic back
-- restores the state.
pub release-reserve :
    (a : ℤ) (m m' : Manager)
    → reserve_qnic a m ≡ ok m'
    → (entry a m' ≡ some true)
      × ((b : ℤ) → (a ==ℤ b) ≡ false → entry b m' ≡ entry b m)
      × (release_qnic a m' ≡ ok m)
release-reserve a m m' h =
    let free = (reserve_qnic-ok a m m' h).0 in
    let e : m' ≡ marked true a m = (reserve_qnic-ok a m m' h).1 in
    let held : entry a (marked true a m) ≡ some true =
      rw (lookup-assign a a true false m.qnic_res_table free, ==ℤ_refl a) refl in
    let back : marked false a (marked true a m) ≡ m =
      ap (λ t. record m { qnic_res_table = t })
        (rw (assign-assign a false true m.qnic_res_table)
          (assign_same a false m.qnic_res_table free)) in
    rw e (
      held,
      λ b ne. rw (lookup-assign a b true false m.qnic_res_table free, ne) refl,
      rw (release_held a (marked true a m) held) (ap ok back),
    )

-- Both reservations of a node that forwards, undone in the opposite order.
pub release-reserve-pair :
    (a b : ℤ) (m m' : Manager)
    → (reserve_qnic a m >>= reserve_qnic b) ≡ ok m'
    → (release_qnic b m' >>= release_qnic a) ≡ ok m
release-reserve-pair a b m m' h = elim (Result-cases (reserve_qnic a m)) [
  | inl (m1, e1) ↦
      let e2 : reserve_qnic b m1 ≡ ok m' = subst (λ r. (r >>= reserve_qnic b) ≡ ok m') e1 h in
      rw ((release-reserve b m1 m' e2).2) ((release-reserve a m m1 e1).2)
  | inr (e, e1) ↦ absurd (err_not_ok e m' (subst (λ r. (r >>= reserve_qnic b) ≡ ok m') e1 h))
]
