-- ===== src/Connection/Path/Order.antt =====
-- The order in which the links of a path are made, and who makes them
-- (quisp/modules/ConnectionManager.cc, fillPathDivision).
use native.Mathlib.Nat.{zero-add, add-zero}
use quisp.Prelude.{
  ℕ, zero, suc, ◌+◌, ◌-◌, ◌/◌, ◌≤◌, ◌<◌, ltb, ◌==◌, ◌&&◌, if◌then◌else◌, ◌≡◌, refl, subst, ◌⊎◌, inl,
  inr, ℤ, List, [], ◌∷◌, ◌++◌, length, dec_lt, arith, ok,
}
use quisp.Connection.Path.{Divisions, compute_path_division_size, fill_path_division}
use quisp.Connection.Path.Plan.{Link, hop, swap, plan, plan_none, plan_hop, plan_split}
use quisp.Connection.Path.Writes.{cells, HasSize, fill_path_division-plan}

-- Some link of the list joins these two positions.
abbrev pub Joins : ℕ → ℕ → List Link → Type 0
Joins i j [] = ⊥
Joins i j (hop a b ∷ es) = ((a ≡ i) × (b ≡ j)) ⊎ Joins i j es
Joins i j (swap a m b ∷ es) = ((a ≡ i) × (b ≡ j)) ⊎ Joins i j es

-- Every hop joins neighbours, and every swap joins two links that were made before it and meet at
-- the node that swaps.
abbrev pub IsScheduled : List Link → List Link → Type 0
IsScheduled made [] = Unit
IsScheduled made (hop a b ∷ es) = (b ≡ a + 1) × IsScheduled (hop a b ∷ made) es
IsScheduled made (swap a m b ∷ es) =
    Joins a m made × Joins m b made × IsScheduled (swap a m b ∷ made) es

-- What is made when the list has been worked through, the latest first.
abbrev pub after : List Link → List Link → List Link
after made [] = made
after made (e ∷ es) = after (e ∷ made) es

Joins-cons : (i j : ℕ) (e : Link) (es : List Link) → Joins i j es → Joins i j (e ∷ es)
Joins-cons i j (hop a b) es h = inr h
Joins-cons i j (swap a m b) es h = inr h

Joins-after : (i j : ℕ) (made es : List Link) → Joins i j made → Joins i j (after made es)
Joins-after i j made [] h = h
Joins-after i j made (e ∷ es) h = Joins-after i j (e ∷ made) es (Joins-cons i j e made h)

after-append : (made xs ys : List Link) → after made (xs ++ ys) ≡ after (after made xs) ys
after-append made [] ys = refl
after-append made (x ∷ xs) ys = after-append (x ∷ made) xs ys

IsScheduled-append :
    (made xs ys : List Link)
    → IsScheduled made xs
    → IsScheduled (after made xs) ys
    → IsScheduled made (xs ++ ys)
IsScheduled-append made [] ys h g = g
IsScheduled-append made (hop a b ∷ xs) ys h g = (h.0, IsScheduled-append _ xs ys h.1 g)
IsScheduled-append made (swap a m b ∷ xs) ys h g = (h.0, h.1, IsScheduled-append _ xs ys h.2 g)

plan-IsScheduled :
    (fuel i l : ℕ) (made : List Link)
    → l ≤ fuel
    → 0 < l
    → IsScheduled made (plan fuel i l) × Joins i (i + l) (after made (plan fuel i l))
plan-IsScheduled zero i l made b h = absurd (omega arith)
plan-IsScheduled (suc fuel) i l made b h = elim (dec_lt 1 l) [
  | no e ↦
      let one : l ≡ 1 = omega arith in
      rw (plan_hop (suc fuel) i l one) ((omega arith, tt), inl (refl, refl))
  | yes lt ↦
      let left = plan fuel i (l / 2) in
      let right = plan fuel (i + l / 2) (l - l / 2) in
      let top = swap i (i + l / 2) (i + l) in
      let end : i + l / 2 + (l - l / 2) ≡ i + l = omega arith in
      let first = plan-IsScheduled fuel i (l / 2) made (omega arith) (omega arith) in
      let second =
        plan-IsScheduled fuel (i + l / 2) (l - l / 2) (after made left) (omega arith)
          (omega arith) in
      rw (plan_split fuel i l lt) (
        IsScheduled-append made left (right ++ top ∷ []) first.0 (
            IsScheduled-append (after made left) right (top ∷ []) second.0 (
              Joins-after i (i + l / 2) (after made left) right first.1,
              subst (λ j. Joins (i + l / 2) j (after (after made left) right)) end second.1,
              tt,
            )),
        rw
            (
              after-append made left (right ++ top ∷ []),
              after-append (after made left) right (top ∷ []),
            )
            (inl (refl, refl)),
      )
]

-- How often the node at a position swaps.
abbrev pub swaps_at : ℕ → List Link → ℕ
swaps_at m [] = 0
swaps_at m (hop a b ∷ es) = swaps_at m es
swaps_at m (swap a n b ∷ es) = (if n == m then 1 else 0) + swaps_at m es

swaps_at-append :
    (m : ℕ) (xs ys : List Link) → swaps_at m (xs ++ ys) ≡ swaps_at m xs + swaps_at m ys
swaps_at-append m [] ys = omega arith
swaps_at-append m (hop a b ∷ xs) ys = swaps_at-append m xs ys
swaps_at-append m (swap a n b ∷ xs) ys = omega (arith, swaps_at-append m xs ys)

-- One if `m` lies strictly between the two numbers, and none otherwise.
abbrev pub between : ℕ → ℕ → ℕ → ℕ
between a b m = if ltb a m && ltb m b then 1 else 0

between_split :
    (a h b m : ℕ)
    → a < h
    → h < b
    → between a h m + (between h b m + (if h == m then 1 else 0)) ≡ between a b m
between_split a h b m p q = ground arith

swaps_at-plan : (m fuel i l : ℕ) → l ≤ fuel → swaps_at m (plan fuel i l) ≡ between i (i + l) m
swaps_at-plan m zero i l b = rw (plan_none zero i l (omega arith)) (ground arith)
swaps_at-plan m (suc fuel) i l b = elim (dec_lt 1 l) [
  | no e ↦ ground (arith, plan_none (suc fuel) i l, plan_hop (suc fuel) i l)
  | yes lt ↦
      let left = plan fuel i (l / 2) in
      let right = plan fuel (i + l / 2) (l - l / 2) in
      let top = swap i (i + l / 2) (i + l) in
      let end : i + l / 2 + (l - l / 2) ≡ i + l = omega arith in
      rw
        (
          plan_split fuel i l lt,
          swaps_at-append m left (right ++ top ∷ []),
          swaps_at-append m right (top ∷ []),
          swaps_at-plan m fuel i (l / 2) (omega arith),
          swaps_at-plan m fuel (i + l / 2) (l - l / 2) (omega arith),
          end,
          add-zero,
        )
        (between_split i (i + l / 2) (i + l) m (omega arith) (omega arith))
]

-- What the arrays hold after the division of a path of `l` hops.
pub record IsDivision (l : ℕ) (links : List Link) : Type 0 where
  pub scheduled : IsScheduled [] links
  pub joined : Joins 0 l (after [] links)
  pub swaps_once : (m : ℕ) → swaps_at m links ≡ between 0 l m

-- On arrays of the computed size and a path with more nodes than the `l` hops, fillPathDivision
-- returns the computed size and leaves in the arrays a list of links in which every hop joins
-- neighbours, every swap joins two links made earlier, the two ends get joined, and every node
-- strictly between the ends, and no other, swaps exactly once.
pub fill_path_division-IsDivision :
    (path : List ℤ) (l : ℕ) (d : Divisions)
    → 0 < l
    → l < length path
    → HasSize d (compute_path_division_size l)
    → (links : List Link) × (fill_path_division path 0 l d 0
        ≡ ok (cells path links, compute_path_division_size l))
      × IsDivision l links
fill_path_division-IsDivision path l d p h s =
    let made = plan-IsScheduled l 0 l [] (omega arith) p in
    (
      plan l 0 l,
      fill_path_division-plan path l d h s,
      record {
        scheduled = made.0;
        joined = subst (λ j. Joins 0 j (after [] (plan l 0 l))) (zero-add l) made.1;
        swaps_once = λ m. rw (swaps_at-plan m l 0 l (omega arith), zero-add);
      },
    )
