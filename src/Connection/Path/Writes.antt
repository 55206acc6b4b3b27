-- ===== src/Connection/Path/Writes.antt =====
-- fillPathDivision (quisp/modules/ConnectionManager.cc) against the plan of links.
use native.Mathlib.Nat.{zero-add}
use quisp.Prelude.{
  ℕ, zero, suc, ◌+◌, ◌-◌, ◌/◌, ◌<◌, ◌≡◌, refl, ◌∙◌, ap, sym, ℤ, pos, minus_one, List, [], ◌∷◌, ◌++◌,
  map, subst, set_from, set_from-cover, length-map, get_elem?-eq-get_or, get_or, set, length,
  length-append, dec_lt, ◌≤◌, arith, ok,
}
use quisp.Connection.Path.{
  Divisions, at, record_link, fill_division, fill_path_division, compute_path_division_size,
}
use quisp.Connection.Path.Plan.{Link, hop, swap, plan, plan_none, plan_hop, plan_split, length-plan}

abbrev pub node : List ℤ → ℕ → ℤ
node path i = get_or path i (pos 0)

-- The three cells of a link.
abbrev pub left_end : List ℤ → Link → ℤ
left_end path (hop i j) = node path i
left_end path (swap i m j) = node path i

abbrev pub right_end : List ℤ → Link → ℤ
right_end path (hop i j) = node path j
right_end path (swap i m j) = node path j

abbrev pub middle : List ℤ → Link → ℤ
middle path (hop i j) = minus_one
middle path (swap i m j) = node path m

write_at : List ℤ → Divisions → ℕ → Link → Divisions
write_at path d k e = record {
  link_left = set d.link_left k (left_end path e);
  link_right = set d.link_right k (right_end path e);
  swapper = set d.swapper k (middle path e);
}

pub write : List ℤ → Divisions → ℕ → List Link → Divisions
write path d k [] = d
write path d k (e ∷ es) = write path (write_at path d k e) (k + 1) es

write-append :
    (path : List ℤ) (d : Divisions) (k : ℕ) (xs ys : List Link)
    → write path d k (xs ++ ys) ≡ write path (write path d k xs) (k + length xs) ys
unfolding write
write-append path d k [] ys = let e : k + 0 ≡ k = omega arith in rw e
write-append path d k (x ∷ xs) ys =
    let e : k + suc (length xs) ≡ k + 1 + length xs = omega arith in
    rw e (write-append path (write_at path d k x) (k + 1) xs ys)

at_of_lt : (path : List ℤ) (i : ℕ) → i < length path → at path i ≡ ok (node path i)
at_of_lt path i h = rw (get_elem?-eq-get_or path i (pos 0) h)

record_link_hop :
    (path : List ℤ) (i l : ℕ) (d : Divisions) (k : ℕ)
    → l ≡ 1
    → i + l < length path
    → record_link path i l d k ≡ ok (write_at path d k (hop i (i + l)), k + 1)
unfolding record_link write_at
record_link_hop path i l d k e h =
    ground (arith, get_elem?-eq-get_or path i (pos 0), get_elem?-eq-get_or path (i + l) (pos 0))

record_link_swap :
    (path : List ℤ) (i l : ℕ) (d : Divisions) (k : ℕ)
    → 1 < l
    → i + l < length path
    → record_link path i l (record d { swapper = set d.swapper k (node path (i + l / 2)) }) k
      ≡ ok (write_at path d k (swap i (i + l / 2) (i + l)), k + 1)
unfolding record_link write_at
record_link_swap path i l d k e h =
    ground (arith, get_elem?-eq-get_or path i (pos 0), get_elem?-eq-get_or path (i + l) (pos 0))

-- The recursive case, with its first two calls known.
fill_division_split :
    (fuel : ℕ) (path : List ℤ) (i l : ℕ) (d d' d'' : Divisions) (k k' k'' : ℕ)
    → 1 < l
    → i + l < length path
    → fill_division fuel path i (l / 2) d k ≡ ok (d', k')
    → fill_division fuel path (i + l / 2) (l - l / 2) d' k' ≡ ok (d'', k'')
    → fill_division (suc fuel) path i l d k
      ≡ ok (write_at path d'' k'' (swap i (i + l / 2) (i + l)), k'' + 1)
unfolding fill_division
fill_division_split fuel path i l d d' d'' k k' k'' p h e e' =
    ground (arith, at_of_lt path (i + l / 2), record_link_swap path i l d'' k'')

fill_division_hop :
    (fuel : ℕ) (path : List ℤ) (i l : ℕ) (d : Divisions) (k : ℕ)
    → l ≡ 1
    → i + l < length path
    → fill_division fuel path i l d k ≡ ok (write_at path d k (hop i (i + l)), k + 1)
unfolding fill_division
fill_division_hop zero path i l d k e h = record_link_hop path i l d k e h
fill_division_hop (suc fuel) path i l d k e h = ground (arith, record_link_hop path i l d k)

fill_division_none :
    (fuel : ℕ) (path : List ℤ) (i l : ℕ) (d : Divisions) (k : ℕ)
    → l ≡ 0
    → fill_division fuel path i l d k ≡ ok (d, k)
unfolding fill_division record_link
fill_division_none zero path i l d k e = ground arith
fill_division_none (suc fuel) path i l d k e = ground arith

write_last :
    (path : List ℤ) (d : Divisions) (k : ℕ) (xs ys : List Link) (e : Link)
    → write path d k (xs ++ (ys ++ e ∷ []))
      ≡ write_at path
          (write path (write path d k xs) (k + length xs) ys)
          (k + length xs + length ys)
          e
unfolding write
write_last path d k xs ys e =
    write-append path d k xs (ys ++ e ∷ [])
    ∙ write-append path (write path d k xs) (k + length xs) ys (e ∷ [])

fill_division_single :
    (fuel : ℕ) (path : List ℤ) (i l : ℕ) (d : Divisions) (k : ℕ)
    → l ≤ 1
    → i + l < length path
    → fill_division fuel path i l d k
      ≡ ok (write path d k (plan fuel i l), k + length (plan fuel i l))
unfolding write
fill_division_single fuel path i zero d k b h =
    rw (fill_division_none fuel path i 0 d k refl, plan_none fuel i 0 refl)
      (ap (λ n. ok (d, n)) (omega arith))
fill_division_single fuel path i (suc zero) d k b h =
    rw (fill_division_hop fuel path i 1 d k refl h, plan_hop fuel i 1 refl) refl
fill_division_single fuel path i (suc (suc l)) d k b h = absurd (omega arith)

-- The code writes the links of the plan, from `fill_start` on, and returns the index behind them.
pub fill_division-write :
    (fuel : ℕ) (path : List ℤ) (i l : ℕ) (d : Divisions) (k : ℕ)
    → l ≤ fuel
    → i + l < length path
    → fill_division fuel path i l d k
      ≡ ok (write path d k (plan fuel i l), k + length (plan fuel i l))
fill_division-write zero path i l d k b h = fill_division_single zero path i l d k (omega arith) h
fill_division-write (suc fuel) path i l d k b h = elim (dec_lt 1 l) [
  | no e ↦ fill_division_single (suc fuel) path i l d k (omega arith) h
  | yes lt ↦
      let left = plan fuel i (l / 2) in
      let right = plan fuel (i + l / 2) (l - l / 2) in
      let top = swap i (i + l / 2) (i + l) in
      let once = write path d k left in
      let twice = write path once (k + length left) right in
      let stop = k + length left + length right in
      let count : k + length left + length right + 1 ≡ k + length (left ++ (right ++ top ∷ [])) =
        omega (arith, length-append left (right ++ top ∷ []), length-append right (top ∷ [])) in
      fill_division_split fuel path i l d once twice k (k + length left) stop lt h
        (fill_division-write fuel path i (l / 2) d k (omega arith) (omega arith))
        (fill_division-write fuel path (i + l / 2) (l - l / 2) once (k + length left) (omega arith)
          (omega arith))
      ∙ rw (plan_split fuel i l lt, write_last path d k left right top)
          (ap (λ n. ok (write_at path twice stop top, n)) count)
]

-- Arrays that hold the links of a list, one cell for each.
abbrev pub cells : List ℤ → List Link → Divisions
cells path es = record {
  link_left = map (left_end path) es;
  link_right = map (right_end path) es;
  swapper = map (middle path) es;
}

write-set_from :
    (path : List ℤ) (d : Divisions) (k : ℕ) (es : List Link)
    → write path d k es ≡ record {
      link_left = set_from d.link_left k (map (left_end path) es);
      link_right = set_from d.link_right k (map (right_end path) es);
      swapper = set_from d.swapper k (map (middle path) es);
    }
unfolding write write_at
write-set_from path d k [] = refl
write-set_from path d k (e ∷ es) = write-set_from path (write_at path d k e) (k + 1) es

-- Arrays of this many cells, which is what `new int[divisions]` gives.
pub record HasSize (d : Divisions) (n : ℕ) : Type 0 where
  pub lefts : length d.link_left ≡ n
  pub rights : length d.link_right ≡ n
  pub swappers : length d.swapper ≡ n

write-cells :
    (path : List ℤ) (d : Divisions) (es : List Link)
    → HasSize d (length es)
    → write path d 0 es ≡ cells path es
write-cells path d es h =
    write-set_from path d 0 es
    ∙ rw (
      set_from-cover d.link_left (map (left_end path) es) (h.lefts ∙ sym (length-map _ es)),
      set_from-cover d.link_right (map (right_end path) es) (h.rights ∙ sym (length-map _ es)),
      set_from-cover d.swapper (map (middle path) es) (h.swappers ∙ sym (length-map _ es)),
    )

-- Called as the responder calls it, fillPathDivision fills its arrays exactly, from the plan.
pub fill_path_division-plan :
    (path : List ℤ) (l : ℕ) (d : Divisions)
    → l < length path
    → HasSize d (compute_path_division_size l)
    → fill_path_division path 0 l d 0 ≡ ok (cells path (plan l 0 l), compute_path_division_size l)
unfolding fill_path_division compute_path_division_size
fill_path_division-plan path l d h s =
    let n = length-plan l 0 l (omega arith) in
    fill_division-write l path 0 l d 0 (omega arith) (omega arith)
    ∙ rw (write-cells path d (plan l 0 l) (subst (HasSize d) (sym n) s))
        (ap (λ k. ok (cells path (plan l 0 l), k)) (zero-add _ ∙ n))
