-- ===== src/Connection/Path/Plan.antt =====
-- The division of a path as a list of links over positions in the path, in the order in which
-- fillPathDivision (quisp/modules/ConnectionManager.cc) writes them.
use quisp.Prelude.{
  ℕ, zero, suc, ◌+◌, ◌-◌, ◌*◌, ◌/◌, ◌≤◌, ◌<◌, ◌==◌, ltb, if◌then◌else◌, true, false, ◌≡◌, List, [],
  ◌∷◌, ◌++◌, length, length-append, arith,
}
use quisp.Connection.Path.{division_size, compute_path_division_size}

-- A link of one hop, or one that a node makes out of two shorter ones.
pub data Link : Type 0 where
  hop : ℕ → ℕ → Link
  swap : (left middle right : ℕ) → Link

unfoldable pub plan : ℕ → ℕ → ℕ → List Link
plan zero i l = if l == 0 then [] else hop i (i + l) ∷ []
plan (suc fuel) i l = elim (ltb 1 l) [
  | true ↦
      plan fuel i (l / 2) ++ (plan fuel (i + l / 2) (l - l / 2) ++ swap i (i + l / 2) (i + l) ∷ [])
  | false ↦ if l == 0 then [] else hop i (i + l) ∷ []
]

division_size-double : (fuel l : ℕ) → l ≤ fuel → 0 < l → division_size fuel l + 1 ≡ 2 * l
unfolding division_size
division_size-double zero l b h = absurd (omega arith)
division_size-double (suc fuel) l b h =
    ground (arith, division_size-double fuel (l / 2), division_size-double fuel (l - l / 2))

pub plan_split :
    (fuel i l : ℕ)
    → 1 < l
    → plan (suc fuel) i l
      ≡ plan fuel i (l / 2)
        ++ (plan fuel (i + l / 2) (l - l / 2) ++ swap i (i + l / 2) (i + l) ∷ [])
unfolding plan
plan_split fuel i l h = ground arith

pub plan_hop : (fuel i l : ℕ) → l ≡ 1 → plan fuel i l ≡ hop i (i + l) ∷ []
unfolding plan
plan_hop zero i l h = ground arith
plan_hop (suc fuel) i l h = ground arith

pub plan_none : (fuel i l : ℕ) → l ≡ 0 → plan fuel i l ≡ []
unfolding plan
plan_none zero i l h = ground arith
plan_none (suc fuel) i l h = ground arith

-- For a path of `l` hops, `l` positive, the computed size is `2 * l - 1`.
pub compute_path_division_size_lem : (l : ℕ) → 0 < l → compute_path_division_size l + 1 ≡ 2 * l
unfolding compute_path_division_size
compute_path_division_size_lem l = division_size-double l l (omega arith)

pub length-plan : (fuel i l : ℕ) → l ≤ fuel → length (plan fuel i l) ≡ division_size fuel l
unfolding division_size
length-plan zero i l b = ground (arith, plan_none 0 i l)
length-plan (suc fuel) i l b = ground (
  arith,
  plan_none (suc fuel) i l,
  plan_hop (suc fuel) i l,
  plan_split fuel i l,
  length-append (plan fuel i (l / 2))
      (plan fuel (i + l / 2) (l - l / 2) ++ swap i (i + l / 2) (i + l) ∷ []),
  length-append (plan fuel (i + l / 2) (l - l / 2)) (swap i (i + l / 2) (i + l) ∷ []),
  length-plan fuel i (l / 2),
  length-plan fuel (i + l / 2) (l - l / 2),
)
