-- ===== src/Connection/Path.antt =====
-- quisp/modules/ConnectionManager.cc, computePathDivisionSize and fillPathDivision: a path of hops
-- is divided in two until single hops are left. Both are called with a number of hops that is a
-- size, so it is a natural number here. The recursion takes fuel; the entry points give as much as
-- there are hops.
pub mod Plan
pub mod Writes
pub mod Order
use quisp.Prelude.{
  ℕ, zero, suc, ◌+◌, ◌-◌, ◌/◌, ◌==◌, ltb, ℤ, minus_one, if◌then◌else◌, true, false, List, get_elem?,
  set, Result, ok, ◌>>=◌, out_of_range, or_fail,
}

pub division_size : ℕ → ℕ → ℕ
division_size zero l = l
division_size (suc fuel) l = elim (ltb 1 l) [
  | true ↦ division_size fuel (l / 2) + division_size fuel (l - l / 2) + 1
  | false ↦ l
]

unfoldable pub compute_path_division_size : ℕ → ℕ
unfolding division_size
compute_path_division_size l = division_size l l

-- The three output arrays.
pub record Divisions : Type 0 where
  pub link_left : List ℤ
  pub link_right : List ℤ
  pub swapper : List ℤ

-- `path.at(i)`
abbrev pub at : List ℤ → ℕ → Result ℤ
at path i = or_fail (get_elem? path i) out_of_range

-- The block under `if (l > 0)`.
write_link : List ℤ → ℕ → ℕ → Divisions → ℕ → Result (Divisions × ℕ)
write_link path i l d k = do
  left ← at path i
  right ← at path (i + l)
  let labels = if l == 1 then set d.swapper k minus_one else d.swapper
  ok (
    record {
      link_left = set d.link_left k left;
      link_right = set d.link_right k right;
      swapper = labels;
    },
    k + 1,
  )

record_link : List ℤ → ℕ → ℕ → Divisions → ℕ → Result (Divisions × ℕ)
unfolding write_link
record_link path i l d k = if ltb 0 l then write_link path i l d k else ok (d, k)

pub fill_division : ℕ → List ℤ → ℕ → ℕ → Divisions → ℕ → Result (Divisions × ℕ)
fill_division zero path i l d k = record_link path i l d k
fill_division (suc fuel) path i l d k = elim (ltb 1 l) [
  | true ↦ do
    (d', k') ← fill_division fuel path i (l / 2) d k
    (d'', k'') ← fill_division fuel path (i + l / 2) (l - l / 2) d' k'
    middle ← at path (i + l / 2)
    record_link path i l (record d'' { swapper = set d''.swapper k'' middle }) k''
  | false ↦ record_link path i l d k
]

unfoldable pub fill_path_division : List ℤ → ℕ → ℕ → Divisions → ℕ → Result (Divisions × ℕ)
unfolding fill_division record_link
fill_path_division path i l d k = fill_division l path i l d k
