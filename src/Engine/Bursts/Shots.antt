-- ===== src/Engine/Bursts/Shots.antt =====
-- The shots of a burst and its tracker (quisp/modules/RuleEngine.cc), and how the list of failed
-- attempts divides them.
use quisp.Prelude.{
  ℕ, zero, suc, ◌+◌, ℤ, pos, ◌==ℤ◌, ◌==◌, ltb_ℤ, Bool, true, false, ◌&&◌, if◌then◌else◌, Bool-cases,
  List, [], ◌∷◌, ◌++◌, length, get_elem?, Option, none, some, ok, or_fail, lookup, insert_multi,
  shot_not_recorded, ◌≡◌, refl, sym, ap, ◌∙◌, inl, inr, arith,
}
use quisp.Rules.Types.{Resources}
use quisp.Engine.Bursts.{QubitAddr}

found_is : (o : Option QubitAddr) (a : QubitAddr) → or_fail o shot_not_recorded ≡ ok a → o ≡ some a
found_is none a h = cc
found_is (some b) a h = cc

some_is : (a b : QubitAddr) → some a ≡ some b → a ≡ b
some_is a b h = cc

-- The tracker of a burst: the shots under their numbers, from a number on.
abbrev pub numbered : ℕ → List QubitAddr → List (ℤ × QubitAddr)
numbered i [] = []
numbered i (addr ∷ shots) = (pos i, addr) ∷ numbered (i + 1) shots

-- The shots whose attempt failed by the list, those whose attempt succeeded, and those beyond it: the
-- first entry of the list is about the first shot, and so on.
abbrev pub failed_shots : List QubitAddr → List Bool → List QubitAddr
failed_shots (addr ∷ shots) (true ∷ list) = addr ∷ failed_shots shots list
failed_shots (addr ∷ shots) (false ∷ list) = failed_shots shots list
failed_shots _ _ = []

abbrev pub entangled_shots : List QubitAddr → List Bool → List QubitAddr
entangled_shots (addr ∷ shots) (true ∷ list) = entangled_shots shots list
entangled_shots (addr ∷ shots) (false ∷ list) = addr ∷ entangled_shots shots list
entangled_shots _ _ = []

abbrev pub unlisted_shots : List QubitAddr → List Bool → List QubitAddr
unlisted_shots shots [] = shots
unlisted_shots [] (failed ∷ list) = []
unlisted_shots (addr ∷ shots) (failed ∷ list) = unlisted_shots shots list

-- How often an address is among shots.
abbrev pub times : ℤ → List QubitAddr → ℕ
times x [] = 0
times x (addr ∷ shots) = (if addr.qubit_index ==ℤ x then 1 else 0) + times x shots

-- How often a qubit is filed under a partner.
abbrev pub filings : ℤ → ℕ → Resources → ℕ
filings k q [] = 0
filings k q ((a, p) ∷ r) = (if (a ==ℤ k) && (p == q) then 1 else 0) + filings k q r

abbrev pub is_qubit : Option ℕ → ℕ → Bool
is_qubit none q = false
is_qubit (some p) q = p == q

-- How often a qubit should be filed under a partner for shots that succeeded, with the neighbour and
-- with what the module tree finds at an address.
abbrev pub to_file : (neighbor : ℤ) → (ℤ → Option ℕ) → ℤ → ℕ → List QubitAddr → ℕ
to_file neighbor find k q [] = 0
to_file neighbor find k q (addr ∷ shots) =
    (if (neighbor ==ℤ k) && is_qubit (find addr.qubit_index) q then 1 else 0)
    + to_file neighbor find k q shots

pub filings-insert :
    (k : ℤ) (q : ℕ) (a : ℤ) (p : ℕ) (r : Resources)
    → filings k q (insert_multi a p r) ≡ filings k q r + (if (a ==ℤ k) && (p == q) then 1 else 0)
unfolding insert_multi
filings-insert k q a p [] = omega arith
filings-insert k q a p ((b, o) ∷ r) = elim (Bool-cases (ltb_ℤ a b)) [
  | inl e ↦ rw e (omega arith)
  | inr e ↦ let ih = filings-insert k q a p r in rw e (omega arith)
]

pub length-numbered : (i : ℕ) (shots : List QubitAddr) → length (numbered i shots) ≡ length shots
length-numbered i [] = refl
length-numbered i (addr ∷ shots) = ap suc (length-numbered (i + 1) shots)

-- The look-ups of a tracker from a number on find the shots.
abbrev pub Tracks : List (ℤ × QubitAddr) → ℕ → List QubitAddr → Type 0
Tracks m i shots = (j : ℕ) → lookup (pos (i + j)) m ≡ get_elem? shots j

pub numbered-Tracks : (i : ℕ) (shots : List QubitAddr) → Tracks (numbered i shots) i shots
unfolding lookup
numbered-Tracks i [] j = refl
numbered-Tracks i (addr ∷ shots) zero = let e : (i == i + 0) ≡ true = ground arith in rw e refl
numbered-Tracks i (addr ∷ shots) (suc j) =
    let e : (i == i + suc j) ≡ false = ground arith in
    let n : i + suc j ≡ i + 1 + j = omega arith in
    let later = ap (λ m. lookup (pos m) (numbered (i + 1) shots)) n in
    rw e (later ∙ numbered-Tracks (i + 1) shots j)

pub times-append : (x : ℤ) (f g : List QubitAddr) → times x (f ++ g) ≡ times x f + times x g
times-append x [] g = omega arith
times-append x (addr ∷ f) g = omega (arith, times-append x f g)

pub to_file-append :
    (neighbor : ℤ) (find : ℤ → Option ℕ) (k : ℤ) (q : ℕ) (f g : List QubitAddr)
    → to_file neighbor find k q (f ++ g) ≡ to_file neighbor find k q f + to_file neighbor find k q g
to_file-append neighbor find k q [] g = omega arith
to_file-append neighbor find k q (addr ∷ f) g = omega (arith, to_file-append neighbor find k q f g)

-- The first of the shots is the one that a look-up finds, and the others are tracked from the next
-- number on.
abbrev pub Splits : List (ℤ × QubitAddr) → ℕ → QubitAddr → List QubitAddr → Type 0
Splits m i addr shots = (rest : List QubitAddr) × (shots ≡ addr ∷ rest) × Tracks m (i + 1) rest

pub split :
    (m : List (ℤ × QubitAddr)) (i : ℕ) (addr : QubitAddr) (shots : List QubitAddr)
    → Tracks m i shots
    → or_fail (lookup (pos i) m) shot_not_recorded ≡ ok addr
    → Splits m i addr shots
split m i addr shots t h =
    let here : i + 0 ≡ i = omega arith in
    let at = ap (λ n. lookup (pos n) m) (sym here) ∙ t 0 in
    go shots t (sym at ∙ found_is (lookup (pos i) m) addr h)
  where
    go :
        (shots : List QubitAddr)
        → Tracks m i shots
        → get_elem? shots 0 ≡ some addr
        → Splits m i addr shots
    go [] t e = cc
    go (a ∷ rest) t e = (
      rest,
      ap (λ x. x ∷ rest) (some_is a addr e),
      λ j. let n : i + 1 + j ≡ i + suc j = omega arith in ap (λ n. lookup (pos n) m) n ∙ t (suc j),
    )
