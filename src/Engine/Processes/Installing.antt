-- ===== src/Engine/Processes/Installing.antt =====
-- The keys of running processes (quisp/modules/RuleEngine.cc, where rule sets arrive and end).
use quisp.Prelude.{
  ℕ, suc, ◌+◌, ◌<◌, ◌≤◌, ℤ, pos, ◌==◌, ltb, Bool, true, false, List, [], ◌∷◌, ◌++◌, length, ok,
  insert_new, ◌≡◌, refl, ap, ◌∙◌, arith,
}
use quisp.Rules.Types.{Rule, RuleSet}
use quisp.Engine.Processes.{install, erase_process}

-- Processes under consecutive keys from n on.
abbrev pub numbered : ℕ → List RuleSet → List (ℤ × RuleSet)
numbered n [] = []
numbered n (rs ∷ rp) = (pos n, rs) ∷ numbered (n + 1) rp

length-numbered : (n : ℕ) (rp : List RuleSet) → length (numbered n rp) ≡ length rp
length-numbered n [] = refl
length-numbered n (rs ∷ rp) = ap suc (length-numbered (n + 1) rp)

insert_new-numbered :
    (n k : ℕ) (rs : RuleSet) (rp : List RuleSet)
    → k ≡ n + length rp
    → insert_new (pos k) rs (numbered n rp) ≡ numbered n (rp ++ rs ∷ [])
unfolding insert_new
insert_new-numbered n k rs [] h = ground arith
insert_new-numbered n k rs (p ∷ rp) h =
    let e = insert_new-numbered (n + 1) k rs rp (omega arith) in
    let different : (n == k) ≡ false = ground arith in
    let above : ltb (k + 0) (n + 0) ≡ false = ground arith in
    rw (different, above) (ap (◌∷◌ (pos n, p)) e)

-- An entry under the key hides what is inserted.
insert_new-taken :
    (n k : ℕ) (rs : RuleSet) (rp : List RuleSet)
    → n ≤ k
    → k < n + length rp
    → insert_new (pos k) rs (numbered n rp) ≡ numbered n rp
unfolding insert_new
insert_new-taken n k rs [] l h = absurd (omega arith)
insert_new-taken n k rs (p ∷ rp) l h = ground (arith, insert_new-taken (n + 1) k rs rp)

insert_new-erased :
    (n k j : ℕ) (rs : RuleSet) (rp : List RuleSet)
    → n ≤ k
    → k < j
    → j < n + length rp
    → insert_new (pos j) rs (erase_process (pos k) (numbered n rp))
      ≡ erase_process (pos k) (numbered n rp)
unfolding insert_new erase_process
insert_new-erased n k j rs [] l m h = absurd (omega arith)
insert_new-erased n k j rs (p ∷ rp) l m h =
    ground (arith, insert_new-erased (n + 1) k j rs rp, insert_new-taken (n + 1) j rs rp)

length-erased :
    (n k : ℕ) (rp : List RuleSet)
    → n ≤ k
    → k < n + length rp
    → length (erase_process (pos k) (numbered n rp)) + 1 ≡ length rp
unfolding erase_process
length-erased n k [] l h = absurd (omega arith)
length-erased n k (p ∷ rp) l h =
    ground (arith, length-erased (n + 1) k rp, length-numbered (n + 1) rp)

abbrev pub has_rules : List Rule → Bool
has_rules [] = false
has_rules (rule ∷ rules) = true

install_lem :
    (rs : RuleSet) (rp : List (ℤ × RuleSet))
    → has_rules rs.rules ≡ true
    → install rs rp ≡ ok (insert_new (pos (length rp)) rs rp)
unfolding install
install_lem rs rp h = ground arith

-- A rule set with a rule that arrives while the processes have the keys from 0 on runs under the next key,
-- behind the others. But once one of at least two processes other than the last one has ended, a rule
-- set that arrives is dropped without an error: the processes stay the same.
pub install-erase_process :
    (rs : RuleSet) (rp : List RuleSet) (k : ℕ)
    → has_rules rs.rules ≡ true
    → k + 1 < length rp
    → (install rs (numbered 0 rp) ≡ ok (numbered 0 (rp ++ rs ∷ [])))
      × (install rs (erase_process (pos k) (numbered 0 rp))
          ≡ ok (erase_process (pos k) (numbered 0 rp)))
install-erase_process rs rp k h l = (
  install_lem rs (numbered 0 rp) h
      ∙ ap ok (
          insert_new-numbered 0 (length (numbered 0 rp)) rs rp
            (omega (arith, length-numbered 0 rp))),
  let left = erase_process (pos k) (numbered 0 rp) in
      let size : length left + 1 ≡ length rp = length-erased 0 k rp (omega arith) (omega arith) in
      install_lem rs left h
      ∙ ap ok (
          insert_new-erased 0 k (length left) rs rp (omega arith) (omega (arith, size))
            (omega (arith, size))),
)
