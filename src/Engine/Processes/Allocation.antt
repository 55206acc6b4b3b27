-- ===== src/Engine/Processes/Allocation.antt =====
-- How new resources are shared among the rule sets (quisp/modules/RuleEngine.cc, ResourceAllocation).
use quisp.Prelude.{
  ℕ, ◌+◌, ℤ, ◌==ℤ◌, ◌==◌, false, not, ◌&&◌, if◌then◌else◌, List, [], ◌∷◌, All, Result, ok, ◌≡◌,
}
use quisp.Rules.Types.{Resources, RuleSet}
use quisp.Qubits.{World}
use quisp.Engine.Unlock.Upgrade.{all_copies}
use quisp.Engine.Processes.{is_allocated, allocate_one}

-- How often a qubit is among the resources that the rules of all rule sets hold.
abbrev pub held_by_all : ℕ → List (ℤ × RuleSet) → ℕ
held_by_all p [] = 0
held_by_all p (process ∷ rp) = all_copies p process.1.rules + held_by_all p rp

-- How often a qubit is among the resources of a qnic without being allocated.
abbrev pub unallocated : ℕ → World → Resources → ℕ
unallocated p w [] = 0
unallocated p w ((a, q) ∷ r) =
    (if (q == p) && not (is_allocated w q) then 1 else 0) + unallocated p w r

-- A qubit is at most once among the resources.
abbrev pub IsApart : ℕ → Resources → Type 0
IsApart q r = All (λ (e : ℤ × ℕ). (e.1 == q) ≡ false) r

abbrev pub IsUnique : Resources → Type 0
IsUnique [] = Unit
IsUnique ((a, q) ∷ r) = IsApart q r × IsUnique r

-- The step for one resource: nothing, or the allocation.
abbrev step : (i : ℕ) → ℤ → ℤ → ℕ → RuleSet × World → Result (RuleSet × World)
step i partner a q s =
    if not (is_allocated s.1 q) && (partner ==ℤ a) then allocate_one i partner q s else ok s

abbrev balance : ℕ → Resources → RuleSet × World → ℕ
balance p r s = all_copies p s.0.rules + unallocated p s.1 r
