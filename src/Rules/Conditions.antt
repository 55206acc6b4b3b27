-- ===== src/Rules/Conditions.antt =====
-- quisp/rules/{Clause,Condition}.cc: the tests that decide whether a rule runs and when its rule set
-- ends. A test sees the resources of the rule, with `locked` telling which qubits are locked, and
-- returns itself as it is afterwards, since a MeasureCountClause counts how often it is asked. The
-- clauses without a return statement (FidelityClause, PurificationCountClause) are not data here.
pub mod Budget
pub mod Starving
use native.Mathlib.Nat.{zero-add}
use quisp.Prelude.{
  ℕ, zero, suc, ◌+◌, ℤ, pos, ◌==ℤ◌, ltb_ℤ, leb_ℤ, suc_ℤ, Bool, true, false, not, ◌&&◌, ◌||◌,
  if◌then◌else◌, List, [], ◌∷◌, ◌≡◌, refl, sym, ap, leb, arith,
}
use quisp.Rules.Types.{
  Resources, Clause, enough_resource, enough_resource_left, enough_resource_right, no_clause,
  measure_count,
}

-- The loop of the three EnoughResourceClause checks, from given values of its two variables.
unfoldable pub enough_loop : (ℕ → Bool) → (partner required : ℤ) → Resources → Bool → ℕ → Bool
enough_loop locked partner required [] enough num_free = enough
enough_loop locked partner required ((a, q) ∷ resource) enough num_free =
    let num_free' = if not (locked q) then num_free + 1 else num_free in
    let met =
      enough_loop locked partner required resource
        (if leb_ℤ required (pos num_free') then true else enough) num_free' in
    let skipped = enough_loop locked partner required resource enough num_free in
    if a ==ℤ partner then met else skipped

-- Clause::check
unfoldable pub check_clause : (ℕ → Bool) → Clause → Resources → Bool × Clause
unfolding enough_loop
check_clause locked (enough_resource p n) r =
    (enough_loop locked p n r false 0, enough_resource p n)
check_clause locked (enough_resource_left p n) r =
    (enough_loop locked p n r false 0, enough_resource_left p n)
check_clause locked (enough_resource_right p n) r =
    (enough_loop locked p n r false 0, enough_resource_right p n)
check_clause locked no_clause r = (true, no_clause)
check_clause locked (measure_count max_count current_count) r =
    if ltb_ℤ current_count max_count
    then (true, measure_count max_count (suc_ℤ current_count))
    else (false, measure_count max_count current_count)

-- Clause::checkTerminate
unfoldable pub check_terminate_clause : Clause → Bool
check_terminate_clause (measure_count max_count current_count) = leb_ℤ max_count current_count
check_terminate_clause _ = false

-- Condition::check, which stops at the first clause that fails.
unfoldable pub check : (ℕ → Bool) → List Clause → Resources → Bool × List Clause
unfolding check_clause
check locked [] r = (true, [])
check locked (c ∷ cs) r =
    let (satisfying, c') = check_clause locked c r in
    let (rest, cs') = check locked cs r in if satisfying then (rest, c' ∷ cs') else (false, c' ∷ cs)

-- Condition::checkTerminate
unfoldable pub check_terminate : List Clause → Bool
unfolding check_terminate_clause
check_terminate [] = false
check_terminate (c ∷ cs) = if check_terminate_clause c then true else check_terminate cs

abbrev pub no_resources : Resources → Bool
no_resources [] = true
no_resources _ = false

-- One round of the loop over a rule in traverseThroughAllProcesses2 of quisp/modules/RuleEngine.cc,
-- with checkrun and checkTerminate of quisp/rules/Rule.cc, as far as the condition goes: whether the
-- action runs, whether the rule set is then done, and the condition that is left. A check that fails
-- leaves the loop before checkTerminate, and without resources nothing is checked.
unfoldable pub rule_round : (ℕ → Bool) → Resources → List Clause → Bool × Bool × List Clause
unfolding check check_terminate
rule_round locked r cs =
    let (satisfied, cs') = check locked cs r in
    if no_resources r
    then (false, false, cs)
    else if satisfied
    then (true, check_terminate cs', cs')
    else (false, false, cs')

-- The unlocked resources that are entangled with a partner.
abbrev pub num_free_with : (ℕ → Bool) → ℤ → Resources → ℕ
num_free_with locked partner [] = 0
num_free_with locked partner ((a, q) ∷ resource) =
    (if (a ==ℤ partner) && not (locked q) then 1 else 0) + num_free_with locked partner resource

enough_loop-count :
    (locked : ℕ → Bool) (partner : ℤ) (n : ℕ) (r : Resources) (enough : Bool) (k : ℕ)
    → enough ≡ leb (suc n) k
    → enough_loop locked partner (pos (suc n)) r enough k
      ≡ leb (suc n) (k + num_free_with locked partner r)
unfolding enough_loop
enough_loop-count locked partner n [] enough k h = ground arith
enough_loop-count locked partner n ((a, q) ∷ r) enough k h = ground (
  arith,
  enough_loop-count locked partner n r enough k,
  enough_loop-count locked partner n r true k,
  enough_loop-count locked partner n r true (k + 1),
  enough_loop-count locked partner n r enough (k + 1),
)

-- With a positive requirement, a clause on the resources is met exactly if there are at least as
-- many unlocked resources with its partner, and asking it changes nothing.
pub check_clause-count :
    (locked : ℕ → Bool) (partner : ℤ) (n : ℕ) (r : Resources)
    → let enough = leb (suc n) (num_free_with locked partner r) in
      (check_clause locked (enough_resource partner (pos (suc n))) r
        ≡ (enough, enough_resource partner (pos (suc n))))
      × (check_clause locked (enough_resource_left partner (pos (suc n))) r
          ≡ (enough, enough_resource_left partner (pos (suc n))))
      × (check_clause locked (enough_resource_right partner (pos (suc n))) r
          ≡ (enough, enough_resource_right partner (pos (suc n))))
unfolding check_clause
check_clause-count locked partner n r =
    let e : enough_loop locked partner (pos (suc n)) r false 0
        ≡ leb (suc n) (num_free_with locked partner r) =
      rw (sym (zero-add (num_free_with locked partner r)))
        (enough_loop-count locked partner n r false 0 (ground arith)) in
    (
      ap (λ b. (b, enough_resource partner (pos (suc n)))) e,
      ap (λ b. (b, enough_resource_left partner (pos (suc n)))) e,
      ap (λ b. (b, enough_resource_right partner (pos (suc n)))) e,
    )
