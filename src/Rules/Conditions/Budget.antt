-- ===== src/Rules/Conditions/Budget.antt =====
-- How long the condition of a measuring rule lasts (quisp/rules/Clause.cc, MeasureCountClause, as
-- generateTomographyRuleSet of quisp/modules/ConnectionManager.cc uses it).
use quisp.Prelude.{
  ℕ, suc, ◌+◌, ◌≤◌, ℤ, pos, leb, Bool, true, false, if◌then◌else◌, List, [], ◌∷◌, ◌≡◌, refl,
  Bool-cases, inl, inr, arith,
}
use quisp.Network.{QnicType}
use quisp.Rules.Types.{Resources, Clause, enough_resource, measure_count, Rule, RuleSet}
use quisp.Connection.RuleSets.{generate_tomography_rule_set}
use quisp.Rules.Conditions.{check_clause, check}

-- What one check of a condition sees.
abbrev pub Snapshot : Type 0
Snapshot = (ℕ → Bool) × Resources

-- One check after the other: how many are satisfied, and the condition that is left.
unfoldable pub run_checks : List Clause → List Snapshot → ℕ × List Clause
unfolding check
run_checks cs [] = (0, cs)
run_checks cs ((locked, r) ∷ ss) =
    let (satisfied, cs') = check locked cs r in
    let (n, cs'') = run_checks cs' ss in ((if satisfied then 1 else 0) + n, cs'')

check-measure_count :
    (locked : ℕ → Bool) (max cur : ℕ) (cs : List Clause) (r : Resources)
    → check locked (measure_count (pos max) (pos cur) ∷ cs) r ≡ (
        if leb (suc cur) max
        then (
          (check locked cs r).0,
          measure_count (pos max) (pos (cur + 1)) ∷ (check locked cs r).1,
        )
        else (false, measure_count (pos max) (pos cur) ∷ cs))
unfolding check check_clause
check-measure_count locked max cur cs r = ground arith

run_checks-cons :
    (cs : List Clause) (locked : ℕ → Bool) (r : Resources) (ss : List Snapshot)
    → run_checks cs ((locked, r) ∷ ss) ≡ (
      (if (check locked cs r).0 then 1 else 0) + (run_checks (check locked cs r).1 ss).0,
      (run_checks (check locked cs r).1 ss).1,
    )
unfolding run_checks
run_checks-cons cs locked r ss = refl

run_checks-nil : (cs : List Clause) → run_checks cs [] ≡ (0, cs)
unfolding run_checks
run_checks-nil cs = refl

one_at_most : (b : Bool) (n : ℕ) → (if b then 1 else 0) + n ≤ n + 1
one_at_most true n = omega arith
one_at_most false n = omega arith

run_checks-budget :
    (max cur : ℕ) (cs : List Clause) (ss : List Snapshot)
    → cur ≤ max
    → (run_checks (measure_count (pos max) (pos cur) ∷ cs) ss).0 + cur ≤ max
run_checks-budget max cur cs [] h =
    rw (run_checks-nil (measure_count (pos max) (pos cur) ∷ cs)) (omega arith)
run_checks-budget max cur cs ((locked, r) ∷ ss) h = elim (Bool-cases (leb (suc cur) max)) [
  | inl e ↦
      let c = check locked cs r in
      let rest = run_checks-budget max (cur + 1) c.1 ss (ground arith) in
      let n = (run_checks (measure_count (pos max) (pos (cur + 1)) ∷ c.1) ss).0 in
      let one = one_at_most c.0 n in
      rw
        (
          run_checks-cons (measure_count (pos max) (pos cur) ∷ cs) locked r ss,
          check-measure_count locked max cur cs r,
          e,
        )
        (omega arith)
  | inr e ↦
      let rest = run_checks-budget max cur cs ss h in
      rw
        (
          run_checks-cons (measure_count (pos max) (pos cur) ∷ cs) locked r ss,
          check-measure_count locked max cur cs r,
          e,
        )
        (omega arith)
]

-- The condition of the first rule.
abbrev pub first_condition : RuleSet → List Clause
first_condition s = go s.rules
  where
    go : List Rule → List Clause
    go [] = []
    go (rule ∷ rules) = rule.condition

-- However often the condition of an end node's rule is asked, and whatever resources it sees, it is
-- satisfied at most as often as the number of measurements.
pub generate_tomography_rule_set-budget :
    (ruleset_id : ℕ) (owner partner : ℤ) (max : ℕ) (qnic_type : QnicType)
    (qnic_index num_resources : ℤ) (ss : List Snapshot)
    → (run_checks
        (first_condition (
          generate_tomography_rule_set ruleset_id owner partner
            (pos max)
            qnic_type
            qnic_index
            num_resources))
        ss).0
      ≤ max
unfolding generate_tomography_rule_set
generate_tomography_rule_set-budget ruleset_id owner partner max qnic_type qnic_index num_resources
      ss =
    let h = run_checks-budget max 0 (enough_resource partner num_resources ∷ []) ss (omega arith) in
    omega arith
