-- ===== src/Rules/Conditions/Starving.antt =====
-- What failed checks do to a measuring rule (quisp/rules/Clause.cc, MeasureCountClause, with the loop
-- over a rule in quisp/modules/RuleEngine.cc).
use quisp.Prelude.{
  ℕ, suc, ◌+◌, ◌≤◌, ℤ, pos, Bool, false, ◌||◌, List, [], ◌∷◌, ◌++◌, length, All, ◌≡◌, refl, arith,
}
use quisp.Network.{QnicType}
use quisp.Rules.Types.{Resources, Clause, enough_resource, measure_count}
use quisp.Connection.RuleSets.{generate_tomography_rule_set}
use quisp.Rules.Conditions.{enough_loop, check_clause, check, rule_round, no_resources}
use quisp.Rules.Conditions.Budget.{Snapshot, first_condition}

-- One round after the other: whether any of them runs the action, whether any ends the rule set, and
-- the condition that is left.
unfoldable pub run_rounds : List Clause → List Snapshot → Bool × Bool × List Clause
unfolding rule_round
run_rounds cs [] = (false, false, cs)
run_rounds cs ((locked, r) ∷ ss) =
    let (runs, done, cs1) = rule_round locked r cs in
    let (later_runs, later_done, cs2) = run_rounds cs1 ss in
    (runs || later_runs, done || later_done, cs2)

-- There are resources, and never enough of them.
abbrev pub IsShort : ℤ → ℤ → Snapshot → Type 0
IsShort partner required (locked, r) =
    (no_resources r ≡ false) × (enough_loop locked partner required r false 0 ≡ false)

abbrev measuring : (max cur : ℕ) → (partner required : ℤ) → List Clause
measuring max cur partner required =
    measure_count (pos max) (pos cur) ∷ enough_resource partner required ∷ []

-- A round that fails on the resources counts as a measurement.
rule_round-short :
    (locked : ℕ → Bool) (max cur : ℕ) (partner required : ℤ) (r : Resources)
    → suc cur ≤ max
    → no_resources r ≡ false
    → enough_loop locked partner required r false 0 ≡ false
    → rule_round locked r (measuring max cur partner required)
      ≡ (false, false, measuring max (cur + 1) partner required)
unfolding rule_round check check_clause
rule_round-short locked max cur partner required r h n e = ground arith

-- With all measurements counted, no round does anything.
rule_round-spent :
    (locked : ℕ → Bool) (max : ℕ) (partner required : ℤ) (r : Resources)
    → rule_round locked r (measuring max max partner required)
      ≡ (false, false, measuring max max partner required)
unfolding rule_round check check_clause
rule_round-spent locked max partner required r = ground arith

run_rounds-spent :
    (max : ℕ) (partner required : ℤ) (ss : List Snapshot)
    → run_rounds (measuring max max partner required) ss
      ≡ (false, false, measuring max max partner required)
unfolding run_rounds
run_rounds-spent max partner required [] = refl
run_rounds-spent max partner required ((locked, r) ∷ ss) =
    rw
      (
        run_rounds,
        rule_round-spent locked max partner required r,
        run_rounds-spent max partner required ss,
      )
      refl

run_rounds-starved :
    (max cur : ℕ) (partner required : ℤ) (ss later : List Snapshot)
    → cur + length ss ≡ max
    → All (IsShort partner required) ss
    → run_rounds (measuring max cur partner required) (ss ++ later)
      ≡ (false, false, measuring max max partner required)
unfolding run_rounds
run_rounds-starved max cur partner required [] later h short =
    let e : cur ≡ max = omega arith in rw e (run_rounds-spent max partner required later)
run_rounds-starved max cur partner required ((locked, r) ∷ ss) later h short =
    rw
      (
        run_rounds,
        rule_round-short locked max cur partner required r (omega arith) short.0.0 short.0.1,
        run_rounds-starved max (cur + 1) partner required ss later (omega arith) short.1,
      )
      refl

-- After as many rounds of an end node's rule as there are measurements, each of which finds some
-- resources but not enough, the rule is stuck: whatever resources the rounds from then on find, its
-- action never runs, and the rule set is never found to be done.
pub generate_tomography_rule_set-starved :
    (ruleset_id : ℕ) (owner partner : ℤ) (max : ℕ) (qnic_type : QnicType)
    (qnic_index num_resources : ℤ) (ss later : List Snapshot)
    → length ss ≡ max
    → All (IsShort partner num_resources) ss
    → let condition = first_condition (
        generate_tomography_rule_set ruleset_id owner partner
          (pos max)
          qnic_type
          qnic_index
          num_resources) in
      ((run_rounds condition (ss ++ later)).0 ≡ false)
      × ((run_rounds condition (ss ++ later)).1 ≡ false)
unfolding generate_tomography_rule_set
generate_tomography_rule_set-starved ruleset_id owner partner max qnic_type qnic_index num_resources
      ss later h short =
    rw (run_rounds-starved max 0 partner num_resources ss later (omega arith) short) (refl, refl)
