-- ===== src/Rules/Tests.antt =====
-- A rule that measures twice, with two resources entangled with node 4 of which one is locked.
use quisp.Prelude.{ℕ, ◌==◌, ◌≤◌, pos, Bool, true, false, leb, List, [], ◌∷◌, ◌++◌, ◌≡◌, refl}
use quisp.Network.{qnic_e}
use quisp.Connection.RuleSets.{generate_tomography_rule_set}
use quisp.Rules.Types.{
  Resources, RuleSet, enough_resource, enough_resource_left, enough_resource_right,
}
use quisp.Rules.Conditions.{enough_loop, check_clause, check_clause-count}
use quisp.Rules.Conditions.Budget.{
  Snapshot, run_checks, first_condition, generate_tomography_rule_set-budget,
}
use quisp.Rules.Conditions.Starving.{run_rounds, generate_tomography_rule_set-starved}

abbrev pairs : Resources
pairs = (pos 4, 0) ∷ (pos 4, 1) ∷ []

abbrev first_locked : ℕ → Bool
first_locked q = q == 0

abbrev measuring : RuleSet
measuring = generate_tomography_rule_set 7 (pos 1) (pos 4) (pos 2) qnic_e (pos 0) (pos 2)

-- Twice too few, then enough twice.
abbrev seen : List Snapshot
seen = (first_locked, pairs) ∷ ((λ q. false), pairs) ∷ ((λ q. false), pairs) ∷ []

abbrev scarce : List Snapshot
scarce = (first_locked, pairs) ∷ (first_locked, pairs) ∷ []

seen_runs : (run_checks (first_condition measuring) seen).0 ≡ 1
unfolding run_checks generate_tomography_rule_set
seen_runs = refl

check_clause-count_example :
    (check_clause first_locked (enough_resource (pos 4) (pos 1)) pairs
      ≡ (leb 1 1, enough_resource (pos 4) (pos 1)))
    × (check_clause first_locked (enough_resource_left (pos 4) (pos 1)) pairs
        ≡ (leb 1 1, enough_resource_left (pos 4) (pos 1)))
    × (check_clause first_locked (enough_resource_right (pos 4) (pos 1)) pairs
        ≡ (leb 1 1, enough_resource_right (pos 4) (pos 1)))
check_clause-count_example = check_clause-count first_locked (pos 4) 0 pairs

generate_tomography_rule_set-budget_example : (run_checks (first_condition measuring) seen).0 ≤ 2
generate_tomography_rule_set-budget_example =
    generate_tomography_rule_set-budget 7 (pos 1) (pos 4) 2 qnic_e (pos 0) (pos 2) seen

short : enough_loop first_locked (pos 4) (pos 2) pairs false 0 ≡ false
unfolding enough_loop
short = refl

abbrev plenty : List Snapshot
plenty = ((λ q. false), pairs) ∷ ((λ q. false), pairs) ∷ []

-- With enough resources from the start it measures twice and is done.
plenty_done : (run_rounds (first_condition measuring) plenty).1 ≡ true
unfolding run_rounds generate_tomography_rule_set
plenty_done = refl

generate_tomography_rule_set-starved_example :
    ((run_rounds (first_condition measuring) (scarce ++ plenty)).0 ≡ false)
    × ((run_rounds (first_condition measuring) (scarce ++ plenty)).1 ≡ false)
generate_tomography_rule_set-starved_example =
    generate_tomography_rule_set-starved 7 (pos 1) (pos 4) 2 qnic_e (pos 0) (pos 2) scarce plenty
      refl ((refl, short), ((refl, short), tt))
