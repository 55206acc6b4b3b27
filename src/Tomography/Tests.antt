-- ===== src/Tomography/Tests.antt =====
-- Two rounds of double selection before pumping, and a number that no type has.
use quisp.Prelude.{ℕ, pos, true, length, Result, ok, err, ◌≡◌, refl, unknown_purification}
use quisp.Network.{qnic_e}
use quisp.Rules.Types.{RuleSet}
use quisp.Tomography.{Request, link_tomography_rule_set}
use quisp.Tomography.Rounds.{IsProgram, link_tomography_rule_set-IsProgram}

abbrev request : ℕ → Request
request type = record {
  ruleset_id = 33;
  my_address = pos 1;
  partner_address = pos 2;
  qnic_type = qnic_e;
  qnic_index = pos 0;
  num_purification = pos 2;
  purification_type = type;
  x_purification = true;
  z_purification = true;
  num_measure = pos 100;
}

abbrev rule_count : Result RuleSet → ℕ
rule_count (ok rs) = length rs.rules
rule_count _ = 0

five_rules : rule_count (link_tomography_rule_set (request 5555)) ≡ 5
unfolding link_tomography_rule_set
five_rules = refl

link_tomography_rule_set-IsProgram_example :
    (rs : RuleSet) × (link_tomography_rule_set (request 5555) ≡ ok rs)
    × (rs.ruleset_id ≡ 33)
    × IsProgram (request 5555) 0 4 rs.rules
link_tomography_rule_set-IsProgram_example =
    link_tomography_rule_set-IsProgram (request 5555) 4 refl refl

unknown_type : link_tomography_rule_set (request 7) ≡ err unknown_purification
unfolding link_tomography_rule_set
unknown_type = refl
