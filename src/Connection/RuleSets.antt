-- ===== src/Connection/RuleSets.antt =====
-- quisp/modules/ConnectionManager.{h,cc}: swap_table, EntanglementSwappingConfig,
-- generateEntanglementSwappingRuleSet and generateTomographyRuleSet.
use quisp.Prelude.{
  ℕ, suc, ℤ, pos, ◌==ℤ◌, ◌==◌, ◌||◌, Bool, true, false, if◌then◌else◌, List, [], ◌∷◌, length,
  get_elem?, Option, none, some, lookup, Result, ok, err, ◌>>=◌, ◌>>◌, fail_if, or_fail,
  out_of_range, endnode_as_swapper, not_a_swapper, node_not_in_path, msm_not_implemented,
}
use quisp.Network.{QnicType, QnicIdPair, qnic_e, qnic_r, qnic_rp, qnic_n}
use quisp.Rules.Types.{
  as_int, enough_resource, enough_resource_left, enough_resource_right, measure_count,
  SwappingAction, swapping, random_measure, Rule, RuleSet,
}

pub record SwapTable : Type 0 where
  pub left_partner : ℤ
  pub lqnic_type : QnicType
  pub lqnic_index : ℤ
  pub lqnic_address : ℤ
  pub lres : ℤ
  pub right_partner : ℤ
  pub rqnic_type : QnicType
  pub rqnic_index : ℤ
  pub rqnic_address : ℤ
  pub rres : ℤ
  pub self_left_qnic_index : ℤ
  pub self_left_qnic_type : QnicType
  pub self_right_qnic_index : ℤ
  pub self_right_qnic_type : QnicType

-- std::distance(v.begin(), std::find(v.begin(), v.end(), a)): the length if `a` is not there.
unfoldable pub index_of : ℤ → List ℤ → ℕ
index_of a [] = 0
index_of a (b ∷ v) = if b ==ℤ a then 0 else suc (index_of a v)

-- `it != end && it->second.size() == 2`, with the two partners.
abbrev pub two_partners : Option (List ℤ) → Result (ℤ × ℤ)
two_partners none = err not_a_swapper
two_partners (some []) = err not_a_swapper
two_partners (some (l ∷ [])) = err not_a_swapper
two_partners (some (l ∷ r ∷ [])) = ok (l, r)
two_partners (some (l ∷ r ∷ x ∷ xs)) = err not_a_swapper

abbrev pub is_rp : QnicType → Bool
is_rp qnic_e = false
is_rp qnic_r = false
is_rp qnic_rp = true
is_rp qnic_n = false

-- `qnics.at(i)`
abbrev pub qnic_at : List QnicIdPair → ℕ → Result QnicIdPair
qnic_at qnics i = or_fail (get_elem? qnics i) out_of_range

-- The qnics of the path, at the node's partner.
abbrev partner_qnics : ℤ → List ℤ → List QnicIdPair → Result QnicIdPair
partner_qnics partner path qnics = do
  fail_if (index_of partner path == length path) node_not_in_path
  qnic_at qnics (index_of partner path)

unfoldable pub entanglement_swapping_config :
    ℤ → List ℤ → List (ℤ × List ℤ) → List QnicIdPair → ℤ → Result SwapTable
unfolding index_of lookup
entanglement_swapping_config swapper_address path swapping_partners qnics num_resources = do
  let index = index_of swapper_address path
  fail_if (index == 0 || index == length path) endnode_as_swapper
  self ← qnic_at qnics index
  (left_partner, right_partner) ← two_partners (lookup swapper_address swapping_partners)
  left ← partner_qnics left_partner path qnics
  right ← partner_qnics right_partner path qnics
  fail_if
      (is_rp self.snd.type || is_rp self.fst.type || is_rp right.fst.type || is_rp left.snd.type)
      msm_not_implemented
  ok (record {
    left_partner = left_partner;
    lqnic_type = left.snd.type;
    lqnic_index = left.snd.index;
    lqnic_address = left.snd.address;
    lres = num_resources;
    right_partner = right_partner;
    rqnic_type = right.fst.type;
    rqnic_index = right.fst.index;
    rqnic_address = right.fst.address;
    rres = num_resources;
    self_left_qnic_index = self.fst.index;
    self_left_qnic_type = self.fst.type;
    self_right_qnic_index = self.snd.index;
    self_right_qnic_type = self.snd.type;
  })

unfoldable pub generate_entanglement_swapping_rule_set : ℕ → ℤ → SwapTable → RuleSet
generate_entanglement_swapping_rule_set ruleset_id owner conf = record {
  owner = owner;
  entangled_partner = conf.left_partner ∷ conf.right_partner ∷ [];
  entangled_partner_rule = 0 ∷ [];
  ruleset_id = ruleset_id;
  rules = swapping_rule ∷ [];
}
  where
    swap_action : SwappingAction
    swap_action = record {
      ruleset_id = ruleset_id;
      rule_id = pos 0;
      left_partner = conf.left_partner;
      left_qnic_type = conf.lqnic_type;
      left_qnic_id = conf.lqnic_index;
      left_qnic_address = conf.lqnic_address;
      left_resource = conf.lres;
      right_partner = conf.right_partner;
      right_qnic_type = conf.rqnic_type;
      right_qnic_id = conf.rqnic_index;
      right_qnic_address = conf.rqnic_address;
      right_resource = conf.rres;
      action_index = pos 0;
      self_left_qnic_id = conf.self_left_qnic_index;
      self_left_qnic_type = conf.self_left_qnic_type;
      self_right_qnic_id = conf.self_right_qnic_index;
      self_right_qnic_type = conf.self_right_qnic_type;
    }

    swapping_rule : Rule
    swapping_rule = record {
      ruleset_id = as_int ruleset_id;
      rule_index = pos 0;
      condition =
          enough_resource_left conf.left_partner conf.lres
          ∷ enough_resource_right conf.right_partner conf.rres
          ∷ [];
      action = swapping swap_action;
      resources = [];
    }

-- The rule set of an end node: its one rule measures `num_of_measure` resources. `finalize` only
-- walks over the rules.
unfoldable pub generate_tomography_rule_set :
    ℕ → (owner partner num_of_measure : ℤ) → QnicType → (qnic_index num_resources : ℤ) → RuleSet
generate_tomography_rule_set ruleset_id owner partner num_of_measure qnic_type qnic_index
      num_resources =
    record {
      owner = owner;
      entangled_partner = partner ∷ [];
      entangled_partner_rule = [];
      ruleset_id = ruleset_id;
      rules =
          record {
            ruleset_id = as_int ruleset_id;
            rule_index = pos 0;
            condition =
                measure_count num_of_measure (pos 0) ∷ enough_resource partner num_resources ∷ [];
            action = random_measure (record {
              partner = partner;
              qnic_type = qnic_type;
              qnic_id = qnic_index;
              resource = pos 0;
              src = owner;
              dst = partner;
              current_count = pos 0;
              max_count = num_of_measure;
            });
            resources = [];
          }
          ∷ [];
    }
