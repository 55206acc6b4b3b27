-- ===== src/Engine/Unlock/Upgrade.antt =====
-- Where a resource goes when a purification has succeeded (quisp/modules/RuleEngine.cc,
-- Unlock_resource_and_upgrade_stage).
use quisp.Prelude.{
  ℕ, ℤ, ◌+◌, ◌==ℤ◌, ◌==◌, ltb_ℤ, if◌then◌else◌, Bool-cases, inl, inr, List, [], ◌∷◌, Option,
  Option-cases, none, some, Result, ok, err, bind_ok, ok_injective, err_not_ok, rule_at_end,
  insert_multi, ◌≡◌, refl, sym, ap, subst, arith,
}
use quisp.Rules.Types.{Resources, Rule}
use quisp.Qubits.{World}
use quisp.Engine.Unlock.{
  find_action, erase_action, add_resource, hand_on, keep, move_on, upgrade_rules, upgrade_partners,
}

-- How often a qubit is a resource.
abbrev pub copies : ℕ → Resources → ℕ
copies p [] = 0
copies p ((a, q) ∷ r) = (if q == p then 1 else 0) + copies p r

abbrev pub all_copies : ℕ → List Rule → ℕ
all_copies p [] = 0
all_copies p (rule ∷ rules) = copies p rule.resources + all_copies p rules

pub copies-insert :
    (p : ℕ) (a : ℤ) (q : ℕ) (r : Resources)
    → copies p (insert_multi a q r) ≡ (if q == p then 1 else 0) + copies p r
unfolding insert_multi
copies-insert p a q [] = refl
copies-insert p a q ((b, q') ∷ r) = elim (Bool-cases (ltb_ℤ a b)) [
  | inl e ↦ rw e refl
  | inr e ↦ let ih = copies-insert p a q r in rw e (omega arith)
]

copies-erase :
    (p : ℕ) (w : World) (index : ℤ) (q : ℕ) (r : Resources)
    → find_action w index r ≡ some q
    → (if q == p then 1 else 0) + copies p (erase_action w index r) ≡ copies p r
unfolding find_action erase_action
copies-erase p w index q [] h = absurd (cc)
copies-erase p w index q ((b, q') ∷ r) h = ground (arith, copies-erase p w index q r)

abbrev Outcome : Type 0
Outcome = ℕ × List Rule

hand_on-copies :
    (p : ℕ) (a : ℤ) (q : ℕ) (rules rules' : List Rule)
    → hand_on a q rules ≡ ok rules'
    → all_copies p rules' ≡ (if q == p then 1 else 0) + all_copies p rules
unfolding hand_on add_resource
hand_on-copies p a q [] rules' h = absurd (err_not_ok rule_at_end rules' h)
hand_on-copies p a q (rule ∷ rules) rules' h =
    let c = copies-insert p a q rule.resources in
    rw (sym (ok_injective (add_resource a q rule ∷ rules) rules' h)) (omega arith)

move_on-copies :
    (p : ℕ) (w : World) (index a : ℤ) (q : ℕ) (rule : Rule) (rules : List Rule) (out : Outcome)
    → find_action w index rule.resources ≡ some q
    → move_on w index a q rule rules ≡ ok out
    → all_copies p out.1 ≡ all_copies p (rule ∷ rules)
unfolding move_on
move_on-copies p w index a q rule rules out f h =
    let (rules', e, g) = bind_ok (hand_on a q rules) _ out h in
    let c = hand_on-copies p a q rules rules' e in
    let d = copies-erase p w index q rule.resources f in
    subst (λ (o : Outcome). all_copies p o.1 ≡ all_copies p (rule ∷ rules)) (ok_injective _ out g)
      (omega arith)

some_ok_same : (r : Result Outcome) (out : Outcome) → some r ≡ some (ok out) → r ≡ ok out
some_ok_same r out h = cc

-- Passing a rule over adds its resources on both sides.
keep-copies :
    (p : ℕ) (rule : Rule) (rules : List Rule) (o : Option (Result Outcome)) (out : Outcome)
    → ((out' : Outcome) → o ≡ some (ok out') → all_copies p out'.1 ≡ all_copies p rules)
    → keep rule o ≡ some (ok out)
    → all_copies p out.1 ≡ all_copies p (rule ∷ rules)
unfolding keep
keep-copies p rule rules none out ih h = absurd (cc)
keep-copies p rule rules (some (err e)) out ih h =
    absurd (err_not_ok e out (some_ok_same (err e) out h))
keep-copies p rule rules (some (ok (q, rules'))) out ih h =
    subst (λ (o : Outcome). all_copies p o.1 ≡ all_copies p (rule ∷ rules))
      (ok_injective (q, rule ∷ rules') out (some_ok_same (ok (q, rule ∷ rules')) out h))
      (ap (λ n. copies p rule.resources + n) (ih (q, rules') refl))

-- Where a rule's resources hold the action, or not.
here-copies :
    (p : ℕ) (w : World) (rule_id index a : ℤ) (rule : Rule) (rules : List Rule) (f : Option ℕ)
    (out : Outcome)
    → f ≡ find_action w index rule.resources
    → ((out' : Outcome)
        → upgrade_rules w rule_id index a rules ≡ some (ok out')
        → all_copies p out'.1 ≡ all_copies p rules)
    → elim f [
      | none ↦ keep rule (upgrade_rules w rule_id index a rules)
      | some q ↦ some (move_on w index a q rule rules)
    ]
      ≡ some (ok out)
    → all_copies p out.1 ≡ all_copies p (rule ∷ rules)
here-copies p w rule_id index a rule rules none out e ih h =
    keep-copies p rule rules (upgrade_rules w rule_id index a rules) out ih h
here-copies p w rule_id index a rule rules (some q) out e ih h =
    move_on-copies p w index a q rule rules out (sym e)
      (some_ok_same (move_on w index a q rule rules) out h)

-- Moving a resource on to the next rule neither loses nor doubles a resource: every qubit is as
-- often a resource of the rules as before.
pub upgrade_rules-copies :
    (p : ℕ) (w : World) (rule_id index a : ℤ) (rules : List Rule) (out : Outcome)
    → upgrade_rules w rule_id index a rules ≡ some (ok out)
    → all_copies p out.1 ≡ all_copies p rules
unfolding upgrade_rules
upgrade_rules-copies p w rule_id index a [] out h = absurd (cc)
upgrade_rules-copies p w rule_id index a (rule ∷ rules) out h =
    let ih = upgrade_rules-copies p w rule_id index a rules in
    let later = keep rule (upgrade_rules w rule_id index a rules) in
    let here : Option (Result Outcome) = elim (find_action w index rule.resources) [
      | none ↦ later
      | some q ↦ some (move_on w index a q rule rules)
    ] in
    elim (Bool-cases (rule.rule_index ==ℤ rule_id)) [
      | inl e ↦
          here-copies p w rule_id index a rule rules (find_action w index rule.resources) out refl
            ih (subst (λ b. (if b then here else later) ≡ some (ok out)) e h)
      | inr e ↦
          keep-copies p rule rules (upgrade_rules w rule_id index a rules) out ih
            (subst (λ b. (if b then here else later) ≡ some (ok out)) e h)
    ]

keep-none : (rule : Rule) (o : Option (Result Outcome)) → keep rule o ≡ none → o ≡ none
unfolding keep
keep-none rule none h = refl
keep-none rule (some (ok (q, r))) h = absurd (cc)
keep-none rule (some (err e)) h = absurd (cc)

-- Whether a rule holds the action does not depend on the address that the resource would get.
upgrade_rules-none :
    (w : World) (rule_id index a b : ℤ) (rules : List Rule)
    → upgrade_rules w rule_id index a rules ≡ none
    → upgrade_rules w rule_id index b rules ≡ none
unfolding upgrade_rules
upgrade_rules-none w rule_id index a b [] h = refl
upgrade_rules-none w rule_id index a b (rule ∷ rules) h = ground (
  arith,
  upgrade_rules-none w rule_id index a b rules,
  keep-none rule (upgrade_rules w rule_id index a rules),
)

upgrade_partners-none :
    (w : World) (rule_id index a : ℤ) (partners : List ℤ) (rules : List Rule)
    → upgrade_rules w rule_id index a rules ≡ none
    → upgrade_partners w rule_id index partners rules ≡ none
unfolding upgrade_partners
upgrade_partners-none w rule_id index a [] rules h = refl
upgrade_partners-none w rule_id index a (b ∷ partners) rules h =
    rw (upgrade_partners, upgrade_rules-none w rule_id index a b rules h)
      (upgrade_partners-none w rule_id index a partners rules h)

-- The loop over the partners of a rule set never gets beyond the first: the resource is filed under
-- the first partner's address, whatever other partners there are.
pub upgrade_partners-first :
    (w : World) (rule_id index a : ℤ) (partners : List ℤ) (rules : List Rule)
    → upgrade_partners w rule_id index (a ∷ partners) rules ≡ upgrade_rules w rule_id index a rules
unfolding upgrade_partners
upgrade_partners-first w rule_id index a partners rules =
    elim (Option-cases (upgrade_rules w rule_id index a rules)) [
      | inl e ↦ rw (upgrade_partners, e) (upgrade_partners-none w rule_id index a partners rules e)
      | inr (r, e) ↦ rw (upgrade_partners, e) refl
    ]
