-- ===== src/Engine/Agreement/Results.antt =====
-- The order in which the results of the two ends arrive (quisp/modules/RuleEngine.cc, the four
-- storeCheck functions).
use quisp.Prelude.{
  ==ℤ_iff, ◌==ᵇ◌, Bool, true, false, if◌then◌else◌, Bool-cases, inl, inr, List, [], ◌∷◌, ◌++◌, none,
  some, Result, ok, ◌>>=◌, ◌≡◌, refl, sym, ap, ◌∙◌, subst, arith,
}
use quisp.Engine.Unlock.{ProcessId, Node}
use quisp.Engine.Agreement.{
  PurificationResult, is_running, is_same_process, find_result, erase_result, decide, store_check,
  agree_single, store_check_purification_agreement,
}

some_not_none' : {A : Type 0} (a : A) → some a ≡ none → ⊥
some_not_none' a h = cc

is_same_process_refl : (a : ProcessId) → is_same_process a a ≡ true
is_same_process_refl a = ground (arith, ==ℤ_iff a.rule_id a.rule_id, ==ℤ_iff a.index a.index)

==ᵇ_sym : (a b : Bool) → (a ==ᵇ b) ≡ (b ==ᵇ a)
==ᵇ_sym true true = refl
==ᵇ_sym true false = refl
==ᵇ_sym false true = refl
==ᵇ_sym false false = refl

module _ {R : Type 0} (id_of : R → ProcessId) where
  find-last :
      (table : List R) (r : R)
      → find_result id_of (id_of r) table ≡ none
      → find_result id_of (id_of r) (table ++ r ∷ []) ≡ some r
  unfolding find_result
  find-last [] r h = rw (is_same_process_refl (id_of r)) refl
  find-last (s ∷ table) r h = elim (Bool-cases (is_same_process (id_of s) (id_of r))) [
    | inl e ↦ absurd (
        some_not_none' s
          (subst (λ b. (if b then some s else find_result id_of (id_of r) table) ≡ none) e h))
    | inr e ↦ rw e (
        find-last table r
          (subst (λ b. (if b then some s else find_result id_of (id_of r) table) ≡ none) e h))
  ]

  erase-last :
      (table : List R) (r : R)
      → find_result id_of (id_of r) table ≡ none
      → erase_result id_of (id_of r) (table ++ r ∷ []) ≡ table
  unfolding find_result erase_result
  erase-last [] r h = rw (is_same_process_refl (id_of r)) refl
  erase-last (s ∷ table) r h = elim (Bool-cases (is_same_process (id_of s) (id_of r))) [
    | inl e ↦ absurd (
        some_not_none' s
          (subst (λ b. (if b then some s else find_result id_of (id_of r) table) ≡ none) e h))
    | inr e ↦ rw e (
        ap (◌∷◌ s) (
          erase-last table r
            (subst (λ b. (if b then some s else find_result id_of (id_of r) table) ≡ none) e h)))
  ]

-- Two results, given to `check` in either order, come to the same decision and leave the table as
-- it was.
abbrev pub IsOrderless :
    {R : Type 0} (check : R → List R × Node → Result (List R × Node)) (decision : Result Node)
    (table : List R) (n : Node) (first second : R)
    → Type 0
IsOrderless check decision table n first second =
    ((check first (table, n) >>= check second) ≡ (decision >>= λ n'. ok (table, n')))
    × ((check second (table, n) >>= check first) ≡ (decision >>= λ n'. ok (table, n')))

module _ {R : Type 0} (id_of : R → ProcessId) (agree : R → R → Bool) where
  store-first :
      (pr : R) (table : List R) (n : Node)
      → is_running (id_of pr).ruleset_id n.rp ≡ true
      → find_result id_of (id_of pr) table ≡ none
      → store_check id_of agree pr (table, n) ≡ ok (table ++ pr ∷ [], n)
  unfolding store_check
  store-first pr table n run h = rw (store_check, run, h) refl

  store-second :
      (first pr : R) (table table' : List R) (n : Node)
      → is_running (id_of pr).ruleset_id n.rp ≡ true
      → find_result id_of (id_of pr) table ≡ some first
      → erase_result id_of (id_of pr) table ≡ table'
      → store_check id_of agree pr (table, n)
        ≡ (decide id_of agree first pr n >>= λ n'. ok (table', n'))
  unfolding store_check
  store-second first pr table table' n run h e = rw (store_check, run, h, e) refl

  -- Two results with the same id, where none is stored for it.
  store-both :
      (first second : R) (table : List R) (n : Node)
      → id_of first ≡ id_of second
      → is_running (id_of first).ruleset_id n.rp ≡ true
      → find_result id_of (id_of first) table ≡ none
      → (store_check id_of agree first (table, n) >>= store_check id_of agree second)
        ≡ (decide id_of agree first second n >>= λ n'. ok (table, n'))
  store-both first second table n same run h =
      let found : find_result id_of (id_of second) (table ++ first ∷ []) ≡ some first =
        subst (λ i. find_result id_of i (table ++ first ∷ []) ≡ some first) same
          (find-last id_of table first h) in
      let erased : erase_result id_of (id_of second) (table ++ first ∷ []) ≡ table =
        subst (λ i. erase_result id_of i (table ++ first ∷ []) ≡ table) same
          (erase-last id_of table first h) in
      let running : is_running (id_of second).ruleset_id n.rp ≡ true =
        subst (λ (i : ProcessId). is_running i.ruleset_id n.rp ≡ true) same run in
      ap (λ x. x >>= store_check id_of agree second) (store-first first table n run h)
      ∙ store-second first second (table ++ first ∷ []) table n running found erased

  -- The decision does not depend on which result came first.
  decide-sym :
      (first second : R) (n : Node)
      → id_of first ≡ id_of second
      → agree first second ≡ agree second first
      → decide id_of agree first second n ≡ decide id_of agree second first n
  unfolding decide
  decide-sym first second n same e = rw (decide, e, same) refl

  orderless :
      (first second : R) (table : List R) (n : Node)
      → id_of first ≡ id_of second
      → agree first second ≡ agree second first
      → is_running (id_of first).ruleset_id n.rp ≡ true
      → find_result id_of (id_of first) table ≡ none
      → IsOrderless
          (store_check id_of agree)
          (decide id_of agree first second n)
          table
          n
          first
          second
  orderless first second table n same e run h = (
    store-both first second table n same run h,
    store-both second first table n (sym same)
          (subst (λ (i : ProcessId). is_running i.ruleset_id n.rp ≡ true) same run)
          (subst (λ i. find_result id_of i table ≡ none) same h)
        ∙ ap (λ d. d >>= λ n'. ok (table, n')) (sym (decide-sym first second n same e)),
  )

-- Where the rule set is running and no result is stored for the id: of two results with this id,
-- whichever comes first is stored and the second decides, by whether the outcomes agree, whether the
-- resource moves on or is discarded; if that completes, the table is as it was.
pub store_check_purification_agreement-order :
    (first second : PurificationResult) (table : List PurificationResult) (n : Node)
    → first.id ≡ second.id
    → is_running first.id.ruleset_id n.rp ≡ true
    → find_result (λ (r : PurificationResult). r.id) first.id table ≡ none
    → IsOrderless store_check_purification_agreement
        (decide (λ r. r.id) agree_single first second n)
        table
        n
        first
        second
unfolding store_check_purification_agreement
store_check_purification_agreement-order first second table n same =
    orderless (λ r. r.id) agree_single first second table n same
      (==ᵇ_sym first.outcome second.outcome)
