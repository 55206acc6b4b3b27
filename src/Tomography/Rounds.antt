-- ===== src/Tomography/Rounds.antt =====
-- The rule sets of link tomography as programs of purifying rounds
-- (quisp/modules/HardwareMonitor.cc, sendLinkTomographyRuleSet).
use quisp.Prelude.{
  ℕ, zero, suc, ◌+◌, ◌%◌, ℤ, pos, pos_part, ltb_ℤ, ◌==◌, Bool, true, false, not, ◌&&◌, ◌||◌,
  if◌then◌else◌, List, [], ◌∷◌, length, Option, none, some, Result, ok, err, unknown_purification,
  ◌≡◌, refl, sym, ap, ◌∙◌, subst, arith,
}
use quisp.Rules.Types.{
  enough_resource, Action, swapping, purify, double_purify, double_purify_inv, double_selection,
  double_selection_inv, dual, dual_inv, dual_second, dual_second_inv, random_measure, DoubleAction,
  DualAction, as_int, Rule, RuleSet,
}
use quisp.Tomography.{
  Request, purify_rule, double_rule, dual_rule, dual_second_rule, repeat, repeat_both, measure_rule,
  x_rule, z_rule, purified_rules, link_tomography_rule_set,
}

-- The indices of the resources that a purifying action takes.
abbrev double_uses : DoubleAction → List ℤ
double_uses a = a.resource ∷ a.trash_resource_x ∷ a.trash_resource_z ∷ []

abbrev pub uses : Action → List ℤ
uses (purify a) = a.resource ∷ a.trash_resource ∷ []
uses (double_purify a) = double_uses a
uses (double_purify_inv a) = double_uses a
uses (double_selection a) = double_uses a
uses (double_selection_inv a) = double_uses a
uses (dual a) =
    a.resource ∷ a.trash_resource_x ∷ a.trash_resource_z ∷ a.ds_trash_resource_x
    ∷ a.ds_trash_resource_z ∷ []
uses (dual_inv a) =
    a.resource ∷ a.trash_resource_x ∷ a.trash_resource_z ∷ a.ds_trash_resource_x
    ∷ a.ds_trash_resource_z ∷ []
uses (dual_second a) =
    a.resource ∷ a.trash_resource_x ∷ a.trash_resource_z ∷ a.ds_trash_resource_x ∷ []
uses (dual_second_inv a) =
    a.resource ∷ a.trash_resource_x ∷ a.trash_resource_z ∷ a.ds_trash_resource_z ∷ []
uses (swapping a) = []
uses (random_measure a) = []

-- The rule set and the rule that a purifying action locks its resource for.
abbrev pub locks_for : Action → Option (ℕ × ℤ)
locks_for (purify a) = some (a.ruleset_id, a.rule_id)
locks_for (double_purify a) = some (a.ruleset_id, a.rule_id)
locks_for (double_purify_inv a) = some (a.ruleset_id, a.rule_id)
locks_for (double_selection a) = some (a.ruleset_id, a.rule_id)
locks_for (double_selection_inv a) = some (a.ruleset_id, a.rule_id)
locks_for (dual a) = some (a.ruleset_id, a.rule_id)
locks_for (dual_inv a) = some (a.ruleset_id, a.rule_id)
locks_for (dual_second a) = some (a.ruleset_id, a.rule_id)
locks_for (dual_second_inv a) = some (a.ruleset_id, a.rule_id)
locks_for (swapping a) = none
locks_for (random_measure a) = none

-- i, i + 1 and so on.
abbrev pub indices : ℕ → ℕ → List ℤ
indices i zero = []
indices i (suc n) = pos i ∷ indices (i + 1) n

-- A purifying rule at position k.
pub record IsRound (r : Request) (k : ℕ) (rule : Rule) : Type 0 where
  pub index : rule.rule_index ≡ pos k
  pub of_rule_set : rule.ruleset_id ≡ as_int r.ruleset_id
  pub locks : locks_for rule.action ≡ some (r.ruleset_id, pos k)
  pub takes : uses rule.action ≡ indices 0 (length (uses rule.action))
  pub waits :
      rule.condition ≡ enough_resource r.partner_address (pos (length (uses rule.action))) ∷ []

-- From position k on: so many rounds, and then the measuring rule alone.
abbrev pub IsProgram : Request → (k rounds : ℕ) → List Rule → Type 0
IsProgram r k zero rules = rules ≡ measure_rule r [] (pos k) ∷ []
IsProgram r k (suc rounds) [] = ⊥
IsProgram r k (suc rounds) (rule ∷ rules) = IsRound r k rule × IsProgram r (k + 1) rounds rules

some_injective : (m n : ℕ) → some m ≡ some n → m ≡ n
some_injective m n h = cc

module _ (r : Request) where
  Rounds : (ℤ → Rule) → Type 0
  Rounds f = (k : ℕ) → IsRound r k (f (pos k))

  purify_round : (x z : Bool) → Rounds (purify_rule r x z)
  unfolding Rounds
  purify_round x z k = record {
    index = refl;
    of_rule_set = refl;
    locks = refl;
    takes = refl;
    waits = refl;
  }

  repeat-IsProgram :
      (even odd : ℤ → Rule) (i count m k : ℕ) (rest : ℤ → List Rule)
      → Rounds even
      → Rounds odd
      → ((j : ℕ) → IsProgram r j m (rest (pos j)))
      → IsProgram r k (count + m) (repeat even odd i count (pos k) rest)
  unfolding Rounds repeat
  repeat-IsProgram even odd i zero m k rest e o h =
      subst (λ n. IsProgram r k n (rest (pos k))) (omega arith) (h k)
  repeat-IsProgram even odd i (suc count) m k rest e o h =
      let here : IsRound r k (if i % 2 == 0 then even (pos k) else odd (pos k)) =
        either (i % 2 == 0) (e k) (o k) in
      let n : suc (count + m) ≡ suc count + m = omega arith in
      subst (λ n. IsProgram r k n (repeat even odd i (suc count) (pos k) rest)) n
        (here, repeat-IsProgram even odd (i + 1) count m (k + 1) rest e o h)
    where
      either :
          (b : Bool)
          → IsRound r k (even (pos k))
          → IsRound r k (odd (pos k))
          → IsRound r k (if b then even (pos k) else odd (pos k))
      either true x y = x
      either false x y = y

  repeat_both-IsProgram :
      (first second : ℤ → Rule) (count k : ℕ) (rest : ℤ → List Rule)
      → Rounds first
      → Rounds second
      → ((j : ℕ) → IsProgram r j 0 (rest (pos j)))
      → IsProgram r k (count + count) (repeat_both first second count (pos k) rest)
  unfolding Rounds repeat_both
  repeat_both-IsProgram first second zero k rest f s h = h k
  repeat_both-IsProgram first second (suc count) k rest f s h =
      let n : suc (suc (count + count)) ≡ suc count + suc count = omega arith in
      subst (λ n. IsProgram r k n (repeat_both first second (suc count) (pos k) rest)) n
        (f k, (s (k + 1), repeat_both-IsProgram first second count (k + 1 + 1) rest f s h))

  -- The number of rounds of a purification type, none if it is not recognized.
  abbrev pub rounds : Option ℕ
  rounds =
      let type = r.purification_type in
      let n = pos_part r.num_purification in
      if type == 2002
      then some (n + n)
      else if type == 3003
      then some n
      else if type == 1001
      then some n
      else if type == 1221
      then some n
      else if type == 1011
      then some n
      else if type == 1021
      then some n
      else if type == 1031
      then some n
      else if type == 1061
      then some n
      else if type == 5555
      then some (2 + n)
      else if type == 5556
      then some (1 + n)
      else if (r.x_purification && not r.z_purification)
          || (not r.x_purification && r.z_purification)
      then some 1
      else none

  Follows : Option ℕ → Result (List Rule) → Type 0
  Follows none rules = rules ≡ err unknown_purification
  Follows (some n) rules = (l : List Rule) × (rules ≡ ok l) × IsProgram r 0 n l

  double_round :
      (f : DoubleAction → Action)
      → ((a : DoubleAction) → uses (f a) ≡ double_uses a)
      → ((a : DoubleAction) → locks_for (f a) ≡ some (a.ruleset_id, a.rule_id))
      → Rounds (double_rule r f)
  unfolding Rounds
  double_round f u l k = record {
    index = refl;
    of_rule_set = refl;
    locks = l _;
    takes = u _ ∙ ap (λ x. indices 0 (length x)) (sym (u _));
    waits = ap (λ x. enough_resource r.partner_address (pos (length x)) ∷ []) (sym (u _));
  }

  dual_round :
      (f : DualAction → Action)
      → ((a : DualAction)
          → uses (f a)
            ≡ a.resource ∷ a.trash_resource_x ∷ a.trash_resource_z ∷ a.ds_trash_resource_x
              ∷ a.ds_trash_resource_z ∷ [])
      → ((a : DualAction) → locks_for (f a) ≡ some (a.ruleset_id, a.rule_id))
      → Rounds (dual_rule r f)
  unfolding Rounds
  dual_round f u l k = record {
    index = refl;
    of_rule_set = refl;
    locks = l _;
    takes = u _ ∙ ap (λ x. indices 0 (length x)) (sym (u _));
    waits = ap (λ x. enough_resource r.partner_address (pos (length x)) ∷ []) (sym (u _));
  }

  second_round : Rounds (dual_second_rule r dual_second)
  unfolding Rounds
  second_round k = record {
    index = refl;
    of_rule_set = refl;
    locks = refl;
    takes = refl;
    waits = refl;
  }

  second_inv_round : Rounds (dual_second_rule r dual_second_inv)
  unfolding Rounds
  second_inv_round k = record {
    index = refl;
    of_rule_set = refl;
    locks = refl;
    takes = refl;
    waits = refl;
  }

  abbrev last_rule : ℤ → List Rule
  last_rule index = measure_rule r [] index ∷ []

  repeated :
      (even odd : ℤ → Rule) (n k : ℕ)
      → Rounds even
      → Rounds odd
      → IsProgram r k n (repeat even odd 0 n (pos k) last_rule)
  repeated even odd n k e o =
      subst (λ m. IsProgram r k m (repeat even odd 0 n (pos k) last_rule)) (omega arith)
        (repeat-IsProgram even odd 0 n 0 k last_rule e o (λ j. refl))

  repeated_n :
      (even odd : ℤ → Rule) (n : ℕ)
      → Rounds even
      → Rounds odd
      → Follows (some n) (ok (repeat even odd 0 n (pos 0) last_rule))
  unfolding Follows
  repeated_n even odd n e o = (_, refl, repeated even odd n 0 e o)

  -- The types whose rounds are not one loop of two rules.
  both_followed :
      (n : ℕ) → Follows (some (n + n)) (ok (repeat_both (x_rule r) (z_rule r) n (pos 0) last_rule))
  unfolding Follows
  both_followed n = (
    _,
    refl,
    repeat_both-IsProgram (x_rule r) (z_rule r) n 0 last_rule (purify_round true false)
        (purify_round false true) (λ j. refl),
  )

  selected_followed :
      (n : ℕ)
      → Follows (some (2 + n)) (
          ok (
            repeat
              (double_rule r double_selection)
              (double_rule r double_selection_inv)
              0
              2
              (pos 0)
              (λ index. repeat (x_rule r) (z_rule r) 0 n index last_rule)))
  unfolding Follows
  selected_followed n = (
    _,
    refl,
    repeat-IsProgram (double_rule r double_selection) (double_rule r double_selection_inv) 0 2 n 0
        (λ index. repeat (x_rule r) (z_rule r) 0 n index last_rule)
        (double_round double_selection (λ a. refl) (λ a. refl))
        (double_round double_selection_inv (λ a. refl) (λ a. refl))
        (λ j.
          repeated (x_rule r) (z_rule r) n j (purify_round true false) (purify_round false true)),
  )

  first_selected_followed :
      (n : ℕ)
      → Follows (some (1 + n)) (
          ok (
            double_rule r double_selection (pos 0)
            ∷ repeat (z_rule r) (x_rule r) 0 n (pos 1) last_rule))
  unfolding Follows Rounds
  first_selected_followed n =
      let one_more : suc n ≡ 1 + n = omega arith in
      let rules =
        double_rule r double_selection (pos 0)
        ∷ repeat (z_rule r) (x_rule r) 0 n (pos 1) last_rule in
      let first = double_round double_selection (λ a. refl) (λ a. refl) 0 in
      let others =
        repeated (z_rule r) (x_rule r) n 1 (purify_round false true) (purify_round true false) in
      (_, refl, subst (λ m. IsProgram r 0 m rules) one_more (first, others))

  single_followed :
      (x z : Bool) → Follows (some 1) (ok (purify_rule r x z (pos 0) ∷ last_rule (pos 1)))
  unfolding Follows Rounds
  single_followed x z = (_, refl, (purify_round x z 0, refl))

  unknown_followed : Follows none (err unknown_purification)
  unfolding Follows
  unknown_followed = refl

  if_followed :
      (b : Bool) (o o' : Option ℕ) (rules rules' : Result (List Rule))
      → Follows o rules
      → Follows o' rules'
      → Follows (if b then o else o') (if b then rules else rules')
  if_followed true o o' rules rules' h h' = h
  if_followed false o o' rules rules' h h' = h'

  purified_rules-Follows : Follows rounds (purified_rules r last_rule)
  unfolding purified_rules
  purified_rules-Follows =
      let n = pos_part r.num_purification in
      let x = purify_round true false in
      let z = purify_round false true in
      let d = double_round double_purify (λ a. refl) (λ a. refl) in
      let di = double_round double_purify_inv (λ a. refl) (λ a. refl) in
      let s = double_round double_selection (λ a. refl) (λ a. refl) in
      let si = double_round double_selection_inv (λ a. refl) (λ a. refl) in
      let u = dual_round dual (λ a. refl) (λ a. refl) in
      let ui = dual_round dual_inv (λ a. refl) (λ a. refl) in
      if_followed _ _ _ _ _ (both_followed n) (
        if_followed _ _ _ _ _ (repeated_n (x_rule r) (z_rule r) n x z) (
          if_followed _ _ _ _ _
            (repeated_n (double_rule r double_purify) (double_rule r double_purify) n d d)
            (if_followed _ _ _ _ _
              (repeated_n (double_rule r double_purify) (double_rule r double_purify_inv) n d di)
              (if_followed _ _ _ _ _
                (repeated_n (double_rule r double_selection) (double_rule r double_selection) n s s)
                (if_followed _ _ _ _ _
                  (repeated_n (double_rule r double_selection) (double_rule r double_selection_inv)
                    n s si)
                  (if_followed _ _ _ _ _
                    (repeated_n (dual_rule r dual) (dual_rule r dual_inv) n u ui)
                    (if_followed _ _ _ _ _
                      (repeated_n (dual_second_rule r dual_second)
                        (dual_second_rule r dual_second_inv) n second_round second_inv_round)
                      (if_followed _ _ _ _ _ (selected_followed n) (
                        if_followed _ _ _ _ _ (first_selected_followed n) (
                          if_followed _ _ _ _ _ (single_followed r.x_purification r.z_purification)
                            unknown_followed))))))))))

  followed :
      (o : Option ℕ) (n : ℕ) (rules : Result (List Rule))
      → Follows o rules
      → o ≡ some n
      → (l : List Rule) × (rules ≡ ok l) × IsProgram r 0 n l
  unfolding Follows
  followed none n rules f e = cc
  followed (some m) n rules f e =
      let (l, h, p) = f in (l, h, subst (λ m. IsProgram r 0 m l) (some_injective m n e) p)

  -- With purifications and a type that is recognized, the rule set is a program: so many rounds as
  -- `rounds` has for the type, and then one rule that measures, without a condition on resources. The
  -- rounds are numbered by their positions, lock their resources for this rule set and their own
  -- position, take the resources from the first index on, each once, and wait for exactly as many with
  -- the partner. For n purifications these are 2 * n rounds for type 2002, 2 + n for 5555, 1 + n for
  -- 5556, one for a type without a case of its own, and n for the others; the code's comments on 5555
  -- and 5556 say n. The id of the rule set is that of the request, and each rule keeps it as an int.
  pub link_tomography_rule_set-IsProgram :
      (n : ℕ)
      → ltb_ℤ (pos 0) r.num_purification ≡ true
      → rounds ≡ some n
      → (rs : RuleSet) × (link_tomography_rule_set r ≡ ok rs)
        × (rs.ruleset_id ≡ r.ruleset_id)
        × IsProgram r 0 n rs.rules
  unfolding link_tomography_rule_set
  link_tomography_rule_set-IsProgram n h e =
      let (l, f, p) = followed rounds n (purified_rules r last_rule) purified_rules-Follows e in
      (
        record {
          owner = r.my_address;
          entangled_partner = r.partner_address ∷ [];
          entangled_partner_rule = [];
          ruleset_id = r.ruleset_id;
          rules = l;
        },
        rw (h, f),
        refl,
        p,
      )
