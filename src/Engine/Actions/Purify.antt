-- ===== src/Engine/Actions/Purify.antt =====
-- What a purification leaves behind (quisp/rules/Action.cc, PurifyAction::run).
use quisp.Prelude.{
  ℕ, ℤ, pos, suc_ℤ, ◌==ℤ◌, Bool, false, not, ◌&&◌, if◌then◌else◌, Bool-cases, [], ◌∷◌, All, Option,
  none, some, Result, ok, bind_ok, ok_injective, if_ok, ◌≡◌, refl, subst, inl, inr,
}
use quisp.Network.{QnicType}
use quisp.Rules.Types.{Resources, PurifyAction}
use quisp.Qubits.{World, lock, is_locked}
use quisp.Qubits.Symmetry.{IsWired}
use quisp.Qubits.Gates.{xpurify, zpurify}
use quisp.Qubits.Gates.Pointers.{xpurify-IsWired, zpurify-IsWired}
use quisp.Engine.{Engine}
use quisp.Engine.Actions.{
  Run, ActionPacket, get_from, get_resource_from_top, conclude, purify_with, run_purify, same,
  must_differ, not_enough_resource,
}
use quisp.Engine.Actions.Conclude.{Finds, conclude-IsWired}

-- The module tree finds the resources of a rule at the addresses that are given.
abbrev pub FindsAll : (ℕ → ℤ) → Engine → QnicType → ℤ → Resources → Type 0
FindsAll addr e type qnic r = All (λ (b : ℤ × ℕ). Finds e type qnic (addr b.1) b.1) r

some_not_none : {A : Type 0} (a : A) → none ≡ some a → ⊥
some_not_none a h = cc

some_same : {A : Type 0} (a b : A) → some a ≡ some b → a ≡ b
some_same a b h = cc

get_from-All :
    (P : ℤ × ℕ → Type 0) (locked : ℕ → Bool) (required i : ℤ) (r : Resources) (q : ℕ)
    → All P r
    → get_from locked required i r ≡ some q
    → (k : ℤ) × P (k, q)
unfolding get_from
get_from-All P locked required i [] q all h = absurd (some_not_none q h)
get_from-All P locked required i ((a, p) ∷ r) q all h =
    let later = get_from locked required i r in
    let next = get_from locked required (suc_ℤ i) r in
    elim (Bool-cases (locked p)) [
      | inl e ↦
          get_from-All P locked required i r q all.1 (
            subst (λ b. (if b then later else if i ==ℤ required then some p else next) ≡ some q) e
              h)
      | inr e ↦
          let h1 : (if i ==ℤ required then some p else next) ≡ some q =
            subst (λ b. (if b then later else if i ==ℤ required then some p else next) ≡ some q) e
              h in
          elim (Bool-cases (i ==ℤ required)) [
            | inl f ↦
                let e2 : p ≡ q =
                  some_same p q (subst (λ b. (if b then some p else next) ≡ some q) f h1) in
                (a, subst (λ x. P (a, x)) e2 all.0)
            | inr f ↦
                get_from-All P locked required (suc_ℤ i) r q all.1
                  (subst (λ b. (if b then some p else next) ≡ some q) f h1)
          ]
    ]

module _ {addr : ℕ → ℤ} where
  purify_with-IsWired :
      (a : PurifyAction) (s : Run) (q t : ℕ) (out : ActionPacket × PurifyAction × Run)
      → Finds s.engine a.qnic_type a.qnic_id (addr t) t
      → IsWired addr s.engine.world
      → purify_with a s q t ≡ ok out
      → IsWired addr out.2.engine.world
  unfolding purify_with
  purify_with-IsWired a s q t out f wired h =
      let w = s.engine.world in
      let measured : Result (Bool × World) =
        if a.x && not a.z
        then xpurify t q w
        else if not a.x && a.z
        then zpurify t q w
        else ok (false, w) in
      let (m, g1, h1) = bind_ok measured _ out h in
      let wired1 : IsWired addr m.1 =
        if_ok (a.x && not a.z) (xpurify t q w) _ m (λ r. xpurify-IsWired t q w m r wired)
          (if_ok (not a.x && a.z) (zpurify t q w) _ m (λ r. zpurify-IsWired t q w m r wired)
            (λ r.
              subst (λ (o : Bool × World). IsWired addr o.1) (ok_injective (false, w) m r) wired))
          g1 in
      let (s', g2, h2) =
        bind_ok
          (conclude s m.1 (lock q a.ruleset_id a.rule_id a.action_index) a.qnic_id a.qnic_type
            (t ∷ []) (t ∷ []))
          _ out h1 in
      subst (λ (o : ActionPacket × PurifyAction × Run). IsWired addr o.2.engine.world)
        (ok_injective _ out h2)
        (conclude-IsWired s s' m.1 q a.ruleset_id a.rule_id a.action_index a.qnic_id a.qnic_type t f
          g2 wired1)

  -- A run with the two pointers as they were found.
  chosen :
      (a : PurifyAction) (s : Run) (qubit trash : Option ℕ)
      (out : ActionPacket × PurifyAction × Run)
      → ((t : ℕ) → trash ≡ some t → Finds s.engine a.qnic_type a.qnic_id (addr t) t)
      → IsWired addr s.engine.world
      → elim qubit [
        | none ↦ ok (not_enough_resource, a, s)
        | some q ↦ elim trash [
          | none ↦ ok (not_enough_resource, a, s)
          | some t ↦ purify_with a s q t
        ]
      ]
        ≡ ok out
      → IsWired addr out.2.engine.world
  chosen a s none trash out f wired h =
      subst (λ (o : ActionPacket × PurifyAction × Run). IsWired addr o.2.engine.world)
        (ok_injective (not_enough_resource, a, s) out h) wired
  chosen a s (some q) none out f wired h =
      subst (λ (o : ActionPacket × PurifyAction × Run). IsWired addr o.2.engine.world)
        (ok_injective (not_enough_resource, a, s) out h) wired
  chosen a s (some q) (some t) out f wired h = purify_with-IsWired a s q t out (f t refl) wired h

  -- Whatever PurifyAction::run returns, the pointers between entangled qubits are symmetric again
  -- and the qubits have the addresses from before, provided that the pointers were symmetric before
  -- and that the module tree finds the resources of the rule at their addresses.
  pub run_purify-IsWired :
      (a : PurifyAction) (s : Run) (out : ActionPacket × PurifyAction × Run)
      → FindsAll addr s.engine a.qnic_type a.qnic_id s.resources
      → IsWired addr s.engine.world
      → run_purify a s ≡ ok out
      → IsWired addr out.2.engine.world
  unfolding run_purify get_resource_from_top
  run_purify-IsWired a s out f wired h =
      let qubit = get_resource_from_top a.resource s in
      let trash = get_resource_from_top a.trash_resource s in
      if_ok (same qubit trash) _ _ out
        (λ r.
          subst (λ (o : ActionPacket × PurifyAction × Run). IsWired addr o.2.engine.world)
            (ok_injective (must_differ, a, s) out r) wired)
        (λ r.
          chosen a s qubit trash out
            (λ t e.
              (get_from-All (λ (b : ℤ × ℕ). Finds s.engine a.qnic_type a.qnic_id (addr b.1) b.1)
                (is_locked s.engine.world) a.trash_resource (pos 0) s.resources t f e).1)
            wired r)
        h
