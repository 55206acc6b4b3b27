-- ===== src/Engine/Actions/Conclude.antt =====
-- What the end of a purification leaves behind (quisp/rules/Action.cc, and freeConsumedResource of
-- quisp/modules/RuleEngine.cc): the measured qubit is cut from its partner and freed.
use quisp.Prelude.{
  ℕ, ℤ, minus_one, ◌==ℤ◌, ◌==◌, Bool, true, false, ◌||◌, if◌then◌else◌, [], ◌∷◌, Option,
  Option-cases, none, some, ok, ◌>>=◌, fail_if, or_fail, no_such_module, lock_without_id, bind_ok,
  ok_injective, err_not_ok, if_ok, ◌≡◌, refl, sym, ap, ◌∙◌, subst, inl, inr, arith,
}
use quisp.Network.{QnicType, qnic_n}
use quisp.Slots.{set_qubit_free_in_qnic}
use quisp.Qubits.{World, Qubit, update, lock, locked_for, freed, set_free, no_ruleset}
use quisp.Qubits.Symmetry.{
  IsSymmetric, IsWired, Mutual, partner, without-Mutual, update-IsWired, update_address,
}
use quisp.Engine.{Engine, same_type, re_initialize_stationary_qubit, free_consumed_resource}
use quisp.Engine.Actions.{Run, left_alone, break_partner, free_all, conclude}

-- A qubit without a partner may lose its pointer.
alone-Mutual :
    (i : ℕ) (p : ℕ → Option ℕ) → Mutual p → p i ≡ none → Mutual (λ k. if k == i then none else p k)
alone-Mutual i p h e a b = ground (arith, h a b)

if_freed :
    (b : Bool) (q : Qubit)
    → (if b then freed q else q).entangled_partner ≡ (if b then none else q.entangled_partner)
if_freed true q = refl
if_freed false q = refl

if_freed_left :
    (b c : Bool) (q : Qubit)
    → (if b
        then freed (if c then left_alone q else q)
        else if c
        then left_alone q
        else q).entangled_partner
      ≡ (if b then none else if c then none else q.entangled_partner)
if_freed_left true c q = refl
if_freed_left false true q = refl
if_freed_left false false q = refl

-- A measured qubit that is cut from its partner and freed.
consumed-IsSymmetric :
    (i : ℕ) (w : World) → IsSymmetric w → IsSymmetric (set_free i (break_partner i w))
unfolding IsSymmetric set_free break_partner
consumed-IsSymmetric i w h = elim (Option-cases (partner w i)) [
  | inl e ↦
      rw (break_partner, e)
        (λ a b p.
          if_freed (b == i) (w.qubits b)
          ∙ alone-Mutual i (partner w) h e a b (sym (if_freed (a == i) (w.qubits a)) ∙ p))
  | inr (j, e) ↦
      rw (break_partner, e)
        (λ a b p.
          if_freed_left (b == i) (b == j) (w.qubits b)
          ∙ without-Mutual i j (partner w) h e a b
              (sym (if_freed_left (a == i) (a == j) (w.qubits a)) ∙ p))
]

break_partner-located :
    (i : ℕ) (w : World) (k : ℕ)
    → ((break_partner i w).qubits k).stationary_qubit_address
      ≡ (w.qubits k).stationary_qubit_address
unfolding break_partner
break_partner-located i w k = elim (Option-cases (partner w i)) [
  | inl e ↦ rw (break_partner, e) refl
  | inr (j, e) ↦ rw (break_partner, e) (update_address j left_alone w (λ q. refl) k)
]

-- The module tree finds the qubit at its address.
abbrev pub Finds : Engine → QnicType → ℤ → ℤ → ℕ → Type 0
Finds e type qnic address i = e.stat_qubit type qnic address ≡ some i

re_initialize-world :
    (e e' : Engine) (qnic address : ℤ) (i : ℕ) (type : QnicType)
    → Finds e type qnic address i
    → re_initialize_stationary_qubit qnic address type e ≡ ok e'
    → e'.world ≡ set_free i e.world
unfolding re_initialize_stationary_qubit
re_initialize-world e e' qnic address i type f h =
    let (u, e1, h1) = bind_ok (fail_if (same_type type qnic_n) no_such_module) _ e' h in
    let h2 =
      subst
        (λ o.
          (or_fail o no_such_module >>= λ q. ok (record e { world = set_free q e.world })) ≡ ok e')
        f h1 in
    sym
      (ap (λ (x : Engine). x.world) (ok_injective (record e { world = set_free i e.world }) e' h2))

free-world :
    (e e' : Engine) (qnic : ℤ) (i : ℕ) (type : QnicType)
    → Finds e type qnic (e.world.qubits i).stationary_qubit_address i
    → free_consumed_resource qnic i type e ≡ ok e'
    → e'.world ≡ set_free i e.world
unfolding free_consumed_resource
free-world e e' qnic i type f h =
    let address = (e.world.qubits i).stationary_qubit_address in
    let (e1, g1, h1) = bind_ok (re_initialize_stationary_qubit qnic address type e) _ e' h in
    let (t, g2, h2) =
      bind_ok (set_qubit_free_in_qnic (e1.busy_or_free type) qnic address) _ e' h1 in
    sym (ap (λ (x : Engine). x.world) (ok_injective _ e' h2))
    ∙ re_initialize-world e e1 qnic address i type f g1

module _ {addr : ℕ → ℤ} where
  consumed-IsWired :
      (i : ℕ) (w : World) → IsWired addr w → IsWired addr (set_free i (break_partner i w))
  unfolding set_free
  consumed-IsWired i w h = record {
    symmetric = consumed-IsSymmetric i w h.symmetric;
    located = λ k.
        update_address i freed (break_partner i w) (λ q. refl) k
        ∙ break_partner-located i w k
        ∙ h.located k;
  }

  lock-IsWired :
      (i rs : ℕ) (rule action : ℤ) (w w' : World)
      → lock i rs rule action w ≡ ok w'
      → IsWired addr w
      → IsWired addr w'
  unfolding lock
  lock-IsWired i rs rule action w w' e h =
      if_ok ((rs == no_ruleset) || (rule ==ℤ minus_one) || (action ==ℤ minus_one)) _ _ w'
        (λ r. absurd (err_not_ok lock_without_id w' r))
        (λ r.
          subst (IsWired addr) (ok_injective (update i (locked_for rs rule action) w) w' r)
            (update-IsWired i (locked_for rs rule action) w (λ q. refl) (λ q. refl) h))
        e

  pub conclude-IsWired :
      (s s' : Run) (w : World) (q rs : ℕ) (rule action qnic : ℤ) (type : QnicType) (i : ℕ)
      → Finds s.engine type qnic (addr i) i
      → conclude s w (lock q rs rule action) qnic type (i ∷ []) (i ∷ []) ≡ ok s'
      → IsWired addr w
      → IsWired addr s'.engine.world
  unfolding conclude
  conclude-IsWired s s' w q rs rule action qnic type i f h wired =
      let (w1, g1, h1) = bind_ok (lock q rs rule action w) _ s' h in
      let v = break_partner i w1 in
      let wired1 = lock-IsWired q rs rule action w w1 g1 wired in
      let start = record s.engine { world = v } in
      let (e2, g2, h2) = bind_ok (free_all qnic type (i ∷ []) start) _ s' h1 in
      let (e1, g3, h3) = bind_ok (free_consumed_resource qnic i type start) _ e2 g2 in
      let at_address : (v.qubits i).stationary_qubit_address ≡ addr i =
        break_partner-located i w1 i ∙ wired1.located i in
      let found : Finds start type qnic (v.qubits i).stationary_qubit_address i =
        subst (λ a. s.engine.stat_qubit type qnic a ≡ some i) (sym at_address) f in
      subst (λ (r : Run). IsWired addr r.engine.world) (ok_injective _ s' h2)
        (subst (λ (x : Engine). IsWired addr x.world) (ok_injective e1 e2 h3)
          (subst (IsWired addr) (sym (free-world start e1 qnic i type found g3))
            (consumed-IsWired i w1 wired1)))
