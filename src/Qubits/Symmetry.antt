-- ===== src/Qubits/Symmetry.antt =====
-- The pointers between entangled qubits (quisp/modules/stationaryQubit.cc): the partner of the
-- partner of a qubit is the qubit itself, whatever memory errors, gates and purifications do.
use quisp.Prelude.{
  ℕ, ℤ, ◌==◌, Bool, true, false, not, ◌&&◌, if◌then◌else◌, Option, Option-cases, none, some, ok,
  fail_if, or_fail, mixed_flag, excited_flag, transition_matrix, state_not_known, ltb_ℤ, ◌==ᵇ◌,
  bind_ok, ok_injective, if_ok, ◌≡◌, refl, sym, ◌∙◌, subst, inl, inr, arith,
}
use quisp.Qubits.{
  density_mixed, density_excited, density_relaxed, Ceilings, draw, Qubit, World, update,
}
use quisp.Qubits.Memory.{
  collapsed, stamped, with_pauli, memory_state, is_none, is_not_set, apart, cut_entanglement,
  set_completely_mixed, mix_partner, set_excited, set_relaxed, settle, evolve, apply_memory_error,
}

-- Pointers alone: what a qubit's partner is.
abbrev pub partner : World → ℕ → Option ℕ
partner w i = (w.qubits i).entangled_partner

abbrev pub Mutual : (ℕ → Option ℕ) → Type 0
Mutual p = (i j : ℕ) → p i ≡ some j → p j ≡ some i

unfoldable pub IsSymmetric : World → Type 0
IsSymmetric w = (i j : ℕ) → partner w i ≡ some j → partner w j ≡ some i

-- The pointers are symmetric, and the qubits have the addresses that are given.
pub record IsWired (addr : ℕ → ℤ) (w : World) : Type 0 where
  pub symmetric : IsSymmetric w
  pub located : (i : ℕ) → (w.qubits i).stationary_qubit_address ≡ addr i

pub if_same :
    (b : Bool) (q q' : Qubit)
    → q'.entangled_partner ≡ q.entangled_partner
    → (if b then q' else q).entangled_partner ≡ q.entangled_partner
if_same true q q' h = h
if_same false q q' h = refl

pub if_address :
    (b : Bool) (q q' : Qubit)
    → q'.stationary_qubit_address ≡ q.stationary_qubit_address
    → (if b then q' else q).stationary_qubit_address ≡ q.stationary_qubit_address
if_address true q q' h = h
if_address false q q' h = refl

-- The pointers with a pair cut.
abbrev pub without : ℕ → ℕ → (ℕ → Option ℕ) → ℕ → Option ℕ
without i j p k = if k == i then none else if k == j then none else p k

pub without-Mutual : (i j : ℕ) (p : ℕ → Option ℕ) → Mutual p → p i ≡ some j → Mutual (without i j p)
without-Mutual i j p h e a b = ground (arith, h a b, h i j)

if_apart :
    (b c : Bool) (q : Qubit)
    → (if b then apart (if c then apart q else q) else if c then apart q else q).entangled_partner
      ≡ (if b then none else if c then none else q.entangled_partner)
if_apart true c q = refl
if_apart false true q = refl
if_apart false false q = refl

cut_pair-IsSymmetric :
    (i j : ℕ) (w : World)
    → IsSymmetric w
    → partner w i ≡ some j
    → IsSymmetric (update i apart (update j apart w))
unfolding IsSymmetric
cut_pair-IsSymmetric i j w h e a b p =
    if_apart (b == i) (b == j) (w.qubits b)
    ∙ without-Mutual i j (partner w) h e a b (sym (if_apart (a == i) (a == j) (w.qubits a)) ∙ p)

-- An update that keeps addresses.
pub update_address :
    (i : ℕ) (f : Qubit → Qubit) (w : World)
    → ((q : Qubit) → (f q).stationary_qubit_address ≡ q.stationary_qubit_address)
    → (j : ℕ)
    → ((update i f w).qubits j).stationary_qubit_address ≡ (w.qubits j).stationary_qubit_address
update_address i f w h j = if_address (j == i) (w.qubits j) (f (w.qubits j)) (h (w.qubits j))

module _ {addr : ℕ → ℤ} where
  pub same-IsWired :
      (w w' : World)
      → ((i : ℕ) → partner w' i ≡ partner w i)
      → ((i : ℕ) → (w'.qubits i).stationary_qubit_address ≡ (w.qubits i).stationary_qubit_address)
      → IsWired addr w
      → IsWired addr w'
  unfolding IsSymmetric
  same-IsWired w w' e a h = record {
    symmetric = λ i j p. e j ∙ h.symmetric i j (sym (e i) ∙ p);
    located = λ i. a i ∙ h.located i;
  }

  pub update-IsWired :
      (i : ℕ) (f : Qubit → Qubit) (w : World)
      → ((q : Qubit) → (f q).entangled_partner ≡ q.entangled_partner)
      → ((q : Qubit) → (f q).stationary_qubit_address ≡ q.stationary_qubit_address)
      → IsWired addr w
      → IsWired addr (update i f w)
  update-IsWired i f w hp ha =
      same-IsWired w (update i f w)
        (λ j. if_same (j == i) (w.qubits j) (f (w.qubits j)) (hp (w.qubits j)))
        (update_address i f w ha)

  cut_pair-IsWired :
      (i j : ℕ) (w : World)
      → IsWired addr w
      → partner w i ≡ some j
      → IsWired addr (update i apart (update j apart w))
  cut_pair-IsWired i j w h e = record {
    symmetric = cut_pair-IsSymmetric i j w h.symmetric e;
    located = λ k.
        update_address i apart (update j apart w) (λ q. refl) k
        ∙ update_address j apart w (λ q. refl) k
        ∙ h.located k;
  }

  pub cut_entanglement-IsWired :
      (i : ℕ) (w : World) → IsWired addr w → IsWired addr (cut_entanglement i w)
  unfolding cut_entanglement
  cut_entanglement-IsWired i w h = elim (Option-cases (partner w i)) [
    | inl e ↦ rw (cut_entanglement, e) h
    | inr (j, e) ↦ rw (cut_entanglement, e) (cut_pair-IsWired i j w h e)
  ]

  pub set_completely_mixed-IsWired :
      (i : ℕ) (w : World) → IsWired addr w → IsWired addr (set_completely_mixed i w)
  unfolding set_completely_mixed
  set_completely_mixed-IsWired i w h =
      update-IsWired i (collapsed density_mixed true false false) (cut_entanglement i w) (λ q. refl)
        (λ q. refl) (cut_entanglement-IsWired i w h)

  mix_partner-IsWired : (i : ℕ) (w : World) → IsWired addr w → IsWired addr (mix_partner i w)
  unfolding mix_partner
  mix_partner-IsWired i w h = elim (Option-cases (partner w i)) [
    | inl e ↦ rw (mix_partner, e) h
    | inr (j, e) ↦
        rw (mix_partner, e)
          (set_completely_mixed-IsWired j _
            (update-IsWired j (stamped w.now) w (λ q. refl) (λ q. refl) h))
  ]

  pub if_IsWired :
      (b : Bool) (x y : World) → IsWired addr x → IsWired addr y → IsWired addr (if b then x else y)
  if_IsWired true x y hx hy = hx
  if_IsWired false x y hx hy = hy

  settle-IsWired :
      (i : ℕ) (c : Ceilings) (rand : ℕ) (w : World)
      → IsWired addr w
      → IsWired addr (settle i c rand w)
  unfolding settle set_excited set_relaxed
  settle-IsWired i c rand w h =
      let pauli : (x z : Bool) → IsWired addr (update i (with_pauli x z) w) =
        λ x z. update-IsWired i (with_pauli x z) w (λ q. refl) (λ q. refl) h in
      if_IsWired _ _ _ (pauli false false) (
        if_IsWired _ _ _ (pauli true false) (
          if_IsWired _ _ _ (pauli false true) (
            if_IsWired _ _ _ (pauli true true) (
              if_IsWired _ _ _
                (mix_partner-IsWired i _ (
                  update-IsWired i (collapsed density_excited false true false) w (λ q. refl)
                    (λ q. refl) h))
                (if_IsWired _ _ _
                  (mix_partner-IsWired i _ (
                    update-IsWired i (collapsed density_relaxed false false true) w (λ q. refl)
                      (λ q. refl) h))
                  (set_completely_mixed-IsWired i _ (mix_partner-IsWired i w h)))))))

  evolve-IsWired :
      (self i : ℕ) (w w' : World) → evolve self i w ≡ ok w' → IsWired addr w → IsWired addr w'
  unfolding evolve
  evolve-IsWired self i w w' e h =
      let q = w.qubits i in
      let (u1, e1, g1) =
        bind_ok (fail_if (not (q.completely_mixed ==ᵇ q.god_cm_error)) mixed_flag) _ w' e in
      let (u2, e2, g2) =
        bind_ok
          (fail_if
            (not (q.excited_or_relaxed ==ᵇ q.god_ex_error)
              && not (q.excited_or_relaxed ==ᵇ q.god_re_error))
            excited_flag)
          _ w' g1 in
      let (c, e3, g3) =
        bind_ok
          (or_fail ((w.qubits self).evolution (memory_state q) q.updated_time w.now)
            transition_matrix)
          _ w' g2 in
      subst (IsWired addr) (ok_injective (settle i c (draw w).0 (draw w).1) w' g3) (
        settle-IsWired i c (draw w).0 (draw w).1
          (same-IsWired w (draw w).1 (λ j. refl) (λ j. refl) h))

  -- Whatever memory error the draw selects, symmetric pointers are symmetric afterwards, and the
  -- qubits have the addresses from before.
  pub apply_memory_error-IsWired :
      (self i : ℕ) (w w' : World)
      → apply_memory_error self i w ≡ ok w'
      → IsWired addr w
      → IsWired addr w'
  unfolding apply_memory_error
  apply_memory_error-IsWired self i w w' e h =
      let q = w.qubits i in
      let (u1, e1, g1) =
        bind_ok
          (fail_if
            (is_none q.entangled_partner
              && is_not_set q.density
              && not q.no_density_matrix_nullptr_entangled_partner_ok)
            state_not_known)
          _ w' e in
      if_ok (q.memory_error_rate == 0) _ _ w' (λ r. subst (IsWired addr) (ok_injective w w' r) h)
        (λ r.
          let (w1, e2, g2) =
            bind_ok (if ltb_ℤ q.updated_time w.now then evolve self i w else ok w) _ w' r in
          let h1 : IsWired addr w1 =
            if_ok (ltb_ℤ q.updated_time w.now) (evolve self i w) (ok w) w1
              (λ r'. evolve-IsWired self i w w1 r' h)
              (λ r'. subst (IsWired addr) (ok_injective w w1 r') h) e2 in
          subst (IsWired addr) (ok_injective (update i (stamped w.now) w1) w' g2)
            (update-IsWired i (stamped w.now) w1 (λ q. refl) (λ q. refl) h1))
        g1
