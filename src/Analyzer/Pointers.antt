-- ===== src/Analyzer/Pointers.antt =====
-- The pointers between entangled qubits across a Bell measurement
-- (quisp/modules/BellStateAnalyzer.cc).
use quisp.Prelude.{
  ℕ, ℤ, ◌==◌, Bool, true, false, not, ◌&&◌, ◌==ℤ◌, pos, leb, [], ◌∷◌, err_not_ok,
  too_many_connections, if◌then◌else◌, List, Option, none, some, ok, or_fail, fail_if, if_ok,
  null_pointer, entangling_failed, bind_ok, ok_injective, ◌≡◌, refl, sym, ◌∙◌, subst, arith,
}
use quisp.Qubits.{World, Qubit, draw, set_entangled_partner_info}
use quisp.Qubits.Symmetry.{
  IsWired, IsSymmetric, Mutual, partner, if_same, if_address, same-IsWired,
  set_completely_mixed-IsWired,
}
use quisp.Analyzer.{
  Analyzer, Statistics, BsaMessage, Photon, joined, lacks_partner, add_errors,
  update_entangled_info, noted, succeeded, dark_left, dark_right, dark_both, mix_both, entangle,
  dark_on_left, dark_on_right, dark_on_both, set_both_completely_mixed, click, both_clicked,
  measure, initialize_variables, arrive, evaluate, send_bsa_result, next_round, end_of_burst,
  count_error_types, arrival, distance, both_arrived,
}

-- The pointers with a pair joined.
abbrev pub with_pair : ℕ → ℕ → (ℕ → Option ℕ) → ℕ → Option ℕ
with_pair i j p k = if k == j then some i else if k == i then some j else p k

with_pair-Mutual :
    (i j : ℕ) (p : ℕ → Option ℕ) → Mutual p → p i ≡ none → p j ≡ none → Mutual (with_pair i j p)
with_pair-Mutual i j p h ei ej a b = ground (arith, h a b)

-- What an update of the pointer does, and what errors leave alone.
if_partner :
    (b : Bool) (q q' : Qubit) (j : ℕ)
    → q'.entangled_partner ≡ some j
    → (if b then q' else q).entangled_partner ≡ (if b then some j else q.entangled_partner)
if_partner true q q' j h = h
if_partner false q q' j h = refl

set_partner :
    (i j : ℕ) (w : World) (k : ℕ)
    → partner (set_entangled_partner_info i j w) k ≡ (if k == i then some j else partner w k)
unfolding set_entangled_partner_info
set_partner i j w k = if_partner (k == i) (w.qubits k) _ j refl

set_partner_address :
    (i j : ℕ) (w : World) (k : ℕ)
    → ((set_entangled_partner_info i j w).qubits k).stationary_qubit_address
      ≡ (w.qubits k).stationary_qubit_address
unfolding set_entangled_partner_info
set_partner_address i j w k = if_address (k == i) (w.qubits k) _ refl

add_errors_partner :
    (i : ℕ) (x z : Bool) (w : World) (k : ℕ) → partner (add_errors i x z w) k ≡ partner w k
add_errors_partner i true true w k =
    if_same (k == i) _ _ refl ∙ if_same (k == i) (w.qubits k) _ refl
add_errors_partner i true false w k = if_same (k == i) (w.qubits k) _ refl
add_errors_partner i false true w k = if_same (k == i) (w.qubits k) _ refl
add_errors_partner i false false w k = refl

add_errors_address :
    (i : ℕ) (x z : Bool) (w : World) (k : ℕ)
    → ((add_errors i x z w).qubits k).stationary_qubit_address
      ≡ (w.qubits k).stationary_qubit_address
add_errors_address i true true w k =
    if_address (k == i) _ _ refl ∙ if_address (k == i) (w.qubits k) _ refl
add_errors_address i true false w k = if_address (k == i) (w.qubits k) _ refl
add_errors_address i false true w k = if_address (k == i) (w.qubits k) _ refl
add_errors_address i false false w k = refl

pub joined_partner :
    (a : Analyzer) (l r : ℕ) (w : World) (k : ℕ)
    → partner (joined a l r w) k ≡ with_pair l r (partner w) k
unfolding joined
joined_partner a l r w k =
    let w1 = set_entangled_partner_info l r w in
    let w2 = add_errors l a.left.photon_x_err a.left.photon_z_err w1 in
    let w3 = set_entangled_partner_info r l w2 in
    add_errors_partner r a.right.photon_x_err a.right.photon_z_err w3 k
    ∙ set_partner r l w2 k
    ∙ (λ i.
        if k == r
        then some l
        else (add_errors_partner l a.left.photon_x_err a.left.photon_z_err w1 k
              ∙ set_partner l r w k)
            i)

joined_address :
    (a : Analyzer) (l r : ℕ) (w : World) (k : ℕ)
    → ((joined a l r w).qubits k).stationary_qubit_address ≡ (w.qubits k).stationary_qubit_address
unfolding joined
joined_address a l r w k =
    let w1 = set_entangled_partner_info l r w in
    let w2 = add_errors l a.left.photon_x_err a.left.photon_z_err w1 in
    let w3 = set_entangled_partner_info r l w2 in
    add_errors_address r a.right.photon_x_err a.right.photon_z_err w3 k
    ∙ set_partner_address r l w2 k
    ∙ add_errors_address l a.left.photon_x_err a.left.photon_z_err w1 k
    ∙ set_partner_address l r w k

-- Two qubits without a partner are joined.
joined-IsWired :
    {addr : ℕ → ℤ} (a : Analyzer) (l r : ℕ) (w : World)
    → IsWired addr w
    → partner w l ≡ none
    → partner w r ≡ none
    → IsWired addr (joined a l r w)
unfolding IsSymmetric
joined-IsWired a l r w h el er = record {
  symmetric = λ i j p.
      joined_partner a l r w j
      ∙ with_pair-Mutual l r (partner w) h.symmetric el er i j (sym (joined_partner a l r w i) ∙ p);
  located = λ k. joined_address a l r w k ∙ h.located k;
}

abbrev pub IsUnpaired : World → Option ℕ → Type 0
IsUnpaired w none = Unit
IsUnpaired w (some q) = partner w q ≡ none

-- The pointers are symmetric, and the memories of the photons that wait for another have none.
pub record IsReady (addr : ℕ → ℤ) (w : World) (a : Analyzer) : Type 0 where
  pub wired : IsWired addr w
  pub left_unpaired : IsUnpaired w a.left.stat_qubit_ptr
  pub right_unpaired : IsUnpaired w a.right.stat_qubit_ptr

pub unpaired : (w : World) (o : Option ℕ) (q : ℕ) → o ≡ some q → IsUnpaired w o → partner w q ≡ none
unpaired w none q e u = cc
unpaired w (some p) q e u = ground arith

pub pointer_known : (o : Option ℕ) (q : ℕ) → or_fail o null_pointer ≡ ok q → o ≡ some q
pointer_known none q h = cc
pointer_known (some p) q h = cc

module _ {addr : ℕ → ℤ} where
  update_entangled_info-IsWired :
      (a : Analyzer) (w w' : World)
      → IsReady addr w a
      → update_entangled_info a w ≡ ok w'
      → IsWired addr w'
  unfolding update_entangled_info
  update_entangled_info-IsWired a w w' h e =
      let (l, e1, g1) = bind_ok (or_fail a.left.stat_qubit_ptr null_pointer) _ w' e in
      let (r, e2, g2) = bind_ok (or_fail a.right.stat_qubit_ptr null_pointer) _ w' g1 in
      let (u, e3, g3) =
        bind_ok (fail_if (lacks_partner (joined a l r w) l r) entangling_failed) _ w' g2 in
      subst (IsWired addr) (ok_injective (joined a l r w) w' g3) (
        joined-IsWired a l r w h.wired
          (unpaired w a.left.stat_qubit_ptr l (pointer_known a.left.stat_qubit_ptr l e1)
            h.left_unpaired)
          (unpaired w a.right.stat_qubit_ptr r (pointer_known a.right.stat_qubit_ptr r e2)
            h.right_unpaired))

  set_both-IsWired :
      (a : Analyzer) (w w' : World)
      → IsWired addr w
      → set_both_completely_mixed a w ≡ ok w'
      → IsWired addr w'
  unfolding set_both_completely_mixed
  set_both-IsWired a w w' h e =
      let (l, e1, g1) = bind_ok (or_fail a.left.stat_qubit_ptr null_pointer) _ w' e in
      let (r, e2, g2) = bind_ok (or_fail a.right.stat_qubit_ptr null_pointer) _ w' g1 in
      subst (IsWired addr) (ok_injective _ w' g2)
        (set_completely_mixed-IsWired r _ (set_completely_mixed-IsWired l w h))

  mix_both-IsWired :
      (f : Statistics → Statistics) (a : Analyzer) (w : World) (out : World × Analyzer)
      → IsWired addr w
      → mix_both f a w ≡ ok out
      → IsWired addr out.0
  mix_both-IsWired f a w out h e =
      let (w', e1, g1) = bind_ok (set_both_completely_mixed a w) _ out e in
      subst (λ (o : World × Analyzer). IsWired addr o.0) (ok_injective (w', noted f a) out g1)
        (set_both-IsWired a w w' h e1)

  entangle-IsWired :
      (a : Analyzer) (w : World) (out : World × Analyzer)
      → IsReady addr w a
      → entangle a w ≡ ok out
      → IsWired addr out.0
  entangle-IsWired a w out h e =
      let (w', e1, g1) =
        bind_ok (update_entangled_info a w) (λ w1. ok (w1, noted succeeded a)) out e in
      subst (λ (o : World × Analyzer). IsWired addr o.0)
        (ok_injective (w', noted succeeded a) out g1) (update_entangled_info-IsWired a w w' h e1)

  click-IsWired :
      (a : Analyzer) (dl dr : ℕ) (w : World) (out : World × Analyzer)
      → IsReady addr w a
      → click a dl dr w ≡ ok out
      → IsWired addr out.0
  unfolding click
  click-IsWired a dl dr w out h e =
      if_ok (dark_on_left a dl) _ _ out (mix_both-IsWired dark_left a w out h.wired)
        (if_ok (dark_on_right a dr) _ _ out (mix_both-IsWired dark_right a w out h.wired) (
          if_ok (dark_on_both a dl dr) _ (entangle a w) out
            (mix_both-IsWired dark_both a w out h.wired) (entangle-IsWired a w out h)))
        e

  measure-IsReady :
      (a : Analyzer) (w : World) (out : List BsaMessage × World × Analyzer)
      → IsReady addr w a
      → measure a w ≡ ok out
      → IsReady addr out.1 out.2
  unfolding measure initialize_variables
  measure-IsReady a w out h e =
      let w3 = (draw (draw (draw w).1).1).1 in
      let h3 : IsReady addr w3 a = record {
        wired = same-IsWired w w3 (λ j. refl) (λ j. refl) h.wired;
        left_unpaired = moved a.left.stat_qubit_ptr h.left_unpaired;
        right_unpaired = moved a.right.stat_qubit_ptr h.right_unpaired;
      } in
      let rand = (draw w).0 in
      let dl = (draw (draw w).1).0 in
      let dr = (draw (draw (draw w).1).1).0 in
      let clicked = both_clicked a rand dl dr in
      let (m, e1, g1) = bind_ok (if clicked then click a dl dr w3 else ok (w3, a)) _ out e in
      let wired : IsWired addr m.0 =
        if_ok clicked (click a dl dr w3) (ok (w3, a)) m (click-IsWired a dl dr w3 m h3)
          (λ r.
            subst (λ (o : World × Analyzer). IsWired addr o.0) (ok_injective (w3, a) m r) h3.wired)
          e1 in
      subst (λ (o : List BsaMessage × World × Analyzer). IsReady addr o.1 o.2)
        (ok_injective _ out g1) (record { wired = wired; left_unpaired = tt; right_unpaired = tt })
    where
      moved : (o : Option ℕ) → IsUnpaired w o → IsUnpaired ((draw (draw (draw w).1).1).1) o
      moved none u = u
      moved (some q) u = u

  if_IsReady :
      (b : Bool) (w : World) (x y : Analyzer)
      → IsReady addr w x
      → IsReady addr w y
      → IsReady addr w (if b then x else y)
  if_IsReady true w x y h k = h
  if_IsReady false w x y h k = k

  same_pointers :
      (w : World) (a a' : Analyzer)
      → a'.left.stat_qubit_ptr ≡ a.left.stat_qubit_ptr
      → a'.right.stat_qubit_ptr ≡ a.right.stat_qubit_ptr
      → IsReady addr w a
      → IsReady addr w a'
  same_pointers w a a' l r h = record {
    wired = h.wired;
    left_unpaired = subst (IsUnpaired w) (sym l) h.left_unpaired;
    right_unpaired = subst (IsUnpaired w) (sym r) h.right_unpaired;
  }

  send-IsReady :
      (result send : Bool) (w : World) (a : Analyzer)
      → IsReady addr w a
      → IsReady addr w (send_bsa_result result send a).1
  unfolding send_bsa_result
  send-IsReady result true w a h = same_pointers w a _ refl refl h
  send-IsReady result false w a h = h

  arrive-IsReady :
      (port : ℤ) (photon : Photon) (now : ℤ) (w : World) (a a' : Analyzer)
      → partner w photon.entangled_with ≡ none
      → IsReady addr w a
      → arrive port photon now a ≡ ok a'
      → IsReady addr w a'
  unfolding arrive
  arrive-IsReady port photon now w a a' u h e =
      let l : Analyzer = record a { left = arrival photon now a.left } in
      let r : Analyzer = record a { right = arrival photon now a.right } in
      let hl : IsReady addr w l = record {
        wired = h.wired;
        left_unpaired = u;
        right_unpaired = h.right_unpaired;
      } in
      let hr : IsReady addr w r = record {
        wired = h.wired;
        left_unpaired = h.left_unpaired;
        right_unpaired = u;
      } in
      if_ok (port ==ℤ pos 0) _ _ a' (λ p. subst (IsReady addr w) (ok_injective l a' p) hl)
        (if_ok (port ==ℤ pos 1) _ _ a' (λ p. subst (IsReady addr w) (ok_injective r a' p) hr)
          (λ p. absurd (err_not_ok too_many_connections a' p)))
        e

  forgotten_pointers :
      (a : Analyzer) (w : World) → IsWired addr w → IsReady addr w (initialize_variables a)
  unfolding initialize_variables
  forgotten_pointers a w h = record { wired = h; left_unpaired = tt; right_unpaired = tt }

  pub evaluate-IsReady :
      (a : Analyzer) (w : World) (out : List BsaMessage × World × Analyzer)
      → IsReady addr w a
      → evaluate a w ≡ ok out
      → IsReady addr out.1 out.2
  unfolding evaluate
  evaluate-IsReady a w out h e =
      let P : List BsaMessage × World × Analyzer → Type 0 = λ o. IsReady addr o.1 o.2 in
      let in_time = leb (distance a.left.arrived_at a.right.arrived_at) a.required_precision in
      let kept : ok ([], w, a) ≡ ok out → P out = λ p. subst P (ok_injective ([], w, a) out p) h in
      let sent = send_bsa_result true a.send_result (initialize_variables a) in
      let out_of_time : ok (sent.0 ∷ [], w, sent.1) ≡ ok out → P out = λ p.
        subst P (ok_injective (sent.0 ∷ [], w, sent.1) out p) (
          send-IsReady true a.send_result w (initialize_variables a)
            (forgotten_pointers a w h.wired)) in
      if_ok a.this_trial_done _ _ out kept
        (if_ok (both_arrived a && in_time) _ _ out (measure-IsReady a w out h)
          (if_ok (both_arrived a && not in_time) _ _ out out_of_time kept))
        e

  -- What the handler evaluates after the arrival of a photon.
  pub arrived-IsReady :
      (port : ℤ) (photon : Photon) (w : World) (a a1 : Analyzer)
      → partner w photon.entangled_with ≡ none
      → IsReady addr w a
      → arrive port photon w.now (next_round photon a) ≡ ok a1
      → IsReady addr w (count_error_types photon (end_of_burst a1))
  unfolding count_error_types
  arrived-IsReady port photon w a a1 u h e =
      let h0 : IsReady addr w (next_round photon a) =
        if_IsReady (photon.first && a.this_trial_done) w _ _ (same_pointers w a _ refl refl h) h in
      same_pointers w a1 _ refl refl
        (arrive-IsReady port photon w.now w (next_round photon a) a1 u h0 e)
