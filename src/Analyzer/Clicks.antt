-- ===== src/Analyzer/Clicks.antt =====
-- What two clicks do to the pointers between memories (quisp/modules/BellStateAnalyzer.cc).
use quisp.Prelude.{
  ℕ, ℤ, ◌==◌, ltb, leb, ◌||◌, Bool, true, false, not, ◌&&◌, Bool-cases, List, [], ◌∷◌, Option, none,
  some, ok, or_fail, fail_if, null_pointer, entangling_failed, bind_ok, ok_injective, ◌≡◌, refl,
  sym, ap, ◌∙◌, subst, inl, inr, arith,
}
use quisp.Qubits.{World, density_mixed}
use quisp.Qubits.Memory.{cut_entanglement, set_completely_mixed, collapsed}
use quisp.Qubits.Symmetry.{partner, if_same}
use quisp.Analyzer.{
  Analyzer, Statistics, BsaMessage, joined, lacks_partner, update_entangled_info, noted, succeeded,
  dark_left, dark_right, dark_both, mix_both, entangle, dark_on_left, dark_on_right, dark_on_both,
  set_both_completely_mixed, click, both_clicked, bsa_result, bsa_finish,
}
use quisp.Analyzer.Pointers.{IsReady, with_pair, joined_partner, unpaired, pointer_known}

-- The pointers after two memories have been joined, or have not.
abbrev pub paired : Bool → Option ℕ → Option ℕ → (ℕ → Option ℕ) → ℕ → Option ℕ
paired true (some l) (some r) p = with_pair l r p
paired true (some l) none p = p
paired true none r p = p
paired false l r p = p

-- The message says that the measurement succeeded: its field is true for a failure.
abbrev pub heralds : List BsaMessage → Bool
heralds (bsa_result e ∷ []) = not e
heralds (bsa_finish e ∷ []) = not e
heralds _ = false

abbrev pub neither_lost : (left right : Bool) → Bool
neither_lost left right = not left && not right

-- The pointers of the second world are those of the first, with the memories of the two sides joined
-- if `b`.
pub record Pairs (b : Bool) (a : Analyzer) (w w' : World) : Type 0 where
  pub pointers :
      (k : ℕ) → partner w' k ≡ paired b a.left.stat_qubit_ptr a.right.stat_qubit_ptr (partner w) k

pub same-Pairs :
    (a : Analyzer) (w w' : World) → ((k : ℕ) → partner w' k ≡ partner w k) → Pairs false a w w'
same-Pairs a w w' e = record { pointers = e }

set_completely_mixed-unpaired :
    (i : ℕ) (w : World)
    → partner w i ≡ none
    → (k : ℕ) → partner (set_completely_mixed i w) k ≡ partner w k
unfolding set_completely_mixed cut_entanglement
set_completely_mixed-unpaired i w e k =
    let is : cut_entanglement i w ≡ w = rw (cut_entanglement, e) refl in
    let v = cut_entanglement i w in
    if_same (k == i) (v.qubits k) (collapsed density_mixed true false false (v.qubits k)) refl
    ∙ ap (λ x. partner x k) is

module _ {addr : ℕ → ℤ} where
  set_both-Pairs :
      (a : Analyzer) (w w' : World)
      → IsReady addr w a
      → set_both_completely_mixed a w ≡ ok w'
      → Pairs false a w w'
  unfolding set_both_completely_mixed
  set_both-Pairs a w w' h e =
      let (l, e1, g1) = bind_ok (or_fail a.left.stat_qubit_ptr null_pointer) _ w' e in
      let (r, e2, g2) = bind_ok (or_fail a.right.stat_qubit_ptr null_pointer) _ w' g1 in
      let left = pointer_known a.left.stat_qubit_ptr l e1 in
      let right = pointer_known a.right.stat_qubit_ptr r e2 in
      let w1 = set_completely_mixed l w in
      let same = set_completely_mixed-unpaired l w (unpaired w _ l left h.left_unpaired) in
      let free : partner w1 r ≡ none = same r ∙ unpaired w _ r right h.right_unpaired in
      subst (Pairs false a w) (ok_injective (set_completely_mixed r w1) w' g2)
        (record { pointers = λ k. set_completely_mixed-unpaired r w1 free k ∙ same k })

  mix_both-Pairs :
      (f : Statistics → Statistics) (a : Analyzer) (w : World) (out : World × Analyzer)
      → IsReady addr w a
      → mix_both f a w ≡ ok out
      → Pairs false a w out.0
  mix_both-Pairs f a w out h e =
      let (w', e1, g1) = bind_ok (set_both_completely_mixed a w) _ out e in
      subst (λ (o : World × Analyzer). Pairs false a w o.0) (ok_injective (w', noted f a) out g1)
        (set_both-Pairs a w w' h e1)

update_entangled_info-Pairs :
    (a : Analyzer) (w w' : World) → update_entangled_info a w ≡ ok w' → Pairs true a w w'
unfolding update_entangled_info
update_entangled_info-Pairs a w w' e =
    let (l, e1, g1) = bind_ok (or_fail a.left.stat_qubit_ptr null_pointer) _ w' e in
    let (r, e2, g2) = bind_ok (or_fail a.right.stat_qubit_ptr null_pointer) _ w' g1 in
    let (u, e3, g3) =
      bind_ok (fail_if (lacks_partner (joined a l r w) l r) entangling_failed) _ w' g2 in
    let left = pointer_known a.left.stat_qubit_ptr l e1 in
    let right = pointer_known a.right.stat_qubit_ptr r e2 in
    subst (Pairs true a w) (ok_injective (joined a l r w) w' g3) (record {
      pointers =
          λ k. joined_partner a l r w k ∙ sym (λ i. paired true (left i) (right i) (partner w) k);
    })

entangle-Pairs :
    (a : Analyzer) (w : World) (out : World × Analyzer)
    → entangle a w ≡ ok out
    → Pairs true a w out.0
entangle-Pairs a w out e =
    let (w', e1, g1) =
      bind_ok (update_entangled_info a w) (λ w1. ok (w1, noted succeeded a)) out e in
    subst (λ (o : World × Analyzer). Pairs true a w o.0)
      (ok_injective (w', noted succeeded a) out g1) (update_entangled_info-Pairs a w w' e1)

-- After a click that no dark count explains, both photons were there.
abbrev pub both_there : Analyzer → Bool
both_there a = neither_lost a.left.photon_lost a.right.photon_lost

no_dark-both_there :
    (l r : Bool) (rand rate p dl dr : ℕ)
    → ((ltb rand rate && not r && not l)
        || (not r && l && ltb dl p)
        || (r && not l && ltb dr p)
        || (r && l && ltb dl p && ltb dr p))
      ≡ true
    → (not r && (l && leb dl p)) ≡ false
    → (not l && (r && leb dr p)) ≡ false
    → ((l && leb dl p) && (r && leb dr p)) ≡ false
    → neither_lost l r ≡ true
no_dark-both_there false false rand rate p dl dr c x y z = refl
no_dark-both_there true false rand rate p dl dr c x y z = ground arith
no_dark-both_there false true rand rate p dl dr c x y z = ground arith
no_dark-both_there true true rand rate p dl dr c x y z = ground arith

dark_left-lost : (l r b : Bool) → (not r && (l && b)) ≡ true → neither_lost l r ≡ false
dark_left-lost true r b h = refl
dark_left-lost false r b h = ground arith

dark_right-lost : (l r b : Bool) → (not l && (r && b)) ≡ true → neither_lost l r ≡ false
dark_right-lost true r b h = refl
dark_right-lost false true b h = refl
dark_right-lost false false b h = cc

dark_both-lost : (l r b c : Bool) → ((l && b) && (r && c)) ≡ true → neither_lost l r ≡ false
dark_both-lost true r b c h = refl
dark_both-lost false r b c h = cc

module _ {addr : ℕ → ℤ} where
  pub click-Pairs :
      (a : Analyzer) (rand dl dr : ℕ) (w : World) (out : World × Analyzer)
      → both_clicked a rand dl dr ≡ true
      → IsReady addr w a
      → click a dl dr w ≡ ok out
      → Pairs (both_there a) a w out.0
  unfolding click
  click-Pairs a rand dl dr w out c h e =
      let l = a.left.photon_lost in
      let r = a.right.photon_lost in
      let p = a.darkcount_probability in
      let to = λ (b : Bool) (same : both_there a ≡ b) (x : Pairs b a w out.0).
        subst (λ b. Pairs b a w out.0) (sym same) x in
      elim (Bool-cases (dark_on_left a dl)) [
        | inl x ↦
            let is : click a dl dr w ≡ mix_both dark_left a w = rw (click, x) refl in
            to false (dark_left-lost l r (leb dl p) x)
              (mix_both-Pairs dark_left a w out h (sym is ∙ e))
        | inr x ↦ elim (Bool-cases (dark_on_right a dr)) [
          | inl y ↦
              let is : click a dl dr w ≡ mix_both dark_right a w = rw (click, x, y) refl in
              to false (dark_right-lost l r (leb dr p) y)
                (mix_both-Pairs dark_right a w out h (sym is ∙ e))
          | inr y ↦ elim (Bool-cases (dark_on_both a dl dr)) [
            | inl z ↦
                let is : click a dl dr w ≡ mix_both dark_both a w = rw (click, x, y, z) refl in
                to false (dark_both-lost l r (leb dl p) (leb dr p) z)
                  (mix_both-Pairs dark_both a w out h (sym is ∙ e))
            | inr z ↦
                let is : click a dl dr w ≡ entangle a w = rw (click, x, y, z) refl in
                to true (no_dark-both_there l r rand a.bsa_success_rate p dl dr c x y z)
                  (entangle-Pairs a w out (sym is ∙ e))
          ]
        ]
      ]
