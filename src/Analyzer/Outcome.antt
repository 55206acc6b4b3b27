-- ===== src/Analyzer/Outcome.antt =====
-- What a measurement of two photons comes to (quisp/modules/BellStateAnalyzer.cc).
use quisp.Prelude.{
  ℕ, ◌+◌, minus_one, Bool, true, false, not, ◌&&◌, if◌then◌else◌, Bool-cases, Option-cases, List,
  [], ◌∷◌, some, ltb, Result, ok, ◌≡◌, refl, ap, ◌∙◌, inl, inr, arith, ◌>>=◌,
}
use quisp.Qubits.{World, draw, set_entangled_partner_info}
use quisp.Qubits.Symmetry.{partner}
use quisp.Qubits.Memory.{cut_entanglement, set_completely_mixed}
use quisp.Analyzer.{
  Analyzer, Statistics, BsaMessage, bsa_result, bsa_finish, both_clicked, click, joined,
  lacks_partner, measure, counted_pair, set_both_completely_mixed, update_entangled_info,
  dark_on_left, dark_on_right, dark_on_both, dark_left, dark_right, dark_both, succeeded, noted,
  mix_both, entangle, add_errors, send_bsa_result, initialize_variables,
}
use quisp.Analyzer.Pointers.{joined_partner}

-- Whether a pair counts as failed: with both photons by the chance of the measurement, with one or
-- none unless the detectors that miss a photon have a dark count.
abbrev pub pair_fails :
    (success dark : ℕ) (left_lost right_lost : Bool) (rand darkcount_left darkcount_right : ℕ)
    → Bool
pair_fails success dark false false rand dl dr = not (ltb rand success)
pair_fails success dark true false rand dl dr = not (ltb dl dark)
pair_fails success dark false true rand dl dr = not (ltb dr dark)
pair_fails success dark true true rand dl dr = not (ltb dl dark && ltb dr dark)

pub both_clicked-fails :
    (a : Analyzer) (l r : Bool) (rand dl dr : ℕ)
    → a.left.photon_lost ≡ l
    → a.right.photon_lost ≡ r
    → not (both_clicked a rand dl dr)
      ≡ pair_fails a.bsa_success_rate a.darkcount_probability l r rand dl dr
both_clicked-fails a true true rand dl dr e f = ground arith
both_clicked-fails a true false rand dl dr e f = ground arith
both_clicked-fails a false true rand dl dr e f = ground arith
both_clicked-fails a false false rand dl dr e f = ground arith

-- A world with the same random numbers to come.
pub record SameDraws (w w' : World) : Type 0 where
  pub rand : w'.rand ≡ w.rand
  pub drawn : w'.drawn ≡ w.drawn

set_completely_mixed-SameDraws : (i : ℕ) (w : World) → SameDraws w (set_completely_mixed i w)
unfolding set_completely_mixed
set_completely_mixed-SameDraws i w = elim (Option-cases (partner w i)) [
  | inl e ↦ rw (cut_entanglement, e) (record { rand = refl; drawn = refl })
  | inr (j, e) ↦ rw (cut_entanglement, e) (record { rand = refl; drawn = refl })
]

SameDraws-trans : (u v w : World) → SameDraws u v → SameDraws v w → SameDraws u w
SameDraws-trans u v w h k = record { rand = k.rand ∙ h.rand; drawn = k.drawn ∙ h.drawn }

add_errors-SameDraws : (i : ℕ) (x z : Bool) (w : World) → SameDraws w (add_errors i x z w)
add_errors-SameDraws i true true w = record { rand = refl; drawn = refl }
add_errors-SameDraws i true false w = record { rand = refl; drawn = refl }
add_errors-SameDraws i false true w = record { rand = refl; drawn = refl }
add_errors-SameDraws i false false w = record { rand = refl; drawn = refl }

set_partner-SameDraws : (i j : ℕ) (w : World) → SameDraws w (set_entangled_partner_info i j w)
unfolding set_entangled_partner_info
set_partner-SameDraws i j w = record { rand = refl; drawn = refl }

joined-SameDraws : (a : Analyzer) (l r : ℕ) (w : World) → SameDraws w (joined a l r w)
unfolding joined
joined-SameDraws a l r w =
    let w1 = set_entangled_partner_info l r w in
    let w2 = add_errors l a.left.photon_x_err a.left.photon_z_err w1 in
    let w3 = set_entangled_partner_info r l w2 in
    SameDraws-trans w w1 _ (set_partner-SameDraws l r w) (
      SameDraws-trans w1 w2 _ (add_errors-SameDraws l _ _ w1)
        (SameDraws-trans w2 w3 _ (set_partner-SameDraws r l w2) (add_errors-SameDraws r _ _ w3)))

-- The two memories have each other as partner.
joined-lacks_partner :
    (a : Analyzer) (l r : ℕ) (w : World) → lacks_partner (joined a l r w) l r ≡ false
joined-lacks_partner a l r w = ground (arith, joined_partner a l r w l, joined_partner a l r w r)

abbrev pub message : (send_result fails : Bool) → BsaMessage
message true fails = bsa_finish fails
message false fails = bsa_result fails

-- After a measurement: three random numbers are used, no photon waits, the flags of the last photons
-- and the parameters are what they were, and the trial is over if the result was the last.
pub record IsMeasured (a : Analyzer) (w w' : World) (a' : Analyzer) : Type 0 where
  pub rand : w'.rand ≡ w.rand
  pub drawn : w'.drawn ≡ w.drawn + 3
  pub left_away : a'.left.arrived_at ≡ minus_one
  pub right_away : a'.right.arrived_at ≡ minus_one
  pub left_last : a'.left.last_photon_detected ≡ a.left.last_photon_detected
  pub right_last : a'.right.last_photon_detected ≡ a.right.last_photon_detected
  pub sending : a'.send_result ≡ a.send_result
  pub done : a'.this_trial_done ≡ (if a.send_result then true else a.this_trial_done)
  pub success : a'.bsa_success_rate ≡ a.bsa_success_rate
  pub dark : a'.darkcount_probability ≡ a.darkcount_probability
  pub precision : a'.required_precision ≡ a.required_precision

-- The analyzer after a measurement.
unfoldable pub finished : (fails : Bool) → (Statistics → Statistics) → Analyzer → Analyzer
unfolding send_bsa_result initialize_variables
finished fails f a =
    initialize_variables (noted counted_pair (send_bsa_result fails a.send_result (noted f a)).1)

finished-IsMeasured :
    (a : Analyzer) (f : Statistics → Statistics) (fails : Bool) (w w' : World)
    → w'.rand ≡ w.rand
    → w'.drawn ≡ w.drawn + 3
    → IsMeasured a w w' (finished fails f a)
unfolding finished
finished-IsMeasured a f fails w w' hr hd = record {
  rand = hr;
  drawn = hd;
  left_away = refl;
  right_away = refl;
  left_last = ground arith;
  right_last = ground arith;
  sending = ground arith;
  done = ground arith;
  success = ground arith;
  dark = ground arith;
  precision = ground arith;
}

three : (n : ℕ) → n + 1 + 1 + 1 ≡ n + 3
three n = omega arith

send-message :
    (fails send : Bool) (a : Analyzer) → (send_bsa_result fails send a).0 ≡ message send fails
unfolding send_bsa_result
send-message fails true a = refl
send-message fails false a = refl

module _ (a : Analyzer) (l r : ℕ) (hl : a.left.stat_qubit_ptr ≡ some l)
    (hr : a.right.stat_qubit_ptr ≡ some r) where
  set_both_total :
      (w : World)
      → set_both_completely_mixed a w ≡ ok (set_completely_mixed r (set_completely_mixed l w))
  unfolding set_both_completely_mixed
  set_both_total w = ground arith

  update_entangled_info_total : (w : World) → update_entangled_info a w ≡ ok (joined a l r w)
  unfolding update_entangled_info
  update_entangled_info_total w = ground (arith, joined-lacks_partner a l r w)

  mix_both_total :
      (f : Statistics → Statistics) (w : World)
      → mix_both f a w ≡ ok (set_completely_mixed r (set_completely_mixed l w), noted f a)
  mix_both_total f w =
      let then_ok : World → Result (World × Analyzer) = λ w'. ok (w', noted f a) in
      ap (λ (o : Result World). o >>= then_ok) (set_both_total w)

  entangle_total : (w : World) → entangle a w ≡ ok (joined a l r w, noted succeeded a)
  entangle_total w =
      let then_ok : World → Result (World × Analyzer) = λ w'. ok (w', noted succeeded a) in
      ap (λ (o : Result World). o >>= then_ok) (update_entangled_info_total w)

  mixed-SameDraws : (w : World) → SameDraws w (set_completely_mixed r (set_completely_mixed l w))
  mixed-SameDraws w =
      SameDraws-trans w (set_completely_mixed l w) _ (set_completely_mixed-SameDraws l w)
        (set_completely_mixed-SameDraws r (set_completely_mixed l w))

  click_total :
      (dl dr : ℕ) (w : World)
      → (w' : World) × (f : Statistics → Statistics) × (click a dl dr w ≡ ok (w', noted f a))
        × SameDraws w w'
  unfolding click
  click_total dl dr w =
      let mixed = set_completely_mixed r (set_completely_mixed l w) in
      elim (Bool-cases (dark_on_left a dl)) [
        | inl e ↦ (mixed, dark_left, rw e (mix_both_total dark_left w), mixed-SameDraws w)
        | inr e ↦ elim (Bool-cases (dark_on_right a dr)) [
          | inl f ↦ (mixed, dark_right, rw (e, f) (mix_both_total dark_right w), mixed-SameDraws w)
          | inr f ↦ elim (Bool-cases (dark_on_both a dl dr)) [
            | inl g ↦
                (mixed, dark_both, rw (e, f, g) (mix_both_total dark_both w), mixed-SameDraws w)
            | inr g ↦ (
              joined a l r w,
              succeeded,
              rw (e, f, g) (entangle_total w),
              joined-SameDraws a l r w,
            )
          ]
        ]
      ]

  measure_with :
      (w : World) (fails : Bool) (w4 : World) (f : Statistics → Statistics)
      → not (both_clicked a (draw w).0 (draw (draw w).1).0 (draw (draw (draw w).1).1).0) ≡ fails
      → (if both_clicked a (draw w).0 (draw (draw w).1).0 (draw (draw (draw w).1).1).0
          then click a (draw (draw w).1).0 (draw (draw (draw w).1).1).0 (draw (draw (draw w).1).1).1
          else ok ((draw (draw (draw w).1).1).1, a))
        ≡ ok (w4, noted f a)
      → measure a w ≡ ok (message a.send_result fails ∷ [], w4, finished fails f a)
  unfolding measure finished
  measure_with w fails w4 f h e =
      let clicked = both_clicked a (draw w).0 (draw (draw w).1).0 (draw (draw (draw w).1).1).0 in
      let rest : World × Analyzer → Result (List BsaMessage × World × Analyzer) = λ o.
        let sent = send_bsa_result (not clicked) o.1.send_result o.1 in
        ok (sent.0 ∷ [], o.0, initialize_variables (noted counted_pair sent.1)) in
      ap (λ (o : Result (World × Analyzer)). o >>= rest) e
      ∙ ap
          (λ (b : Bool).
            let sent = send_bsa_result b a.send_result (noted f a) in
            ok (sent.0 ∷ [], w4, initialize_variables (noted counted_pair sent.1)))
          h
      ∙ ap (λ (m : BsaMessage). ok (m ∷ [], w4, finished fails f a))
          (send-message fails a.send_result (noted f a))

  -- How a measurement ends: with one message, and ready for the next pair.
  pub measure_total :
      (w : World) (fails : Bool)
      → not (both_clicked a (draw w).0 (draw (draw w).1).0 (draw (draw (draw w).1).1).0) ≡ fails
      → (w' : World) × (a' : Analyzer) × (measure a w
          ≡ ok (message a.send_result fails ∷ [], w', a'))
        × IsMeasured a w w' a'
  unfolding measure
  measure_total w fails h =
      let dl = (draw (draw w).1).0 in
      let dr = (draw (draw (draw w).1).1).0 in
      let w3 = (draw (draw (draw w).1).1).1 in
      let clicked = both_clicked a (draw w).0 dl dr in
      let (w4, f, e, same) = click_total dl dr w3 in
      elim (Bool-cases clicked) [
        | inl c ↦ (
          w4,
          finished fails f a,
          measure_with w fails w4 f h (rw c e),
          finished-IsMeasured a f fails w w4 same.rand (same.drawn ∙ three w.drawn),
        )
        | inr c ↦ (
          w3,
          finished fails (λ s. s) a,
          measure_with w fails w3 (λ s. s) h (rw c refl),
          finished-IsMeasured a (λ s. s) fails w w3 refl (three w.drawn),
        )
      ]
