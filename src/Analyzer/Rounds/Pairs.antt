-- ===== src/Analyzer/Rounds/Pairs.antt =====
-- One pair of photons at the analyzer of quisp/modules/BellStateAnalyzer.cc, in either order.
use quisp.Prelude.{
  ◌+◌, ℤ, pos, minus_one, Bool, true, false, not, ◌||◌, Bool-cases, inl, inr, List, [], ◌∷◌, ◌++◌,
  some, Result, ok, ◌≡◌, refl, ap, ◌∙◌, arith,
}
use quisp.Qubits.{World, draw}
use quisp.Analyzer.{
  Analyzer, Photon, BsaMessage, handle_message, evaluate, arrive, arrival, end_of_burst,
  count_error_types, measure, both_clicked,
}
use quisp.Analyzer.Outcome.{pair_fails, both_clicked-fails, message, measure_total, IsMeasured}
use quisp.Analyzer.Rounds.{
  Arrival, clock, receive, Pair, left_arrival, right_arrival, arrivals, is_last, IsInTime,
  pair_result, IsIdle,
}

-- The analyzer once the second photon of a pair has been noted.
abbrev noted_left : Photon → ℤ → Analyzer → Analyzer
noted_left p t a = count_error_types p (end_of_burst (record a { left = arrival p t a.left }))

abbrev noted_right : Photon → ℤ → Analyzer → Analyzer
noted_right p t a = count_error_types p (end_of_burst (record a { right = arrival p t a.right }))

-- A photon that arrives in a running round is noted and evaluated.
handle_left :
    (p : Photon) (w : World) (a : Analyzer)
    → a.this_trial_done ≡ false
    → handle_message (pos 0) p w a ≡ evaluate (noted_left p w.now a) w
unfolding handle_message arrive
handle_left p w a h = ground arith

handle_right :
    (p : Photon) (w : World) (a : Analyzer)
    → a.this_trial_done ≡ false
    → handle_message (pos 1) p w a ≡ evaluate (noted_right p w.now a) w
unfolding handle_message arrive
handle_right p w a h = ground arith

wait_left :
    (p : Photon) (w : World) (a : Analyzer)
    → a.this_trial_done ≡ false
    → a.right.arrived_at ≡ minus_one
    → evaluate (noted_left p w.now a) w ≡ ok ([], w, noted_left p w.now a)
unfolding evaluate count_error_types
wait_left p w a h e = ground arith

wait_right :
    (p : Photon) (w : World) (a : Analyzer)
    → a.this_trial_done ≡ false
    → a.left.arrived_at ≡ minus_one
    → evaluate (noted_right p w.now a) w ≡ ok ([], w, noted_right p w.now a)
unfolding evaluate count_error_types
wait_right p w a h e = ground arith

-- Both photons of a pair have been noted.
record HoldsPair (p : Pair) (a a' : Analyzer) : Type 0 where
  left_here : a'.left.arrived_at ≡ p.left_at
  right_here : a'.right.arrived_at ≡ p.right_at
  left_pointer : a'.left.stat_qubit_ptr ≡ some p.left.entangled_with
  right_pointer : a'.right.stat_qubit_ptr ≡ some p.right.entangled_with
  left_lost : a'.left.photon_lost ≡ p.left.photon_lost
  right_lost : a'.right.photon_lost ≡ p.right.photon_lost
  left_last : a'.left.last_photon_detected ≡ p.left.last
  right_last : a'.right.last_photon_detected ≡ p.right.last
  sending : a'.send_result ≡ (p.left.last || p.right.last)
  running : a'.this_trial_done ≡ false
  success : a'.bsa_success_rate ≡ a.bsa_success_rate
  dark : a'.darkcount_probability ≡ a.darkcount_probability
  precision : a'.required_precision ≡ a.required_precision

left_then_right-HoldsPair :
    (p : Pair) (a : Analyzer)
    → IsIdle a
    → HoldsPair p a (noted_right p.right p.right_at (noted_left p.left p.left_at a))
unfolding count_error_types
left_then_right-HoldsPair p a h = record {
  left_here = refl;
  right_here = refl;
  left_pointer = refl;
  right_pointer = refl;
  left_lost = refl;
  right_lost = refl;
  left_last = ground arith;
  right_last = ground arith;
  sending = ground arith;
  running = h.running;
  success = refl;
  dark = refl;
  precision = refl;
}

right_then_left-HoldsPair :
    (p : Pair) (a : Analyzer)
    → IsIdle a
    → HoldsPair p a (noted_left p.left p.left_at (noted_right p.right p.right_at a))
unfolding count_error_types
right_then_left-HoldsPair p a h = record {
  left_here = refl;
  right_here = refl;
  left_pointer = refl;
  right_pointer = refl;
  left_lost = refl;
  right_lost = refl;
  left_last = ground arith;
  right_last = ground arith;
  sending = ground arith;
  running = h.running;
  success = refl;
  dark = refl;
  precision = refl;
}

-- Photons that are both there in time are measured.
evaluate_pair :
    (p : Pair) (a a' : Analyzer) (w : World)
    → IsInTime a.required_precision p
    → HoldsPair p a a'
    → evaluate a' w ≡ measure a' w
unfolding evaluate
evaluate_pair p a a' w t h =
    rw (h.running, h.left_here, h.right_here, h.precision, t.left_time, t.right_time, t.close)

pub receive_cons :
    (p : Arrival) (ps : List Arrival) (w w1 w2 : World) (a a1 a2 : Analyzer)
    (m ms : List BsaMessage)
    → handle_message p.port p.photon (clock p.at w) a ≡ ok (m, w1, a1)
    → receive ps w1 a1 ≡ ok (ms, w2, a2)
    → receive (p ∷ ps) w a ≡ ok (m ++ ms, w2, a2)
unfolding receive
receive_cons p ps w w1 w2 a a1 a2 m ms h k = rw (h, k)

-- After the last pair of a round the trial is over, after any other the analyzer is idle.
abbrev pub After : (last : Bool) → Analyzer → Type 0
After true a = a.this_trial_done ≡ true
After false a = IsIdle a

-- What a pair leaves for the next ones.
pub record Follows (last : Bool) (w : World) (a : Analyzer) (w' : World) (a' : Analyzer)
    : Type 0 where
  pub rand : w'.rand ≡ w.rand
  pub drawn : w'.drawn ≡ w.drawn + 3
  pub success : a'.bsa_success_rate ≡ a.bsa_success_rate
  pub dark : a'.darkcount_probability ≡ a.darkcount_probability
  pub precision : a'.required_precision ≡ a.required_precision
  pub after : After last a'

after_measure :
    (p : Pair) (a a1 a' : Analyzer) (w w' : World) (last : Bool)
    → is_last p ≡ last
    → HoldsPair p a a1
    → IsMeasured a1 w w' a'
    → After last a'
after_measure p a a1 a' w w' true e h m = ground (arith, h.sending, h.running, m.done)
after_measure p a a1 a' w w' false e h m = record {
  left_away = m.left_away;
  right_away = m.right_away;
  left_last = ground (arith, h.left_last, m.left_last);
  right_last = ground (arith, h.right_last, m.right_last);
  quiet = ground (arith, h.sending, m.sending);
  running = ground (arith, h.sending, h.running, m.done);
}

measure_pair :
    (p : Pair) (a a1 : Analyzer) (w : World)
    → IsInTime a.required_precision p
    → HoldsPair p a a1
    → (w' : World) × (a' : Analyzer) × (evaluate a1 w
        ≡ ok (
          message
                (is_last p)
                (pair_result a.bsa_success_rate a.darkcount_probability w.rand w.drawn p)
              ∷ [],
          w',
          a',
        ))
      × Follows (is_last p) w a w' a'
measure_pair p a a1 w t h =
    let fails = pair_result a.bsa_success_rate a.darkcount_probability w.rand w.drawn p in
    let outcome : not (both_clicked a1 (draw w).0 (draw (draw w).1).0 (draw (draw (draw w).1).1).0)
        ≡ fails =
      both_clicked-fails a1 p.left.photon_lost p.right.photon_lost (draw w).0 (draw (draw w).1).0
        (draw (draw (draw w).1).1).0 h.left_lost h.right_lost
      ∙ (λ i.
          pair_fails (h.success i) (h.dark i) p.left.photon_lost p.right.photon_lost
            (w.rand w.drawn) (w.rand (w.drawn + 1)) (w.rand (w.drawn + 1 + 1))) in
    let (w', a', e, m) =
      measure_total a1 p.left.entangled_with p.right.entangled_with h.left_pointer h.right_pointer w
        fails outcome in
    let told : Bool → Result (List BsaMessage × World × Analyzer) =
      λ b. ok (message b fails ∷ [], w', a') in
    (
      w',
      a',
      evaluate_pair p a a1 w t h ∙ e ∙ ap told h.sending,
      record {
        rand = m.rand;
        drawn = m.drawn;
        success = m.success ∙ h.success;
        dark = m.dark ∙ h.dark;
        precision = m.precision ∙ h.precision;
        after = after_measure p a a1 a' w w' (is_last p) refl h m;
      },
    )

-- What a pair leads to: its message comes before those of the photons after it.
unfoldable pub Leads : Pair → List Arrival → World → Analyzer → Type 0
unfolding receive
Leads p rest w a =
    (w' : World) × (a' : Analyzer) × Follows (is_last p) w a w' a'
    × ((ms : List BsaMessage) (w2 : World) (a2 : Analyzer)
        → receive rest w' a' ≡ ok (ms, w2, a2)
        → receive (arrivals p rest) w a
          ≡ ok (
            message (is_last p)
                  (pair_result a.bsa_success_rate a.darkcount_probability w.rand w.drawn p)
                ∷ ms,
            w2,
            a2,
          ))

module _ (p : Pair) (rest : List Arrival) (w : World) (a : Analyzer)
    (t : IsInTime a.required_precision p) (h : IsIdle a) where
  left_first-Leads : p.left_first ≡ true → Leads p rest w a
  unfolding Leads
  left_first-Leads e =
      let w1 = clock p.left_at w in
      let a1 = noted_left p.left p.left_at a in
      let a2 = noted_right p.right p.right_at a1 in
      let running : a1.this_trial_done ≡ false = h.running in
      let (w', a', m, f) =
        measure_pair p a a2 (clock p.right_at w1) t (left_then_right-HoldsPair p a h) in
      (
        w',
        a',
        record {
          rand = f.rand;
          drawn = f.drawn;
          success = f.success;
          dark = f.dark;
          precision = f.precision;
          after = f.after;
        },
        λ ms w2 a3 k. rw e (
            receive_cons (left_arrival p) (right_arrival p ∷ rest) w w1 w2 a a1 a3 [] _
              (handle_left p.left w1 a h.running ∙ wait_left p.left w1 a h.running h.right_away)
              (receive_cons (right_arrival p) rest w1 w' w2 a1 a' a3 _ ms
                (handle_right p.right (clock p.right_at w1) a1 running ∙ m) k)),
      )

  right_first-Leads : p.left_first ≡ false → Leads p rest w a
  unfolding Leads
  right_first-Leads e =
      let w1 = clock p.right_at w in
      let a1 = noted_right p.right p.right_at a in
      let a2 = noted_left p.left p.left_at a1 in
      let running : a1.this_trial_done ≡ false = h.running in
      let (w', a', m, f) =
        measure_pair p a a2 (clock p.left_at w1) t (right_then_left-HoldsPair p a h) in
      (
        w',
        a',
        record {
          rand = f.rand;
          drawn = f.drawn;
          success = f.success;
          dark = f.dark;
          precision = f.precision;
          after = f.after;
        },
        λ ms w2 a3 k. rw e (
            receive_cons (right_arrival p) (left_arrival p ∷ rest) w w1 w2 a a1 a3 [] _
              (handle_right p.right w1 a h.running ∙ wait_right p.right w1 a h.running h.left_away)
              (receive_cons (left_arrival p) rest w1 w' w2 a1 a' a3 _ ms
                (handle_left p.left (clock p.left_at w1) a1 running ∙ m) k)),
      )

  pub pair-Leads : Leads p rest w a
  pair-Leads = elim (Bool-cases p.left_first) [
    | inl e ↦ left_first-Leads e
    | inr e ↦ right_first-Leads e
  ]
