-- ===== src/Analyzer/Links.antt =====
-- Which memories an analyzer entangles (quisp/modules/BellStateAnalyzer.cc).
use quisp.Prelude.{
  ℕ, ℤ, pos, ◌==ℤ◌, leb, Bool, true, false, not, ◌&&◌, if◌then◌else◌, Bool-cases, List, [], ◌∷◌,
  Option, none, some, ok, err, err_not_ok, if_ok, too_many_connections, bind_ok, ok_injective, ◌≡◌,
  refl, sym, ◌∙◌, subst, inl, inr,
}
use quisp.Qubits.{World, draw}
use quisp.Qubits.Symmetry.{same-IsWired, partner}
use quisp.Analyzer.{
  forgotten, Analyzer, BsaMessage, Photon, click, both_clicked, measure, initialize_variables,
  arrive, evaluate, handle_message, send_bsa_result, next_round, end_of_burst, count_error_types,
  arrival, distance, both_arrived,
}
use quisp.Analyzer.Pointers.{IsUnpaired, IsReady, arrived-IsReady, evaluate-IsReady}
use quisp.Analyzer.Clicks.{
  paired, heralds, neither_lost, Pairs, same-Pairs, both_there, click-Pairs,
}

heralds-send :
    (failed send : Bool) (a : Analyzer)
    → heralds ((send_bsa_result failed send a).0 ∷ []) ≡ not failed
unfolding send_bsa_result
heralds-send failed true a = refl
heralds-send failed false a = refl

twice_not : (b : Bool) → not (not b) ≡ b
twice_not true = refl
twice_not false = refl

module _ {addr : ℕ → ℤ} where
  -- The three draws change no qubit.
  clicked-Pairs :
      (clicked : Bool) (a : Analyzer) (rand dl dr : ℕ) (w : World) (out : World × Analyzer)
      → both_clicked a rand dl dr ≡ clicked
      → IsReady addr w a
      → (if clicked then click a dl dr w else ok (w, a)) ≡ ok out
      → Pairs (clicked && both_there a) a w out.0
  clicked-Pairs true a rand dl dr w out c h e = click-Pairs a rand dl dr w out c h e
  clicked-Pairs false a rand dl dr w out c h e =
      subst (λ (o : World × Analyzer). Pairs false a w o.0) (ok_injective (w, a) out e)
        (same-Pairs a w w (λ k. refl))

  drawn-IsReady : (w : World) (a : Analyzer) → IsReady addr w a → IsReady addr (draw w).1 a
  drawn-IsReady w a h = record {
    wired = same-IsWired w (draw w).1 (λ j. refl) (λ j. refl) h.wired;
    left_unpaired = moved a.left.stat_qubit_ptr h.left_unpaired;
    right_unpaired = moved a.right.stat_qubit_ptr h.right_unpaired;
  }
    where
      moved : (o : Option ℕ) → IsUnpaired w o → IsUnpaired (draw w).1 o
      moved none u = u
      moved (some q) u = u

  measure-Pairs :
      (a : Analyzer) (w : World) (out : List BsaMessage × World × Analyzer)
      → IsReady addr w a
      → measure a w ≡ ok out
      → Pairs (heralds out.0 && both_there a) a w out.1
  unfolding measure
  measure-Pairs a w out h e =
      let w1 = (draw w).1 in
      let w2 = (draw w1).1 in
      let w3 = (draw w2).1 in
      let rand = (draw w).0 in
      let dl = (draw w1).0 in
      let dr = (draw w2).0 in
      let h3 = drawn-IsReady w2 a (drawn-IsReady w1 a (drawn-IsReady w a h)) in
      let clicked = both_clicked a rand dl dr in
      let (m, e1, g1) = bind_ok (if clicked then click a dl dr w3 else ok (w3, a)) _ out e in
      let drawn = clicked-Pairs clicked a rand dl dr w3 m refl h3 e1 in
      let says : heralds ((send_bsa_result (not clicked) m.1.send_result m.1).0 ∷ []) ≡ clicked =
        heralds-send (not clicked) m.1.send_result m.1 ∙ twice_not clicked in
      subst
        (λ (o : List BsaMessage × World × Analyzer). Pairs (heralds o.0 && both_there a) a w o.1)
        (ok_injective _ out g1)
        (subst (λ b. Pairs (b && both_there a) a w m.0) (sym says)
          (record { pointers = drawn.pointers }))

  evaluate-Pairs :
      (a : Analyzer) (w : World) (out : List BsaMessage × World × Analyzer)
      → IsReady addr w a
      → evaluate a w ≡ ok out
      → Pairs (heralds out.0 && both_there a) a w out.1
  unfolding evaluate
  evaluate-Pairs a w out h e =
      let P : List BsaMessage × World × Analyzer → Type 0 =
        λ o. Pairs (heralds o.0 && both_there a) a w o.1 in
      let same = same-Pairs a w w (λ k. refl) in
      let in_time = leb (distance a.left.arrived_at a.right.arrived_at) a.required_precision in
      let kept : ok ([], w, a) ≡ ok out → P out =
        λ p. subst P (ok_injective ([], w, a) out p) same in
      let sent = send_bsa_result true a.send_result (initialize_variables a) in
      let out_of_time : ok (sent.0 ∷ [], w, sent.1) ≡ ok out → P out = λ p.
        subst P (ok_injective (sent.0 ∷ [], w, sent.1) out p) (
          subst (λ b. Pairs (b && both_there a) a w w)
            (sym (heralds-send true a.send_result (initialize_variables a))) same) in
      if_ok a.this_trial_done _ _ out kept
        (if_ok (both_arrived a && in_time) _ _ out (measure-Pairs a w out h)
          (if_ok (both_arrived a && not in_time) _ _ out out_of_time kept))
        e

-- The memories of the two sides once a photon has arrived at a port.
abbrev pub left_memory : (port : ℤ) → Photon → Analyzer → Option ℕ
left_memory port photon a =
    if port ==ℤ pos 0 then some photon.entangled_with else a.left.stat_qubit_ptr

abbrev pub right_memory : (port : ℤ) → Photon → Analyzer → Option ℕ
right_memory port photon a =
    if port ==ℤ pos 0 then a.right.stat_qubit_ptr else some photon.entangled_with

-- Whether the photons of the two sides were lost, once a photon has arrived at a port.
abbrev pub left_lost : (port : ℤ) → Photon → Analyzer → Bool
left_lost port photon a = if port ==ℤ pos 0 then photon.photon_lost else a.left.photon_lost

abbrev pub right_lost : (port : ℤ) → Photon → Analyzer → Bool
right_lost port photon a = if port ==ℤ pos 0 then a.right.photon_lost else photon.photon_lost

if_field :
    {A : Type 0} (b : Bool) (x y : Analyzer) (f : Analyzer → A)
    → f x ≡ f y
    → f (if b then x else y) ≡ f y
if_field true x y f h = h
if_field false x y f h = refl

-- A new round keeps the memories and the losses of the sides.
next_field :
    {A : Type 0} (f : Analyzer → A) (photon : Photon) (a : Analyzer)
    → f (record a {
      this_trial_done = false;
      send_result = false;
      left = forgotten a.left;
      right = forgotten a.right;
    })
      ≡ f a
    → f (next_round photon a) ≡ f a
next_field f photon a h = if_field (photon.first && a.this_trial_done) _ a f h

-- The sides of `a'` are as they are to be once a photon has arrived.
record HasArrived (port : ℤ) (photon : Photon) (a a' : Analyzer) : Type 0 where
  left_is : a'.left.stat_qubit_ptr ≡ left_memory port photon a
  right_is : a'.right.stat_qubit_ptr ≡ right_memory port photon a
  left_lost_is : a'.left.photon_lost ≡ left_lost port photon a
  right_lost_is : a'.right.photon_lost ≡ right_lost port photon a

arrive-HasArrived :
    (port : ℤ) (photon : Photon) (now : ℤ) (a a' : Analyzer)
    → arrive port photon now (next_round photon a) ≡ ok a'
    → HasArrived port photon a a'
unfolding arrive
arrive-HasArrived port photon now a a' e = elim (Bool-cases (port ==ℤ pos 0)) [
  | inl f ↦
      let b : Analyzer = next_round photon a in
      let is : arrive port photon now b ≡ ok (record b { left = arrival photon now b.left }) =
        rw (arrive, f) refl in
      let same = ok_injective (record b { left = arrival photon now b.left }) a' (sym is ∙ e) in
      subst (HasArrived port photon a) same (record {
        left_is = rw f refl;
        right_is = rw f (next_field (λ x. x.right.stat_qubit_ptr) photon a refl);
        left_lost_is = rw f refl;
        right_lost_is = rw f (next_field (λ x. x.right.photon_lost) photon a refl);
      })
  | inr f ↦
      let b : Analyzer = next_round photon a in
      let r : Analyzer = record b { right = arrival photon now b.right } in
      let is : arrive port photon now b
          ≡ (if port ==ℤ pos 1 then ok r else err too_many_connections) =
        rw (arrive, f) refl in
      if_ok (port ==ℤ pos 1) _ _ a'
        (λ p. subst (HasArrived port photon a) (ok_injective r a' p) (record {
          left_is = rw f (next_field (λ x. x.left.stat_qubit_ptr) photon a refl);
          right_is = rw f refl;
          left_lost_is = rw f (next_field (λ x. x.left.photon_lost) photon a refl);
          right_lost_is = rw f refl;
        }))
        (λ p. absurd (err_not_ok too_many_connections a' p)) (sym is ∙ e)
]

-- Whatever photon arrives, the pointers are those from before, but that the memories of the two
-- photons of the pair become each other's partners exactly if the analyzer reports a success for two
-- photons of which neither was lost. The pointers stay symmetric, the qubits keep their addresses,
-- and the memories of the photons that it still waits for have no partner. The conditions are that
-- the pointers were symmetric and the waiting memories had no partner, and that the memory of the new
-- photon has none on arrival, which the code does not check.
pub handle_message-Links :
    {addr : ℕ → ℤ} (port : ℤ) (photon : Photon) (w : World) (a : Analyzer)
    (out : List BsaMessage × World × Analyzer)
    → partner w photon.entangled_with ≡ none
    → IsReady addr w a
    → handle_message port photon w a ≡ ok out
    → IsReady addr out.1 out.2
      × ((k : ℕ)
          → partner out.1 k
            ≡ paired
                (heralds out.0 && neither_lost (left_lost port photon a) (right_lost port photon a))
                (left_memory port photon a)
                (right_memory port photon a)
                (partner w)
                k)
unfolding handle_message count_error_types
handle_message-Links port photon w a out u h e =
    let (a1, e1, g1) =
      bind_ok (arrive port photon w.now (next_round photon a))
        (λ a2. evaluate (count_error_types photon (end_of_burst a2)) w) out e in
    let m = arrive-HasArrived port photon w.now a a1 e1 in
    let a2 = count_error_types photon (end_of_burst a1) in
    let h2 = arrived-IsReady port photon w a a1 u h e1 in
    let p = evaluate-Pairs a2 w out h2 g1 in
    (
      evaluate-IsReady a2 w out h2 g1,
      λ k. p.pointers k ∙ (λ i.
          paired (heralds out.0 && neither_lost (m.left_lost_is i) (m.right_lost_is i))
            (m.left_is i) (m.right_is i) (partner w) k),
    )
