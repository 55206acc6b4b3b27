-- ===== src/Analyzer/Rounds/Burst.antt =====
-- A whole round at the analyzer of quisp/modules/BellStateAnalyzer.cc.
use quisp.Prelude.{
  ◌+◌, Bool, true, false, if◌then◌else◌, Bool-cases, inl, inr, ◌⊎◌, List, [], ◌∷◌, All, ok, ◌≡◌,
  refl, sym, ◌∙◌, subst, arith,
}
use quisp.Qubits.{World}
use quisp.Analyzer.{
  Analyzer, forgotten, BsaMessage, bsa_result, bsa_finish, handle_message, evaluate, arrive,
  end_of_burst, count_error_types, arrival,
}
use quisp.Analyzer.Outcome.{message}
use quisp.Analyzer.Rounds.{
  Arrival, clock, receive, Pair, left_arrival, right_arrival, arrivals, is_last, IsInTime,
  pair_result, IsIdle, messages, results, IsBurst, IsLate, all_arrivals,
}
use quisp.Analyzer.Rounds.Pairs.{receive_cons, Follows, After, Leads, pair-Leads}

-- A late photon at a port changes nothing that lasts, and is not reported.
late_ignored :
    (p : Arrival) (w : World) (a : Analyzer)
    → IsLate p
    → a.this_trial_done ≡ true
    → (a' : Analyzer) × (handle_message p.port p.photon (clock p.at w) a
        ≡ ok ([], clock p.at w, a'))
      × (a'.this_trial_done ≡ true)
unfolding handle_message arrive evaluate count_error_types
late_ignored p w a h d = elim h.at_port [
  | inl e ↦ (
    count_error_types p.photon (end_of_burst (record a { left = arrival p.photon p.at a.left })),
    ground (arith, h.not_first),
    d,
  )
  | inr e ↦ (
    count_error_types p.photon (end_of_burst (record a { right = arrival p.photon p.at a.right })),
    ground (arith, h.not_first),
    d,
  )
]

-- How a round ends: with the messages that are given, and over.
record Ends (ps : List Arrival) (w : World) (a : Analyzer) (ms : List BsaMessage) : Type 0 where
  world : World
  analyzer : Analyzer
  received : receive ps w a ≡ ok (ms, world, analyzer)
  over : analyzer.this_trial_done ≡ true

late-Ends :
    (late : List Arrival) (w : World) (a : Analyzer)
    → All IsLate late
    → a.this_trial_done ≡ true
    → Ends late w a []
unfolding receive
late-Ends [] w a h d = record { world = w; analyzer = a; received = refl; over = d }
late-Ends (p ∷ ps) w a h d =
    let (a', e, d') = late_ignored p w a h.0 d in
    let rest = late-Ends ps (clock p.at w) a' h.1 d' in
    record {
      world = rest.world;
      analyzer = rest.analyzer;
      received =
          receive_cons p ps w (clock p.at w) rest.world a a' rest.analyzer [] [] e rest.received;
      over = rest.over;
    }

-- The results of the pairs from where a pair leaves off.
later_results :
    {last : Bool} (w w' : World) (a a' : Analyzer) (ps : List Pair)
    → Follows last w a w' a'
    → results a'.bsa_success_rate a'.darkcount_probability w'.rand w'.drawn ps
      ≡ results a.bsa_success_rate a.darkcount_probability w.rand (w.drawn + 3) ps
later_results w w' a a' ps f i = results (f.success i) (f.dark i) (f.rand i) (f.drawn i) ps

told : (last b : Bool) → last ≡ true → message last b ≡ bsa_finish b
told true b e = refl
told false b e = cc

told_on : (last b : Bool) → last ≡ false → message last b ≡ bsa_result b
told_on true b e = cc
told_on false b e = refl

abbrev all_results : World → Analyzer → List Pair → List Bool
all_results w a ps = results a.bsa_success_rate a.darkcount_probability w.rand w.drawn ps

idle_round :
    (ps : List Pair) (late : List Arrival) (w : World) (a : Analyzer)
    → IsBurst ps
    → All (IsInTime a.required_precision) ps
    → All IsLate late
    → IsIdle a
    → Ends (all_arrivals ps late) w a (messages (all_results w a ps))
unfolding Leads
idle_round [] late w a b t l h = absurd b
idle_round (p ∷ []) late w a b t l h =
    let (w', a', f, lead) = pair-Leads p late w a t.0 h in
    let after : After true a' = subst (λ x. After x a') b f.after in
    let rest = late-Ends late w' a' l after in
    let r = pair_result a.bsa_success_rate a.darkcount_probability w.rand w.drawn p in
    record {
      world = rest.world;
      analyzer = rest.analyzer;
      received =
          subst (λ m. receive (arrivals p late) w a ≡ ok (m ∷ [], rest.world, rest.analyzer))
            (told (is_last p) r b) (lead [] rest.world rest.analyzer rest.received);
      over = rest.over;
    }
idle_round (p ∷ q ∷ ps) late w a b t l h =
    let (w', a', f, lead) = pair-Leads p (all_arrivals (q ∷ ps) late) w a t.0 h in
    let after : After false a' = subst (λ x. After x a') b.0 f.after in
    let t' : All (IsInTime a'.required_precision) (q ∷ ps) =
      subst (λ n. All (IsInTime n) (q ∷ ps)) (sym f.precision) t.1 in
    let rest = idle_round (q ∷ ps) late w' a' b.1 t' l after in
    let r = pair_result a.bsa_success_rate a.darkcount_probability w.rand w.drawn p in
    let ms =
      messages (results a.bsa_success_rate a.darkcount_probability w.rand (w.drawn + 3) (q ∷ ps)) in
    let e = lead _ rest.world rest.analyzer rest.received in
    record {
      world = rest.world;
      analyzer = rest.analyzer;
      received =
          subst
            (λ (o : BsaMessage × List BsaMessage).
              receive (all_arrivals (p ∷ q ∷ ps) late) w a
              ≡ ok (o.0 ∷ o.1, rest.world, rest.analyzer))
            (λ i. (told_on (is_last p) r b.0 i, messages (later_results w w' a a' (q ∷ ps) f i))) e;
      over = rest.over;
    }

-- The first photon of a round finds the analyzer as if it were idle.
restarted : Analyzer → Analyzer
restarted a = record a {
  this_trial_done = false;
  send_result = false;
  left = forgotten a.left;
  right = forgotten a.right;
}

restart :
    (p : Arrival) (ps : List Arrival) (w : World) (a : Analyzer)
    → p.photon.first ≡ true
    → a.this_trial_done ≡ true
    → receive (p ∷ ps) w a ≡ receive (p ∷ ps) w (restarted a)
unfolding receive handle_message restarted
restart p ps w a f d = rw (f, d)

restarted-IsIdle : (a : Analyzer) → IsIdle (restarted a)
unfolding restarted
restarted-IsIdle a = record {
  left_away = refl;
  right_away = refl;
  left_last = refl;
  right_last = refl;
  quiet = refl;
  running = refl;
}

restart_pair :
    (p : Pair) (rest : List Arrival) (w : World) (a : Analyzer)
    → (if p.left_first then p.left.first else p.right.first) ≡ true
    → a.this_trial_done ≡ true
    → receive (arrivals p rest) w a ≡ receive (arrivals p rest) w (restarted a)
restart_pair p rest w a f d = elim (Bool-cases p.left_first) [
  | inl e ↦
      rw e
        (restart (left_arrival p) (right_arrival p ∷ rest) w a (first_is p.left_first true e f) d)
  | inr e ↦
      rw e
        (restart (right_arrival p) (left_arrival p ∷ rest) w a (first_is p.left_first false e f) d)
]
  where
    first_is :
        (b c : Bool)
        → b ≡ c
        → (if b then p.left.first else p.right.first) ≡ true
        → (if c then p.left.first else p.right.first) ≡ true
    first_is b c e f = subst (λ x. (if x then p.left.first else p.right.first) ≡ true) e f

-- A burst of pairs that arrive in time, with further photons of one side behind it, leads to one
-- message for each pair in their order, a BSAfinish for the last pair and a BSAresult for each other.
-- The message is true exactly if the pair failed by the three random numbers that are its turn. The
-- trial is then over. This holds for an analyzer that is idle, and for one after an earlier trial if
-- the first photon of the burst is marked as such.
pub receive-round :
    (p : Pair) (ps : List Pair) (late : List Arrival) (w : World) (a : Analyzer)
    → IsBurst (p ∷ ps)
    → All (IsInTime a.required_precision) (p ∷ ps)
    → All IsLate late
    → IsIdle a
      ⊎ ((a.this_trial_done ≡ true)
          × ((if p.left_first then p.left.first else p.right.first) ≡ true))
    → (w' : World) × (a' : Analyzer) × (receive (all_arrivals (p ∷ ps) late) w a
        ≡ ok (
          messages (results a.bsa_success_rate a.darkcount_probability w.rand w.drawn (p ∷ ps)),
          w',
          a',
        ))
      × (a'.this_trial_done ≡ true)
unfolding restarted
receive-round p ps late w a b t l (inl h) =
    let r = idle_round (p ∷ ps) late w a b t l h in (r.world, r.analyzer, r.received, r.over)
receive-round p ps late w a b t l (inr (d, f)) =
    let r = idle_round (p ∷ ps) late w (restarted a) b t l (restarted-IsIdle a) in
    (r.world, r.analyzer, restart_pair p (all_arrivals ps late) w a f d ∙ r.received, r.over)
