-- ===== src/Analyzer/Rounds.antt =====
-- A round of the link: the photons that two nodes send in one burst, and the results that the
-- analyzer of quisp/modules/BellStateAnalyzer.cc reports for them.
pub mod Pairs
pub mod Burst
use quisp.Prelude.{
  ℕ, ◌+◌, ℤ, pos, minus_one, ◌==ℤ◌, Bool, true, false, not, ◌&&◌, ◌||◌, if◌then◌else◌, Bool-cases,
  inl, inr, List, [], ◌∷◌, ◌++◌, some, leb, Result, ok, ◌>>=◌, ◌≡◌, refl, sym, ◌⊎◌, ap, ◌∙◌, subst,
  arith,
}
use quisp.Qubits.{World, draw}
use quisp.Analyzer.{
  Analyzer, Side, Photon, BsaMessage, bsa_result, bsa_finish, handle_message, evaluate, arrive,
  arrival, next_round, end_of_burst, count_error_types, measure, both_arrived, distance,
  both_clicked,
}
use quisp.Analyzer.Outcome.{pair_fails}

-- A photon at a port at a time.
pub record Arrival : Type 0 where
  pub port : ℤ
  pub photon : Photon
  pub at : ℤ

abbrev pub clock : ℤ → World → World
clock t w = record w { now = t }

-- Photons in the order of their arrival, with all messages that result.
unfoldable pub receive :
    List Arrival → World → Analyzer → Result (List BsaMessage × World × Analyzer)
unfolding handle_message
receive [] w a = ok ([], w, a)
receive (p ∷ ps) w a = do
  (m, w1, a1) ← handle_message p.port p.photon (clock p.at w) a
  (ms, w2, a2) ← receive ps w1 a1
  ok (m ++ ms, w2, a2)

-- One photon from each side, the left one first or second.
pub record Pair : Type 0 where
  pub left : Photon
  pub right : Photon
  pub left_at : ℤ
  pub right_at : ℤ
  pub left_first : Bool

abbrev pub left_arrival : Pair → Arrival
left_arrival p = record { port = pos 0; photon = p.left; at = p.left_at }

abbrev pub right_arrival : Pair → Arrival
right_arrival p = record { port = pos 1; photon = p.right; at = p.right_at }

abbrev pub arrivals : Pair → List Arrival → List Arrival
arrivals p rest =
    if p.left_first
    then left_arrival p ∷ right_arrival p ∷ rest
    else right_arrival p ∷ left_arrival p ∷ rest

abbrev pub is_last : Pair → Bool
is_last p = p.left.last || p.right.last

-- Both photons arrive at a time of the simulation, and close enough to each other.
pub record IsInTime (precision : ℕ) (p : Pair) : Type 0 where
  pub left_time : (p.left_at ==ℤ minus_one) ≡ false
  pub right_time : (p.right_at ==ℤ minus_one) ≡ false
  pub close : leb (distance p.left_at p.right_at) precision ≡ true

-- The result of a pair, from the position of the next random number.
abbrev pub pair_result : (success dark : ℕ) → (ℕ → ℕ) → ℕ → Pair → Bool
pair_result success dark rand n p =
    pair_fails success dark p.left.photon_lost p.right.photon_lost (rand n) (rand (n + 1))
      (rand (n + 1 + 1))

-- Between two pairs of a burst.
pub record IsIdle (a : Analyzer) : Type 0 where
  pub left_away : a.left.arrived_at ≡ minus_one
  pub right_away : a.right.arrived_at ≡ minus_one
  pub left_last : a.left.last_photon_detected ≡ false
  pub right_last : a.right.last_photon_detected ≡ false
  pub quiet : a.send_result ≡ false
  pub running : a.this_trial_done ≡ false

-- The messages for the results of a round.
abbrev pub messages : List Bool → List BsaMessage
messages [] = []
messages (b ∷ []) = bsa_finish b ∷ []
messages (b ∷ c ∷ bs) = bsa_result b ∷ messages (c ∷ bs)

-- The results of pairs, each of which uses three random numbers.
abbrev pub results : (success dark : ℕ) → (ℕ → ℕ) → ℕ → List Pair → List Bool
results success dark rand n [] = []
results success dark rand n (p ∷ ps) =
    pair_result success dark rand n p ∷ results success dark rand (n + 3) ps

-- The last pair, and no other, has the last photon of a side.
abbrev pub IsBurst : List Pair → Type 0
IsBurst [] = ⊥
IsBurst (p ∷ []) = is_last p ≡ true
IsBurst (p ∷ q ∷ ps) = (is_last p ≡ false) × IsBurst (q ∷ ps)

-- A photon of the side that sent more than the other, which is not its first.
pub record IsLate (p : Arrival) : Type 0 where
  pub not_first : p.photon.first ≡ false
  pub at_port : (p.port ≡ pos 0) ⊎ (p.port ≡ pos 1)

-- All photons of a round: those of the pairs, then those of the side that sent more.
abbrev pub all_arrivals : List Pair → (late : List Arrival) → List Arrival
all_arrivals [] late = late
all_arrivals (p ∷ ps) late = arrivals p (all_arrivals ps late)
