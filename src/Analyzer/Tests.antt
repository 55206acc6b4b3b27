-- ===== src/Analyzer/Tests.antt =====
-- Two bursts at one analyzer: the left node sends three photons, the right node two, and the second
-- of the left ones is lost. The random numbers are 10, 20, 30, 40, 50, 60, and so on.
use quisp.Prelude.{
  ℕ, ◌+◌, ◌*◌, pos, minus_one, Bool, true, false, List, [], ◌∷◌, none, some, Result, ok, ◌≡◌, refl,
  inl, ℤ,
}
use quisp.Qubits.{World, Qubit}
use quisp.Qubits.Tests.{memory}
use quisp.Qubits.Symmetry.{IsSymmetric, partner}
use quisp.Analyzer.{Analyzer, Side, Photon, BsaMessage, bsa_result, bsa_finish, handle_message}
use quisp.Analyzer.Rounds.{
  Arrival, Pair, receive, all_arrivals, results, messages, IsInTime, IsLate, IsIdle,
}
use quisp.Analyzer.Rounds.Burst.{receive-round}
use quisp.Analyzer.Pointers.{IsReady}
use quisp.Analyzer.Clicks.{paired}
use quisp.Analyzer.Links.{handle_message-Links}

abbrev pub lone : ℕ → Qubit
lone i = memory i none false 0

abbrev pub world : World
world = record { qubits = lone; now = pos 0; rand = λ n. 10 * (n + 1); drawn = 0 }

abbrev pub photon : ℕ → (lost first last : Bool) → Photon
photon q lost first last = record {
  node_entangled_with = pos 1;
  qnic_entangled_with = pos 0;
  stationary_qubit_entangled_with = pos q;
  qnic_type_entangled_with = pos 0;
  entangled_with = q;
  pauli_x_err = true;
  pauli_z_err = false;
  photon_lost = lost;
  first = first;
  last = last;
}

abbrev side : Side
side = record {
  arrived_at = minus_one;
  photon_origin_node_address = minus_one;
  photon_origin_qnic_address = minus_one;
  photon_origin_qubit_address = minus_one;
  photon_origin_qnic_type = minus_one;
  photon_x_err = false;
  photon_z_err = false;
  photon_lost = false;
  stat_qubit_ptr = none;
  last_photon_detected = false;
  count = pos 0;
}

abbrev pub analyzer : Analyzer
analyzer = record {
  darkcount_probability = 5;
  bsa_success_rate = 32;
  required_precision = 2;
  left = side;
  right = side;
  send_result = false;
  this_trial_done = false;
  statistics = record {
    count_x = pos 0;
    count_y = pos 0;
    count_z = pos 0;
    count_l = pos 0;
    count_i = pos 0;
    count_total = pos 0;
    n_res = pos 0;
    darkcount_left = pos 0;
    darkcount_right = pos 0;
    darkcount_both = pos 0;
    success = pos 0;
    total = pos 0;
  };
}

abbrev pub first_pair : Pair
first_pair = record {
  left = photon 0 false true false;
  right = photon 5 false true false;
  left_at = pos 10;
  right_at = pos 11;
  left_first = true;
}

abbrev pub second_pair : Pair
second_pair = record {
  left = photon 1 true false false;
  right = photon 6 false false true;
  left_at = pos 22;
  right_at = pos 20;
  left_first = false;
}

abbrev pub third_photon : Arrival
third_photon = record { port = pos 0; photon = photon 2 false false true; at = pos 30 }

abbrev pub first_in_time : IsInTime 2 first_pair
first_in_time = record { left_time = refl; right_time = refl; close = refl }

abbrev pub second_in_time : IsInTime 2 second_pair
second_in_time = record { left_time = refl; right_time = refl; close = refl }

abbrev pub third_late : IsLate third_photon
third_late = record { not_first = refl; at_port = inl refl }

abbrev pub analyzer-IsIdle : IsIdle analyzer
analyzer-IsIdle = record {
  left_away = refl;
  right_away = refl;
  left_last = refl;
  right_last = refl;
  quiet = refl;
  running = refl;
}

abbrev messages_of : Result (List BsaMessage × World × Analyzer) → List BsaMessage
messages_of (ok r) = r.0
messages_of _ = []

abbrev world_of : Result (List BsaMessage × World × Analyzer) → World
world_of (ok r) = r.1
world_of _ = world

abbrev round : Result (List BsaMessage × World × Analyzer)
round = receive (all_arrivals (first_pair ∷ second_pair ∷ []) (third_photon ∷ [])) world analyzer

-- The first pair succeeds, and the memories have each other; the second pair lacks a dark count.
round_messages : messages_of round ≡ bsa_result false ∷ bsa_finish true ∷ []
unfolding receive
round_messages = refl

round_partner : ((world_of round).qubits 0).entangled_partner ≡ some 5
unfolding receive
round_partner = refl

round_x_error : ((world_of round).qubits 5).god_x_error ≡ true
unfolding receive
round_x_error = refl

receive-round_example :
    (w' : World) × (a' : Analyzer) × (receive
        (all_arrivals (first_pair ∷ second_pair ∷ []) (third_photon ∷ []))
        world
        analyzer
      ≡ ok (messages (results 32 5 (λ n. 10 * (n + 1)) 0 (first_pair ∷ second_pair ∷ [])), w', a'))
    × (a'.this_trial_done ≡ true)
receive-round_example =
    receive-round first_pair (second_pair ∷ []) (third_photon ∷ []) world analyzer (refl, refl)
      (first_in_time, (second_in_time, tt)) (third_late, tt) (inl analyzer-IsIdle)

lone-IsSymmetric : IsSymmetric world
unfolding IsSymmetric
lone-IsSymmetric i j h = cc

abbrev at : ℤ → World → World
at t w = record w { now = t }

abbrev out_of : Result (List BsaMessage × World × Analyzer) → List BsaMessage × World × Analyzer
out_of (ok r) = r
out_of _ = ([], world, analyzer)

-- The left photon of the first pair waits, and then the right one comes.
abbrev waiting : List BsaMessage × World × Analyzer
waiting = out_of (handle_message (pos 0) (photon 0 false true false) (at (pos 10) world) analyzer)

abbrev measured : List BsaMessage × World × Analyzer
measured =
    out_of (handle_message (pos 1) (photon 5 false true false) (at (pos 11) waiting.1) waiting.2)

measured_messages : measured.0 ≡ bsa_result false ∷ []
unfolding handle_message
measured_messages = refl

measured_partner : partner measured.1 5 ≡ some 0
unfolding handle_message
measured_partner = refl

waiting_IsReady : IsReady pos (at (pos 11) waiting.1) waiting.2
unfolding handle_message IsSymmetric
waiting_IsReady = record {
  wired = record { symmetric = lone-IsSymmetric; located = λ i. refl };
  left_unpaired = refl;
  right_unpaired = tt;
}

handle_message-Links_example :
    IsReady pos measured.1 measured.2
    × ((k : ℕ)
        → partner measured.1 k ≡ paired true (some 0) (some 5) (partner (at (pos 11) waiting.1)) k)
unfolding handle_message
handle_message-Links_example =
    handle_message-Links (pos 1) (photon 5 false true false) (at (pos 11) waiting.1) waiting.2
      measured refl waiting_IsReady refl
