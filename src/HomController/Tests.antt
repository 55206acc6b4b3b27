-- ===== src/HomController/Tests.antt =====
-- The link of Analyzer/Tests.antt with its controller: the right node is farther away.
use quisp.Prelude.{
  ℕ, ◌+◌, ◌*◌, ◌≤◌, pos, minus_one, true, false, List, [], ◌∷◌, Result, ok, ◌≡◌, refl, inl, arith,
}
use quisp.Qubits.{World}
use quisp.Analyzer.{Analyzer, BsaMessage, bsa_result, bsa_finish}
use quisp.Analyzer.Rounds.{receive, all_arrivals, results}
use quisp.Analyzer.Tests.{
  world, analyzer, first_pair, second_pair, third_photon, first_in_time, second_in_time, third_late,
  analyzer-IsIdle,
}
use quisp.HomController.{
  HomController, Packet, first_notifier, second_notifier, calculate_emission_start_time,
}
use quisp.HomController.Rounds.{collect, answers, cleared, collect-receive}
use quisp.HomController.Timing.{notifiers_meet}

abbrev controller : HomController
controller = record {
  address = pos 9;
  parent_address = pos 9;
  neighbor_address = pos 1;
  neighbor_address_two = pos 2;
  distance_to_neighbor = 10;
  distance_to_neighbor_two = 25;
  max_neighbor_distance = 25;
  time_to_travel = λ d. 5 * d;
  accepted_burst_interval = 1;
  photon_detection_per_sec = pos 1000;
  max_buffer = pos 7;
  receiver = false;
  passive = false;
  handshake = false;
  qnic_index = minus_one;
  qnic_address = minus_one;
  auto_resend_bsa_notifier = true;
  current_trial_id = 0;
  results = [];
}

left_waits : calculate_emission_start_time controller 125 10 ≡ pos 150
unfolding calculate_emission_start_time
left_waits = refl

abbrev collected : Result (List Packet × HomController)
collected = collect 77 (bsa_result false ∷ bsa_finish true ∷ []) controller

collected_lists : collected ≡ ok (answers controller (false ∷ true ∷ []), cleared 77 controller)
unfolding collect first_notifier second_notifier
collected_lists = refl

collect-receive_example :
    (ms : List BsaMessage) × (w' : World) × (a' : Analyzer) × (receive
        (all_arrivals (first_pair ∷ second_pair ∷ []) (third_photon ∷ []))
        world
        analyzer
      ≡ ok (ms, w', a'))
    × (a'.this_trial_done ≡ true)
    × (collect 77 ms controller
        ≡ ok (
          answers controller (results 32 5 (λ n. 10 * (n + 1)) 0 (first_pair ∷ second_pair ∷ [])),
          cleared 77 controller,
        ))
collect-receive_example =
    collect-receive 77 controller first_pair (second_pair ∷ []) (third_photon ∷ []) world analyzer
      (refl, refl) (first_in_time, (second_in_time, tt)) (third_late, tt) (inl analyzer-IsIdle) refl

grows : (d e : ℕ) → d ≤ e → 5 * d ≤ 5 * e
grows d e h = omega arith

notifiers_meet_example :
    (s : ℕ) × (t : ℕ) × ((first_notifier controller).timing_at ≡ pos s)
    × ((second_notifier controller).timing_at ≡ pos t)
    × (s + 2 * (5 * 10) ≡ 2 * (5 * 25))
    × (t + 2 * (5 * 25) ≡ 2 * (5 * 25))
notifiers_meet_example = notifiers_meet controller grows refl
