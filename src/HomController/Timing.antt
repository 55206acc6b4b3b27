-- ===== src/HomController/Timing.antt =====
-- When the two neighbours of a link start to emit (quisp/modules/HoM_Controller.cc).
use quisp.Prelude.{ℕ, ◌+◌, ◌*◌, ◌≤◌, pos, leb, if◌then◌else◌, ◌≡◌, ◌∙◌, ◌-◌, arith}
use quisp.HomController.{
  HomController, TimingNotifier, calculate_emission_start_time, generate_notifier, marked_internal,
  first_notifier, second_notifier,
}

-- The node that is closer waits for twice the difference.
start_time :
    (c : HomController) (time distance : ℕ)
    → c.time_to_travel distance ≤ time
    → (s : ℕ) × (calculate_emission_start_time c time distance ≡ pos s)
      × (s + 2 * c.time_to_travel distance ≡ 2 * time)
unfolding calculate_emission_start_time
start_time c time distance h = (2 * time - 2 * c.time_to_travel distance, ground arith, omega arith)

marked_timing :
    (c : HomController) (pk : TimingNotifier) → (marked_internal c pk).timing_at ≡ pk.timing_at
marked_timing c pk = ground arith

-- Both neighbours are told start times of at least 0, by which their first photons meet: if it takes
-- a notifier and a photon the same time to travel between a neighbour and the analyzer, then both
-- first photons arrive when twice the longer of the two times has passed. This is provided that the
-- time to travel does not fall with the distance and the maximal distance is the larger of the two.
pub notifiers_meet :
    (c : HomController)
    → ((d e : ℕ) → d ≤ e → c.time_to_travel d ≤ c.time_to_travel e)
    → c.max_neighbor_distance ≡ (
        if leb c.distance_to_neighbor c.distance_to_neighbor_two
        then c.distance_to_neighbor_two
        else c.distance_to_neighbor)
    → (s : ℕ) × (t : ℕ) × ((first_notifier c).timing_at ≡ pos s)
      × ((second_notifier c).timing_at ≡ pos t)
      × (s + 2 * c.time_to_travel c.distance_to_neighbor
          ≡ 2 * c.time_to_travel c.max_neighbor_distance)
      × (t + 2 * c.time_to_travel c.distance_to_neighbor_two
          ≡ 2 * c.time_to_travel c.max_neighbor_distance)
unfolding first_notifier second_notifier generate_notifier
notifiers_meet c mono m =
    let time = c.time_to_travel c.max_neighbor_distance in
    let near : c.distance_to_neighbor ≤ c.max_neighbor_distance = ground (arith, m) in
    let near_two : c.distance_to_neighbor_two ≤ c.max_neighbor_distance = ground (arith, m) in
    let (s, e, f) = start_time c time c.distance_to_neighbor (mono _ _ near) in
    let (t, g, h) = start_time c time c.distance_to_neighbor_two (mono _ _ near_two) in
    (s, t, marked_timing c _ ∙ e, g, f, h)
