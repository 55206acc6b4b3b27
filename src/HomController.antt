-- ===== src/HomController.antt =====
-- quisp/modules/HoM_Controller.{h,cc}: the controller beside the analyzer of a link. It collects the
-- results of a round, and sends them to the two neighbours with the time of the next round. The
-- initializers, which read the addresses and distances from the module tree, are left out: their
-- results are fields. Distances and times are natural numbers in units of their own, and
-- `time_to_travel` is the division by the speed of light in the channel (calculateTimeToTravel), a
-- division of doubles. How long the simulation waits before the first round is left out too.
pub mod Timing
pub mod Rounds
mod Tests
use quisp.Prelude.{
  ℕ, ◌+◌, ◌*◌, ℤ, pos, pos_part, minus_one, assign, sub_ℕ, ◌==ℤ◌, ◌==◌, Bool, true, false, not,
  ◌&&◌, if◌then◌else◌, List, [], ◌∷◌, length, replicate, set, Result, ok, ◌>>=◌, ◌>>◌, fail_if,
  insert_new, not_stored,
}
use quisp.Analyzer.{BsaMessage, bsa_result, bsa_finish}

pub record HomController : Type 0 where
  pub address : ℤ
  pub parent_address : ℤ
  pub neighbor_address : ℤ
  pub neighbor_address_two : ℤ
  pub distance_to_neighbor : ℕ
  pub distance_to_neighbor_two : ℕ
  pub max_neighbor_distance : ℕ
  pub time_to_travel : ℕ → ℕ
  pub accepted_burst_interval : ℕ
  pub photon_detection_per_sec : ℤ
  pub max_buffer : ℤ
  pub receiver : Bool
  pub passive : Bool
  pub handshake : Bool
  pub qnic_index : ℤ
  pub qnic_address : ℤ
  pub auto_resend_bsa_notifier : Bool
  pub current_trial_id : ℕ
  pub results : List (ℤ × Bool)

-- BSMtimingNotifier
pub record TimingNotifier : Type 0 where
  pub src_addr : ℤ
  pub dest_addr : ℤ
  pub kind : ℕ
  pub timing_at : ℤ
  pub accepted_photons_per_sec : ℤ
  pub interval : ℕ
  pub number_of_qubits : ℤ
  pub internal_qnic_index : ℤ
  pub internal_qnic_address : ℤ

-- The packets to the router: a BSMtimingNotifier, a CombinedBSAresults, which extends one by the list
-- of failed attempts, and a CombinedBSAresults_epps.
pub data Packet : Type 0 where
  timing_notifier : TimingNotifier → Packet
  combined_bsa_results : TimingNotifier → (list_of_failed : List Bool) → Packet
  combined_bsa_results_epps :
      (src_addr dest_addr : ℤ) → (kind : ℕ) → (list_of_failed : List Bool) → Packet

-- The messages to the controller.
pub data Message : Type 0 where
  bsa_start : Message
  from_analyzer : BsaMessage → Message
  bsa_timeout_checker : (trial_id : ℕ) → Message
  unknown_message : Message

-- calculateEmissionStartTime
unfoldable pub calculate_emission_start_time : HomController → (time distance_to_node : ℕ) → ℤ
calculate_emission_start_time c time distance_to_node =
    let self_time_to_travel = c.time_to_travel distance_to_node in
    if not (self_time_to_travel == time) then sub_ℕ (time * 2) (self_time_to_travel * 2) else pos 0

-- generateNotifier and generateNotifier_c
unfoldable pub generate_notifier :
    HomController → (time distance_to_neighbor : ℕ) → (dest_addr : ℤ) → TimingNotifier
unfolding calculate_emission_start_time
generate_notifier c time distance_to_neighbor dest_addr = record {
  src_addr = c.parent_address;
  dest_addr = dest_addr;
  kind = 4;
  timing_at = calculate_emission_start_time c time distance_to_neighbor;
  accepted_photons_per_sec = c.photon_detection_per_sec;
  interval = c.accepted_burst_interval;
  number_of_qubits = if c.handshake then c.max_buffer else minus_one;
  internal_qnic_index = minus_one;
  internal_qnic_address = minus_one;
}

-- `if (receiver)` the first neighbour is the node that the controller is in.
abbrev pub marked_internal : HomController → TimingNotifier → TimingNotifier
marked_internal c pk =
    if c.receiver
    then record pk { internal_qnic_index = c.qnic_index; internal_qnic_address = c.qnic_address }
    else pk

-- The notifier for the first neighbour and that for the second.
unfoldable pub first_notifier : HomController → TimingNotifier
unfolding generate_notifier
first_notifier c = marked_internal c (
    generate_notifier c (c.time_to_travel c.max_neighbor_distance) c.distance_to_neighbor
      c.neighbor_address)

unfoldable pub second_notifier : HomController → TimingNotifier
unfolding generate_notifier
second_notifier c =
    generate_notifier c (c.time_to_travel c.max_neighbor_distance) c.distance_to_neighbor_two
      c.neighbor_address_two

-- sendNotifiers
unfoldable pub send_notifiers : HomController → List Packet
unfolding first_notifier second_notifier
send_notifiers c = timing_notifier (first_notifier c) ∷ timing_notifier (second_notifier c) ∷ []

-- getStoredBSAresultsSize
abbrev pub stored : HomController → ℕ
stored c = length c.results

-- `results[getStoredBSAresultsSize()] = attempt_success`: an entry under the key is overwritten.
abbrev write_result : ℤ → Bool → List (ℤ × Bool) → List (ℤ × Bool)
write_result k v results = assign k v (insert_new k v results)

-- pushToBSAresults
unfoldable pub push_to_bsa_results : Bool → HomController → Result HomController
unfolding insert_new assign
push_to_bsa_results attempt_success c = do
  let c' = record c { results = write_result (pos (stored c)) attempt_success c.results }
  fail_if (not (stored c + 1 == stored c')) not_stored
  ok c'

-- The loop over the results that fills list_of_failed.
unfoldable pub fill_failed : List (ℤ × Bool) → List Bool → List Bool
fill_failed [] failed = failed
fill_failed ((index, entangled) ∷ results) failed =
    fill_failed results (set failed (pos_part index) entangled)

-- list_of_failed
unfoldable pub list_of_failed : HomController → List Bool
unfolding fill_failed
list_of_failed c = fill_failed c.results (replicate (stored c) false)

-- The notifier within a CombinedBSAresults has the controller's own address and another kind.
abbrev pub for_results : HomController → TimingNotifier → TimingNotifier
for_results c pk = record pk { src_addr = c.address; kind = 5 }

-- sendBSAresultsToNeighbors
unfoldable pub send_bsa_results_to_neighbors : HomController → List Packet
unfolding first_notifier second_notifier list_of_failed
send_bsa_results_to_neighbors c =
    if not c.passive
    then combined_bsa_results (for_results c (first_notifier c)) (list_of_failed c)
      ∷ combined_bsa_results (for_results c (second_notifier c)) (list_of_failed c)
      ∷ []
    else combined_bsa_results_epps c.address c.neighbor_address 6 (list_of_failed c)
      ∷ combined_bsa_results_epps c.address c.neighbor_address_two 6 (list_of_failed c)
      ∷ []

-- handleMessage, with the random number that the next trial would have as its id. The check of a
-- timeout does nothing in either case.
unfoldable pub handle_message :
    (rand : ℕ) → Message → HomController → Result (List Packet × HomController)
unfolding push_to_bsa_results send_bsa_results_to_neighbors send_notifiers
handle_message rand bsa_start c = ok (send_notifiers c, c)
handle_message rand (from_analyzer (bsa_result entangled)) c = do
  c' ← push_to_bsa_results entangled (record c { auto_resend_bsa_notifier = false })
  ok ([], c')
handle_message rand (from_analyzer (bsa_finish entangled)) c = do
  c' ← push_to_bsa_results entangled c
  ok (
    send_bsa_results_to_neighbors c',
    record c' { results = []; auto_resend_bsa_notifier = true; current_trial_id = rand },
  )
handle_message rand (bsa_timeout_checker trial_id) c = ok ([], c)
handle_message rand unknown_message c = ok ([], c)

-- setMax_buffer
unfoldable pub set_max_buffer : ℤ → HomController → HomController
set_max_buffer buffer c = if not c.passive then c else record c { max_buffer = buffer }
