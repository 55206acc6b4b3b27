-- ===== src/Analyzer.antt =====
-- quisp/modules/BellStateAnalyzer.cc: the measurement of two photons that heralds the entanglement
-- of the memories that emitted them. What the source keeps in pairs of left_ and right_ variables is
-- a record for each port. The parameters that are doubles are natural numbers in the unit of the
-- random numbers, and times are integers; the time of a photon that is not there is -1.
pub mod Outcome
pub mod Pointers
pub mod Clicks
pub mod Links
pub mod Rounds
pub mod Tests
use quisp.Prelude.{
  ℕ, ◌+◌, ◌-◌, ℤ, pos_part, neg_part, minus_one, suc_ℤ, pos, ◌==ℤ◌, Bool, true, false, not, ◌&&◌,
  ◌||◌, if◌then◌else◌, List, [], ◌∷◌, Option, none, some, ltb, leb, Result, ok, err, ◌>>=◌, ◌>>◌,
  fail_if, or_fail, null_pointer, too_many_connections, entangling_failed,
}
use quisp.Qubits.{World, draw, set_entangled_partner_info}
use quisp.Qubits.Memory.{set_completely_mixed, is_none}
use quisp.Qubits.Gates.{add_x_error, add_z_error}

pub record Photon : Type 0 where
  pub node_entangled_with : ℤ
  pub qnic_entangled_with : ℤ
  pub stationary_qubit_entangled_with : ℤ
  pub qnic_type_entangled_with : ℤ
  pub entangled_with : ℕ
  pub pauli_x_err : Bool
  pub pauli_z_err : Bool
  pub photon_lost : Bool
  pub first : Bool
  pub last : Bool

pub record Side : Type 0 where
  pub arrived_at : ℤ
  pub photon_origin_node_address : ℤ
  pub photon_origin_qnic_address : ℤ
  pub photon_origin_qubit_address : ℤ
  pub photon_origin_qnic_type : ℤ
  pub photon_x_err : Bool
  pub photon_z_err : Bool
  pub photon_lost : Bool
  pub stat_qubit_ptr : Option ℕ
  pub last_photon_detected : Bool
  pub count : ℤ

-- How many photons came with which error, and how many pairs ended how.
pub record Statistics : Type 0 where
  pub count_x : ℤ
  pub count_y : ℤ
  pub count_z : ℤ
  pub count_l : ℤ
  pub count_i : ℤ
  pub count_total : ℤ
  pub n_res : ℤ
  pub darkcount_left : ℤ
  pub darkcount_right : ℤ
  pub darkcount_both : ℤ
  pub success : ℤ
  pub total : ℤ

pub record Analyzer : Type 0 where
  pub darkcount_probability : ℕ
  pub bsa_success_rate : ℕ
  pub required_precision : ℕ
  pub left : Side
  pub right : Side
  pub send_result : Bool
  pub this_trial_done : Bool
  pub statistics : Statistics

-- What goes to the HoM controller. The field is named Entangled, and is true for a failure.
pub data BsaMessage : Type 0 where
  bsa_result : (entangled : Bool) → BsaMessage
  bsa_finish : (entangled : Bool) → BsaMessage

abbrev pub forgotten : Side → Side
forgotten s = record s { arrived_at = minus_one; last_photon_detected = false; count = pos 0 }

-- `if (photon->getFirst() && this_trial_done == true)`
abbrev pub next_round : Photon → Analyzer → Analyzer
next_round photon a =
    if photon.first && a.this_trial_done
    then record a {
      this_trial_done = false;
      send_result = false;
      left = forgotten a.left;
      right = forgotten a.right;
    }
    else a

abbrev pub arrival : Photon → (now : ℤ) → Side → Side
arrival photon now s = record {
  arrived_at = now;
  photon_origin_node_address = photon.node_entangled_with;
  photon_origin_qnic_address = photon.qnic_entangled_with;
  photon_origin_qubit_address = photon.stationary_qubit_entangled_with;
  photon_origin_qnic_type = photon.qnic_type_entangled_with;
  photon_x_err = photon.pauli_x_err;
  photon_z_err = photon.pauli_z_err;
  photon_lost = photon.photon_lost;
  stat_qubit_ptr = some photon.entangled_with;
  last_photon_detected =
      if photon.last then true else if photon.first then false else s.last_photon_detected;
  count = suc_ℤ s.count;
}

-- The port that the photon arrives on.
unfoldable pub arrive : ℤ → Photon → (now : ℤ) → Analyzer → Result Analyzer
arrive port photon now a =
    if port ==ℤ pos 0
    then ok (record a { left = arrival photon now a.left })
    else if port ==ℤ pos 1
    then ok (record a { right = arrival photon now a.right })
    else err too_many_connections

-- `send_result = true` after the last photon of either side
abbrev pub end_of_burst : Analyzer → Analyzer
end_of_burst a = record a {
  send_result =
      if a.right.last_photon_detected || a.left.last_photon_detected then true else a.send_result;
}

-- forDEBUG_countErrorTypes
unfoldable pub count_error_types : Photon → Analyzer → Analyzer
count_error_types q a =
    let s = a.statistics in
    let counted =
      if q.pauli_x_err && q.pauli_z_err
      then record s { count_y = suc_ℤ s.count_y }
      else if q.pauli_x_err && not q.pauli_z_err
      then record s { count_x = suc_ℤ s.count_x }
      else if not q.pauli_x_err && q.pauli_z_err
      then record s { count_z = suc_ℤ s.count_z }
      else if q.photon_lost
      then record s { count_l = suc_ℤ s.count_l }
      else record s { count_i = suc_ℤ s.count_i } in
    record a { statistics = record counted { count_total = suc_ℤ s.count_total } }

-- initializeVariables, which resets the loss of the left photon twice and that of the right one
-- never.
abbrev pub initialized : (lost : Bool) → Side → Side
initialized lost s = record s {
  arrived_at = minus_one;
  photon_origin_node_address = minus_one;
  photon_origin_qnic_address = minus_one;
  photon_origin_qubit_address = minus_one;
  photon_origin_qnic_type = minus_one;
  photon_x_err = false;
  photon_z_err = false;
  photon_lost = lost;
  stat_qubit_ptr = none;
  count = pos 0;
}

unfoldable pub initialize_variables : Analyzer → Analyzer
initialize_variables a = record a {
  left = initialized false a.left;
  right = initialized a.right.photon_lost a.right;
}

-- sendBSAresult
unfoldable pub send_bsa_result : (result sendresults : Bool) → Analyzer → BsaMessage × Analyzer
send_bsa_result result sendresults a =
    if not sendresults
    then (bsa_result result, a)
    else (bsa_finish result, record a { this_trial_done = true })

-- GOD_setCompletelyMixedDensityMatrix
unfoldable pub set_both_completely_mixed : Analyzer → World → Result World
unfolding set_completely_mixed
set_both_completely_mixed a w = do
  left ← or_fail a.left.stat_qubit_ptr null_pointer
  let w1 = set_completely_mixed left w
  right ← or_fail a.right.stat_qubit_ptr null_pointer
  ok (set_completely_mixed right w1)

-- The errors of a photon go to the memory that emitted it.
abbrev pub add_errors : ℕ → (x z : Bool) → World → World
add_errors i x z w = let w1 = if x then add_x_error i w else w in if z then add_z_error i w1 else w1

-- The two memories are set as each other's partners and take over the errors of the photons.
unfoldable pub joined : Analyzer → (left right : ℕ) → World → World
unfolding set_entangled_partner_info
joined a left right w =
    let w1 = set_entangled_partner_info left right w in
    let w2 = add_errors left a.left.photon_x_err a.left.photon_z_err w1 in
    let w3 = set_entangled_partner_info right left w2 in
    add_errors right a.right.photon_x_err a.right.photon_z_err w3

abbrev pub lacks_partner : World → (left right : ℕ) → Bool
lacks_partner w left right =
    is_none (w.qubits right).entangled_partner || is_none (w.qubits left).entangled_partner

-- GOD_updateEntangledInfoParameters_of_qubits
unfoldable pub update_entangled_info : Analyzer → World → Result World
unfolding joined
update_entangled_info a w = do
  left ← or_fail a.left.stat_qubit_ptr null_pointer
  right ← or_fail a.right.stat_qubit_ptr null_pointer
  fail_if (lacks_partner (joined a left right w) left right) entangling_failed
  ok (joined a left right w)

-- `std::abs(difference)`
abbrev pub distance : ℤ → ℤ → ℕ
distance s t =
    let a = pos_part s + neg_part t in let b = pos_part t + neg_part s in (a - b) + (b - a)

abbrev pub both_arrived : Analyzer → Bool
both_arrived a = not (a.left.arrived_at ==ℤ minus_one) && not (a.right.arrived_at ==ℤ minus_one)

-- Whether two detectors click: with both photons by chance, without one by a dark count.
abbrev pub both_clicked : Analyzer → (rand darkcount_left darkcount_right : ℕ) → Bool
both_clicked a rand dl dr =
    let p = a.darkcount_probability in
    let l = a.left.photon_lost in
    let r = a.right.photon_lost in
    (ltb rand a.bsa_success_rate && not r && not l)
    || (not r && l && ltb dl p)
    || (r && not l && ltb dr p)
    || (r && l && ltb dl p && ltb dr p)

abbrev pub dark_left : Statistics → Statistics
dark_left s = record s { darkcount_left = suc_ℤ s.darkcount_left }

abbrev pub dark_right : Statistics → Statistics
dark_right s = record s { darkcount_right = suc_ℤ s.darkcount_right }

abbrev pub dark_both : Statistics → Statistics
dark_both s = record s { darkcount_both = suc_ℤ s.darkcount_both }

abbrev pub succeeded : Statistics → Statistics
succeeded s = record s { success = suc_ℤ s.success; n_res = suc_ℤ s.n_res }

abbrev pub noted : (Statistics → Statistics) → Analyzer → Analyzer
noted f a = record a { statistics = f a.statistics }

abbrev pub mix_both : (Statistics → Statistics) → Analyzer → World → Result (World × Analyzer)
mix_both f a w = do w' ← set_both_completely_mixed a w; ok (w', noted f a)

abbrev pub entangle : Analyzer → World → Result (World × Analyzer)
entangle a w = do w' ← update_entangled_info a w; ok (w', noted succeeded a)

-- A photon that was there and a dark count for the other, or two dark counts.
abbrev pub dark_on_left : Analyzer → (darkcount_left : ℕ) → Bool
dark_on_left a dl =
    not a.right.photon_lost && (a.left.photon_lost && leb dl a.darkcount_probability)

abbrev pub dark_on_right : Analyzer → (darkcount_right : ℕ) → Bool
dark_on_right a dr =
    not a.left.photon_lost && (a.right.photon_lost && leb dr a.darkcount_probability)

abbrev pub dark_on_both : Analyzer → (darkcount_left darkcount_right : ℕ) → Bool
dark_on_both a dl dr =
    (a.left.photon_lost && leb dl a.darkcount_probability)
    && (a.right.photon_lost && leb dr a.darkcount_probability)

-- What two clicks do to the two memories, which is entanglement only if both photons were there.
unfoldable pub click :
    Analyzer → (darkcount_left darkcount_right : ℕ) → World → Result (World × Analyzer)
unfolding set_both_completely_mixed update_entangled_info
click a dl dr w =
    if dark_on_left a dl
    then mix_both dark_left a w
    else if dark_on_right a dr
    then mix_both dark_right a w
    else if dark_on_both a dl dr
    then mix_both dark_both a w
    else entangle a w

abbrev pub counted_pair : Statistics → Statistics
counted_pair s = record s { total = suc_ℤ s.total }

-- Both photons are there in time.
unfoldable pub measure : Analyzer → World → Result (List BsaMessage × World × Analyzer)
unfolding click send_bsa_result initialize_variables
measure a w = do
  let (rand, w1) = draw w
  let (darkcount_left, w2) = draw w1
  let (darkcount_right, w3) = draw w2
  let clicked = both_clicked a rand darkcount_left darkcount_right
  (w4, a1) ← (if clicked then click a darkcount_left darkcount_right w3 else ok (w3, a))
  let (message, a2) = send_bsa_result (not clicked) a1.send_result a1
  ok (message ∷ [], w4, initialize_variables (noted counted_pair a2))

-- The end of the handler: dropped after the end of a trial, measured, out of time, or waiting.
unfoldable pub evaluate : Analyzer → World → Result (List BsaMessage × World × Analyzer)
unfolding measure
evaluate a w =
    let in_time = leb (distance a.left.arrived_at a.right.arrived_at) a.required_precision in
    if a.this_trial_done
    then ok ([], w, a)
    else if both_arrived a && in_time
    then measure a w
    else if both_arrived a && not in_time
    then (let (message, a') = send_bsa_result true a.send_result (initialize_variables a) in
        ok (message ∷ [], w, a'))
    else ok ([], w, a)

unfoldable pub handle_message :
    (port : ℤ) → Photon → World → Analyzer → Result (List BsaMessage × World × Analyzer)
unfolding arrive count_error_types evaluate
handle_message port photon w a = do
  a1 ← arrive port photon w.now (next_round photon a)
  evaluate (count_error_types photon (end_of_burst a1)) w
