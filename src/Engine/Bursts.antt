-- ===== src/Engine/Bursts.antt =====
-- quisp/modules/RuleEngine.cc: the bursts of photons that a node sends over a link. A photon is
-- scheduled after another until no qubit of the qnic is free; a tracker records which qubit emitted
-- which photon; and when the results of the burst arrive, each qubit that was sent is freed or becomes
-- a resource. Times and intervals are integers in a common unit. Events that a handler schedules for
-- the node itself are its output, each with its time.
pub mod Shooting
pub mod Shots
pub mod Sorting
pub mod Outcomes
pub mod Tests
use quisp.Prelude.{
  ℕ, zero, suc, ◌+◌, ◌-◌, ℤ, pos, minus_one, suc_ℤ, ◌+ℤ◌, ◌==ℤ◌, ◌==◌, ltb, Bool, true, false, not,
  ◌&&◌, ◌||◌, if◌then◌else◌, List, [], ◌∷◌, length, Option, none, some, Result, ok, err, ◌>>=◌,
  ◌>>◌, fail_if, or_fail, lookup, insert_new, insert_multi, no_such_module, interface_not_found,
  not_implemented, unknown_qnic_type, no_qnic_to_clear, shot_not_recorded, partner_lost,
  partner_differs, ebit_wrong,
}
use quisp.Network.{QnicType, qnic_e, qnic_r, qnic_rp, qnic_n, QnicId, InterfaceInf}
use quisp.Rules.Types.{Resources}
use quisp.Qubits.{World, Qubit}
use quisp.Qubits.Memory.{is_none, is_not_set}
use quisp.Slots.{
  QubitStateTable, count_free_qubits_in_qnic, get_one_free_qubit_in_qnic, set_qubit_busy_in_qnic,
  set_qubit_free_in_qnic,
}
use quisp.Engine.{Engine, same_type, re_initialize_stationary_qubit}
use quisp.HomController.{TimingNotifier}

-- QubitAddr_cons, whose node is not read.
pub record QubitAddr : Type 0 where
  pub qnic_index : ℤ
  pub qubit_index : ℤ

-- The node's engine with what it knows of its links and bursts. `neighbor_table` is what the hardware
-- monitor passes when it is asked, and `unset_interface` the value of an Interface_inf that is declared
-- without one.
pub record Station : Type 0 where
  pub engine : Engine
  pub ntable : List (ℤ × InterfaceInf)
  pub neighbor_table : List (ℤ × InterfaceInf)
  pub unset_interface : InterfaceInf
  pub tracker : ℤ → List (ℤ × QubitAddr)
  pub qnic_burst_trial_counter : ℤ → ℤ
  pub terminated_qnic : ℤ → Bool

-- SchedulePhotonTransmissionsOnebyOne
pub record Schedule : Type 0 where
  pub qnic_index : ℤ
  pub qnic_address : ℤ
  pub interval : ℤ
  pub timing : ℤ
  pub num_sent : ℤ
  pub internal_hom : Bool
  pub trial : ℤ

pub record EmitPhotonRequest : Type 0 where
  pub qubit_index : ℤ
  pub qnic_index : ℤ
  pub qnic_address : ℤ
  pub trial : ℤ
  pub qnic_type : QnicType
  pub kind : ℕ

-- STATIONARYQUBIT_PULSE_BEGIN, _END and _BOUND
abbrev pub pulse_begin : ℕ
pulse_begin = 1

abbrev pub pulse_end : ℕ
pulse_end = 2

abbrev pub pulse_bound : ℕ
pulse_bound = 3

-- getInterface_toNeighbor
unfoldable pub get_interface_to_neighbor : ℤ → Station → Result InterfaceInf
unfolding lookup
get_interface_to_neighbor dest_addr s = or_fail (lookup dest_addr s.ntable) interface_not_found

-- The loop of getInterface_toNeighbor_Internal, which keeps the last match.
unfoldable pub last_interface : ℤ → List (ℤ × InterfaceInf) → InterfaceInf → InterfaceInf
last_interface local_qnic_address [] inf = inf
last_interface local_qnic_address ((a, i) ∷ table) inf =
    last_interface local_qnic_address table
      (if i.qnic.address ==ℤ local_qnic_address then i else inf)

-- getInterface_toNeighbor_Internal
unfoldable pub get_interface_to_neighbor_internal : ℤ → Station → InterfaceInf
unfolding last_interface
get_interface_to_neighbor_internal local_qnic_address s =
    last_interface local_qnic_address s.ntable s.unset_interface

-- burstTrial_outdated
unfoldable pub burst_trial_outdated : (this_trial qnic_address : ℤ) → Station → Bool
burst_trial_outdated this_trial qnic_address s =
    not (this_trial ==ℤ s.qnic_burst_trial_counter qnic_address)

abbrev pub table_of : QnicType → Station → QubitStateTable
table_of type s = s.engine.busy_or_free type

abbrev pub with_table : QnicType → QubitStateTable → Engine → Engine
with_table type table e = record e {
  busy_or_free = λ t. if same_type t type then table else e.busy_or_free t;
}

-- shootPhoton, and with QNIC_R and `internal` shootPhoton_internal, with scheduleNextEmissionEvent.
-- Both the photon and the next event come at the same time.
unfoldable pub shoot_photon :
    QnicType
    → (internal : Bool) → Schedule
    → (now : ℤ) → Station
    → Result (Option (ℤ × EmitPhotonRequest × Schedule) × Station)
unfolding count_free_qubits_in_qnic get_one_free_qubit_in_qnic set_qubit_busy_in_qnic
shoot_photon type internal pk now s =
    let shoot : Result (Option (ℤ × EmitPhotonRequest × Schedule) × Station) = do
      qubit_index ← get_one_free_qubit_in_qnic (table_of type s) pk.qnic_index
      table ← set_qubit_busy_in_qnic (table_of type s) pk.qnic_index qubit_index
      let is_first = pk.num_sent ==ℤ pos 0
      let none_left = count_free_qubits_in_qnic table pk.qnic_index == 0
      let emt : EmitPhotonRequest = record {
        qubit_index = qubit_index;
        qnic_index = pk.qnic_index;
        qnic_address = pk.qnic_address;
        trial = pk.trial;
        qnic_type = type;
        kind =
            if is_first
            then (if none_left then pulse_bound else pulse_begin)
            else if none_left
            then pulse_end
            else 0;
      }
      let next : Schedule = record {
        qnic_index = pk.qnic_index;
        qnic_address = pk.qnic_address;
        interval = pk.interval;
        timing = pk.timing;
        num_sent = suc_ℤ pk.num_sent;
        internal_hom = internal;
        trial = pk.trial;
      }
      let at = now +ℤ (if is_first then pk.timing else pk.interval)
      ok (some (at, emt, next), record s { engine = with_table type table s.engine })
    in if count_free_qubits_in_qnic (table_of type s) pk.qnic_index == 0
      then ok (none, s)
      else shoot

-- handleMessage on a SchedulePhotonTransmissionsOnebyOne
unfoldable pub handle_schedule :
    Schedule → (now : ℤ) → Station → Result (Option (ℤ × EmitPhotonRequest × Schedule) × Station)
unfolding burst_trial_outdated shoot_photon
handle_schedule pk now s =
    if burst_trial_outdated pk.trial pk.qnic_address s
    then ok (none, s)
    else if not pk.internal_hom
    then shoot_photon qnic_e false pk now s
    else shoot_photon qnic_r true pk now s

-- handleMessage on an EmitPhotonRequest: the request to the qubit, if the burst is not over, is
-- EmitPhoton of RealTimeController.
unfoldable pub handle_emit : EmitPhotonRequest → Station → Option EmitPhotonRequest × Station
unfolding burst_trial_outdated insert_new
handle_emit pk s =
    let shots = s.tracker pk.qnic_address in
    let addr : QubitAddr = record { qnic_index = pk.qnic_index; qubit_index = pk.qubit_index } in
    if burst_trial_outdated pk.trial pk.qnic_address s then (none, s) else (
      some pk,
      record s {
        tracker = λ a.
            if a ==ℤ pk.qnic_address
            then insert_new (pos (length shots)) addr shots
            else s.tracker a;
      },
    )

abbrev is_empty : List (ℤ × InterfaceInf) → Bool
is_empty [] = true
is_empty _ = false

-- The event that starts a burst, if any qubit is free.
abbrev first_schedule :
    TimingNotifier
    → QnicType
    → (qnic_index qnic_address : ℤ) → (internal : Bool) → Station
    → Option Schedule
first_schedule pk type qnic_index qnic_address internal s =
    let st : Schedule = record {
      qnic_index = qnic_index;
      qnic_address = qnic_address;
      interval = pos pk.interval;
      timing = pk.timing_at;
      num_sent = pos 0;
      internal_hom = internal;
      trial = s.qnic_burst_trial_counter qnic_address;
    } in
    if ltb 0 (count_free_qubits_in_qnic (table_of type s) qnic_index) then some st else none

-- scheduleFirstPhotonEmission: the event, if there is one, is for the same time.
unfoldable pub schedule_first_photon_emission :
    TimingNotifier → QnicType → Station → Result (Option Schedule × Station)
unfolding get_interface_to_neighbor count_free_qubits_in_qnic
schedule_first_photon_emission pk qnic_type s0 =
    let s = if is_empty s0.ntable then record s0 { ntable = s0.neighbor_table } else s0 in
    elim qnic_type [
      | qnic_e ↦ do
        inf ← get_interface_to_neighbor pk.src_addr s
        ok (first_schedule pk qnic_e inf.qnic.index inf.qnic.address false s, s)
      | qnic_r ↦
          ok (first_schedule pk qnic_r pk.internal_qnic_index pk.internal_qnic_address true s, s)
      | qnic_rp ↦ err not_implemented
      | qnic_n ↦ err unknown_qnic_type
    ]

-- The qnic of a burst: that of the link to the neighbour, or the one that has the analyzer within.
unfoldable pub increment_burst_trial :
    (dest_addr internal_qnic_address : ℤ) → Station → Result Station
unfolding get_interface_to_neighbor
increment_burst_trial dest_addr internal_qnic_address s =
    let counted = λ (address : ℤ). record s {
      qnic_burst_trial_counter = λ a.
          if a ==ℤ address
          then suc_ℤ (s.qnic_burst_trial_counter a)
          else s.qnic_burst_trial_counter a;
    } in
    let outside : Result Station = do
      inf ← get_interface_to_neighbor dest_addr s
      ok (counted inf.qnic.address)
    in if internal_qnic_address ==ℤ minus_one then outside else ok (counted internal_qnic_address)

-- freeResource
unfoldable pub free_resource : (qnic_index qubit_index : ℤ) → QnicType → Engine → Result Engine
unfolding re_initialize_stationary_qubit set_qubit_free_in_qnic
free_resource qnic_index qubit_index qnic_type e = do
  e1 ← re_initialize_stationary_qubit qnic_index qubit_index qnic_type e
  table ← set_qubit_free_in_qnic (e1.busy_or_free qnic_type) qnic_index qubit_index
  ok (with_table qnic_type table e1)

-- What is checked of a qubit that is taken for entangled.
unfoldable pub check_entangled : ℕ → World → Result (Unit {0})
check_entangled q w =
    let mine = w.qubits q in
    let unknown =
      is_none mine.entangled_partner
      && is_not_set mine.density
      && not mine.no_density_matrix_nullptr_entangled_partner_ok in
    elim mine.entangled_partner [
      | none ↦ fail_if unknown ebit_wrong
      | some p ↦ elim (w.qubits p).entangled_partner [
        | none ↦ err partner_lost
        | some q' ↦ fail_if (not (q' == q)) partner_differs
      ]
    ]

-- A shot that succeeded.
unfoldable pub add_as_resource :
    QnicType → (qnic_index neighbor : ℤ) → QubitAddr → Engine → Result Engine
unfolding check_entangled insert_multi
add_as_resource type qnic_index neighbor addr e = do
  q ← or_fail (e.stat_qubit type qnic_index addr.qubit_index) no_such_module
  check_entangled q e.world
  ok (record e {
    all_resources = λ t i.
        if same_type t type && (i ==ℤ qnic_index)
        then insert_multi neighbor q (e.all_resources t i)
        else e.all_resources t i;
  })

-- The loop over the list of failed attempts, from position i on.
unfoldable pub sort_shots :
    QnicType
    → (qnic_index neighbor : ℤ) → List (ℤ × QubitAddr)
    → ℕ
    → List Bool
    → Engine
    → Result Engine
unfolding lookup free_resource add_as_resource
sort_shots type qnic_index neighbor tracker i [] e = ok e
sort_shots type qnic_index neighbor tracker i (failed ∷ list) e = do
  addr ← or_fail (lookup (pos i) tracker) shot_not_recorded
  e1 ←
      (if failed
        then free_resource addr.qnic_index addr.qubit_index type e
        else add_as_resource type qnic_index neighbor addr e)
  sort_shots type qnic_index neighbor tracker (i + 1) list e1

-- The loop over the shots beyond the list, of which there are `count`.
unfoldable pub free_rest : QnicType → List (ℤ × QubitAddr) → (i count : ℕ) → Engine → Result Engine
unfolding lookup free_resource
free_rest type tracker i zero e = ok e
free_rest type tracker i (suc count) e = do
  addr ← or_fail (lookup (pos i) tracker) shot_not_recorded
  e1 ← free_resource addr.qnic_index addr.qubit_index type e
  free_rest type tracker (i + 1) count e1

-- freeFailedQubits_and_AddAsResource up to the allocation of the resources. The qnic is known by the
-- link, or by the packet if the analyzer is in this node.
unfoldable pub sort_burst :
    QnicType → (qnic_index qnic_address neighbor : ℤ) → List Bool → Station → Result Station
unfolding sort_shots free_rest
sort_burst type qnic_index qnic_address neighbor list_of_failed s = do
  let shots = s.tracker qnic_address
  e1 ← sort_shots type qnic_index neighbor shots 0 list_of_failed s.engine
  e2 ← free_rest type shots (length list_of_failed) (length shots - length list_of_failed) e1
  ok (record s { engine = e2 })

unfoldable pub free_failed_qubits_and_add_as_resource :
    TimingNotifier → (list_of_failed : List Bool) → Station → Result Station
unfolding get_interface_to_neighbor get_interface_to_neighbor_internal sort_burst
free_failed_qubits_and_add_as_resource pk list_of_failed s =
    let outside : Result Station = do
      inf ← get_interface_to_neighbor pk.src_addr s
      sort_burst qnic_e inf.qnic.index inf.qnic.address inf.neighbor_qnode_address list_of_failed s
    in let inside =
        sort_burst qnic_r pk.internal_qnic_index pk.internal_qnic_address
          (get_interface_to_neighbor_internal pk.internal_qnic_address s).neighbor_qnode_address
          list_of_failed s in
      if pk.internal_qnic_index ==ℤ minus_one then outside else inside

-- clearTrackerTable
unfoldable pub clear_tracker_table :
    (dest_addr internal_qnic_address : ℤ) → Station → Result Station
unfolding get_interface_to_neighbor
clear_tracker_table dest_addr internal_qnic_address s =
    let cleared =
      λ (address : ℤ). record s { tracker = λ a. if a ==ℤ address then [] else s.tracker a } in
    let outside : Result Station = do
      inf ← get_interface_to_neighbor dest_addr s
      fail_if (inf.qnic.address ==ℤ minus_one) no_qnic_to_clear
      ok (cleared inf.qnic.address)
    in if internal_qnic_address ==ℤ minus_one then outside else ok (cleared internal_qnic_address)

abbrev burst_address : TimingNotifier → Station → Result ℤ
unfolding get_interface_to_neighbor
burst_address pk s =
    let outside : Result ℤ = do inf ← get_interface_to_neighbor pk.src_addr s; ok inf.qnic.address
    in if pk.internal_qnic_address ==ℤ minus_one then outside else ok pk.internal_qnic_address

-- handleMessage on a CombinedBSAresults, without what the rules then do with the new resources: the
-- results of a burst are sorted, and the next burst starts unless the link is terminated.
unfoldable pub handle_bsa_results :
    TimingNotifier → (list_of_failed : List Bool) → Station → Result (Option Schedule × Station)
unfolding increment_burst_trial free_failed_qubits_and_add_as_resource clear_tracker_table
    schedule_first_photon_emission
handle_bsa_results pk list_of_failed s = do
  s1 ← increment_burst_trial pk.src_addr pk.internal_qnic_address s
  s2 ← free_failed_qubits_and_add_as_resource pk list_of_failed s1
  s3 ← clear_tracker_table pk.src_addr pk.internal_qnic_address s2
  qnic_address ← burst_address pk s3
  (if s3.terminated_qnic qnic_address
      then ok (none, s3)
      else if pk.internal_qnic_index ==ℤ minus_one
      then schedule_first_photon_emission pk qnic_e s3
      else schedule_first_photon_emission pk qnic_r s3)
