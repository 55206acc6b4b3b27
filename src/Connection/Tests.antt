-- ===== src/Connection/Tests.antt =====
-- A line of four nodes, 1 - 2 - 3 - 4, as nodes 1, 3 and 4 see it.
use quisp.Prelude.{
  ◌+◌, ◌==ℤ◌, some, lookup, replicate, arith, ℕ, ℤ, pos, minus_one, true, false, List, [], ◌∷◌, ◌≡◌,
  refl, Result, ok, err, map,
}
use quisp.Connection.Path.{Divisions, compute_path_division_size, fill_path_division}
use quisp.Connection.Path.Plan.{Link, compute_path_division_size_lem}
use quisp.Connection.Path.Writes.{HasSize, cells}
use quisp.Connection.Path.Order.{IsDivision, fill_path_division-IsDivision}
use quisp.Connection.Manager.Reservations.{entry, release-reserve}
use quisp.Connection.Manager.Transit.{
  IsReachable, IsHeld, held, source_qnic, dest_qnic, intermediate_reject-intermediate_alloc,
}
use quisp.Connection.Responder.Initiator.{StartsAt, handle_message-initiator}
use quisp.Connection.Responder.Order.{IsAnswer, responder_alloc-IsAnswer}
use quisp.Network.{
  return_setup_inf, return_qnic_address_to_dest_addr, QnicId, InterfaceInf, qnic_e, qnic_n,
}
use quisp.Connection.Manager.{
  reserve_qnic, release_qnic, intermediate_alloc_req_handler, intermediate_reject_req_handler,
  RejectRequest, rejection, extended, Manager, SetupRequest, Packet, setup_request, setup_response,
  Outcome,
}
use quisp.Connection.Responder.{handle_message, responder_alloc_req_handler}

abbrev emitter : ℕ → QnicId
emitter a = record { type = qnic_e; index = pos a; address = pos a }

abbrev link : ℕ → ℕ → InterfaceInf
link q neighbor = record {
  qnic = emitter q;
  neighbor_qnode_address = pos neighbor;
  link_cost = pos 1;
}

abbrev nowhere : QnicId
nowhere = record { type = qnic_n; index = minus_one; address = pos 0 }

abbrev left_end : Manager
left_end = record {
  my_address = pos 1;
  num_of_qnics = 1;
  qnic_res_table = (pos 0, false) ∷ [];
  qrtable = (pos 2, emitter 0) ∷ (pos 3, emitter 0) ∷ (pos 4, emitter 0) ∷ [];
  ntable = (pos 2, link 0 2) ∷ [];
}

abbrev inner : Manager
inner = record {
  my_address = pos 3;
  num_of_qnics = 2;
  qnic_res_table = (pos 0, false) ∷ (pos 1, false) ∷ [];
  qrtable = (pos 1, emitter 0) ∷ (pos 2, emitter 0) ∷ (pos 4, emitter 1) ∷ [];
  ntable = (pos 2, link 0 2) ∷ (pos 4, link 1 4) ∷ [];
}

abbrev right_end : Manager
right_end = record {
  my_address = pos 4;
  num_of_qnics = 1;
  qnic_res_table = (pos 0, false) ∷ [];
  qrtable = (pos 1, emitter 0) ∷ (pos 2, emitter 0) ∷ (pos 3, emitter 0) ∷ [];
  ntable = (pos 3, link 0 3) ∷ [];
}

-- From node 1 to node 4.
abbrev opening : SetupRequest
opening = record {
  dest_addr = pos 1;
  src_addr = pos 1;
  actual_dest_addr = pos 4;
  actual_src_addr = pos 1;
  num_measure = pos 7;
  number_of_required_bellpairs = pos 1;
  stack_of_qnode_indexes = [];
  stack_of_link_costs = [];
  stack_of_qnics = [];
}

abbrev arrived : SetupRequest
arrived = record opening {
  dest_addr = pos 4;
  src_addr = pos 3;
  stack_of_qnode_indexes = pos 1 ∷ pos 2 ∷ pos 3 ∷ [];
  stack_of_link_costs = pos 1 ∷ pos 1 ∷ pos 1 ∷ [];
  stack_of_qnics =
      record { fst = nowhere; snd = emitter 0 }
      ∷ record { fst = emitter 0; snd = emitter 1 }
      ∷ record { fst = emitter 0; snd = emitter 1 }
      ∷ [];
}

abbrev dest_of : Packet → ℤ
dest_of (setup_response p) = p.dest_addr
dest_of _ = minus_one

abbrev partners_of : Packet → List ℤ
partners_of (setup_response p) = p.rule_set.entangled_partner
partners_of _ = []

abbrev summary : Outcome → Result (List ℤ × List (List ℤ))
summary (ok (m, out)) = ok (map dest_of out, map partners_of out)
summary (err e) = err e

-- The responder answers all four nodes; node 3 swaps for 2 and 4, and node 2 for 1 and 4.
responder_runs :
    summary (handle_message (λ i. i) right_end (setup_request arrived))
    ≡ ok (
      pos 1 ∷ pos 2 ∷ pos 3 ∷ pos 4 ∷ [],
      (pos 4 ∷ []) ∷ (pos 1 ∷ pos 4 ∷ []) ∷ (pos 2 ∷ pos 4 ∷ []) ∷ (pos 1 ∷ []) ∷ [],
    )
unfolding handle_message return_setup_inf return_qnic_address_to_dest_addr
responder_runs = refl

abbrev four_nodes : List ℤ
four_nodes = pos 1 ∷ pos 2 ∷ pos 3 ∷ pos 4 ∷ []

abbrev blank : Divisions
blank = record {
  link_left = replicate 5 (pos 0);
  link_right = replicate 5 (pos 0);
  swapper = replicate 5 (pos 0);
}

blank-HasSize : HasSize blank (compute_path_division_size 3)
unfolding compute_path_division_size
blank-HasSize = record { lefts = refl; rights = refl; swappers = refl }

fill_path_division-IsDivision_example :
    (links : List Link) × (fill_path_division four_nodes 0 3 blank 0
      ≡ ok (cells four_nodes links, compute_path_division_size 3))
    × IsDivision 3 links
fill_path_division-IsDivision_example =
    fill_path_division-IsDivision four_nodes 3 blank (omega arith) (omega arith) blank-HasSize

compute_path_division_size_lem_example : compute_path_division_size 3 + 1 ≡ 6
compute_path_division_size_lem_example = compute_path_division_size_lem 3 (omega arith)

abbrev value_of : Outcome → Manager × List Packet
value_of (ok a) = a
value_of (err e) = (right_end, [])

abbrev answered : Manager × List Packet
answered = value_of (responder_alloc_req_handler (λ i. i) right_end arrived)

answered_ok : responder_alloc_req_handler (λ i. i) right_end arrived ≡ ok (answered.0, answered.1)
unfolding responder_alloc_req_handler return_setup_inf return_qnic_address_to_dest_addr
answered_ok = refl

responder_alloc-IsAnswer_example : IsAnswer right_end arrived answered.0 answered.1
responder_alloc-IsAnswer_example =
    responder_alloc-IsAnswer (λ i. i) right_end answered.0 arrived answered.1 refl answered_ok

-- The request as node 3 gets it.
abbrev passing : SetupRequest
passing = record opening {
  dest_addr = pos 3;
  src_addr = pos 2;
  stack_of_qnode_indexes = pos 1 ∷ pos 2 ∷ [];
  stack_of_link_costs = pos 1 ∷ pos 1 ∷ [];
  stack_of_qnics =
      record { fst = nowhere; snd = emitter 0 } ∷ record { fst = emitter 0; snd = emitter 1 } ∷ [];
}

inner-IsReachable : IsReachable inner passing false false
unfolding return_setup_inf return_qnic_address_to_dest_addr lookup
inner-IsReachable = record {
  to_dest = refl;
  to_source = refl;
  source_entry = refl;
  dest_entry = refl;
}

abbrev refusal : RejectRequest
refusal = record {
  kind = 6;
  dest_addr = pos 1;
  src_addr = pos 4;
  actual_dest_addr = pos 4;
  actual_src_addr = pos 1;
  number_of_required_bellpairs = pos 1;
}

inner_distinct : (source_qnic inner passing ==ℤ dest_qnic inner passing) ≡ false
unfolding return_setup_inf return_qnic_address_to_dest_addr lookup
inner_distinct = refl

intermediate_reject-intermediate_alloc_example :
    (intermediate_alloc_req_handler inner passing
      ≡ ok (held inner passing, setup_request (extended inner passing) ∷ []))
    × IsHeld inner passing (held inner passing)
    × (intermediate_reject_req_handler (held inner passing) refusal ≡ ok inner)
intermediate_reject-intermediate_alloc_example =
    intermediate_reject-intermediate_alloc inner passing refusal inner-IsReachable
      (record { not_dest = refl; not_source = refl }) inner_distinct
      (record { same_dest = refl; same_src = refl })

-- Node 3 with the qnic towards node 4 taken.
abbrev taken : Manager
taken = record inner { qnic_res_table = (pos 0, false) ∷ (pos 1, true) ∷ [] }

taken-IsReachable : IsReachable taken passing false true
unfolding return_setup_inf return_qnic_address_to_dest_addr lookup
taken-IsReachable = record {
  to_dest = refl;
  to_source = refl;
  source_entry = refl;
  dest_entry = refl;
}

left_end-StartsAt : StartsAt left_end opening false false
unfolding return_setup_inf return_qnic_address_to_dest_addr lookup
left_end-StartsAt = record {
  is_source = refl;
  not_dest = refl;
  to_dest = refl;
  source_entry = refl;
  dest_entry = refl;
}

handle_message-initiator_example :
    handle_message (λ i. i) left_end (setup_request opening)
    ≡ ok (left_end, rejection left_end opening ∷ [])
handle_message-initiator_example =
    handle_message-initiator (λ i. i) left_end opening false false left_end-StartsAt

reserve_runs : reserve_qnic (pos 1) inner ≡ ok taken
unfolding reserve_qnic
reserve_runs = refl

release-reserve_example :
    (entry (pos 1) taken ≡ some true)
    × ((b : ℤ) → (pos 1 ==ℤ b) ≡ false → entry b taken ≡ entry b inner)
    × (release_qnic (pos 1) taken ≡ ok inner)
release-reserve_example = release-reserve (pos 1) inner taken reserve_runs
