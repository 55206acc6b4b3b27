-- ===== src/Connection/Manager.antt =====
-- quisp/modules/ConnectionManager.{h,cc}: the state of the module, its packets
-- (quisp/classical_messages.msg), the table of reservations, and the handlers of the nodes that
-- forward, reject or store. The responder is in Connection/Responder.antt. A handler returns the
-- new state and the packets sent, in order.
pub mod Reservations
pub mod Transit
use quisp.Prelude.{
  ℕ, zero, suc, ◌+◌, ℤ, pos, minus_one, ◌==ℤ◌, Bool, true, false, not, ◌&&◌, ◌||◌, if◌then◌else◌,
  List, [], ◌∷◌, ◌++◌, Option, none, some, lookup, assign, insert_new, Result, ok, err, ◌>>=◌, ◌>>◌,
  fail_if, address_not_found, qnic_not_free, qnic_not_reserved, no_qnic_to_destination,
  no_qnic_to_source,
}
use quisp.Network.{
  QnicId, QnicIdPair, InterfaceInf, ConnectionSetupInf, return_setup_inf,
  return_qnic_address_to_dest_addr,
}
use quisp.Rules.Types.{RuleSet}

pub record SetupRequest : Type 0 where
  pub dest_addr : ℤ
  pub src_addr : ℤ
  pub actual_dest_addr : ℤ
  pub actual_src_addr : ℤ
  pub num_measure : ℤ
  pub number_of_required_bellpairs : ℤ
  pub stack_of_qnode_indexes : List ℤ
  pub stack_of_link_costs : List ℤ
  pub stack_of_qnics : List QnicIdPair

pub record RejectRequest : Type 0 where
  pub kind : ℕ
  pub dest_addr : ℤ
  pub src_addr : ℤ
  pub actual_dest_addr : ℤ
  pub actual_src_addr : ℤ
  pub number_of_required_bellpairs : ℤ

pub record SetupResponse : Type 0 where
  pub kind : ℕ
  pub dest_addr : ℤ
  pub src_addr : ℤ
  pub actual_src_addr : ℤ
  pub actual_dest_addr : ℤ
  pub ruleset_id : ℕ
  pub rule_set : RuleSet
  pub application_type : ℤ

-- InternalRuleSetForwarding, and with its last field InternalRuleSetForwarding_Application.
pub record Forwarding : Type 0 where
  pub kind : ℕ
  pub dest_addr : ℤ
  pub src_addr : ℤ
  pub ruleset_id : ℕ
  pub rule_set : RuleSet

pub data Packet : Type 0 where
  setup_request : SetupRequest → Packet
  setup_response : SetupResponse → Packet
  reject_request : RejectRequest → Packet
  forwarding : Forwarding → Packet
  forwarding_application : Forwarding → ℤ → Packet

pub record Manager : Type 0 where
  pub my_address : ℤ
  pub num_of_qnics : ℕ
  pub qnic_res_table : List (ℤ × Bool)
  pub qrtable : List (ℤ × QnicId)
  pub ntable : List (ℤ × InterfaceInf)

abbrev pub Outcome : Type 0
Outcome = Result (Manager × List Packet)

-- The loop of `initialize`: it has made `done` entries and makes `n` more.
table_from : (n done : ℕ) → List (ℤ × Bool) → List (ℤ × Bool)
table_from zero done t = t
table_from (suc n) done t = table_from n (done + 1) (insert_new (pos done) false t)

pub initialize : ℤ → ℕ → List (ℤ × QnicId) → List (ℤ × InterfaceInf) → Manager
unfolding table_from insert_new
initialize address n qrtable ntable = record {
  my_address = address;
  num_of_qnics = n;
  qnic_res_table = table_from n 0 [];
  qrtable = qrtable;
  ntable = ntable;
}

-- routing_daemon->return_QNIC_address_to_destAddr and hardware_monitor->return_setupInf
abbrev pub route : Manager → ℤ → ℤ
route m dest = return_qnic_address_to_dest_addr m.qrtable dest

abbrev pub setup_inf : Manager → ℤ → ConnectionSetupInf
setup_inf m address = return_setup_inf m.ntable address

-- The qnic that leads to a node.
abbrev pub qnic_towards : Manager → ℤ → QnicId
qnic_towards m dest = (setup_inf m (route m dest)).qnic

unfoldable pub is_qnic_busy : Manager → ℤ → Result Bool
unfolding lookup
is_qnic_busy m a = elim (lookup a m.qnic_res_table) [ none ↦ err address_not_found | some b ↦ ok b ]

unfoldable pub reserve_qnic : ℤ → Manager → Result Manager
unfolding lookup assign
reserve_qnic a m = elim (lookup a m.qnic_res_table) [
  | none ↦ err qnic_not_free
  | some b ↦
      if not b
      then ok (record m { qnic_res_table = assign a true m.qnic_res_table })
      else err qnic_not_free
]

unfoldable pub release_qnic : ℤ → Manager → Result Manager
unfolding lookup assign
release_qnic a m = elim (lookup a m.qnic_res_table) [
  | none ↦ err qnic_not_reserved
  | some b ↦
      if b
      then ok (record m { qnic_res_table = assign a false m.qnic_res_table })
      else err qnic_not_reserved
]

abbrev pub rejection : Manager → SetupRequest → Packet
rejection m pk = reject_request (record {
  kind = 6;
  dest_addr = pk.actual_src_addr;
  src_addr = m.my_address;
  actual_dest_addr = pk.actual_dest_addr;
  actual_src_addr = pk.actual_src_addr;
  number_of_required_bellpairs = pk.number_of_required_bellpairs;
})

-- The request as it goes on to the next node.
abbrev pub extended : Manager → SetupRequest → SetupRequest
extended m pk =
    let dst_inf = setup_inf m (route m pk.actual_dest_addr) in
    let src_inf = setup_inf m (route m pk.actual_src_addr) in
    record pk {
      dest_addr = dst_inf.neighbor_address;
      src_addr = m.my_address;
      stack_of_qnode_indexes = pk.stack_of_qnode_indexes ++ m.my_address ∷ [];
      stack_of_link_costs = pk.stack_of_link_costs ++ dst_inf.quantum_link_cost ∷ [];
      stack_of_qnics = pk.stack_of_qnics ++ record { fst = src_inf.qnic; snd = dst_inf.qnic } ∷ [];
    }

-- `if (actual_src != myAddress)` both qnics are reserved.
unfoldable pub reserve_for_transit : Manager → SetupRequest → Result Manager
unfolding reserve_qnic
reserve_for_transit m pk =
    if not (pk.actual_src_addr ==ℤ m.my_address)
    then (reserve_qnic (qnic_towards m pk.actual_src_addr).address m
        >>= reserve_qnic (qnic_towards m pk.actual_dest_addr).address)
    else ok m

unfoldable pub intermediate_alloc_req_handler : Manager → SetupRequest → Outcome
unfolding is_qnic_busy reserve_for_transit
intermediate_alloc_req_handler m pk = do
  fail_if (route m pk.actual_dest_addr ==ℤ minus_one) no_qnic_to_destination
  fail_if (not (m.my_address ==ℤ pk.actual_src_addr) && route m pk.actual_src_addr ==ℤ minus_one)
      no_qnic_to_source
  is_reserved_src ← is_qnic_busy m (qnic_towards m pk.actual_src_addr).address
  is_reserved_dst ← is_qnic_busy m (qnic_towards m pk.actual_dest_addr).address
  let go_on = reserve_for_transit m pk >>= λ m'. ok (m', setup_request (extended m pk) ∷ [])
  if not is_reserved_src && not is_reserved_dst then go_on else ok (m, rejection m pk ∷ [])

unfoldable pub intermediate_reject_req_handler : Manager → RejectRequest → Result Manager
unfolding release_qnic
intermediate_reject_req_handler m pk =
    let dst = (qnic_towards m pk.actual_dest_addr).address in
    let src = (qnic_towards m pk.actual_src_addr).address in
    let is_dst = m.my_address ==ℤ pk.actual_dest_addr in
    let is_src = m.my_address ==ℤ pk.actual_src_addr in
    if not is_dst && not is_src
    then (release_qnic dst m >>= release_qnic src)
    else ((if is_dst then release_qnic src m else ok m) >>= λ m'.
        if is_src then release_qnic dst m' else ok m')

unfoldable pub store_rule_set : SetupResponse → Packet
store_rule_set pk = forwarding (record {
  kind = 4;
  dest_addr = pk.dest_addr;
  src_addr = pk.dest_addr;
  ruleset_id = pk.ruleset_id;
  rule_set = pk.rule_set;
})

unfoldable pub store_rule_set_for_application : SetupResponse → Packet
store_rule_set_for_application pk =
    forwarding_application
      (record {
        kind = 4;
        dest_addr = pk.dest_addr;
        src_addr = pk.dest_addr;
        ruleset_id = pk.ruleset_id;
        rule_set = pk.rule_set;
      })
      pk.application_type
