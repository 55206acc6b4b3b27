-- ===== src/Router.antt =====
-- quisp/modules/Router.cc: which way a packet goes. Of a packet the router reads the destination,
-- the kind and the class, and it counts its hops. The routing table is a map from addresses to gates.
pub mod Delivery
mod Tests
use quisp.Prelude.{
  ℕ, ◌+◌, ◌==◌, ◌<◌, ◌≤◌, ℤ, pos, ◌==ℤ◌, ==ℤ_iff, Bool, true, false, ◌&&◌, if◌then◌else◌,
  Bool-cases, inl, inr, List, [], ◌∷◌, Option, Option-cases, none, some, lookup, Result, ok, err,
  unreachable, bind_ok, ok_injective, err_not_ok, ◌≡◌, refl, sym, ap, ◌∙◌, subst, arith,
}

-- The classes that handleMessage asks for, and one for all others. CombinedBSAresults is a
-- BSMtimingNotifier.
pub data PacketClass : Type 0 where
  bsm_timing_notifier epps_timing_notifier connection_setup_request : PacketClass
  connection_setup_response reject_connection_setup_request : PacketClass
  internal_rule_set_forwarding internal_rule_set_forwarding_application swapping_result :
      PacketClass
  link_tomography_request link_tomography_ack link_tomography_rule_set : PacketClass
  link_tomography_result purification_result double_purification_result : PacketClass
  ds_double_purification_result ds_double_purification_second_result stop_emitting : PacketClass
  other : PacketClass

pub record Header : Type 0 where
  pub dest_addr : ℤ
  pub kind : ℕ
  pub class : PacketClass
  pub hop_count : ℕ

-- The gates of the router: those to the modules of the node, and those to the queues.
pub data Gate : Type 0 where
  to_app re_port cm_port hm_port : Gate
  to_queue : ℤ → Gate

-- The gate for a class of packets that have arrived.
unfoldable pub local_gate : PacketClass → Option Gate
local_gate bsm_timing_notifier = some re_port
local_gate epps_timing_notifier = some re_port
local_gate connection_setup_request = some cm_port
local_gate connection_setup_response = some cm_port
local_gate reject_connection_setup_request = some cm_port
local_gate internal_rule_set_forwarding = some re_port
local_gate internal_rule_set_forwarding_application = some re_port
local_gate swapping_result = some re_port
local_gate link_tomography_request = some hm_port
local_gate link_tomography_ack = some hm_port
local_gate link_tomography_rule_set = some re_port
local_gate link_tomography_result = some hm_port
local_gate purification_result = some re_port
local_gate double_purification_result = some re_port
local_gate ds_double_purification_result = some re_port
local_gate ds_double_purification_second_result = some re_port
local_gate stop_emitting = some re_port
local_gate other = none

-- The part behind the tests of the class.
unfoldable pub forward : List (ℤ × ℤ) → Header → Result (Gate × Header)
unfolding lookup
forward rtable pk = elim (lookup pk.dest_addr rtable) [
  | none ↦ err unreachable
  | some gate ↦ ok (to_queue gate, record pk { hop_count = pk.hop_count + 1 })
]

-- handleMessage
unfoldable pub route_packet : ℤ → List (ℤ × ℤ) → Header → Result (Gate × Header)
unfolding local_gate forward
route_packet my_address rtable pk =
    let away = forward rtable pk in
    let arrived : Result (Gate × Header) = elim (local_gate pk.class) [
      | none ↦ away
      | some gate ↦ ok (gate, pk)
    ] in
    if pk.dest_addr ==ℤ my_address
    then (if pk.kind == 1 then ok (to_app, pk) else arrived)
    else away
