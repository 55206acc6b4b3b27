-- ===== src/Connection/Responder.antt =====
-- quisp/modules/ConnectionManager.cc: responder_alloc_req_handler, which makes a rule set for every
-- node of the path, and handleMessage. createUniqueId hashes the time and a random number; the id
-- of the rule set for the i-th node of the path is an argument, `unique_id i`.
pub mod Initiator
pub mod Order
use quisp.Prelude.{
  ℕ, zero, suc, ◌+◌, ◌-◌, ℤ, pos, negsuc, minus_one, ◌==ℤ◌, ltb_ℤ, ltb, ◌==◌, Bool, true, false,
  not, ◌&&◌, ◌||◌, if◌then◌else◌, List, [], ◌∷◌, ◌++◌, length, replicate, Option, none, some,
  insert_new, Result, ok, err, ◌>>=◌, ◌>>◌, fail_if, path_division_failed, route_to_self,
  no_route_to_source, endpoint_qnic_index,
}
use quisp.Network.{QnicIdPair}
use quisp.Rules.Types.{RuleSet}
use quisp.Connection.Path.{Divisions, at, compute_path_division_size, fill_path_division}
use quisp.Connection.RuleSets.{
  index_of, qnic_at, entanglement_swapping_config, generate_entanglement_swapping_rule_set,
  generate_tomography_rule_set,
}
use quisp.Connection.Manager.{
  Manager, Packet, Outcome, SetupRequest, SetupResponse, setup_request, setup_response,
  reject_request, forwarding, forwarding_application, route, qnic_towards, is_qnic_busy,
  reserve_qnic, rejection, intermediate_alloc_req_handler, intermediate_reject_req_handler,
  store_rule_set, store_rule_set_for_application,
}

-- The two loops over the divisions. A swapper is an address above 0.
unfoldable pub swapping_partners_of :
    (left right swapper : List ℤ) → List (ℤ × List ℤ) → List (ℤ × List ℤ)
unfolding insert_new
swapping_partners_of (l ∷ ls) (r ∷ rs) (s ∷ ss) m =
    swapping_partners_of ls rs ss (if ltb_ℤ (pos 0) s then insert_new s (l ∷ r ∷ []) m else m)
swapping_partners_of _ _ _ m = m

unfoldable pub swappers_of : List ℤ → List ℤ
swappers_of [] = []
swappers_of (s ∷ ss) = if ltb_ℤ (pos 0) s then s ∷ swappers_of ss else swappers_of ss

-- What the loop over the path reads.
pub record Plan : Type 0 where
  pub my_address : ℤ
  pub path : List ℤ
  pub qnics : List QnicIdPair
  pub swapping_partners : List (ℤ × List ℤ)
  pub swappers : List ℤ
  pub num_resource : ℤ
  pub num_measure : ℤ
  pub unique_id : ℕ → ℕ

-- A response to a node, addressed as coming from the responder.
abbrev pub respond : Plan → ℤ → RuleSet → Result SetupResponse
respond p node rule_set = do
  first ← at p.path 0
  last ← at p.path (length p.path - 1)
  ok (record {
    kind = 2;
    dest_addr = node;
    src_addr = p.my_address;
    actual_src_addr = first;
    actual_dest_addr = last;
    ruleset_id = 0;
    rule_set = rule_set;
    application_type = pos 0;
  })

-- The rule set of an end node: the initiator's at position 0, and otherwise the responder's.
unfoldable pub end_rule_set : Plan → ℕ → ℤ → Result RuleSet
unfolding generate_tomography_rule_set
end_rule_set p i node =
    let initiator = do
      partner ← at p.path (length p.path - 1)
      q ← qnic_at p.qnics (length p.qnics - 1)
      ok (
          generate_tomography_rule_set (p.unique_id i) node partner p.num_measure q.fst.type
            q.fst.index p.num_resource)
    in let responder = do
      partner ← at p.path 0
      q ← qnic_at p.qnics 0
      ok (
          generate_tomography_rule_set (p.unique_id i) node partner p.num_measure q.snd.type
            q.snd.index p.num_resource)
      in if i == 0 then initiator else responder

-- One round of the loop over the path.
unfoldable pub response_at : Plan → ℕ → Result SetupResponse
unfolding index_of entanglement_swapping_config generate_entanglement_swapping_rule_set end_rule_set
response_at p i = do
  node ← at p.path i
  let as_swapper = do
    config ← entanglement_swapping_config node p.path p.swapping_partners p.qnics p.num_resource
    respond p node (generate_entanglement_swapping_rule_set (p.unique_id i) node config)
  let as_end = do rule_set ← end_rule_set p i node; respond p node rule_set
  if index_of node p.swappers == length p.swappers then as_end else as_swapper

-- The loop: `rounds` rounds, the first at position `i`.
unfoldable pub responses : Plan → (rounds i : ℕ) → Result (List Packet)
unfolding response_at
responses p zero i = ok []
responses p (suc rounds) i = do
  pkr ← response_at p i
  rest ← responses p rounds (i + 1)
  ok (setup_response pkr ∷ rest)

abbrev path_of : Manager → SetupRequest → List ℤ
path_of m pk = pk.stack_of_qnode_indexes ++ m.my_address ∷ []

abbrev qnics_of : Manager → SetupRequest → List QnicIdPair
qnics_of m pk =
    pk.stack_of_qnics
    ++ record { fst = qnic_towards m pk.actual_src_addr; snd = qnic_towards m pk.actual_dest_addr }
      ∷ []

-- The division of the path, and the checks of the routes and of the qnics at the ends.
unfoldable pub checked_divisions : Manager → SetupRequest → Result Divisions
unfolding compute_path_division_size fill_path_division
checked_divisions m pk = do
  let hop_count = length pk.stack_of_qnode_indexes
  let divisions = compute_path_division_size hop_count
  let array = replicate divisions (pos 0)
  (d, filled) ←
      fill_path_division (path_of m pk) 0 hop_count
        (record { link_left = array; link_right = array; swapper = array }) 0
  fail_if (ltb filled divisions) path_division_failed
  fail_if (not (route m pk.actual_dest_addr ==ℤ minus_one)) route_to_self
  fail_if (route m pk.actual_src_addr ==ℤ minus_one) no_route_to_source
  first ← qnic_at (qnics_of m pk) 0
  last ← qnic_at (qnics_of m pk) (length (qnics_of m pk) - 1)
  fail_if (not (first.fst.index ==ℤ minus_one) || not (last.snd.index ==ℤ minus_one))
      endpoint_qnic_index
  ok d

-- The part under `if (!isReserved_src && !isReserved_dst)`, up to the loop.
unfoldable pub plan_of : (ℕ → ℕ) → Manager → SetupRequest → Result Plan
unfolding checked_divisions swapping_partners_of swappers_of
plan_of unique_id m pk = do
  d ← checked_divisions m pk
  ok (record {
    my_address = m.my_address;
    path = path_of m pk;
    qnics = qnics_of m pk;
    swapping_partners = swapping_partners_of d.link_left d.link_right d.swapper [];
    swappers = swappers_of d.swapper;
    num_resource = pk.number_of_required_bellpairs;
    num_measure = pk.num_measure;
    unique_id = unique_id;
  })

unfoldable pub responder_alloc_req_handler : (ℕ → ℕ) → Manager → SetupRequest → Outcome
unfolding is_qnic_busy plan_of responses reserve_qnic
responder_alloc_req_handler unique_id m pk = do
  is_reserved_src ← is_qnic_busy m (qnic_towards m pk.actual_src_addr).address
  is_reserved_dst ← is_qnic_busy m (qnic_towards m pk.actual_dest_addr).address
  let accept = do
    p ← plan_of unique_id m pk
    out ← responses p (length pk.stack_of_qnode_indexes + 1) 0
    m' ← reserve_qnic (qnic_towards m pk.actual_src_addr).address m
    m'' ←
        (if not (pk.actual_dest_addr ==ℤ m.my_address)
          then reserve_qnic (qnic_towards m pk.actual_dest_addr).address m'
          else ok m')
    ok (m'', out)
  if not is_reserved_src && not is_reserved_dst then accept else ok (m, rejection m pk ∷ [])

-- The request at a node that is not its destination. `is_qnic_available` is what the source calls
-- the answer of isQnicBusy.
unfoldable pub handle_request : Manager → SetupRequest → Outcome
unfolding is_qnic_busy intermediate_alloc_req_handler
handle_request m pk = do
  is_qnic_available ← is_qnic_busy m (qnic_towards m pk.actual_dest_addr).address
  let relay = intermediate_alloc_req_handler m pk
  if pk.actual_src_addr ==ℤ m.my_address
      then (if is_qnic_available then relay else ok (m, rejection m pk ∷ []))
      else relay

unfoldable pub handle_message : (ℕ → ℕ) → Manager → Packet → Outcome
unfolding responder_alloc_req_handler handle_request store_rule_set store_rule_set_for_application
    intermediate_reject_req_handler
handle_message unique_id m (setup_request pk) =
    if pk.actual_dest_addr ==ℤ m.my_address
    then responder_alloc_req_handler unique_id m pk
    else handle_request m pk
handle_message unique_id m (setup_response pk) = ok (
  m,
  (if pk.actual_dest_addr ==ℤ m.my_address || pk.actual_src_addr ==ℤ m.my_address
        then store_rule_set_for_application pk
        else store_rule_set pk)
      ∷ [],
)
handle_message unique_id m (reject_request pk) =
    if not (pk.actual_src_addr ==ℤ m.my_address)
    then (intermediate_reject_req_handler m pk >>= λ m'. ok (m', []))
    else ok (m, [])
handle_message unique_id m _ = ok (m, [])
