-- ===== src/Connection/Responder/Initiator.antt =====
-- What handleMessage (quisp/modules/ConnectionManager.cc) does with a request at the node that
-- wants the connection.
use quisp.Prelude.{
  ℕ, ℤ, ◌==ℤ◌, minus_one, Bool, true, false, if◌then◌else◌, [], ◌∷◌, some, ok, ◌≡◌, refl, arith,
}
use quisp.Connection.Manager.{
  Manager, SetupRequest, intermediate_alloc_req_handler, route, rejection, setup_request,
}
use quisp.Connection.Manager.Reservations.{entry}
use quisp.Connection.Manager.Transit.{source_qnic, dest_qnic, is_qnic_busy-entry}
use quisp.Connection.Responder.{handle_message, handle_request}

-- The request starts here: there is a route to its destination, and the qnics that the handlers
-- look at are entries of the table. Towards the node itself there need not be a route.
pub record StartsAt (m : Manager) (pk : SetupRequest) (src dst : Bool) : Type 0 where
  pub is_source : (pk.actual_src_addr ==ℤ m.my_address) ≡ true
  pub not_dest : (pk.actual_dest_addr ==ℤ m.my_address) ≡ false
  pub to_dest : (route m pk.actual_dest_addr ==ℤ minus_one) ≡ false
  pub source_entry : entry (source_qnic m pk) m ≡ some src
  pub dest_entry : entry (dest_qnic m pk) m ≡ some dst

==ℤ_swap : (a b : ℤ) → (a ==ℤ b) ≡ true → (b ==ℤ a) ≡ true
==ℤ_swap a b h = ground arith

alloc-initiator_busy :
    (m : Manager) (pk : SetupRequest) (src : Bool)
    → StartsAt m pk src true
    → intermediate_alloc_req_handler m pk ≡ ok (m, rejection m pk ∷ [])
unfolding intermediate_alloc_req_handler
alloc-initiator_busy m pk true h =
    rw
      (
        intermediate_alloc_req_handler,
        h.to_dest,
        ==ℤ_swap pk.actual_src_addr m.my_address h.is_source,
        is_qnic_busy-entry m (source_qnic m pk) true h.source_entry,
        is_qnic_busy-entry m (dest_qnic m pk) true h.dest_entry,
      )
      refl
alloc-initiator_busy m pk false h =
    rw
      (
        intermediate_alloc_req_handler,
        h.to_dest,
        ==ℤ_swap pk.actual_src_addr m.my_address h.is_source,
        is_qnic_busy-entry m (source_qnic m pk) false h.source_entry,
        is_qnic_busy-entry m (dest_qnic m pk) true h.dest_entry,
      )
      refl

handle_request_own :
    (m : Manager) (pk : SetupRequest) (busy : Bool)
    → entry (dest_qnic m pk) m ≡ some busy
    → (pk.actual_src_addr ==ℤ m.my_address) ≡ true
    → handle_request m pk
      ≡ (if busy then intermediate_alloc_req_handler m pk else ok (m, rejection m pk ∷ []))
unfolding handle_request
handle_request_own m pk busy h e =
    rw (handle_request, is_qnic_busy-entry m (dest_qnic m pk) busy h, e) refl

handle_request-initiator :
    (m : Manager) (pk : SetupRequest) (src dst : Bool)
    → StartsAt m pk src dst
    → handle_request m pk ≡ ok (m, rejection m pk ∷ [])
handle_request-initiator m pk src true h =
    rw (handle_request_own m pk true h.dest_entry h.is_source) (alloc-initiator_busy m pk src h)
handle_request-initiator m pk src false h =
    rw (handle_request_own m pk false h.dest_entry h.is_source) refl

-- A request at the node that wants the connection, with a route to another node as its destination
-- and with the qnics that are looked at in the table, is rejected whether these qnics are taken or
-- free: nothing is sent on and nothing is reserved.
pub handle_message-initiator :
    (unique_id : ℕ → ℕ) (m : Manager) (pk : SetupRequest) (src dst : Bool)
    → StartsAt m pk src dst
    → handle_message unique_id m (setup_request pk) ≡ ok (m, rejection m pk ∷ [])
unfolding handle_message
handle_message-initiator unique_id m pk src dst h =
    rw (handle_message, h.not_dest) (handle_request-initiator m pk src dst h)
