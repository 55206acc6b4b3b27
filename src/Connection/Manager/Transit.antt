-- ===== src/Connection/Manager/Transit.antt =====
-- What a node between the two ends does with a request and with a rejection
-- (quisp/modules/ConnectionManager.cc, intermediate_alloc_req_handler and
-- intermediate_reject_req_handler).
use quisp.Prelude.{
  ℤ, ◌==ℤ◌, minus_one, Bool, true, false, not, ◌&&◌, ◌∙◌, if◌then◌else◌, [], ◌∷◌, some, ok, ◌>>=◌,
  ◌≡◌, refl,
}
use quisp.Connection.Manager.{
  Manager, SetupRequest, RejectRequest, reserve_qnic, release_qnic, is_qnic_busy,
  reserve_for_transit, intermediate_alloc_req_handler, intermediate_reject_req_handler,
  qnic_towards, route, rejection, extended, setup_request,
}
use quisp.Connection.Manager.Reservations.{
  reserve_free, ==ℤ_sym, entry, marked, release-reserve, release-reserve-pair,
}

-- The qnics of a request at a node: towards the initiator, and towards the responder.
abbrev pub source_qnic : Manager → SetupRequest → ℤ
source_qnic m pk = (qnic_towards m pk.actual_src_addr).address

abbrev pub dest_qnic : Manager → SetupRequest → ℤ
dest_qnic m pk = (qnic_towards m pk.actual_dest_addr).address

-- The node has a route to both ends, and its qnics are entries of the table.
pub record IsReachable (m : Manager) (pk : SetupRequest) (src dst : Bool) : Type 0 where
  pub to_dest : (route m pk.actual_dest_addr ==ℤ minus_one) ≡ false
  pub to_source : (route m pk.actual_src_addr ==ℤ minus_one) ≡ false
  pub source_entry : entry (source_qnic m pk) m ≡ some src
  pub dest_entry : entry (dest_qnic m pk) m ≡ some dst

pub is_qnic_busy-entry :
    (m : Manager) (a : ℤ) (b : Bool) → entry a m ≡ some b → is_qnic_busy m a ≡ ok b
unfolding is_qnic_busy
is_qnic_busy-entry m a b h = rw (is_qnic_busy, h) refl

and_false : (b : Bool) → (b && false) ≡ false
and_false true = refl
and_false false = refl

alloc_reachable :
    (m : Manager) (pk : SetupRequest) (src dst : Bool)
    → IsReachable m pk src dst
    → intermediate_alloc_req_handler m pk ≡ (
        if not src && not dst
        then (reserve_for_transit m pk >>= λ m'. ok (m', setup_request (extended m pk) ∷ []))
        else ok (m, rejection m pk ∷ []))
unfolding intermediate_alloc_req_handler
alloc_reachable m pk src dst h =
    rw
      (
        intermediate_alloc_req_handler,
        h.to_dest,
        h.to_source,
        is_qnic_busy-entry m (source_qnic m pk) src h.source_entry,
        is_qnic_busy-entry m (dest_qnic m pk) dst h.dest_entry,
        and_false (not (m.my_address ==ℤ pk.actual_src_addr)),
      )
      refl

-- What is left after a node has sent a request on: both qnics are held, and no other entry differs.
pub record IsHeld (m : Manager) (pk : SetupRequest) (m' : Manager) : Type 0 where
  pub source_held : entry (source_qnic m pk) m' ≡ some true
  pub dest_held : entry (dest_qnic m pk) m' ≡ some true
  pub others :
      (c : ℤ)
      → (source_qnic m pk ==ℤ c) ≡ false
      → (dest_qnic m pk ==ℤ c) ≡ false
      → entry c m' ≡ entry c m

reserve_for_transit_inner :
    (m : Manager) (pk : SetupRequest)
    → (pk.actual_src_addr ==ℤ m.my_address) ≡ false
    → reserve_for_transit m pk
      ≡ (reserve_qnic (source_qnic m pk) m >>= reserve_qnic (dest_qnic m pk))
unfolding reserve_for_transit
reserve_for_transit_inner m pk h = rw (reserve_for_transit, h) refl

-- The state after both reservations.
abbrev pub held : Manager → SetupRequest → Manager
held m pk = marked true (dest_qnic m pk) (marked true (source_qnic m pk) m)

reserve_both :
    (m : Manager) (pk : SetupRequest)
    → IsReachable m pk false false
    → (source_qnic m pk ==ℤ dest_qnic m pk) ≡ false
    → ((reserve_qnic (source_qnic m pk) m >>= reserve_qnic (dest_qnic m pk)) ≡ ok (held m pk))
      × IsHeld m pk (held m pk)
reserve_both m pk h ne =
    let a = source_qnic m pk in
    let b = dest_qnic m pk in
    let m1 = marked true a m in
    let e1 : reserve_qnic a m ≡ ok m1 = reserve_free a m h.source_entry in
    let first = release-reserve a m m1 e1 in
    let e2 : reserve_qnic b m1 ≡ ok (held m pk) = reserve_free b m1 (first.1 b ne ∙ h.dest_entry) in
    let second = release-reserve b m1 (held m pk) e2 in
    (
      rw e1 e2,
      record {
        source_held = second.1 a (==ℤ_sym a b ne) ∙ first.0;
        dest_held = second.0;
        others = λ c na nb. second.1 c nb ∙ first.1 c na;
      },
    )

-- The rejection is about the connection of the request.
pub record IsAbout (rej : RejectRequest) (pk : SetupRequest) : Type 0 where
  pub same_dest : rej.actual_dest_addr ≡ pk.actual_dest_addr
  pub same_src : rej.actual_src_addr ≡ pk.actual_src_addr

-- A node that is no end of the connection.
pub record IsInner (m : Manager) (pk : SetupRequest) : Type 0 where
  pub not_dest : (m.my_address ==ℤ pk.actual_dest_addr) ≡ false
  pub not_source : (m.my_address ==ℤ pk.actual_src_addr) ≡ false

reject_inner :
    (m : Manager) (pk : SetupRequest) (rej : RejectRequest)
    → IsInner m pk
    → IsAbout rej pk
    → intermediate_reject_req_handler m rej
      ≡ (release_qnic (dest_qnic m pk) m >>= release_qnic (source_qnic m pk))
unfolding intermediate_reject_req_handler
reject_inner m pk rej h r =
    rw (intermediate_reject_req_handler, r.same_dest, r.same_src, h.not_dest, h.not_source) refl

-- At a node between the ends, with routes to both and with both its qnics free and distinct, a
-- request is sent on, extended by this node; afterwards exactly these two qnics are newly held, and
-- a rejection of the same connection brings back the state from before the request.
pub intermediate_reject-intermediate_alloc :
    (m : Manager) (pk : SetupRequest) (rej : RejectRequest)
    → IsReachable m pk false false
    → IsInner m pk
    → (source_qnic m pk ==ℤ dest_qnic m pk) ≡ false
    → IsAbout rej pk
    → (intermediate_alloc_req_handler m pk ≡ ok (held m pk, setup_request (extended m pk) ∷ []))
      × IsHeld m pk (held m pk)
      × (intermediate_reject_req_handler (held m pk) rej ≡ ok m)
intermediate_reject-intermediate_alloc m pk rej h inner ne r =
    let both = reserve_both m pk h ne in
    let not_source = ==ℤ_sym m.my_address pk.actual_src_addr inner.not_source in
    let alloc : intermediate_alloc_req_handler m pk
        ≡ ok (held m pk, setup_request (extended m pk) ∷ []) =
      rw (alloc_reachable m pk false false h, reserve_for_transit_inner m pk not_source, both.0)
        refl in
    let inner' : IsInner (held m pk) pk = record {
      not_dest = inner.not_dest;
      not_source = inner.not_source;
    } in
    (
      alloc,
      both.1,
      rw (reject_inner (held m pk) pk rej inner' r)
          (release-reserve-pair (source_qnic m pk) (dest_qnic m pk) m (held m pk) both.0),
    )
