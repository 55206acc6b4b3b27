-- ===== src/Router/Delivery.antt =====
-- A packet on its way through routers (quisp/modules/Router.cc). How the gates are wired is the
-- simulator's topology, a parameter.
use quisp.Prelude.{
  ℕ, zero, suc, ◌+◌, ◌==◌, ℤ, ◌==ℤ◌, ==ℤ_iff, Bool, true, false, if◌then◌else◌, Bool-cases, inl,
  inr, List, some, lookup, Result, ok, err, ◌>>=◌, out_of_fuel, ◌≡◌, refl, sym, ap, ◌∙◌, subst,
  arith,
}
use quisp.Router.{
  PacketClass, Header, Gate, to_app, re_port, cm_port, hm_port, to_queue, local_gate, forward,
  route_packet,
}

-- The routing tables of all nodes, and the node at the other end of a gate.
pub record Wiring : Type 0 where
  pub rtable : ℤ → List (ℤ × ℤ)
  pub neighbor : ℤ → ℤ → ℤ

-- What follows a hop: the next node has the packet, or the packet has arrived.
abbrev onward :
    Wiring
    → ℤ
    → (ℤ → Header → Result (ℤ × Gate × Header))
    → Gate × Header
    → Result (ℤ × Gate × Header)
onward net node rest (to_queue gate, pk) = rest (net.neighbor node gate) pk
onward net node rest (to_app, pk) = ok (node, to_app, pk)
onward net node rest (re_port, pk) = ok (node, re_port, pk)
onward net node rest (cm_port, pk) = ok (node, cm_port, pk)
onward net node rest (hm_port, pk) = ok (node, hm_port, pk)

-- From node to node until a gate within a node is reached, over at most as many nodes as the fuel.
unfoldable pub travel : Wiring → ℕ → ℤ → Header → Result (ℤ × Gate × Header)
unfolding route_packet
travel net zero node pk = err out_of_fuel
travel net (suc fuel) node pk =
    route_packet node (net.rtable node) pk >>= onward net node (travel net fuel)

-- At every node but the destination the table names a gate, and the node behind it is one hop
-- nearer.
unfoldable pub IsRouted : Wiring → ℤ → (ℤ → ℕ) → Type 0
IsRouted net dest distance =
    (node : ℤ)
    → (dest ==ℤ node) ≡ false
    → (gate : ℤ) × (lookup dest (net.rtable node) ≡ some gate)
      × (distance node ≡ distance (net.neighbor node gate) + 1)

-- The gate for a packet that has arrived.
abbrev pub final_gate : Header → Gate → Gate
final_gate pk gate = if pk.kind == 1 then to_app else gate

abbrev pub hopped : ℕ → Header → Header
hopped n pk = record pk { hop_count = pk.hop_count + n }

route_packet-away :
    (node gate : ℤ) (rtable : List (ℤ × ℤ)) (pk : Header)
    → (pk.dest_addr ==ℤ node) ≡ false
    → lookup pk.dest_addr rtable ≡ some gate
    → route_packet node rtable pk ≡ ok (to_queue gate, hopped 1 pk)
unfolding route_packet
route_packet-away node gate rtable pk away h = rw (route_packet, away, forward, h) refl

route_packet-home :
    (node : ℤ) (gate : Gate) (rtable : List (ℤ × ℤ)) (pk : Header)
    → (pk.dest_addr ==ℤ node) ≡ true
    → local_gate pk.class ≡ some gate
    → route_packet node rtable pk ≡ ok (final_gate pk gate, pk)
unfolding route_packet
route_packet-home node gate rtable pk home h = elim (Bool-cases (pk.kind == 1)) [
  | inl e ↦ rw (route_packet, home, e) refl
  | inr e ↦ rw (route_packet, home, e, h) refl
]

local_gate-inner : (c : PacketClass) (g : ℤ) → local_gate c ≡ some (to_queue g) → ⊥
unfolding local_gate
local_gate-inner c g h = ground arith

-- A gate for arrived packets is within the node.
final-onward :
    (net : Wiring) (node : ℤ) (rest : ℤ → Header → Result (ℤ × Gate × Header)) (pk : Header)
    (c : PacketClass) (gate : Gate) (b : Bool)
    → local_gate c ≡ some gate
    → onward net node rest (if b then to_app else gate, pk)
      ≡ ok (node, (if b then to_app else gate), pk)
unfolding local_gate
final-onward net node rest pk c gate true h = refl
final-onward net node rest pk c to_app false h = refl
final-onward net node rest pk c re_port false h = refl
final-onward net node rest pk c cm_port false h = refl
final-onward net node rest pk c hm_port false h = refl
final-onward net node rest pk c (to_queue g) false h = absurd (local_gate-inner c g h)

travel-home :
    (net : Wiring) (fuel : ℕ) (node : ℤ) (pk : Header) (gate : Gate)
    → (pk.dest_addr ==ℤ node) ≡ true
    → local_gate pk.class ≡ some gate
    → travel net (suc fuel) node pk ≡ ok (node, final_gate pk gate, pk)
unfolding travel
travel-home net fuel node pk gate home h =
    ap (λ r. r >>= onward net node (travel net fuel))
      (route_packet-home node gate (net.rtable node) pk home h)
    ∙ final-onward net node (travel net fuel) pk pk.class gate (pk.kind == 1) h

travel-away :
    (net : Wiring) (fuel : ℕ) (node gate : ℤ) (pk : Header)
    → (pk.dest_addr ==ℤ node) ≡ false
    → lookup pk.dest_addr (net.rtable node) ≡ some gate
    → travel net (suc fuel) node pk ≡ travel net fuel (net.neighbor node gate) (hopped 1 pk)
unfolding travel
travel-away net fuel node gate pk away h =
    ap (λ r. r >>= onward net node (travel net fuel))
      (route_packet-away node gate (net.rtable node) pk away h)

-- With routing tables that lead nearer to the destination at every hop, a packet of a class that
-- the nodes know is delivered: it reaches its destination over as many hops as the distance, which
-- its hop count has grown by, and leaves by the gate for its class, or by that to the application if
-- its kind is 1.
pub travel-delivers :
    (net : Wiring) (distance : ℤ → ℕ) (n : ℕ) (node : ℤ) (pk : Header) (gate : Gate)
    → IsRouted net pk.dest_addr distance
    → local_gate pk.class ≡ some gate
    → distance pk.dest_addr ≡ 0
    → distance node ≡ n
    → travel net (n + 1) node pk ≡ ok (pk.dest_addr, final_gate pk gate, hopped n pk)
unfolding IsRouted
travel-delivers net distance zero node pk gate routed h zero_there e =
    elim (Bool-cases (pk.dest_addr ==ℤ node)) [
      | inl home ↦
          let same : pk.dest_addr ≡ node = (==ℤ_iff pk.dest_addr node).0 home in
          let none_more : pk.hop_count ≡ pk.hop_count + 0 = omega arith in
          travel-home net 0 node pk gate home h
          ∙ ap (λ a. ok (a, final_gate pk gate, pk)) (sym same)
          ∙ ap (λ k. ok (pk.dest_addr, final_gate pk gate, record pk { hop_count = k })) none_more
      | inr away ↦ let (g, found, nearer) = routed node away in absurd (omega arith)
    ]
travel-delivers net distance (suc n) node pk gate routed h zero_there e =
    elim (Bool-cases (pk.dest_addr ==ℤ node)) [
      | inl home ↦
          let same : pk.dest_addr ≡ node = (==ℤ_iff pk.dest_addr node).0 home in
          let here : distance node ≡ 0 = subst (λ a. distance a ≡ 0) same zero_there in
          absurd (omega arith)
      | inr away ↦
          let (g, found, nearer) = routed node away in
          let fuel : suc n + 1 ≡ suc (n + 1) = omega arith in
          let hops : pk.hop_count + 1 + n ≡ pk.hop_count + suc n = omega arith in
          ap (λ k. travel net k node pk) fuel
          ∙ travel-away net (n + 1) node g pk away found
          ∙ travel-delivers net distance n (net.neighbor node g) (hopped 1 pk) gate routed h
              zero_there (omega arith)
          ∙ ap (λ k. ok (pk.dest_addr, final_gate pk gate, record pk { hop_count = k })) hops
    ]
