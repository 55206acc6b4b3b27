-- ===== src/Router/Tests.antt =====
-- Three routers in a line, 1 - 2 - 3, whose gate 0 leads to the left and 1 to the right.
use quisp.Prelude.{
  ℕ, ◌+◌, ℤ, pos, negsuc, ◌==ℤ◌, false, if◌then◌else◌, [], ◌∷◌, lookup, ok, ◌≡◌, refl, arith,
}
use quisp.Router.{Header, swapping_result, re_port, local_gate}
use quisp.Router.Delivery.{Wiring, IsRouted, travel, travel-delivers, final_gate, hopped}

abbrev to_3 : Header
to_3 = record { dest_addr = pos 3; kind = 5; class = swapping_result; hop_count = 0 }

-- Every table names a gate for node 3, and its own node is the destination.
abbrev line : Wiring
line = record {
  rtable = λ node. (pos 3, pos 1) ∷ [];
  neighbor = λ node gate. if node ==ℤ pos 1 then pos 2 else pos 3;
}

abbrev hops : ℤ → ℕ
hops node = if node ==ℤ pos 3 then 0 else if node ==ℤ pos 1 then 2 else 1

line_nearer :
    (node : ℤ) → (pos 3 ==ℤ node) ≡ false → hops node ≡ hops (line.neighbor node (pos 1)) + 1
line_nearer (pos n) away = ground arith
line_nearer (negsuc n) away = refl

line-IsRouted : IsRouted line (pos 3) hops
unfolding IsRouted lookup
line-IsRouted node away = (pos 1, refl, line_nearer node away)

travel-delivers_example :
    travel line 3 (pos 1) to_3 ≡ ok (pos 3, final_gate to_3 re_port, hopped 2 to_3)
unfolding local_gate
travel-delivers_example =
    travel-delivers line hops 2 (pos 1) to_3 re_port line-IsRouted refl refl refl
