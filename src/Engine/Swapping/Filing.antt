-- ===== src/Engine/Swapping/Filing.antt =====
-- What an end does with the result of a swap (quisp/modules/RuleEngine.cc,
-- updateResources_EntanglementSwapping): whatever noise the correction has, the qubit becomes a
-- resource with its new partner.
use quisp.Prelude.{
  ℕ, ℤ, ◌==ℤ◌, ◌==◌, ltb, true, ◌&&◌, if◌then◌else◌, Bool-cases, List, some, ok, insert_multi, ◌≡◌,
  refl, ◌∙◌, inl, inr, arith,
}
use quisp.Network.{QnicId, InterfaceInf, return_setup_inf, return_qnic_address_to_dest_addr}
use quisp.Qubits.{World}
use quisp.Qubits.Symmetry.{partner}
use quisp.Qubits.Gates.{apply_single_qubit_gate_error, x_gate, z_gate}
use quisp.Engine.{Engine, same_type}
use quisp.Engine.Bursts.{check_entangled, add_as_resource}
use quisp.Engine.Swapping.{SwappingResult, apply_operation, update_resources}

x_gate-partner : (i k : ℕ) (w : World) → partner (x_gate i w) k ≡ partner w k
unfolding x_gate apply_single_qubit_gate_error
x_gate-partner i k w = ground arith

z_gate-partner : (i k : ℕ) (w : World) → partner (z_gate i w) k ≡ partner w k
unfolding z_gate apply_single_qubit_gate_error
z_gate-partner i k w = ground arith

apply_operation-partner :
    (n i : ℕ) (w : World)
    → ltb n 3 ≡ true
    → (w' : World) × (apply_operation n i w ≡ ok w') × ((k : ℕ) → partner w' k ≡ partner w k)
unfolding apply_operation
apply_operation-partner n i w h = elim (Bool-cases (n == 0)) [
  | inl e ↦ (w, rw (apply_operation, e) refl, λ k. refl)
  | inr e ↦ elim (Bool-cases (n == 1)) [
    | inl f ↦ (x_gate i w, rw (apply_operation, e, f) refl, λ k. x_gate-partner i k w)
    | inr f ↦
        let g : (n == 2) ≡ true = ground arith in
        (z_gate i w, rw (apply_operation, e, f, g) refl, λ k. z_gate-partner i k w)
  ]
]

check_entangled-pair :
    (q p : ℕ) (w : World)
    → partner w q ≡ some p
    → partner w p ≡ some q
    → check_entangled q w ≡ ok tt
unfolding check_entangled
check_entangled-pair q p w h h' =
    let r : (q == q) ≡ true = ground arith in rw (check_entangled, h, h', r) refl

-- Where the tables lead to a qnic in which the qubit of the result stands, the qubit and its partner
-- point to each other, and the operation is one of the three, the update completes, keeps every
-- pointer, and files the qubit in that qnic under the new partner, which is its only change besides
-- the world.
pub update_resources-files :
    (qrtable : List (ℤ × QnicId)) (ntable : List (ℤ × InterfaceInf)) (swapr : SwappingResult)
    (e : Engine) (inf : QnicId) (q p : ℕ)
    → (return_setup_inf ntable (return_qnic_address_to_dest_addr qrtable swapr.new_partner)).qnic
      ≡ inf
    → e.stat_qubit inf.type inf.index swapr.measured_qubit_index ≡ some q
    → partner e.world q ≡ some p
    → partner e.world p ≡ some q
    → ltb swapr.operation_type 3 ≡ true
    → (w' : World) × (update_resources qrtable ntable swapr e
        ≡ ok (record e {
          world = w';
          all_resources = λ t i.
              if same_type t inf.type && (i ==ℤ inf.index)
              then insert_multi swapr.new_partner q (e.all_resources t i)
              else e.all_resources t i;
        }))
      × ((k : ℕ) → partner w' k ≡ partner e.world k)
unfolding update_resources add_as_resource
update_resources-files qrtable ntable swapr e inf q p hi hq hp hp' ho =
    let (w', run, keeps) = apply_operation-partner swapr.operation_type q e.world ho in
    let checked = check_entangled-pair q p w' (keeps q ∙ hp) (keeps p ∙ hp') in
    (w', rw (update_resources, hi, hq, run, checked) refl, keeps)
