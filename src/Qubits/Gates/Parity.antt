-- ===== src/Qubits/Gates/Parity.antt =====
-- What a purification measures when no gate and no memory is noisy
-- (quisp/modules/stationaryQubit.cc, Xpurify and Zpurify).
use quisp.Prelude.{
  ℕ, ◌==◌, Bool, true, false, not, ◌&&◌, if◌then◌else◌, ok, ◌≡◌, refl, ap, ◌∙◌, arith,
}
use quisp.Qubits.{GateError, Qubit, World, update}
use quisp.Qubits.Memory.{apply_memory_error, is_none, is_not_set}
use quisp.Qubits.Gates.{
  add_x_error, add_z_error, exchanged, apply_single_qubit_gate_error, apply_two_qubit_gate_error,
  measure_z, hadamard_gate, cnot_gate, xpurify, zpurify,
}

infix 45 ◌xor◌
abbrev pub ◌xor◌ : Bool → Bool → Bool
true xor b = not b
false xor b = b

-- No noise: the error rates are 0, and the state of the qubit is known.
pub record IsQuiet (q : Qubit) : Type 0 where
  pub memory : q.memory_error_rate ≡ 0
  pub hgate : q.hgate_error.pauli_error_rate ≡ 0
  pub cnot : q.cnot_gate_error.pauli_error_rate ≡ 0
  pub measurement : q.measurement_error.pauli_error_rate ≡ 0
  pub known :
      (is_none q.entangled_partner
        && is_not_set q.density
        && not q.no_density_matrix_nullptr_entangled_partner_ok)
      ≡ false

apply_memory_error_quiet :
    (self i : ℕ) (w : World) → IsQuiet (w.qubits i) → apply_memory_error self i w ≡ ok w
unfolding apply_memory_error
apply_memory_error_quiet self i w h = rw (apply_memory_error, h.known, h.memory) refl

-- The gate without its noise.
abbrev pub ideal_cnot : ℕ → ℕ → World → World
ideal_cnot target control w =
    let w2 = if (w.qubits control).god_x_error then add_x_error target w else w in
    if (w2.qubits target).god_z_error then add_z_error control w2 else w2

two_quiet :
    (a b : ℕ) (w : World)
    → (w.qubits a).cnot_gate_error.pauli_error_rate ≡ 0
    → apply_two_qubit_gate_error (w.qubits a).cnot_gate_error a b w ≡ w
unfolding apply_two_qubit_gate_error
two_quiet a b w h = rw (apply_two_qubit_gate_error, h) refl

pub cnot_quiet :
    (a b : ℕ) (w : World)
    → (w.qubits a).cnot_gate_error.pauli_error_rate ≡ 0
    → cnot_gate a b w ≡ ideal_cnot a b w
unfolding cnot_gate
cnot_quiet a b w h =
    ap
      (λ v.
        let w2 = if (v.qubits b).god_x_error then add_x_error a v else v in
        if (w2.qubits a).god_z_error then add_z_error b w2 else w2)
      (two_quiet a b w h)

pub ==_refl : (a : ℕ) → (a == a) ≡ true
==_refl a = ground arith

-- What the gate does to the errors of its two qubits.
pub record IsCnot (t c : ℕ) (w w' : World) : Type 0 where
  pub target_x : (w'.qubits t).god_x_error ≡ (w.qubits t).god_x_error xor (w.qubits c).god_x_error
  pub target_z : (w'.qubits t).god_z_error ≡ (w.qubits t).god_z_error
  pub control_x : (w'.qubits c).god_x_error ≡ (w.qubits c).god_x_error
  pub control_z : (w'.qubits c).god_z_error ≡ (w.qubits c).god_z_error xor (w.qubits t).god_z_error
  pub target_noise : (w'.qubits t).measurement_error ≡ (w.qubits t).measurement_error
  pub control_noise : (w'.qubits c).measurement_error ≡ (w.qubits c).measurement_error
  pub control_hgate : (w'.qubits c).hgate_error ≡ (w.qubits c).hgate_error

pub ideal_cnot-IsCnot :
    (t c : ℕ) (w : World) → (t == c) ≡ false → (c == t) ≡ false → IsCnot t c w (ideal_cnot t c w)
ideal_cnot-IsCnot t c w n n' = record {
  target_x = ground (arith, ==_refl t, ==_refl c);
  target_z = ground (arith, ==_refl t, ==_refl c);
  control_x = ground (arith, ==_refl t, ==_refl c);
  control_z = ground (arith, ==_refl t, ==_refl c);
  target_noise = ground (arith, ==_refl t, ==_refl c);
  control_noise = ground (arith, ==_refl t, ==_refl c);
  control_hgate = ground (arith, ==_refl t, ==_refl c);
}

pub measure_z_quiet :
    (i : ℕ) (w : World)
    → (w.qubits i).measurement_error.pauli_error_rate ≡ 0
    → measure_z i w ≡ (not (w.qubits i).god_x_error, w)
unfolding measure_z apply_single_qubit_gate_error
measure_z_quiet i w h = rw (measure_z, apply_single_qubit_gate_error, h) refl

pub hadamard_quiet :
    (i : ℕ) (w : World)
    → (w.qubits i).hgate_error.pauli_error_rate ≡ 0
    → hadamard_gate i w ≡ update i exchanged w
unfolding hadamard_gate apply_single_qubit_gate_error
hadamard_quiet i w h = rw (hadamard_gate, apply_single_qubit_gate_error, h) refl

xpurify_quiet :
    (self r : ℕ) (w : World)
    → IsQuiet (w.qubits self)
    → IsQuiet (w.qubits r)
    → xpurify self r w ≡ ok (measure_z self (cnot_gate self r w))
unfolding xpurify
xpurify_quiet self r w hs hr =
    rw (xpurify, apply_memory_error_quiet self self w hs, apply_memory_error_quiet self r w hr) refl

zpurify_quiet :
    (self r : ℕ) (w : World)
    → IsQuiet (w.qubits self)
    → IsQuiet (w.qubits r)
    → zpurify self r w ≡ ok (measure_z self (hadamard_gate self (cnot_gate r self w)))
unfolding zpurify
zpurify_quiet self r w hs hr =
    rw (zpurify, apply_memory_error_quiet self self w hs, apply_memory_error_quiet self r w hr) refl

-- Without noise and with both states known, the X purification of `r` by another qubit `self` reports whether the two agree in
-- their X errors, leaves the X error of `r`, and adds the Z error of `self` to that of `r`.
pub xpurify-parity :
    (self r : ℕ) (w : World)
    → (self == r) ≡ false
    → (r == self) ≡ false
    → IsQuiet (w.qubits self)
    → IsQuiet (w.qubits r)
    → (w' : World) × (xpurify self r w
        ≡ ok (not ((w.qubits self).god_x_error xor (w.qubits r).god_x_error), w'))
      × ((w'.qubits r).god_x_error ≡ (w.qubits r).god_x_error)
      × ((w'.qubits r).god_z_error ≡ (w.qubits r).god_z_error xor (w.qubits self).god_z_error)
xpurify-parity self r w n n' hs hr =
    let v = ideal_cnot self r w in
    let c = ideal_cnot-IsCnot self r w n n' in
    let quiet : (v.qubits self).measurement_error.pauli_error_rate ≡ 0 =
      ap (λ (g : GateError). g.pauli_error_rate) c.target_noise ∙ hs.measurement in
    (
      v,
      xpurify_quiet self r w hs hr
          ∙ ap (λ u. ok (measure_z self u)) (cnot_quiet self r w hs.cnot)
          ∙ ap ok (measure_z_quiet self v quiet)
          ∙ ap (λ b. ok (not b, v)) c.target_x,
      c.control_x,
      c.control_z,
    )

-- Without noise and with both states known, the Z purification of `r` by another qubit `self` reports whether the two agree in
-- their Z errors, leaves the Z error of `r`, and adds the X error of `self` to that of `r`.
pub zpurify-parity :
    (self r : ℕ) (w : World)
    → (self == r) ≡ false
    → (r == self) ≡ false
    → IsQuiet (w.qubits self)
    → IsQuiet (w.qubits r)
    → (w' : World) × (zpurify self r w
        ≡ ok (not ((w.qubits self).god_z_error xor (w.qubits r).god_z_error), w'))
      × ((w'.qubits r).god_x_error ≡ (w.qubits r).god_x_error xor (w.qubits self).god_x_error)
      × ((w'.qubits r).god_z_error ≡ (w.qubits r).god_z_error)
zpurify-parity self r w n n' hs hr =
    let v = ideal_cnot r self w in
    let u = update self exchanged v in
    let c = ideal_cnot-IsCnot r self w n' n in
    let h_quiet : (v.qubits self).hgate_error.pauli_error_rate ≡ 0 =
      ap (λ (g : GateError). g.pauli_error_rate) c.control_hgate ∙ hs.hgate in
    let own : u.qubits self ≡ exchanged (v.qubits self) = rw (==_refl self) refl in
    let other : u.qubits r ≡ v.qubits r = rw n' refl in
    let m_quiet : (u.qubits self).measurement_error.pauli_error_rate ≡ 0 =
      ap (λ (q : Qubit). q.measurement_error.pauli_error_rate) own
      ∙ ap (λ (g : GateError). g.pauli_error_rate) c.control_noise
      ∙ hs.measurement in
    (
      u,
      zpurify_quiet self r w hs hr
          ∙ ap (λ x. ok (measure_z self (hadamard_gate self x))) (cnot_quiet r self w hr.cnot)
          ∙ ap (λ x. ok (measure_z self x)) (hadamard_quiet self v h_quiet)
          ∙ ap ok (measure_z_quiet self u m_quiet)
          ∙ ap (λ (q : Qubit). ok (not q.god_x_error, u)) own
          ∙ ap (λ b. ok (not b, u)) c.control_z,
      ap (λ (q : Qubit). q.god_x_error) other ∙ c.target_x,
      ap (λ (q : Qubit). q.god_z_error) other ∙ c.target_z,
    )
