-- ===== src/Qubits/Gates/Pointers.antt =====
-- Gates and purifications keep the pointers symmetric and the addresses (quisp/modules/stationaryQubit.cc).
use quisp.Prelude.{ℕ, ℤ, Bool, not, if◌then◌else◌, ok, bind_ok, ok_injective, ◌≡◌, refl, subst}
use quisp.Qubits.{World, GateError, TwoQubitGateError, draw}
use quisp.Qubits.Memory.{apply_memory_error}
use quisp.Qubits.Symmetry.{
  IsWired, if_IsWired, update-IsWired, same-IsWired, apply_memory_error-IsWired,
}
use quisp.Qubits.Gates.{
  add_x_error, add_z_error, exchanged, apply_single_qubit_gate_error, apply_two_qubit_gate_error,
  measure_z, hadamard_gate, cnot_gate, xpurify, zpurify,
}

module _ {addr : ℕ → ℤ} where
  -- The two additions.
  add_x : (i : ℕ) (w : World) → IsWired addr w → IsWired addr (add_x_error i w)
  add_x i w =
      update-IsWired i (λ q. record q { god_x_error = not q.god_x_error }) w (λ q. refl) (λ q. refl)

  add_z : (i : ℕ) (w : World) → IsWired addr w → IsWired addr (add_z_error i w)
  add_z i w =
      update-IsWired i (λ q. record q { god_z_error = not q.god_z_error }) w (λ q. refl) (λ q. refl)

  add_y : (i : ℕ) (w : World) → IsWired addr w → IsWired addr (add_z_error i (add_x_error i w))
  add_y i w h = add_z i (add_x_error i w) (add_x i w h)

  drawn-IsWired : (w : World) → IsWired addr w → IsWired addr (draw w).1
  drawn-IsWired w = same-IsWired w (draw w).1 (λ j. refl) (λ j. refl)

  single-IsWired :
      (gate : GateError) (i : ℕ) (w : World)
      → IsWired addr w
      → IsWired addr (apply_single_qubit_gate_error gate i w)
  unfolding apply_single_qubit_gate_error
  single-IsWired gate i w h =
      let d = drawn-IsWired w h in
      if_IsWired _ _ _ h (
        if_IsWired _ _ _ d (
          if_IsWired _ _ _ (add_x i _ d) (
            if_IsWired _ _ _ (add_z i _ d)
              (add_x i (add_z_error i (draw w).1) (add_z i (draw w).1 d)))))

  two-IsWired :
      (gate : TwoQubitGateError) (a b : ℕ) (w : World)
      → IsWired addr w
      → IsWired addr (apply_two_qubit_gate_error gate a b w)
  unfolding apply_two_qubit_gate_error
  two-IsWired gate a b w h =
      let v = (draw w).1 in
      let d = drawn-IsWired w h in
      if_IsWired _ _ _ h (
        if_IsWired _ _ _ d (
          if_IsWired _ _ _ (add_x a v d) (
            if_IsWired _ _ _ (add_x b v d) (
              if_IsWired _ _ _ (add_x b (add_x_error a v) (add_x a v d)) (
                if_IsWired _ _ _ (add_z a v d) (
                  if_IsWired _ _ _ (add_z b v d) (
                    if_IsWired _ _ _ (add_z b (add_z_error a v) (add_z a v d)) (
                      if_IsWired _ _ _ (add_y a v d) (
                        if_IsWired _ _ _ (add_y b v d)
                          (add_y b (add_z_error a (add_x_error a v)) (add_y a v d)))))))))))

  measure_z-IsWired : (i : ℕ) (w : World) → IsWired addr w → IsWired addr (measure_z i w).1
  unfolding measure_z
  measure_z-IsWired i w = single-IsWired (w.qubits i).measurement_error i w

  hadamard_gate-IsWired : (i : ℕ) (w : World) → IsWired addr w → IsWired addr (hadamard_gate i w)
  unfolding hadamard_gate
  hadamard_gate-IsWired i w h =
      update-IsWired i exchanged _ (λ q. refl) (λ q. refl)
        (single-IsWired (w.qubits i).hgate_error i w h)

  cnot_gate-IsWired : (a b : ℕ) (w : World) → IsWired addr w → IsWired addr (cnot_gate a b w)
  unfolding cnot_gate
  cnot_gate-IsWired a b w h =
      let w1 = apply_two_qubit_gate_error (w.qubits a).cnot_gate_error a b w in
      let h1 = two-IsWired (w.qubits a).cnot_gate_error a b w h in
      let w2 = if (w1.qubits b).god_x_error then add_x_error a w1 else w1 in
      let h2 : IsWired addr w2 = if_IsWired (w1.qubits b).god_x_error _ _ (add_x a w1 h1) h1 in
      if_IsWired (w2.qubits a).god_z_error _ _ (add_z b w2 h2) h2

  -- The two memory errors at the start of a purification.
  both_memories :
      (self i : ℕ) (w w1 w2 : World)
      → apply_memory_error self self w ≡ ok w1
      → apply_memory_error self i w1 ≡ ok w2
      → IsWired addr w
      → IsWired addr w2
  both_memories self i w w1 w2 e1 e2 h =
      apply_memory_error-IsWired self i w1 w2 e2 (apply_memory_error-IsWired self self w w1 e1 h)

  pub xpurify-IsWired :
      (self i : ℕ) (w : World) (out : Bool × World)
      → xpurify self i w ≡ ok out
      → IsWired addr w
      → IsWired addr out.1
  unfolding xpurify
  xpurify-IsWired self i w out e h =
      let (w1, e1, g1) = bind_ok (apply_memory_error self self w) _ out e in
      let (w2, e2, g2) = bind_ok (apply_memory_error self i w1) _ out g1 in
      subst (λ (o : Bool × World). IsWired addr o.1) (ok_injective _ out g2)
        (measure_z-IsWired self _
          (cnot_gate-IsWired self i w2 (both_memories self i w w1 w2 e1 e2 h)))

  pub zpurify-IsWired :
      (self i : ℕ) (w : World) (out : Bool × World)
      → zpurify self i w ≡ ok out
      → IsWired addr w
      → IsWired addr out.1
  unfolding zpurify
  zpurify-IsWired self i w out e h =
      let (w1, e1, g1) = bind_ok (apply_memory_error self self w) _ out e in
      let (w2, e2, g2) = bind_ok (apply_memory_error self i w1) _ out g1 in
      subst (λ (o : Bool × World). IsWired addr o.1) (ok_injective _ out g2)
        (measure_z-IsWired self _ (
          hadamard_gate-IsWired self _
            (cnot_gate-IsWired i self w2 (both_memories self i w w1 w2 e1 e2 h))))
