-- ===== src/Engine/Swapping/Outcome.antt =====
-- What a swap leaves behind when no gate is noisy: the two ends hold one another's qubits, and the
-- corrections depend on what was measured in the middle (quisp/rules/Action.cc, SwappingAction::run).
use quisp.Prelude.{
  ℕ, pos, ltb_ℤ, ◌==◌, Bool, true, false, not, ◌||◌, if◌then◌else◌, Option, some, ok, ◌>>=◌,
  or_fail, null_pointer, ◌≡◌, refl, ap, ◌∙◌, arith,
}
use quisp.Qubits.{Qubit, GateError, World, update, is_locked, set_entangled_partner_info}
use quisp.Qubits.Symmetry.{partner}
use quisp.Qubits.Gates.{
  add_x_error, add_z_error, exchanged, hadamard_gate, cnot_gate, measure_z, x_gate, z_gate,
}
use quisp.Qubits.Gates.Parity.{
  ◌xor◌, ==_refl, ideal_cnot, ideal_cnot-IsCnot, cnot_quiet, hadamard_quiet, measure_z_quiet,
}
use quisp.Rules.Types.{SwappingAction}
use quisp.Engine.{remove_resource}
use quisp.Engine.Actions.{Run, get_resource_from_top_with_partner}
use quisp.Engine.Swapping.{
  SwappingResult, swapping_result, idle, operation_type_left, operation_type_right,
  bell_measurement, swap_after, swap_with, run_swapping, apply_operation,
}

pub record IsNoiseless (q : Qubit) : Type 0 where
  pub hgate : q.hgate_error.pauli_error_rate ≡ 0
  pub xgate : q.xgate_error.pauli_error_rate ≡ 0
  pub zgate : q.zgate_error.pauli_error_rate ≡ 0
  pub cnot : q.cnot_gate_error.pauli_error_rate ≡ 0
  pub measurement : q.measurement_error.pauli_error_rate ≡ 0

-- The four qubits of a swap: `l` and `r` of the node in the middle with their partners.
pub record IsChain (w : World) (l r lp rp : ℕ) : Type 0 where
  pub left : partner w l ≡ some lp
  pub right : partner w r ≡ some rp
  pub l_r : (l == r) ≡ false
  pub r_l : (r == l) ≡ false
  pub lp_l : (lp == l) ≡ false
  pub lp_r : (lp == r) ≡ false
  pub rp_l : (rp == l) ≡ false
  pub rp_r : (rp == r) ≡ false
  pub lp_rp : (lp == rp) ≡ false
  pub rp_lp : (rp == lp) ≡ false
  pub quiet : (i : ℕ) → IsNoiseless (w.qubits i)

-- The outcomes of the two measurements.
abbrev pub left_outcome : World → (l : ℕ) → Bool
left_outcome w l = not (w.qubits l).god_z_error

abbrev pub right_outcome : World → (l r : ℕ) → Bool
right_outcome w l r = not ((w.qubits r).god_x_error xor (w.qubits l).god_z_error)

abbrev measured : (l r : ℕ) → World → World
measured l r w = ideal_cnot r l (update l exchanged w)

measured_others :
    (l r k : ℕ) (w : World)
    → (k == l) ≡ false
    → (k == r) ≡ false
    → (measured l r w).qubits k ≡ w.qubits k
measured_others l r k w h h' = ground arith

abbrev measure_then : (r : ℕ) → Bool → World → Bool × Bool × World
measure_then r left_measure w =
    let (right_measure, w') = measure_z r w in (left_measure, right_measure, w')

abbrev measure_both : (l r : ℕ) → World → Bool × Bool × World
measure_both l r w = let (left_measure, w1) = measure_z l w in measure_then r left_measure w1

bell_measurement_quiet :
    (l r : ℕ) (w : World)
    → (l == r) ≡ false
    → (r == l) ≡ false
    → IsNoiseless (w.qubits l)
    → IsNoiseless (w.qubits r)
    → bell_measurement l r w ≡ (left_outcome w l, right_outcome w l r, measured l r w)
unfolding bell_measurement
bell_measurement_quiet l r w n n' hl hr =
    let u = update l exchanged w in
    let v = ideal_cnot r l u in
    let c = ideal_cnot-IsCnot r l u n' n in
    let own : u.qubits l ≡ exchanged (w.qubits l) = rw (==_refl l) refl in
    let other : u.qubits r ≡ w.qubits r = rw n' refl in
    let cnot_r = ap (λ (q : Qubit). q.cnot_gate_error.pauli_error_rate) other ∙ hr.cnot in
    let v_is : cnot_gate r l (hadamard_gate l w) ≡ v =
      ap (cnot_gate r l) (hadamard_quiet l w hl.hgate) ∙ cnot_quiet r l u cnot_r in
    let quiet_l : (v.qubits l).measurement_error.pauli_error_rate ≡ 0 =
      ap (λ (g : GateError). g.pauli_error_rate) c.control_noise
      ∙ ap (λ (q : Qubit). q.measurement_error.pauli_error_rate) own
      ∙ hl.measurement in
    let quiet_r : (v.qubits r).measurement_error.pauli_error_rate ≡ 0 =
      ap (λ (g : GateError). g.pauli_error_rate) c.target_noise
      ∙ ap (λ (q : Qubit). q.measurement_error.pauli_error_rate) other
      ∙ hr.measurement in
    let left_x : (v.qubits l).god_x_error ≡ (w.qubits l).god_z_error =
      c.control_x ∙ ap (λ (q : Qubit). q.god_x_error) own in
    let right_x : (v.qubits r).god_x_error ≡ (w.qubits r).god_x_error xor (w.qubits l).god_z_error =
      c.target_x
      ∙ ap (λ (q : Qubit). q.god_x_error xor (u.qubits l).god_x_error) other
      ∙ ap (λ (q : Qubit). (w.qubits r).god_x_error xor q.god_x_error) own in
    ap (measure_both l r) v_is
    ∙ ap (λ (m : Bool × World). measure_then r m.0 m.1) (measure_z_quiet l v quiet_l)
    ∙ ap (λ (m : Bool × World). (not (v.qubits l).god_x_error, m.0, m.1))
        (measure_z_quiet r v quiet_r)
    ∙ ap (λ b. (not b, not (v.qubits r).god_x_error, v)) left_x
    ∙ ap (λ b. (left_outcome w l, not b, v)) right_x

-- The world after the two corrections.
abbrev joined : (l r lp rp : ℕ) → World → World
joined l r lp rp w = update r idle (
    update l idle
      (set_entangled_partner_info lp rp (set_entangled_partner_info rp lp (measured l r w))))

abbrev with_z : Bool → ℕ → World → World
with_z b i w = if b then add_z_error i w else w

abbrev with_x : Bool → ℕ → World → World
with_x b i w = if b then add_x_error i w else w

z_operation :
    (b : Bool) (i : ℕ) (w : World)
    → (w.qubits i).zgate_error.pauli_error_rate ≡ 0
    → apply_operation (operation_type_left b) i w ≡ ok (with_z b i w)
unfolding apply_operation z_gate
z_operation true i w h = rw (apply_operation, z_gate, h) refl
z_operation false i w h = refl

x_operation :
    (b : Bool) (i : ℕ) (w : World)
    → (w.qubits i).xgate_error.pauli_error_rate ≡ 0
    → apply_operation (operation_type_right b) i w ≡ ok (with_x b i w)
unfolding apply_operation x_gate
x_operation true i w h = rw (apply_operation, x_gate, h) refl
x_operation false i w h = refl

-- What holds at the two ends after the corrections, given the world before the swap.
pub record IsSwapped (w w' : World) (l r lp rp : ℕ) : Type 0 where
  pub left_partner : partner w' lp ≡ some rp
  pub right_partner : partner w' rp ≡ some lp
  pub left_x : (w'.qubits lp).god_x_error ≡ (w.qubits lp).god_x_error
  pub left_z : (w'.qubits lp).god_z_error ≡ left_outcome w l xor (w.qubits lp).god_z_error
  pub right_x : (w'.qubits rp).god_x_error ≡ right_outcome w l r xor (w.qubits rp).god_x_error
  pub right_z : (w'.qubits rp).god_z_error ≡ (w.qubits rp).god_z_error
  pub stale_left : partner w' l ≡ some lp
  pub stale_right : partner w' r ≡ some rp

measured_partner : (l r k : ℕ) (w : World) → partner (measured l r w) k ≡ partner w k
measured_partner l r k w = ground arith

abbrev corrected : (l r lp rp : ℕ) → World → World
corrected l r lp rp w =
    with_x (right_outcome w l r) rp (with_z (left_outcome w l) lp (joined l r lp rp w))

-- The same with any outcomes and any world after the measurements.
abbrev ends : (b c : Bool) → (l r lp rp : ℕ) → World → World
ends b c l r lp rp w = with_x c rp (
    with_z b lp (
      update r idle
        (update l idle (set_entangled_partner_info lp rp (set_entangled_partner_info rp lp w)))))

-- Each of the four qubits after the swap and the corrections.
record IsEnded (b c : Bool) (l r lp rp : ℕ) (w w' : World) : Type 0 where
  left_partner : partner w' lp ≡ some rp
  right_partner : partner w' rp ≡ some lp
  left_x : (w'.qubits lp).god_x_error ≡ (w.qubits lp).god_x_error
  left_z : (w'.qubits lp).god_z_error ≡ b xor (w.qubits lp).god_z_error
  right_x : (w'.qubits rp).god_x_error ≡ c xor (w.qubits rp).god_x_error
  right_z : (w'.qubits rp).god_z_error ≡ (w.qubits rp).god_z_error
  stale_left : partner w' l ≡ partner w l
  stale_right : partner w' r ≡ partner w r

swap_eq : (a b : ℕ) → (a == b) ≡ false → (b == a) ≡ false
swap_eq a b h = ground arith

ends-IsEnded :
    (b c : Bool) (l r lp rp : ℕ) (w0 w : World)
    → IsChain w0 l r lp rp
    → IsEnded b c l r lp rp w (ends b c l r lp rp w)
unfolding set_entangled_partner_info
ends-IsEnded b c l r lp rp w0 w h =
    let h1 = h.lp_r in
    let h2 = h.lp_l in
    let h3 = h.lp_rp in
    let h4 = h.rp_l in
    let h5 = h.rp_r in
    let h6 = h.rp_lp in
    let h7 = swap_eq lp l h2 in
    let h8 = swap_eq lp r h1 in
    let h9 = swap_eq rp l h4 in
    let h10 = swap_eq rp r h5 in
    let e1 = ==_refl lp in
    let e2 = ==_refl rp in
    record {
      left_partner = ground arith;
      right_partner = ground arith;
      left_x = ground arith;
      left_z = ground arith;
      right_x = ground arith;
      right_z = ground arith;
      stale_left = ground arith;
      stale_right = ground arith;
    }

corrected-IsSwapped :
    (l r lp rp : ℕ) (w : World)
    → IsChain w l r lp rp
    → IsSwapped w (corrected l r lp rp w) l r lp rp
corrected-IsSwapped l r lp rp w h =
    let b = left_outcome w l in
    let c = right_outcome w l r in
    let e = ends-IsEnded b c l r lp rp w (measured l r w) h in
    let at_lp = measured_others l r lp w h.lp_l h.lp_r in
    let at_rp = measured_others l r rp w h.rp_l h.rp_r in
    record {
      left_partner = e.left_partner;
      right_partner = e.right_partner;
      left_x = e.left_x ∙ ap (λ (q : Qubit). q.god_x_error) at_lp;
      left_z = e.left_z ∙ ap (λ (q : Qubit). b xor q.god_z_error) at_lp;
      right_x = e.right_x ∙ ap (λ (q : Qubit). c xor q.god_x_error) at_rp;
      right_z = e.right_z ∙ ap (λ (q : Qubit). q.god_z_error) at_rp;
      stale_left = e.stale_left ∙ measured_partner l r l w ∙ h.left;
      stale_right = e.stale_right ∙ measured_partner l r r w ∙ h.right;
    }

joined_zgate :
    (l r lp rp k : ℕ) (w : World)
    → ((joined l r lp rp w).qubits k).zgate_error ≡ (w.qubits k).zgate_error
unfolding set_entangled_partner_info
joined_zgate l r lp rp k w = ground arith

joined_xgate :
    (l r lp rp k : ℕ) (b : Bool) (w : World)
    → ((with_z b lp (joined l r lp rp w)).qubits k).xgate_error ≡ (w.qubits k).xgate_error
unfolding set_entangled_partner_info
joined_xgate l r lp rp k b w = ground arith

operations :
    (l r lp rp : ℕ) (w : World)
    → IsChain w l r lp rp
    → (apply_operation (operation_type_left (left_outcome w l)) lp (joined l r lp rp w)
        >>= apply_operation (operation_type_right (right_outcome w l r)) rp)
      ≡ ok (corrected l r lp rp w)
operations l r lp rp w h =
    let b = left_outcome w l in
    let c = right_outcome w l r in
    let v = joined l r lp rp w in
    ap (λ m. m >>= apply_operation (operation_type_right c) rp)
      (z_operation b lp v (
        ap (λ (g : GateError). g.pauli_error_rate) (joined_zgate l r lp rp lp w)
        ∙ (h.quiet lp).zgate))
    ∙ x_operation c rp (with_z b lp v) (
        ap (λ (g : GateError). g.pauli_error_rate) (joined_xgate l r lp rp rp b w)
        ∙ (h.quiet rp).xgate)

-- What the swap sends to the left end and to the right one.
abbrev pub to_left : SwappingAction → World → (l lp : ℕ) → SwappingResult
to_left a w l lp = record {
  dest = a.left_partner;
  operation_type = operation_type_left (left_outcome w l);
  measured_qubit_index = (w.qubits lp).stationary_qubit_address;
  new_partner = a.right_partner;
  new_partner_qnic_index = a.right_qnic_id;
  new_partner_qnic_type = a.right_qnic_type;
  new_partner_qnic_address = a.right_qnic_address;
}

abbrev pub to_right : SwappingAction → World → (l r rp : ℕ) → SwappingResult
to_right a w l r rp = record {
  dest = a.right_partner;
  operation_type = operation_type_right (right_outcome w l r);
  measured_qubit_index = (w.qubits rp).stationary_qubit_address;
  new_partner = a.left_partner;
  new_partner_qnic_index = a.left_qnic_id;
  new_partner_qnic_type = a.left_qnic_type;
  new_partner_qnic_address = a.left_qnic_address;
}

abbrev pub swapped_run : Run → (l r lp rp : ℕ) → Run
swapped_run s l r lp rp = record {
  engine = record s.engine { world = joined l r lp rp s.engine.world };
  resources = remove_resource r (remove_resource l s.resources);
}

both_found :
    {A : Type 0} (o o' : Option ℕ) (x y : ℕ) (f : ℕ → ℕ → A)
    → o ≡ some x
    → o' ≡ some y
    → (or_fail o null_pointer >>= λ x'. or_fail o' null_pointer >>= λ y'. ok (f x' y')) ≡ ok (f x y)
both_found o o' x y f h h' = rw (h, h') refl

swap_after_quiet :
    (a : SwappingAction) (s : Run) (l r lp rp : ℕ)
    → swap_after false a s l r lp rp (
      left_outcome s.engine.world l,
      right_outcome s.engine.world l r,
      measured l r s.engine.world,
    )
      ≡ (
        swapping_result a.ruleset_id a.rule_id a.action_index
            (to_left a s.engine.world l lp)
            (to_right a s.engine.world l r rp),
        swapped_run s l r lp rp,
      )
unfolding swap_after
swap_after_quiet a s l r lp rp = refl

swap_with_quiet :
    (a : SwappingAction) (s : Run) (l r lp rp : ℕ)
    → IsChain s.engine.world l r lp rp
    → swap_with false a s l r
      ≡ ok (
        swapping_result a.ruleset_id a.rule_id a.action_index
            (to_left a s.engine.world l lp)
            (to_right a s.engine.world l r rp),
        swapped_run s l r lp rp,
      )
unfolding swap_with
swap_with_quiet a s l r lp rp h =
    let w = s.engine.world in
    both_found (partner w r) (partner w l) rp lp
      (λ x y. swap_after false a s l r y x (bell_measurement l r w)) h.right h.left
    ∙ ap (λ m. ok (swap_after false a s l r lp rp m))
        (bell_measurement_quiet l r w h.l_r h.r_l (h.quiet l) (h.quiet r))
    ∙ ap ok (swap_after_quiet a s l r lp rp)

-- Where the action finds two qubits for its two partners, the indices of both qnics are known, no
-- gate is noisy, and the four qubits of the chain differ, SwappingAction::run completes and takes
-- both qubits out of the rule. Once each end has applied the correction that it is sent, the two end
-- qubits are each other's partners, the left one has a further Z error unless the left qubit of the
-- middle had a Z error, and the right one has a further X error where the X error of the right qubit
-- of the middle agrees with the Z error of the left one. The qubits of the middle still point to
-- their former partners.
pub run_swapping-IsSwapped :
    (a : SwappingAction) (s : Run) (l r lp rp : ℕ)
    → get_resource_from_top_with_partner a.left_resource a.left_partner
        (is_locked s.engine.world)
        s.resources
      ≡ some l
    → get_resource_from_top_with_partner a.right_resource a.right_partner
        (is_locked s.engine.world)
        s.resources
      ≡ some r
    → (ltb_ℤ a.left_qnic_id (pos 0) || ltb_ℤ a.right_qnic_id (pos 0)) ≡ false
    → IsChain s.engine.world l r lp rp
    → (left right : SwappingResult) × (s' : Run) × (w' : World) × (run_swapping false a s
        ≡ ok (swapping_result a.ruleset_id a.rule_id a.action_index left right, s'))
      × (s'.resources ≡ remove_resource r (remove_resource l s.resources))
      × ((apply_operation left.operation_type lp s'.engine.world
            >>= apply_operation right.operation_type rp)
          ≡ ok w')
      × IsSwapped s.engine.world w' l r lp rp
unfolding run_swapping
run_swapping-IsSwapped a s l r lp rp hl hr hq h =
    let w = s.engine.world in
    (
      to_left a w l lp,
      to_right a w l r rp,
      swapped_run s l r lp rp,
      corrected l r lp rp w,
      rw (run_swapping, hl, hr, hq) (swap_with_quiet a s l r lp rp h),
      refl,
      operations l r lp rp w h,
      corrected-IsSwapped l r lp rp w h,
    )
