-- ===== src/Engine/Actions/Duals.antt =====
-- quisp/rules/Action.cc: the four actions of double selection against both kinds of errors, with two
-- pairs that are purified by further pairs.
use quisp.Prelude.{
  ℕ, suc_ℤ, Bool, true, false, ◌||◌, if◌then◌else◌, [], ◌∷◌, Option, some, Result, ok, ◌>>=◌,
}
use quisp.Rules.Types.{DualAction}
use quisp.Qubits.{World, lock}
use quisp.Qubits.Gates.{xpurify, zpurify}
use quisp.Engine.Actions.{
  Run, Report, ActionPacket, must_differ, not_enough_resource, ds_double_purification_result,
  ds_double_purification_second_result, get_resource_from_top, same, conclude,
}

abbrev report_of : DualAction → ℕ → Report
report_of a q = record {
  dest_addr = a.partner;
  action_index = a.action_index;
  rule_id = a.rule_id;
  ruleset_id = a.ruleset_id;
  entangled_with = q;
}

abbrev counted : DualAction → DualAction
counted a = record a { action_index = suc_ℤ a.action_index }

-- The outcomes of X, Z, and the further X and Z, in either order of the two halves.
abbrev dual_measure :
    (inv : Bool) → (q x z ds_x ds_z : ℕ) → World → Result ((Bool × Bool × Bool × Bool) × World)
dual_measure false q x z ds_x ds_z w = do
  (meas_x, w1) ← xpurify x q w
  (ds_meas_z, w2) ← zpurify ds_z x w1
  (meas_z, w3) ← zpurify z q w2
  (ds_meas_x, w4) ← xpurify ds_x z w3
  ok ((meas_x, meas_z, ds_meas_x, ds_meas_z), w4)
dual_measure true q x z ds_x ds_z w = do
  (meas_z, w1) ← zpurify z q w
  (ds_meas_x, w2) ← xpurify ds_x z w1
  (meas_x, w3) ← xpurify x q w2
  (ds_meas_z, w4) ← zpurify ds_z x w3
  ok ((meas_x, meas_z, ds_meas_x, ds_meas_z), w4)

unfoldable pub dual_with :
    Bool → DualAction → Run → (q x z ds_x ds_z : ℕ) → Result (ActionPacket × DualAction × Run)
unfolding xpurify zpurify lock conclude
dual_with inv a s q x z ds_x ds_z = do
  ((meas_x, meas_z, ds_meas_x, ds_meas_z), w) ← dual_measure inv q x z ds_x ds_z s.engine.world
  s' ←
      conclude s w (lock q a.ruleset_id a.rule_id a.action_index) a.qnic_id a.qnic_type
        (z ∷ x ∷ ds_x ∷ ds_z ∷ []) (x ∷ z ∷ ds_x ∷ ds_z ∷ [])
  ok (
    ds_double_purification_result (report_of a q) meas_x meas_z ds_meas_x ds_meas_z,
    counted a,
    s',
  )

-- DoubleSelectionDualAction::run, and with `inv` DoubleSelectionDualActionInv::run. That the trash
-- pairs differ from the further pair for Z is not tested.
unfoldable pub run_dual : (inv : Bool) → DualAction → Run → Result (ActionPacket × DualAction × Run)
unfolding dual_with get_resource_from_top
run_dual inv a s =
    let qubit = get_resource_from_top a.resource s in
    let trash_x = get_resource_from_top a.trash_resource_x s in
    let trash_z = get_resource_from_top a.trash_resource_z s in
    let ds_trash_x = get_resource_from_top a.ds_trash_resource_x s in
    let ds_trash_z = get_resource_from_top a.ds_trash_resource_z s in
    if same qubit trash_x
      || same qubit trash_z
      || same trash_z trash_x
      || same qubit ds_trash_x
      || same qubit ds_trash_z
      || same trash_z ds_trash_x
      || same trash_x ds_trash_x
      || same ds_trash_z ds_trash_x
    then ok (must_differ, a, s)
    else with_all qubit trash_x trash_z ds_trash_x ds_trash_z
  where
    with_all : (q x z ds_x ds_z : Option ℕ) → Result (ActionPacket × DualAction × Run)
    with_all (some q) (some x) (some z) (some ds_x) (some ds_z) = dual_with inv a s q x z ds_x ds_z
    with_all _ _ _ _ _ = ok (not_enough_resource, a, s)

-- The second forms have one further pair: that for X, and with `inv` that for Z.
abbrev second_measure :
    (inv : Bool) → (q x z ds : ℕ) → World → Result ((Bool × Bool × Bool) × World)
second_measure false q x z ds w = do
  (meas_x, w1) ← xpurify x q w
  (meas_z, w2) ← zpurify z q w1
  (ds_meas, w3) ← xpurify ds z w2
  ok ((meas_x, meas_z, ds_meas), w3)
second_measure true q x z ds w = do
  (meas_z, w1) ← zpurify z q w
  (meas_x, w2) ← xpurify x q w1
  (ds_meas, w3) ← zpurify ds x w2
  ok ((meas_x, meas_z, ds_meas), w3)

unfoldable pub dual_second_with :
    Bool → DualAction → Run → (q x z ds : ℕ) → Result (ActionPacket × DualAction × Run)
unfolding xpurify zpurify lock conclude
dual_second_with inv a s q x z ds = do
  ((meas_x, meas_z, ds_meas), w) ← second_measure inv q x z ds s.engine.world
  s' ←
      conclude s w (lock q a.ruleset_id a.rule_id a.action_index) a.qnic_id a.qnic_type
        (z ∷ x ∷ ds ∷ []) (x ∷ z ∷ ds ∷ [])
  ok (ds_double_purification_second_result (report_of a q) meas_x meas_z ds_meas, counted a, s')

-- DoubleSelectionDualActionSecond::run, and with `inv` DoubleSelectionDualActionSecondInv::run,
-- which tests one pair of pointers less.
unfoldable pub run_dual_second :
    (inv : Bool) → DualAction → Run → Result (ActionPacket × DualAction × Run)
unfolding dual_second_with get_resource_from_top
run_dual_second inv a s =
    let qubit = get_resource_from_top a.resource s in
    let trash_x = get_resource_from_top a.trash_resource_x s in
    let trash_z = get_resource_from_top a.trash_resource_z s in
    let ds =
      get_resource_from_top (if inv then a.ds_trash_resource_z else a.ds_trash_resource_x) s in
    if same qubit trash_x
      || same qubit trash_z
      || same trash_z trash_x
      || same qubit ds
      || (if inv then false else same trash_x ds)
    then ok (must_differ, a, s)
    else with_all qubit trash_x trash_z ds
  where
    with_all : (q x z ds : Option ℕ) → Result (ActionPacket × DualAction × Run)
    with_all (some q) (some x) (some z) (some ds) = dual_second_with inv a s q x z ds
    with_all _ _ _ _ = ok (not_enough_resource, a, s)
