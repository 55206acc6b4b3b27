-- ===== src/Engine/Actions.antt =====
-- quisp/rules/Action.cc: the actions that purify. An action sees the resources of its rule; a run
-- returns a packet, the action with its count of runs, and what it did to the resources and the
-- engine.
pub mod Conclude
pub mod Purify
pub mod Duals
mod Tests
use quisp.Prelude.{
  ℕ, ◌+◌, ℤ, zero, suc, pos, negsuc, suc_ℤ, ◌==ℤ◌, ◌==◌, Bool, true, false, not, ◌&&◌, ◌||◌,
  if◌then◌else◌, List, [], ◌∷◌, Option, none, some, Result, ok, err, ◌>>=◌, ◌>>◌,
}
use quisp.Network.{QnicType}
use quisp.Rules.Types.{Resources, PurifyAction, DoubleAction, DualAction}
use quisp.Qubits.{World, Qubit, update, lock, is_locked}
use quisp.Qubits.Gates.{xpurify, zpurify}
use quisp.Engine.{Engine, remove_resource, free_consumed_resource}

pub record Run : Type 0 where
  pub engine : Engine
  pub resources : Resources

-- The fields that the packets of all purifications have. Their kind is 7.
pub record Report : Type 0 where
  pub dest_addr : ℤ
  pub action_index : ℤ
  pub rule_id : ℤ
  pub ruleset_id : ℕ
  pub entangled_with : ℕ

pub data ActionPacket : Type 0 where
  must_differ not_enough_resource : ActionPacket
  purification_result : Report → (output : Bool) → ActionPacket
  double_purification_result : Report → (x z : Bool) → ActionPacket
  ds_double_purification_result : Report → (x z ds_x ds_z : Bool) → ActionPacket
  ds_double_purification_second_result : Report → (x z ds : Bool) → ActionPacket

-- The loop of getResource_fromTop.
unfoldable pub get_from : (ℕ → Bool) → (required_index resource_index : ℤ) → Resources → Option ℕ
get_from locked required i [] = none
get_from locked required i ((a, q) ∷ r) =
    let later = get_from locked required i r in
    let next = get_from locked required (suc_ℤ i) r in
    if locked q then later else if i ==ℤ required then some q else next

-- getResource_fromTop
unfoldable pub get_resource_from_top : ℤ → Run → Option ℕ
unfolding get_from
get_resource_from_top required s = get_from (is_locked s.engine.world) required (pos 0) s.resources

-- getResource_fromTop_with_partner, whose index selects nothing.
unfoldable pub get_resource_from_top_with_partner :
    (required_index partner : ℤ) → (ℕ → Bool) → Resources → Option ℕ
get_resource_from_top_with_partner required partner locked [] = none
get_resource_from_top_with_partner required partner locked ((a, q) ∷ r) =
    let later = get_resource_from_top_with_partner required partner locked r in
    if locked q then later else if a ==ℤ partner then some q else later

-- Equality of two pointers.
abbrev pub same : Option ℕ → Option ℕ → Bool
same none none = true
same none (some j) = false
same (some i) none = false
same (some i) (some j) = i == j

-- The block under `if (trash_qubit->entangled_partner != nullptr)`.
abbrev pub left_alone : Qubit → Qubit
left_alone q = record q {
  no_density_matrix_nullptr_entangled_partner_ok = true;
  entangled_partner = none;
}

unfoldable pub break_partner : ℕ → World → World
break_partner i w = elim (w.qubits i).entangled_partner [
  | none ↦ w
  | some j ↦ update j left_alone w
]

pub break_partners : List ℕ → World → World
unfolding break_partner
break_partners [] w = w
break_partners (i ∷ is) w = break_partners is (break_partner i w)

pub remove_all : List ℕ → Resources → Resources
unfolding remove_resource
remove_all [] r = r
remove_all (i ∷ is) r = remove_all is (remove_resource i r)

pub free_all : ℤ → QnicType → List ℕ → Engine → Result Engine
unfolding free_consumed_resource
free_all qnic type [] e = ok e
free_all qnic type (i ∷ is) e = free_consumed_resource qnic i type e >>= free_all qnic type is

-- How a run ends after its measurements: the qubit is locked, the partners of the measured ones are
-- cut in the first order, and the measured ones are removed and freed in the second.
unfoldable pub conclude :
    Run
    → World
    → (lock_it : World → Result World) → (qnic : ℤ) → QnicType
    → (broken consumed : List ℕ) → Result Run
unfolding break_partners remove_all free_all
conclude s w lock_it qnic type broken consumed = do
  w' ← lock_it w
  e ← free_all qnic type consumed (record s.engine { world = break_partners broken w' })
  ok (record { engine = e; resources = remove_all consumed s.resources })

-- PurifyAction::run, once the two qubits are known and differ.
unfoldable pub purify_with :
    PurifyAction → Run → (qubit trash : ℕ) → Result (ActionPacket × PurifyAction × Run)
unfolding xpurify zpurify lock conclude
purify_with a s qubit trash = do
  let w = s.engine.world
  (meas, w') ←
      (if a.x && not a.z
        then xpurify trash qubit w
        else if not a.x && a.z
        then zpurify trash qubit w
        else ok (false, w))
  s' ←
      conclude s w' (lock qubit a.ruleset_id a.rule_id a.action_index) a.qnic_id a.qnic_type
        (trash ∷ []) (trash ∷ [])
  let report : Report = record {
    dest_addr = a.partner;
    action_index = a.action_index;
    rule_id = a.rule_id;
    ruleset_id = a.ruleset_id;
    entangled_with = qubit;
  }
  ok (purification_result report meas, record a { action_index = suc_ℤ a.action_index }, s')

unfoldable pub run_purify : PurifyAction → Run → Result (ActionPacket × PurifyAction × Run)
unfolding purify_with get_resource_from_top
run_purify a s =
    let qubit = get_resource_from_top a.resource s in
    let trash = get_resource_from_top a.trash_resource s in
    if same qubit trash then ok (must_differ, a, s) else elim qubit [
      | none ↦ ok (not_enough_resource, a, s)
      | some q ↦ elim trash [ none ↦ ok (not_enough_resource, a, s) | some t ↦ purify_with a s q t ]
    ]

-- The four classes of DoubleAction, by the qubit that the second purification works on and by the
-- order of the two.
pub data DoubleKind : Type 0 where
  purification purification_inv selection selection_inv : DoubleKind

-- The measurements: X's outcome, Z's outcome.
abbrev double_measure : DoubleKind → (q x z : ℕ) → World → Result (Bool × Bool × World)
double_measure purification q x z w = do
  (meas_x, w1) ← xpurify x q w
  (meas_z, w2) ← zpurify z q w1
  ok (meas_x, meas_z, w2)
double_measure purification_inv q x z w = do
  (meas_z, w1) ← zpurify z q w
  (meas_x, w2) ← xpurify x q w1
  ok (meas_x, meas_z, w2)
double_measure selection q x z w = do
  (meas_x, w1) ← xpurify x q w
  (meas_z, w2) ← zpurify z x w1
  ok (meas_x, meas_z, w2)
double_measure selection_inv q x z w = do
  (meas_z, w1) ← zpurify z q w
  (meas_x, w2) ← xpurify x z w1
  ok (meas_x, meas_z, w2)

unfoldable pub double_with :
    DoubleKind
    → DoubleAction
    → Run
    → (qubit trash_x trash_z : ℕ) → Result (ActionPacket × DoubleAction × Run)
unfolding xpurify zpurify lock conclude
double_with k a s q x z = do
  (meas_x, meas_z, w) ← double_measure k q x z s.engine.world
  s' ←
      conclude s w (lock q a.ruleset_id a.rule_id a.action_index) a.qnic_id a.qnic_type (z ∷ x ∷ [])
        (x ∷ z ∷ [])
  let report : Report = record {
    dest_addr = a.partner;
    action_index = a.action_index;
    rule_id = a.rule_id;
    ruleset_id = a.ruleset_id;
    entangled_with = q;
  }
  ok (
    double_purification_result report meas_x meas_z,
    record a { action_index = suc_ℤ a.action_index },
    s',
  )

-- DoublePurifyAction::run, DoublePurifyActionInv::run, DoubleSelectionAction::run and
-- DoubleSelectionActionInv::run.
unfoldable pub run_double :
    DoubleKind → DoubleAction → Run → Result (ActionPacket × DoubleAction × Run)
unfolding double_with get_resource_from_top
run_double k a s =
    let qubit = get_resource_from_top a.resource s in
    let trash_x = get_resource_from_top a.trash_resource_x s in
    let trash_z = get_resource_from_top a.trash_resource_z s in
    if same qubit trash_x || same qubit trash_z || same trash_z trash_x
    then ok (must_differ, a, s)
    else elim qubit [
      | none ↦ ok (not_enough_resource, a, s)
      | some q ↦ elim trash_x [
        | none ↦ ok (not_enough_resource, a, s)
        | some x ↦ elim trash_z [
          | none ↦ ok (not_enough_resource, a, s)
          | some z ↦ double_with k a s q x z
        ]
      ]
    ]
