-- ===== src/Engine/Swapping/Tests.antt =====
-- A chain of four qubits without errors: 0 and 1 are in the middle, entangled with 2 of node 4 and 3 of
-- node 5.
use quisp.Prelude.{
  ℕ, ◌==ℤ◌, ◌&&◌, List, insert_multi, ℤ, pos, false, if◌then◌else◌, [], ◌∷◌, none, some, ok, ◌>>=◌,
  ◌≡◌, refl,
}
use quisp.Network.{QnicId, InterfaceInf, qnic_e, return_setup_inf, return_qnic_address_to_dest_addr}
use quisp.Rules.Types.{SwappingAction}
use quisp.Qubits.{World}
use quisp.Qubits.Tests.{memory, partner_of}
use quisp.Engine.{Engine, same_type, remove_resource}
use quisp.Engine.Actions.{Run, get_resource_from_top_with_partner}
use quisp.Engine.Swapping.{
  SwappingResult, swapping_result, run_swapping, apply_operation, update_resources,
}
use quisp.Engine.Swapping.Filing.{update_resources-files}
use quisp.Qubits.Symmetry.{partner}
use quisp.Engine.Swapping.Outcome.{IsChain, IsSwapped, run_swapping-IsSwapped}

abbrev pub world : World
world = record {
  qubits = λ i. memory i (partner_of i) false 0;
  now = pos 10;
  rand = λ n. 4;
  drawn = 0;
}

abbrev pub middle : Run
middle = record {
  engine = record {
    parent_address = pos 1;
    world = world;
    busy_or_free = λ t. [];
    all_resources = λ t i. [];
    stat_qubit = λ t i a. none;
  };
  resources = (pos 4, 0) ∷ (pos 5, 1) ∷ [];
}

abbrev pub action : SwappingAction
action = record {
  ruleset_id = 7;
  rule_id = pos 0;
  left_partner = pos 4;
  left_qnic_type = qnic_e;
  left_qnic_id = pos 0;
  left_qnic_address = pos 10;
  left_resource = pos 0;
  right_partner = pos 5;
  right_qnic_type = qnic_e;
  right_qnic_id = pos 0;
  right_qnic_address = pos 11;
  right_resource = pos 0;
  action_index = pos 0;
  self_left_qnic_id = pos 0;
  self_left_qnic_type = qnic_e;
  self_right_qnic_id = pos 1;
  self_right_qnic_type = qnic_e;
}

chain : IsChain world 0 1 2 3
chain = record {
  left = refl;
  right = refl;
  l_r = refl;
  r_l = refl;
  lp_l = refl;
  lp_r = refl;
  rp_l = refl;
  rp_r = refl;
  lp_rp = refl;
  rp_lp = refl;
  quiet = λ i. record { hgate = refl; xgate = refl; zgate = refl; cnot = refl; measurement = refl };
}

run_swapping-IsSwapped_example :
    (left right : SwappingResult) × (s' : Run) × (w' : World) × (run_swapping false action middle
      ≡ ok (swapping_result 7 (pos 0) (pos 0) left right, s'))
    × (s'.resources ≡ remove_resource 1 (remove_resource 0 middle.resources))
    × ((apply_operation left.operation_type 2 s'.engine.world
          >>= apply_operation right.operation_type 3)
        ≡ ok w')
    × IsSwapped world w' 0 1 2 3
unfolding get_resource_from_top_with_partner
run_swapping-IsSwapped_example = run_swapping-IsSwapped action middle 0 1 2 3 refl refl refl chain

-- The left end finds its qubit 2 by the qnic towards node 5, and files it there.
abbrev end_engine : Engine
end_engine = record {
  parent_address = pos 4;
  world = world;
  busy_or_free = λ t. [];
  all_resources = λ t i. [];
  stat_qubit = λ t i a. if a ==ℤ pos 2 then some 2 else none;
}

abbrev end_qnic : QnicId
end_qnic = record { type = qnic_e; index = pos 0; address = pos 20 }

abbrev qrtable : List (ℤ × QnicId)
qrtable = (pos 1, end_qnic) ∷ (pos 5, end_qnic) ∷ []

abbrev ntable : List (ℤ × InterfaceInf)
ntable = (pos 1, record { qnic = end_qnic; neighbor_qnode_address = pos 1; link_cost = pos 1 }) ∷ []

abbrev for_left : SwappingResult
for_left = record {
  dest = pos 4;
  operation_type = 2;
  measured_qubit_index = pos 2;
  new_partner = pos 5;
  new_partner_qnic_index = pos 0;
  new_partner_qnic_type = qnic_e;
  new_partner_qnic_address = pos 11;
}

update_resources-files_example :
    (w' : World) × (update_resources qrtable ntable for_left end_engine
      ≡ ok (record end_engine {
        world = w';
        all_resources = λ t i.
            if same_type t qnic_e && (i ==ℤ pos 0)
            then insert_multi (pos 5) 2 (end_engine.all_resources t i)
            else end_engine.all_resources t i;
      }))
    × ((k : ℕ) → partner w' k ≡ partner world k)
unfolding return_setup_inf return_qnic_address_to_dest_addr
update_resources-files_example =
    update_resources-files qrtable ntable for_left end_engine end_qnic 2 0 refl refl refl refl refl
