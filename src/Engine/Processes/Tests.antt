-- ===== src/Engine/Processes/Tests.antt =====
-- Two rule sets of one rule, with partner 4, and two new resources of a qnic.
use quisp.Prelude.{ℕ, ℤ, pos, true, false, List, [], ◌∷◌, map, Result, ok, ◌≡◌, refl, arith}
use quisp.Network.{qnic_e}
use quisp.Rules.Types.{Resources, RuleSet, purify}
use quisp.Qubits.{World, Qubit}
use quisp.Qubits.Tests.{memory, partner_of}
use quisp.Engine.Processes.{install, erase_process, resource_allocation}
use quisp.Engine.Processes.Allocation.{held_by_all}
use quisp.Engine.Processes.Installing.{numbered, install-erase_process}

abbrev process : ℕ → RuleSet
process id = record {
  owner = pos 1;
  entangled_partner = pos 4 ∷ [];
  entangled_partner_rule = [];
  ruleset_id = id;
  rules =
      record {
        ruleset_id = pos id;
        rule_index = pos 0;
        condition = [];
        action = purify (record {
          ruleset_id = id;
          rule_id = pos 0;
          partner = pos 4;
          qnic_type = qnic_e;
          qnic_id = pos 0;
          resource = pos 0;
          trash_resource = pos 1;
          x = true;
          z = false;
          action_index = pos 0;
        });
        resources = [];
      }
      ∷ [];
}

abbrev fresh : ℕ → Qubit
fresh i = record (memory i (partner_of i) false 0) { allocated = false }

abbrev world : World
world = record { qubits = fresh; now = pos 0; rand = λ n. 0; drawn = 0 }

abbrev resources : Resources
resources = (pos 4, 0) ∷ (pos 5, 1) ∷ (pos 4, 2) ∷ []

abbrev running : List (ℤ × RuleSet)
running = numbered 0 (process 7 ∷ process 8 ∷ [])

abbrev allocated : List (ℤ × RuleSet) × World
allocated = state_of (resource_allocation resources (running, world))
  where
    state_of : Result (List (ℤ × RuleSet) × World) → List (ℤ × RuleSet) × World
    state_of (ok s) = s
    state_of _ = (running, world)

-- The first rule set takes both resources with its partner, and the other one stays.
allocated_held : map (λ p. held_by_all p allocated.0) (0 ∷ 1 ∷ 2 ∷ []) ≡ 1 ∷ 0 ∷ 1 ∷ []
unfolding resource_allocation
allocated_held = refl

install-erase_process_example :
    (install (process 9) running ≡ ok (numbered 0 (process 7 ∷ process 8 ∷ process 9 ∷ [])))
    × (install (process 9) (erase_process (pos 0) running) ≡ ok (erase_process (pos 0) running))
install-erase_process_example =
    install-erase_process (process 9) (process 7 ∷ process 8 ∷ []) 0 refl (omega arith)
