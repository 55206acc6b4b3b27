-- ===== src/Engine/Processes.antt =====
-- quisp/modules/RuleEngine.cc: the rule sets that run on a node, and how new resources are given to
-- them. The running processes are a map from an int, whose keys are taken from its size.
pub mod Allocation
pub mod Installing
mod Tests
use quisp.Prelude.{
  ℕ, zero, suc, ◌+◌, ℤ, pos, ◌==ℤ◌, ◌==◌, Bool, true, false, not, ◌&&◌, if◌then◌else◌, List, [],
  ◌∷◌, length, get_elem?, get_or, Option, none, some, Result, ok, err, ◌>>=◌, ◌>>◌, fail_if,
  insert_new, ebit_wrong, resource_not_added, empty_rule_set,
}
use quisp.Rules.Types.{Resources, Rule, RuleSet}
use quisp.Qubits.{World, Qubit, update}
use quisp.Qubits.Memory.{is_none, is_not_set}
use quisp.Engine.Unlock.{add_resource}

-- handleMessage on a LinkTomographyRuleSet, an InternalRuleSetForwarding or an
-- InternalRuleSetForwarding_Application: the new process has the number of processes as its key, and
-- `insert` leaves an entry that is there.
unfoldable pub install : RuleSet → List (ℤ × RuleSet) → Result (List (ℤ × RuleSet))
unfolding insert_new
install rs rp = elim rs.rules [
  | [] ↦ err empty_rule_set
  | rule ∷ rules ↦ ok (insert_new (pos (length rp)) rs rp)
]

-- `rp.erase(it)` when a process is done (traverseThroughAllProcesses2)
unfoldable pub erase_process : ℤ → List (ℤ × RuleSet) → List (ℤ × RuleSet)
erase_process k [] = []
erase_process k ((j, rs) ∷ rp) = if j ==ℤ k then rp else (j, rs) ∷ erase_process k rp

-- Allocate
abbrev pub allocate : ℕ → World → World
allocate i w = update i (λ q. record q { allocated = true }) w

-- isAllocated
abbrev pub is_allocated : World → ℕ → Bool
is_allocated w i = (w.qubits i).allocated

-- `addResource` of the rule at a position.
unfoldable pub add_at : ℕ → ℤ → ℕ → List Rule → List Rule
unfolding add_resource
add_at n a q [] = []
add_at zero a q (rule ∷ rules) = add_resource a q rule ∷ rules
add_at (suc n) a q (rule ∷ rules) = rule ∷ add_at n a q rules

-- `process->front()->resources.size()`
abbrev pub front_size : List Rule → ℕ
front_size [] = 0
front_size (rule ∷ rules) = length rule.resources

-- A resource goes to the front rule, or to the rule of the partner if there is one for each.
abbrev pub give : (i : ℕ) → ℤ → ℕ → RuleSet → RuleSet
unfolding add_at
give i a q process =
    let n =
      if not (length process.entangled_partner_rule == length process.entangled_partner)
      then 0
      else get_or process.entangled_partner_rule i 0 in
    record process { rules = add_at n a q process.rules }

abbrev pub is_unknown : Qubit → Bool
is_unknown q =
    is_none q.entangled_partner
    && is_not_set q.density
    && not q.no_density_matrix_nullptr_entangled_partner_ok

-- The body of the loop over the resources, for one that is not allocated and has the partner.
unfoldable pub allocate_one : (i : ℕ) → ℤ → ℕ → RuleSet × World → Result (RuleSet × World)
unfolding add_at
allocate_one i a q (process, w) = do
  fail_if (is_unknown (w.qubits q)) ebit_wrong
  let process' = give i a q process
  fail_if (not (front_size process'.rules == front_size process.rules + 1)) resource_not_added
  ok (process', allocate q w)

unfoldable pub allocate_resources :
    (i : ℕ) → ℤ → Resources → RuleSet × World → Result (RuleSet × World)
unfolding allocate_one
allocate_resources i partner [] s = ok s
allocate_resources i partner ((a, q) ∷ resources) s = do
  s1 ← (if not (is_allocated s.1 q) && (partner ==ℤ a) then allocate_one i partner q s else ok s)
  allocate_resources i partner resources s1

abbrev no_rules : List Rule → Bool
no_rules [] = true
no_rules _ = false

-- The loop over the partners, of which the first is at position i.
unfoldable pub allocate_partners :
    (i : ℕ) → List ℤ → Resources → RuleSet × World → Result (RuleSet × World)
unfolding allocate_resources
allocate_partners i [] resources s = ok s
allocate_partners i (partner ∷ partners) resources s = do
  fail_if (no_rules s.0.rules) empty_rule_set
  s1 ← allocate_resources i partner resources s
  allocate_partners (i + 1) partners resources s1

-- ResourceAllocation, with the resources of the qnic.
unfoldable pub resource_allocation :
    Resources → List (ℤ × RuleSet) × World → Result (List (ℤ × RuleSet) × World)
unfolding allocate_partners
resource_allocation resources ([], w) = ok ([], w)
resource_allocation resources ((k, process) ∷ rp, w) = do
  (process', w1) ← allocate_partners 0 process.entangled_partner resources (process, w)
  (rp', w2) ← resource_allocation resources (rp, w1)
  ok ((k, process') ∷ rp', w2)
