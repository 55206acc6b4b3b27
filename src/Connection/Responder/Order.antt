-- ===== src/Connection/Responder/Order.antt =====
-- The order of the responses (quisp/modules/ConnectionManager.cc, responder_alloc_req_handler).
use quisp.Prelude.{
  Option-cases, or_fail, out_of_range, ◌==◌, ℕ, zero, suc, ◌+◌, ◌-◌, ℤ, ◌==ℤ◌, true, false, not,
  ◌&&◌, if◌then◌else◌, List, [], ◌∷◌, ◌++◌, length, get_elem?, map, Option, some, none, Result,
  if_ok, err_not_ok, length-append, bind_ok, ok_injective, ok, ◌>>=◌, ◌≡◌, refl, sym, ap, ◌∙◌,
  subst, ◌⊎◌, inl, inr, arith,
}
use quisp.Connection.Manager.{
  Manager, Packet, SetupRequest, SetupResponse, is_qnic_busy, reserve_qnic, setup_response,
  rejection,
}
use quisp.Rules.Types.{RuleSet}
use quisp.Connection.Path.{at}
use quisp.Connection.RuleSets.{
  index_of, entanglement_swapping_config, generate_entanglement_swapping_rule_set,
}
use quisp.Connection.Manager.Reservations.{entry, marked, reserve_qnic-ok}
use quisp.Connection.Manager.Transit.{source_qnic, dest_qnic}
use quisp.Connection.Responder.{
  end_rule_set, respond, Plan, response_at, responses, plan_of, checked_divisions,
  responder_alloc_req_handler,
}

-- The node that a response is for.
abbrev pub response_dest : Packet → Option ℤ
response_dest (setup_response pkr) = some pkr.dest_addr
response_dest p = none

-- The nodes of a path at `rounds` positions from `i` on.
abbrev nodes_from : List ℤ → (rounds i : ℕ) → List (Option ℤ)
nodes_from path zero i = []
nodes_from path (suc rounds) i = get_elem? path i ∷ nodes_from path rounds (i + 1)

at-ok : (path : List ℤ) (i : ℕ) (a : ℤ) → at path i ≡ ok a → get_elem? path i ≡ some a
at-ok path i a h = elim (Option-cases (get_elem? path i)) [
  | inl e ↦ absurd (err_not_ok out_of_range a (subst (λ o. or_fail o out_of_range ≡ ok a) e h))
  | inr (b, e) ↦ e ∙ ap some (ok_injective b a (subst (λ o. or_fail o out_of_range ≡ ok a) e h))
]

respond-dest :
    (p : Plan) (node : ℤ) (rule_set : RuleSet) (pkr : SetupResponse)
    → respond p node rule_set ≡ ok pkr
    → pkr.dest_addr ≡ node
respond-dest p node rule_set pkr h =
    let first = bind_ok (at p.path 0) _ pkr h in
    let last = bind_ok (at p.path (length p.path - 1)) _ pkr first.2 in
    sym (ap (λ (r : SetupResponse). r.dest_addr) (ok_injective _ pkr last.2))

respond_after-dest :
    {A : Type 0} (p : Plan) (i : ℕ) (node : ℤ) (r : Result A) (f : A → RuleSet)
    (pkr : SetupResponse)
    → at p.path i ≡ ok node
    → (r >>= λ a. respond p node (f a)) ≡ ok pkr
    → get_elem? p.path i ≡ some pkr.dest_addr
respond_after-dest p i node r f pkr en g =
    let (a, ea, ok_a) = bind_ok r (λ a. respond p node (f a)) pkr g in
    at-ok p.path i node en ∙ ap some (sym (respond-dest p node (f a) pkr ok_a))

response_at-dest :
    (p : Plan) (i : ℕ) (pkr : SetupResponse)
    → response_at p i ≡ ok pkr
    → get_elem? p.path i ≡ some pkr.dest_addr
unfolding response_at
response_at-dest p i pkr h =
    let (node, en, rest) = bind_ok (at p.path i) _ pkr h in
    if_ok (index_of node p.swappers == length p.swappers) _ _ pkr
      (respond_after-dest p i node (end_rule_set p i node) (λ rs. rs) pkr en)
      (respond_after-dest p i node
        (entanglement_swapping_config node p.path p.swapping_partners p.qnics p.num_resource)
        (generate_entanglement_swapping_rule_set (p.unique_id i) node) pkr en)
      rest

responses-nodes :
    (p : Plan) (rounds i : ℕ) (out : List Packet)
    → responses p rounds i ≡ ok out
    → map response_dest out ≡ nodes_from p.path rounds i
unfolding responses
responses-nodes p zero i out h = ap (map response_dest) (sym (ok_injective [] out h))
responses-nodes p (suc rounds) i out h =
    let first = bind_ok (response_at p i) _ out h in
    let second = bind_ok (responses p rounds (i + 1)) _ out first.2 in
    let e = ok_injective (setup_response first.0 ∷ second.0) out second.2 in
    let head = response_at-dest p i first.0 first.1 in
    let tail = responses-nodes p rounds (i + 1) second.0 second.1 in rw (sym e, sym head, tail) refl

nodes_from-cons :
    (a : ℤ) (path : List ℤ) (rounds i : ℕ)
    → nodes_from (a ∷ path) rounds (suc i) ≡ nodes_from path rounds i
nodes_from-cons a path zero i = refl
nodes_from-cons a path (suc rounds) i =
    let e : suc i + 1 ≡ suc (i + 1) = omega arith in
    rw (e, nodes_from-cons a path rounds (i + 1)) refl

nodes_from-path : (path : List ℤ) → nodes_from path (length path) 0 ≡ map some path
nodes_from-path [] = refl
nodes_from-path (a ∷ path) = rw (nodes_from-cons a path (length path) 0, nodes_from-path path) refl

plan_of-path :
    (unique_id : ℕ → ℕ) (m : Manager) (pk : SetupRequest) (p : Plan)
    → plan_of unique_id m pk ≡ ok p
    → p.path ≡ pk.stack_of_qnode_indexes ++ m.my_address ∷ []
unfolding plan_of
plan_of-path unique_id m pk p h =
    let done = bind_ok (checked_divisions m pk) _ p h in
    sym (ap (λ (q : Plan). q.path) (ok_injective _ p done.2))

-- What the responder's answer is: a rejection that leaves the state as it was, or one response to
-- every node of the path, in the order of the path, with the qnic towards the initiator, which was
-- free, reserved and nothing else.
pub IsAnswer : Manager → SetupRequest → Manager → List Packet → Type 0
IsAnswer m pk m' out =
    ((m' ≡ m) × (out ≡ rejection m pk ∷ []))
    ⊎ ((map response_dest out ≡ map some (pk.stack_of_qnode_indexes ++ m.my_address ∷ []))
        × (entry (source_qnic m pk) m ≡ some false)
        × (m' ≡ marked true (source_qnic m pk) m))

accept-answer :
    (unique_id : ℕ → ℕ) (m : Manager) (pk : SetupRequest) (p : Plan) (out : List Packet)
    → plan_of unique_id m pk ≡ ok p
    → responses p (length pk.stack_of_qnode_indexes + 1) 0 ≡ ok out
    → map response_dest out ≡ map some (pk.stack_of_qnode_indexes ++ m.my_address ∷ [])
accept-answer unique_id m pk p out hp ho =
    let path = pk.stack_of_qnode_indexes ++ m.my_address ∷ [] in
    let size : length pk.stack_of_qnode_indexes + 1 ≡ length path =
      omega (arith, length-append pk.stack_of_qnode_indexes (m.my_address ∷ [])) in
    responses-nodes p (length pk.stack_of_qnode_indexes + 1) 0 out ho
    ∙ rw (plan_of-path unique_id m pk p hp, size) (nodes_from-path path)

-- Where the responder completes a request for itself, its answer is a rejection that leaves the
-- state as it was, or one response to every node of the path, in the order of the path, with the
-- qnic towards the initiator, which was free, reserved and nothing else.
pub responder_alloc-IsAnswer :
    (unique_id : ℕ → ℕ) (m m' : Manager) (pk : SetupRequest) (out : List Packet)
    → (pk.actual_dest_addr ==ℤ m.my_address) ≡ true
    → responder_alloc_req_handler unique_id m pk ≡ ok (m', out)
    → IsAnswer m pk m' out
unfolding IsAnswer responder_alloc_req_handler
responder_alloc-IsAnswer unique_id m m' pk out here h =
    let end : Manager × List Packet = (m', out) in
    let (src, e1, h1) = bind_ok (is_qnic_busy m (source_qnic m pk)) _ end h in
    let (dst, e2, h2) = bind_ok (is_qnic_busy m (dest_qnic m pk)) _ end h1 in
    if_ok (not src && not dst) _ _ end
      (λ accepted.
        let (p, ep, h3) = bind_ok (plan_of unique_id m pk) _ end accepted in
        let (out', eo, h4) =
          bind_ok (responses p (length pk.stack_of_qnode_indexes + 1) 0) _ end h3 in
        let (m1, em, h5) = bind_ok (reserve_qnic (source_qnic m pk) m) _ end h4 in
        let e : (m1, out') ≡ end =
          ok_injective (m1, out') end
            (subst
              (λ b.
                ((if not b then reserve_qnic (dest_qnic m pk) m1 else ok m1) >>= λ m2.
                ok (m2, out'))
                ≡ ok end)
              here h5) in
        let answer = accept-answer unique_id m pk p out' ep eo in
        let reserved = reserve_qnic-ok (source_qnic m pk) m m1 em in
        inr (
          ap (λ (x : Manager × List Packet). map response_dest x.1) (sym e) ∙ answer,
          reserved.0,
          ap (λ (x : Manager × List Packet). x.0) (sym e) ∙ reserved.1,
        ))
      (λ rejected.
        let e = ok_injective (m, rejection m pk ∷ []) end rejected in
        inl (
          ap (λ (x : Manager × List Packet). x.0) (sym e),
          ap (λ (x : Manager × List Packet). x.1) (sym e),
        ))
      h2
