-- ===== src/Engine/Bursts/Sorting.antt =====
-- One shot of a burst: its qubit is freed or filed (quisp/modules/RuleEngine.cc,
-- freeFailedQubits_and_AddAsResource).
use quisp.Prelude.{
  ℕ, ◌+◌, ℤ, ◌==ℤ◌, ==ℤ_iff, ◌==◌, Bool, true, false, ◌&&◌, if◌then◌else◌, List, [], ◌∷◌, ◌++◌, All,
  Option, none, some, ok, bind_ok, ok_injective, or_fail, fail_if, insert_multi, no_such_module,
  ◌≡◌, refl, sym, ap, ◌∙◌, subst, arith,
}
use quisp.Network.{QnicType, qnic_e, qnic_r, qnic_rp, qnic_n}
use quisp.Qubits.{set_free}
use quisp.Slots.{QubitStateTable, set_qubit_free_in_qnic}
use quisp.Slots.Freeing.{has_entry, set_free-has_entry, free_at, set_free-free_at}
use quisp.Engine.{Engine, same_type, re_initialize_stationary_qubit}
use quisp.Engine.Bursts.{QubitAddr, with_table, free_resource, check_entangled, add_as_resource}
use quisp.Engine.Bursts.Shots.{
  failed_shots, entangled_shots, times, filings, to_file, filings-insert, times-append,
  to_file-append,
}

same_type_self : (type : QnicType) → same_type type type ≡ true
same_type_self qnic_e = refl
same_type_self qnic_r = refl
same_type_self qnic_rp = refl
same_type_self qnic_n = refl

==ℤ_self : (a : ℤ) → (a ==ℤ a) ≡ true
==ℤ_self a = (==ℤ_iff a a).1 refl

qubit_is : (o : Option ℕ) (q : ℕ) → or_fail o no_such_module ≡ ok q → o ≡ some q
qubit_is none q h = cc
qubit_is (some p) q h = cc

module _ (type : QnicType) (qnic_index : ℤ) where
  -- The free entries of an address of the qnic, and the filings of its resources.
  abbrev pub frees_of : Engine → ℤ → ℕ
  frees_of e x = free_at (e.busy_or_free type) qnic_index x

  abbrev pub filings_of : Engine → ℤ → ℕ → ℕ
  filings_of e k q = filings k q (e.all_resources type qnic_index)

  -- A shot of this qnic whose qubit the table has.
  pub record IsShot (e : Engine) (addr : QubitAddr) : Type 0 where
    pub of_qnic : addr.qnic_index ≡ qnic_index
    pub in_table : has_entry (e.busy_or_free type) qnic_index addr.qubit_index ≡ true

module _ (type : QnicType) (qnic_index neighbor : ℤ) (find : ℤ → Option ℕ) where
  -- What a step leaves, given the shots that it frees and those that it files.
  pub record Sorts (e e' : Engine) (freed filed : List QubitAddr) : Type 0 where
    pub frees :
        (x : ℤ) → frees_of type qnic_index e' x ≡ frees_of type qnic_index e x + times x freed
    pub files :
        (k : ℤ) (q : ℕ)
        → filings_of type qnic_index e' k q
          ≡ filings_of type qnic_index e k q + to_file neighbor find k q filed
    pub addresses :
        (a b : ℤ) → has_entry (e'.busy_or_free type) a b ≡ has_entry (e.busy_or_free type) a b
    pub finder : (x : ℤ) → e'.stat_qubit type qnic_index x ≡ e.stat_qubit type qnic_index x

  -- The module tree finds the qubits of the qnic as it is given.
  abbrev pub Finds : Engine → Type 0
  Finds e = (x : ℤ) → e.stat_qubit type qnic_index x ≡ find x

  pub Sorts-trans :
      (e e1 e2 : Engine) (f g f' g' : List QubitAddr)
      → Sorts e e1 f g
      → Sorts e1 e2 f' g'
      → Sorts e e2 (f ++ f') (g ++ g')
  Sorts-trans e e1 e2 f g f' g' h k = record {
    frees = λ x. omega (arith, h.frees x, k.frees x, times-append x f f');
    files = λ a q. omega (arith, h.files a q, k.files a q, to_file-append neighbor find a q g g');
    addresses = λ a b. k.addresses a b ∙ h.addresses a b;
    finder = λ x. k.finder x ∙ h.finder x;
  }

  pub Sorts-refl : (e e' : Engine) → ok e ≡ ok e' → Sorts e e' [] []
  Sorts-refl e e' h =
      subst (λ x. Sorts e x [] []) (ok_injective e e' h)
        (record {
          frees = λ x. omega arith;
          files = λ k q. omega arith;
          addresses = λ a b. refl;
          finder = λ x. refl;
        })

  re_initialize-same :
      (qnic qubit : ℤ) (e e' : Engine)
      → re_initialize_stationary_qubit qnic qubit type e ≡ ok e'
      → (e'.busy_or_free type ≡ e.busy_or_free type)
        × (e'.all_resources type qnic_index ≡ e.all_resources type qnic_index)
        × (e'.stat_qubit ≡ e.stat_qubit)
  unfolding re_initialize_stationary_qubit
  re_initialize-same qnic qubit e e' h =
      let (u, e1, h1) = bind_ok (fail_if (same_type type qnic_n) no_such_module) _ e' h in
      let (q, e2, h2) =
        bind_ok (or_fail (e.stat_qubit type qnic qubit) no_such_module)
          (λ q. ok (record e { world = set_free q e.world })) e' h1 in
      let same = sym (ok_injective (record e { world = set_free q e.world }) e' h2) in
      (
        ap (λ (x : Engine). x.busy_or_free type) same,
        ap (λ (x : Engine). x.all_resources type qnic_index) same,
        ap (λ (x : Engine). x.stat_qubit) same,
      )

  with_table-Sorts :
      (t : QubitStateTable) (addr : QubitAddr) (e e1 : Engine)
      → e1.busy_or_free type ≡ e.busy_or_free type
      → e1.all_resources type qnic_index ≡ e.all_resources type qnic_index
      → e1.stat_qubit ≡ e.stat_qubit
      → set_qubit_free_in_qnic (e1.busy_or_free type) qnic_index addr.qubit_index ≡ ok t
      → has_entry (e.busy_or_free type) qnic_index addr.qubit_index ≡ true
      → Sorts e (with_table type t e1) (addr ∷ []) []
  with_table-Sorts t addr e e1 same res tree g x =
      let qubit = addr.qubit_index in
      let t_is : (with_table type t e1).busy_or_free type ≡ t =
        ap (λ (b : Bool). if b then t else e1.busy_or_free type) (same_type_self type) in
      let g' : set_qubit_free_in_qnic (e.busy_or_free type) qnic_index qubit ≡ ok t =
        subst (λ x. set_qubit_free_in_qnic x qnic_index qubit ≡ ok t) same g in
      let freed = λ (y : ℤ). set_free-free_at (e.busy_or_free type) t qnic_index qubit y g' x in
      record {
        frees = λ y. omega (arith, ap (λ v. free_at v qnic_index y) t_is, freed y);
        files = λ k q. omega (arith, ap (filings k q) res);
        addresses = λ a b.
            ap (λ x. has_entry x a b) t_is
            ∙ set_free-has_entry (e.busy_or_free type) t qnic_index qubit a b g';
        finder = λ y. ap (λ f. f type qnic_index y) tree;
      }

  pub free_resource-Sorts :
      (addr : QubitAddr) (e e' : Engine)
      → IsShot type qnic_index e addr
      → free_resource addr.qnic_index addr.qubit_index type e ≡ ok e'
      → Sorts e e' (addr ∷ []) []
  unfolding free_resource
  free_resource-Sorts addr e e' x h =
      let (e1, h1, g1) =
        bind_ok (re_initialize_stationary_qubit addr.qnic_index addr.qubit_index type e) _ e' h in
      let (t, h2, g2) =
        bind_ok (set_qubit_free_in_qnic (e1.busy_or_free type) addr.qnic_index addr.qubit_index)
          (λ t. ok (with_table type t e1)) e' g1 in
      let (busy, res, tree) = re_initialize-same addr.qnic_index addr.qubit_index e e1 h1 in
      subst (λ x. Sorts e x (addr ∷ []) []) (ok_injective (with_table type t e1) e' g2)
        (with_table-Sorts t addr e e1 busy res tree
          (subst (λ q. set_qubit_free_in_qnic (e1.busy_or_free type) q addr.qubit_index ≡ ok t)
            x.of_qnic h2)
          x.in_table)

  one_filing :
      (addr : QubitAddr) (q p : ℕ) (k : ℤ)
      → find addr.qubit_index ≡ some p
      → (if (neighbor ==ℤ k) && (p == q) then 1 else 0) ≡ to_file neighbor find k q (addr ∷ [])
  one_filing addr q p k h = rw h (omega arith)

  add_as_resource-Sorts :
      (addr : QubitAddr) (e e' : Engine)
      → Finds e
      → add_as_resource type qnic_index neighbor addr e ≡ ok e'
      → Sorts e e' [] (addr ∷ [])
  unfolding add_as_resource
  add_as_resource-Sorts addr e e' f h =
      let (p, h1, g1) =
        bind_ok (or_fail (e.stat_qubit type qnic_index addr.qubit_index) no_such_module) _ e' h in
      let (u, h2, g2) = bind_ok (check_entangled p e.world) _ e' g1 in
      let at : find addr.qubit_index ≡ some p =
        sym (f addr.qubit_index) ∙ qubit_is (e.stat_qubit type qnic_index addr.qubit_index) p h1 in
      let old = e.all_resources type qnic_index in
      subst (λ x. Sorts e x [] (addr ∷ [])) (ok_injective _ e' g2)
        (record {
          frees = λ x. omega arith;
          files = λ k q.
              (λ i. filings k q (
                if same_type_self type i && ==ℤ_self qnic_index i
                then insert_multi neighbor p old
                else old))
              ∙ filings-insert k q neighbor p old
              ∙ ap (λ n. filings k q old + n) (one_filing addr q p k at);
          addresses = λ a b. refl;
          finder = λ x. refl;
        })

  -- The shots are still in the table afterwards.
  pub keep_shots :
      (e e' : Engine) (f g shots : List QubitAddr)
      → Sorts e e' f g
      → All (IsShot type qnic_index e) shots
      → All (IsShot type qnic_index e') shots
  keep_shots e e' f g [] h all = tt
  keep_shots e e' f g (addr ∷ shots) h all = (
    record {
      of_qnic = all.0.of_qnic;
      in_table = h.addresses qnic_index addr.qubit_index ∙ all.0.in_table;
    },
    keep_shots e e' f g shots h all.1,
  )

  pub step-Sorts :
      (failed : Bool) (addr : QubitAddr) (e e1 : Engine)
      → IsShot type qnic_index e addr
      → Finds e
      → (if failed
          then free_resource addr.qnic_index addr.qubit_index type e
          else add_as_resource type qnic_index neighbor addr e)
        ≡ ok e1
      → Sorts e e1
          (failed_shots (addr ∷ []) (failed ∷ []))
          (entangled_shots (addr ∷ []) (failed ∷ []))
  step-Sorts true addr e e1 x f h = free_resource-Sorts addr e e1 x h
  step-Sorts false addr e e1 x f h = add_as_resource-Sorts addr e e1 f h

  pub kept : (e e1 : Engine) (f g : List QubitAddr) → Sorts e e1 f g → Finds e → Finds e1
  kept e e1 f g h finds x = h.finder x ∙ finds x
