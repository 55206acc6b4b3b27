-- ===== src/Engine/Bursts/Shooting.antt =====
-- One burst of photons over a qnic (quisp/modules/RuleEngine.cc, shootPhoton and
-- shootPhoton_internal).
use quisp.Prelude.{
  ℕ, zero, suc, ◌+◌, ◌<◌, ℤ, pos, suc_ℤ, ◌+ℤ◌, ◌==ℤ◌, ◌==◌, Bool, true, false, if◌then◌else◌,
  Bool-cases, List, [], ◌∷◌, none, some, Result, ok, err, ◌>>=◌, out_of_fuel, ◌≡◌, refl, sym, ap,
  ◌∙◌, subst, inl, inr, arith,
}
use quisp.Network.{QnicType, qnic_e, qnic_r}
use quisp.Slots.{QubitStateTable, count_free_qubits_in_qnic}
use quisp.Slots.Emission.{IsDistinct, IsIndexed, get_one_free-set_busy}
use quisp.Slots.Taking.{set_busy-IsDistinct, set_busy-IsIndexed}
use quisp.Engine.{same_type}
use quisp.Engine.Bursts.{
  Station, Schedule, EmitPhotonRequest, pulse_begin, pulse_end, pulse_bound, table_of, with_table,
  burst_trial_outdated, shoot_photon, handle_schedule,
}

-- The events of a burst, one after the other, with the requests to emit and their times.
unfoldable pub run_burst :
    (fuel : ℕ) → Schedule → (now : ℤ) → Station → Result (List (ℤ × EmitPhotonRequest) × Station)
unfolding handle_schedule
run_burst zero pk now s = err out_of_fuel
run_burst (suc fuel) pk now s = do
  (o, s1) ← handle_schedule pk now s
  elim o [
    | none ↦ ok ([], s1)
    | some (at, emt, next) ↦ do (es, s2) ← run_burst fuel next at s1; ok ((at, emt) ∷ es, s2)
  ]

-- The kinds of the photons of a burst, which may have begun.
abbrev pub kinds : (begins : Bool) → ℕ → List ℕ
kinds begins zero = []
kinds true (suc zero) = pulse_bound ∷ []
kinds false (suc zero) = pulse_end ∷ []
kinds true (suc (suc n)) = pulse_begin ∷ kinds false (suc n)
kinds false (suc (suc n)) = 0 ∷ kinds false (suc n)

abbrev pub times : ℤ → (interval : ℤ) → ℕ → List ℤ
times at interval zero = []
times at interval (suc n) = at ∷ times (at +ℤ interval) interval n

abbrev pub type_of : Schedule → QnicType
type_of pk = if pk.internal_hom then qnic_r else qnic_e

-- The table of the qnic of an event is in order, and some of its qubits are free.
pub record HasFree (pk : Schedule) (s : Station) (n : ℕ) : Type 0 where
  pub distinct : IsDistinct (table_of (type_of pk) s)
  pub indexed : IsIndexed (table_of (type_of pk) s)
  pub free : count_free_qubits_in_qnic (table_of (type_of pk) s) pk.qnic_index ≡ n
  pub current : burst_trial_outdated pk.trial pk.qnic_address s ≡ false

-- The event after another one.
abbrev next_of : Schedule → Schedule
next_of pk = record pk { num_sent = suc_ℤ pk.num_sent }

abbrev kind_of : (is_first none_left : Bool) → ℕ
kind_of is_first none_left =
    if is_first
    then (if none_left then pulse_bound else pulse_begin)
    else if none_left
    then pulse_end
    else 0

-- What an event does while a qubit is free.
Shoots : Schedule → ℤ → Station → ℕ → Type 0
unfolding handle_schedule
Shoots pk now s n =
    let is_first = pk.num_sent ==ℤ pos 0 in
    (qubit : ℤ) × (s1 : Station) × (handle_schedule pk now s
      ≡ ok (
        some (
          now +ℤ (if is_first then pk.timing else pk.interval),
          record {
            qubit_index = qubit;
            qnic_index = pk.qnic_index;
            qnic_address = pk.qnic_address;
            trial = pk.trial;
            qnic_type = type_of pk;
            kind = kind_of is_first (n == 0);
          },
          next_of pk,
        ),
        s1,
      ))
    × HasFree (next_of pk) s1 n

module _ (type : QnicType) (same : same_type type type ≡ true) (pk : Schedule) (now : ℤ)
    (s : Station) where
  shoot_one :
      (n : ℕ)
      → IsDistinct (table_of type s)
      → IsIndexed (table_of type s)
      → count_free_qubits_in_qnic (table_of type s) pk.qnic_index ≡ suc n
      → (internal : Bool)
      → (qubit : ℤ) × (t : QubitStateTable) × (shoot_photon type internal pk now s
          ≡ ok (
            some (
              now +ℤ (if pk.num_sent ==ℤ pos 0 then pk.timing else pk.interval),
              record {
                qubit_index = qubit;
                qnic_index = pk.qnic_index;
                qnic_address = pk.qnic_address;
                trial = pk.trial;
                qnic_type = type;
                kind = kind_of (pk.num_sent ==ℤ pos 0) (n == 0);
              },
              record pk { num_sent = suc_ℤ pk.num_sent; internal_hom = internal },
            ),
            record s { engine = with_table type t s.engine },
          ))
        × IsDistinct t
        × IsIndexed t
        × (count_free_qubits_in_qnic t pk.qnic_index ≡ n)
  unfolding shoot_photon
  shoot_one n d x c internal =
      let (qubit, t, found, taken, fewer, back) =
        get_one_free-set_busy (table_of type s) pk.qnic_index d x (omega (arith, c)) in
      let left : count_free_qubits_in_qnic t pk.qnic_index ≡ n = omega (arith, fewer, c) in
      let some_left : (count_free_qubits_in_qnic (table_of type s) pk.qnic_index == 0) ≡ false =
        ground (arith, c) in
      (
        qubit,
        t,
        rw (some_left, found, taken, left),
        set_busy-IsDistinct (table_of type s) t pk.qnic_index qubit taken d,
        set_busy-IsIndexed (table_of type s) t pk.qnic_index qubit taken x,
        left,
      )

-- The table of a type after its replacement.
replaced :
    (type : QnicType) (t : QubitStateTable) (s : Station)
    → same_type type type ≡ true
    → table_of type (record s { engine = with_table type t s.engine }) ≡ t
replaced type t s e = rw e

handle_outside :
    (pk : Schedule) (now : ℤ) (s : Station)
    → pk.internal_hom ≡ false
    → burst_trial_outdated pk.trial pk.qnic_address s ≡ false
    → handle_schedule pk now s ≡ shoot_photon qnic_e false pk now s
unfolding handle_schedule
handle_outside pk now s i b = rw (b, i)

handle_inside :
    (pk : Schedule) (now : ℤ) (s : Station)
    → pk.internal_hom ≡ true
    → burst_trial_outdated pk.trial pk.qnic_address s ≡ false
    → handle_schedule pk now s ≡ shoot_photon qnic_r true pk now s
unfolding handle_schedule
handle_inside pk now s i b = rw (b, i)

shoot_photon-Shoots :
    (b : Bool) (type : QnicType) (pk : Schedule) (now : ℤ) (s : Station) (n : ℕ)
    → same_type type type ≡ true
    → pk.internal_hom ≡ b
    → type_of pk ≡ type
    → handle_schedule pk now s ≡ shoot_photon type b pk now s
    → HasFree pk s (suc n)
    → Shoots pk now s n
unfolding Shoots burst_trial_outdated
shoot_photon-Shoots b type pk now s n same i ty run h =
    let d : IsDistinct (table_of type s) = subst (λ x. IsDistinct (table_of x s)) ty h.distinct in
    let x : IsIndexed (table_of type s) = subst (λ x. IsIndexed (table_of x s)) ty h.indexed in
    let c : count_free_qubits_in_qnic (table_of type s) pk.qnic_index ≡ suc n =
      subst (λ x. count_free_qubits_in_qnic (table_of x s) pk.qnic_index ≡ suc n) ty h.free in
    let (qubit, t, e, d', x', c') = shoot_one type same pk now s n d x c b in
    let s1 = record s { engine = with_table type t s.engine } in
    let t_is : table_of (type_of pk) s1 ≡ t = ap (λ x. table_of x s1) ty ∙ replaced type t s same in
    (
      qubit,
      s1,
      run ∙ e ∙ (λ j. ok (
        some (
          now +ℤ (if pk.num_sent ==ℤ pos 0 then pk.timing else pk.interval),
          record {
            qubit_index = qubit;
            qnic_index = pk.qnic_index;
            qnic_address = pk.qnic_address;
            trial = pk.trial;
            qnic_type = sym ty j;
            kind = kind_of (pk.num_sent ==ℤ pos 0) (n == 0);
          },
          record pk { num_sent = suc_ℤ pk.num_sent; internal_hom = sym i j },
        ),
        s1,
      )),
      record {
        distinct = subst IsDistinct (sym t_is) d';
        indexed = subst IsIndexed (sym t_is) x';
        free = subst (λ x. count_free_qubits_in_qnic x pk.qnic_index ≡ n) (sym t_is) c';
        current = h.current;
      },
    )

shoots : (pk : Schedule) (now : ℤ) (s : Station) (n : ℕ) → HasFree pk s (suc n) → Shoots pk now s n
shoots pk now s n h = elim (Bool-cases pk.internal_hom) [
  | inl i ↦
      shoot_photon-Shoots true qnic_r pk now s n refl i
        (ap (λ (b : Bool). if b then qnic_r else qnic_e) i) (handle_inside pk now s i h.current) h
  | inr i ↦
      shoot_photon-Shoots false qnic_e pk now s n refl i
        (ap (λ (b : Bool). if b then qnic_r else qnic_e) i) (handle_outside pk now s i h.current) h
]

-- Without a free qubit an event does nothing.
stops :
    (pk : Schedule) (now : ℤ) (s : Station)
    → HasFree pk s 0
    → handle_schedule pk now s ≡ ok (none, s)
unfolding handle_schedule shoot_photon
stops pk now s h = elim (Bool-cases pk.internal_hom) [
  | inl i ↦
      let c : count_free_qubits_in_qnic (table_of qnic_r s) pk.qnic_index ≡ 0 =
        subst
          (λ (b : Bool).
            count_free_qubits_in_qnic (table_of (if b then qnic_r else qnic_e) s) pk.qnic_index ≡ 0)
          i h.free in
      rw (h.current, i, c)
  | inr i ↦
      let c : count_free_qubits_in_qnic (table_of qnic_e s) pk.qnic_index ≡ 0 =
        subst
          (λ (b : Bool).
            count_free_qubits_in_qnic (table_of (if b then qnic_r else qnic_e) s) pk.qnic_index ≡ 0)
          i h.free in
      rw (h.current, i, c)
]

kinds-cons : (first : Bool) (n : ℕ) → kind_of first (n == 0) ∷ kinds false n ≡ kinds first (suc n)
kinds-cons true zero = refl
kinds-cons true (suc n) = ground arith
kinds-cons false zero = refl
kinds-cons false (suc n) = ground arith

abbrev is_first : Schedule → Bool
is_first pk = pk.num_sent ==ℤ pos 0

abbrev pub kinds_of : List (ℤ × EmitPhotonRequest) → List ℕ
kinds_of [] = []
kinds_of (e ∷ es) = e.1.kind ∷ kinds_of es

abbrev pub times_of : List (ℤ × EmitPhotonRequest) → List ℤ
times_of [] = []
times_of (e ∷ es) = e.0 ∷ times_of es

-- A burst over a qnic with n free qubits, given more than n rounds of fuel, ends by itself: it emits
-- exactly n photons, the first of which is marked as the beginning, the last as the end and an only
-- one as both; the first photon comes after the timing of the burst and each other one an interval
-- after the one before it; and then no qubit of the qnic is free. This holds for any event of the
-- current trial whose table has distinct addresses and no index -1, and a later event of the burst
-- goes on without a beginning.
pub run_burst-all :
    (fuel n k : ℕ) (pk : Schedule) (now : ℤ) (s : Station)
    → pk.num_sent ≡ pos k
    → HasFree pk s n
    → n < fuel
    → (es : List (ℤ × EmitPhotonRequest)) × (s' : Station) × (run_burst fuel pk now s ≡ ok (es, s'))
      × (kinds_of es ≡ kinds (k == 0) n)
      × (times_of es ≡ times (now +ℤ (if k == 0 then pk.timing else pk.interval)) pk.interval n)
      × (count_free_qubits_in_qnic (table_of (type_of pk) s') pk.qnic_index ≡ 0)
unfolding run_burst Shoots
run_burst-all zero n k pk now s e h f = absurd (omega arith)
run_burst-all (suc fuel) zero k pk now s e h f = ([], s, rw (stops pk now s h), refl, refl, h.free)
run_burst-all (suc fuel) (suc n) k pk now s e h f =
    let (qubit, s1, run, h1) = shoots pk now s n h in
    let at = now +ℤ (if is_first pk then pk.timing else pk.interval) in
    let first : is_first pk ≡ (k == 0) = ap (λ x. x ==ℤ pos 0) e in
    let later : (k + 1 == 0) ≡ false = ground arith in
    let e1 : (next_of pk).num_sent ≡ pos (k + 1) = ap suc_ℤ e in
    let (es, s', rest, ks, ts, over) =
      run_burst-all fuel n (k + 1) (next_of pk) at s1 e1 h1 (omega arith) in
    let kind = kind_of (is_first pk) (n == 0) in
    let emt : EmitPhotonRequest = record {
      qubit_index = qubit;
      qnic_index = pk.qnic_index;
      qnic_address = pk.qnic_address;
      trial = pk.trial;
      qnic_type = type_of pk;
      kind = kind;
    } in
    (
      (at, emt) ∷ es,
      s',
      rw (run, rest),
      ap (λ l. kind ∷ l) (ks ∙ ap (λ b. kinds b n) later)
          ∙ kinds-cons (is_first pk) n
          ∙ ap (λ b. kinds b (suc n)) first,
      ap (λ l. at ∷ l)
            (ts
              ∙ ap (λ b. times (at +ℤ (if b then pk.timing else pk.interval)) pk.interval n) later)
          ∙ ap (λ b. times (now +ℤ (if b then pk.timing else pk.interval)) pk.interval (suc n))
              first,
      over,
    )
