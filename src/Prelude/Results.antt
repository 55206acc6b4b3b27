-- ===== src/Prelude/Results.antt =====
-- A handler of the simulator either completes or stops the run by an error.
use mathlib.Core.Path.{◌≡◌, refl}
use mathlib.Core.Logic.{◌⊎◌, inl, inr}
use mathlib.Core.Bool.{Bool, true, false}
use mathlib.Core.Option.{Option, none, some}
use quisp.Prelude.Tests.{if◌then◌else◌}

-- One constructor for each `error(...)` of the modelled code, and `out_of_range` for the exception
-- of `std::vector::at`; `out_of_fuel` is the end of a bounded walk.
pub data Error : Type 0 where
  out_of_range : Error
  address_not_found qnic_not_free qnic_not_reserved : Error
  path_division_failed route_to_self no_route_to_source endpoint_qnic_index : Error
  endnode_as_swapper not_a_swapper node_not_in_path msm_not_implemented : Error
  no_qnic_to_destination no_qnic_to_source : Error
  state_not_known mixed_flag excited_flag transition_matrix lock_without_id : Error
  no_such_module no_free_qubit already_busy already_free : Error
  rule_at_end upgrade_not_found discard_not_found unreachable out_of_fuel : Error
  null_pointer too_many_connections entangling_failed not_stored : Error
  interface_not_found not_implemented unknown_qnic_type shot_not_recorded no_qnic_to_clear : Error
  partner_lost partner_differs ebit_wrong resource_not_added empty_rule_set unknown_purification
        operation_not_recorded :
      Error

-- How a handler ends: stopped, or with a value.
pub data Result {ℓ} (A : Type ℓ) : Type ℓ where
  err : Error → Result A
  ok : A → Result A

-- `if (b) error(...)`
abbrev pub fail_if : Bool → Error → Result (Unit {0})
fail_if true e = err e
fail_if false e = ok tt

abbrev pub or_fail {ℓ} : {A : Type ℓ} → Option A → Error → Result A
or_fail none e = err e
or_fail (some a) e = ok a

-- An error skips what follows.
infixl 5 ◌>>=◌
abbrev pub ◌>>=◌ {ℓ κ} : {A : Type ℓ} → {B : Type κ} → Result A → (A → Result B) → Result B
err e >>= rest = err e
ok a >>= rest = rest a

infixl 5 ◌>>◌
abbrev pub ◌>>◌ {ℓ} : {B : Type ℓ} → Result (Unit {0}) → Result B → Result B
first >> rest = first >>= λ u. rest

module _ {ℓ} {A : Type ℓ} where
  pub Result-cases : (r : Result A) → ((a : A) × (r ≡ ok a)) ⊎ ((e : Error) × (r ≡ err e))
  Result-cases (ok a) = inl (a, refl)
  Result-cases (err e) = inr (e, refl)

  pub err_not_ok : (e : Error) (a : A) → err e ≡ ok a → ⊥
  err_not_ok e a h = cc

-- A chain that completes has a first part that does.
pub bind_ok {ℓ κ} :
    {A : Type ℓ} {B : Type κ} (r : Result A) (f : A → Result B) (b : B)
    → (r >>= f) ≡ ok b
    → (a : A) × (r ≡ ok a) × (f a ≡ ok b)
bind_ok (ok a) f b h = (a, refl, h)
bind_ok (err e) f b h = absurd (err_not_ok e b h)

pub ok_injective {ℓ} : {A : Type ℓ} (a b : A) → ok a ≡ ok b → a ≡ b
ok_injective a b h = cc

-- What follows from the completion of either branch follows from that of the conditional.
pub if_ok {ℓ κ} :
    {A : Type ℓ} {C : Type κ} (b : Bool) (x y : Result A) (a : A)
    → (x ≡ ok a → C)
    → (y ≡ ok a → C)
    → (if b then x else y) ≡ ok a
    → C
if_ok true x y a f g h = f h
if_ok false x y a f g h = g h
