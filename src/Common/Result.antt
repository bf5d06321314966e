-- ===== src/Common/Result.antt =====
-- A call that may throw: its value, or the error. The state comes back only with a value, since
-- what the source changes is a fresh copy that a throw discards.
use mathlib.Core.Path.{◌≡◌, refl}
use mathlib.Core.Logic.{◌⊎◌, inl, inr}
use mathlib.Core.Bool.{Bool, true, false}
use mathlib.Core.Option.{Option, none, some}
use native.Mathlib.Omega.{arith}

-- One constructor for each kind of `throw new Error(…)`; `type_error` is a property of `undefined`.
pub data Error : Type 0 where
  -- Money
  empty_string invalid_decimal zero_denominator zero_divisor bad_increment : Error
  -- Portfolio
  type_error negative_external no_external bad_amount exceeds_deployable : Error
  already_reserved no_reservation exceeds_reservation : Error
  bad_quantity bad_anchor no_position exceeds_position : Error
  no_execution_id bad_fee_currency conflict : Error
  missing_identity bad_price bad_fee duplicate_order bad_authority : Error

pub data Result (A : Type 0) : Type 0 where
  ok : A → Result A
  err : Error → Result A

infixl 5 ◌>>=◌ ◌>>◌
abbrev pub ◌>>=◌ : {A B : Type 0} → Result A → (A → Result B) → Result B
err why >>= next = err why
ok value >>= next = next value

abbrev pub ◌>>◌ : {B : Type 0} → Result (Unit {0}) → Result B → Result B
check >> rest = check >>= λ _. rest

-- `if (b) throw e;`
abbrev pub throw_if : Bool → Error → Result (Unit {0})
throw_if true e = err e
throw_if false e = ok tt

-- `if (o === null) throw e;`, and then `o!`
abbrev pub or_throw : {A : Type 0} → Option A → Error → Result A
or_throw none e = err e
or_throw (some a) e = ok a

pub throw_if-ok :
    {A : Type 0} (b : Bool) (e : Error) (r : Result A) {a : A}
    → (throw_if b e >> r) ≡ ok a
    → (b ≡ false) × (r ≡ ok a)
throw_if-ok true e r h = cc
throw_if-ok false e r h = (refl, h)

pub or_throw-ok : {A : Type 0} (o : Option A) (e : Error) {a : A} → or_throw o e ≡ ok a → o ≡ some a
or_throw-ok none e h = cc
or_throw-ok (some x) e h = ground arith

-- Inversion of a successful bind.
pub >>=-eq-ok :
    {A B : Type 0} (call : Result A) (next : A → Result B) {final : B}
    → (call >>= next) ≡ ok final
    → (value : A) × (call ≡ ok value) × (next value ≡ ok final)
>>=-eq-ok (err why) next h = cc
>>=-eq-ok (ok value) next h = (value, refl, h)

pub ok-injective : {A : Type 0} {a b : A} → ok a ≡ ok b → a ≡ b
ok-injective h = ground (arith, h)

pub ok-ne-err : {A : Type 0} {a : A} {e : Error} → ok a ≡ err e → ⊥
ok-ne-err h = cc

pub Result-cases :
    {A : Type 0} (r : Result A) → ((e : Error) × (r ≡ err e)) ⊎ ((a : A) × (r ≡ ok a))
Result-cases (err e) = inl (e, refl)
Result-cases (ok a) = inr (a, refl)
