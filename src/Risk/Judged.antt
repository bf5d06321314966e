-- ===== src/Risk/Judged.antt =====
-- risk/RiskManager.ts returns a rejection from any depth (`if (gate !== null) return gate`): a
-- judged value is the value, or the rejection that ends the evaluation, or what was thrown.
use cryptotradingbot.Common.{◌≡◌, refl, Bool, true, false, Option, none, some, arith}
use cryptotradingbot.Common.Result.{Error, Result, ok, err}
use cryptotradingbot.Risk.Model.{RiskReason}

pub data Judged (A : Type 0) : Type 0 where
  go : A → Judged A
  reject : RiskReason → Judged A
  throw : Error → Judged A

infixl 5 ◌>>=◌ ◌>>◌
abbrev pub ◌>>=◌ : {A B : Type 0} → Judged A → (A → Judged B) → Judged B
throw e >>= next = throw e
reject why >>= next = reject why
go value >>= next = next value

abbrev pub ◌>>◌ : {B : Type 0} → Judged (Unit {0}) → Judged B → Judged B
gate >> rest = gate >>= λ _. rest

abbrev pub reject_if : Bool → RiskReason → Judged (Unit {0})
reject_if true why = reject why
reject_if false why = go tt

abbrev pub or_reject : {A : Type 0} → Option A → RiskReason → Judged A
or_reject none why = reject why
or_reject (some value) why = go value

-- A call that may throw.
abbrev pub call : {A : Type 0} → Result A → Judged A
call (ok value) = go value
call (err e) = throw e

pub >>=-go :
    {A B : Type 0} (m : Judged A) (next : A → Judged B) {final : B}
    → (m >>= next) ≡ go final
    → (value : A) × (m ≡ go value) × (next value ≡ go final)
>>=-go (go value) next h = (value, refl, h)
>>=-go (reject why) next h = cc
>>=-go (throw e) next h = cc

pub reject_if-go :
    {B : Type 0} (b : Bool) (why : RiskReason) (rest : Judged B) {final : B}
    → (reject_if b why >> rest) ≡ go final
    → (b ≡ false) × (rest ≡ go final)
reject_if-go true why rest h = cc
reject_if-go false why rest h = (refl, h)

pub or_reject-go :
    {A : Type 0} (o : Option A) (why : RiskReason) {a : A} → or_reject o why ≡ go a → o ≡ some a
or_reject-go none why h = cc
or_reject-go (some x) why h = ground (arith, h)

pub call-go : {A : Type 0} (r : Result A) {a : A} → call r ≡ go a → r ≡ ok a
call-go (ok x) h = ground (arith, h)
call-go (err e) h = cc

pub go-injective : {A : Type 0} {a b : A} → go a ≡ go b → a ≡ b
go-injective h = ground (arith, h)
