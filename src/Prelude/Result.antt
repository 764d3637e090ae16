-- ===== src/Prelude/Result.antt =====
-- Exceptions as values. One data type names the exception classes that the modelled code raises.
use mathlib.Core.Path.{◌≡◌, refl}
use mathlib.Core.Logic.{◌⊎◌, inl, inr}
use mathlib.Core.Bool.{Bool, true, false}
use mathlib.Core.Option.{Option, none, some}

pub data Error : Type 0 where
  value_error runtime_error assertion_error : Error
  integrity_error no_result_found : Error
  lifecycle_conflict shutdown_conflict invalid_forced_shutdown : Error
  host_power_conflict host_power_request backup_conflict backup_cancelled : Error
  worker_already_running password_too_short password_too_long : Error
  service_control host_power_control rest_operation : Error
  username_already_exists user_not_found self_management last_active_administrator : Error
  administrator_already_exists administrator_not_found invalid_username : Error
  ini_parse setting_value : Error
  settings_validation settings_conflict stored_settings : Error

-- What a call does: it raises, or it returns.
pub data Result {ℓ} (Value : Type ℓ) : Type ℓ where
  err : Error → Result Value
  ok : Value → Result Value

-- `if not test: raise error`
abbrev pub guard : Bool → Error → Result (Unit {0})
guard false error = err error
guard true error = ok tt

infixl 5 ◌>>=◌
abbrev pub ◌>>=◌ {ℓ κ} :
    {Value : Type ℓ} {Next : Type κ} → Result Value → (Value → Result Next) → Result Next
err error >>= next = err error
ok value >>= next = next value

infixl 5 ◌>>◌
abbrev pub ◌>>◌ {ℓ} : {Next : Type ℓ} → Result (Unit {0}) → Result Next → Result Next
check >> next = check >>= λ done. next

abbrev pub or_raise {ℓ} : {A : Type ℓ} → Option A → Error → Result A
or_raise none e = err e
or_raise (some a) e = ok a

-- `except IntegrityError as error: raise Other(...) from error`
abbrev pub reraise_integrity {ℓ} : {A : Type ℓ} → Error → Result A → Result A
reraise_integrity other (ok a) = ok a
reraise_integrity other (err Error.integrity_error) = err other
reraise_integrity other (err e) = err e

-- A call chain that returned: each call of it returned.
pub >>=-eq-ok {ℓ κ} :
    {Value : Type ℓ} {Next : Type κ} (call : Result Value) (next : Value → Result Next)
    {final : Next}
    → (call >>= next) ≡ ok final
    → (value : Value) × (call ≡ ok value) × (next value ≡ ok final)
>>=-eq-ok (err error) next returned = cc
>>=-eq-ok (ok value) next returned = (value, refl, returned)

pub Result-cases {ℓ} :
    {A : Type ℓ} (r : Result A) → ((a : A) × (r ≡ ok a)) ⊎ ((e : Error) × (r ≡ err e))
Result-cases (ok a) = inl (a, refl)
Result-cases (err e) = inr (e, refl)

-- A re-raised error is still an error.
pub reraise-eq-ok {ℓ} :
    {A : Type ℓ} (other : Error) (r : Result A) {a : A}
    → reraise_integrity other r ≡ ok a
    → r ≡ ok a
reraise-eq-ok other (ok a) h = h
reraise-eq-ok other (err Error.integrity_error) h = cc
reraise-eq-ok other (err _) h = cc

pub guard-eq-ok {ℓ} :
    {B : Type ℓ} (test : Bool) (e : Error) (k : Result B) {b : B}
    → (guard test e >> k) ≡ ok b
    → (test ≡ true) × (k ≡ ok b)
guard-eq-ok true e k h = (refl, h)
guard-eq-ok false e k h = cc
