-- ===== src/Base/Errors.antt =====
-- Go's `error` values, and the pair `(A, error)` of a fallible call as one value.
use Prim.Native.String.{String}
use mathlib.Core.Path.{◌≡◌, refl}
use mathlib.Core.Bool.{Bool, true, false}
use mathlib.Core.List.{List, []}
use ohinfra_plugins.Base.Int.{ℤ}
use ohinfra_plugins.Base.Texts.{Text}

-- `message` is `errors.New` or `fmt.Errorf`, with the arguments that the text formats; `wrapped`
-- is `fmt.Errorf` with `%w`, and `described` an `errors.New` of a text that holds another error's,
-- which it does not wrap. `exit_error` is `protocol.ExitError`, `bare_exit_error` the one whose
-- `Err` is nil. `primary_and_rollback` is the joint text that a failed transaction reports.
pub data Error : Type 0 where
  message : String → List Text → Error
  wrapped : String → Error → Error
  described : String → Error → Error
  exit_error : ℤ → Error → Error
  bare_exit_error : ℤ → Error
  primary_and_rollback : Error → Error → Error
  joined : Error → Error → Error
  canceled deadline_exceeded not_exist not_found end_of_input : Error
  permission identity_unavailable : Error

abbrev pub failure : String → Error
failure text = message text []

pub data Fallible {ℓ} (A : Type ℓ) : Type ℓ where
  ok : A → Fallible A
  err : Error → Fallible A

-- A function that returns an `error` alone.
abbrev pub Checked : Type 0
Checked = Fallible (Unit {0})

infixl 5 ◌>>=◌ ◌>>◌
abbrev pub ◌>>=◌ {ℓ κ} : {A : Type ℓ} {B : Type κ} → Fallible A → (A → Fallible B) → Fallible B
ok a >>= f = f a
err e >>= f = err e

abbrev pub ◌>>◌ {ℓ} : {B : Type ℓ} → Checked → Fallible B → Fallible B
m >> k = m >>= λ _. k

-- `if !b { return e }`
abbrev pub require : Bool → Error → Checked
require true e = ok tt
require false e = err e

pub require-eq-ok : (b : Bool) (e : Error) → require b e ≡ ok tt → b ≡ true
require-eq-ok true e h = refl
require-eq-ok false e h = cc

pub >>-eq-ok {ℓ} :
    {B : Type ℓ} (m : Checked) (k : Fallible B) {b : B} → (m >> k) ≡ ok b → (m ≡ ok tt) × (k ≡ ok b)
>>-eq-ok (ok tt) k h = (refl, h)
>>-eq-ok (err e) k h = cc

pub >>=-eq-ok {ℓ κ} :
    {A : Type ℓ} {B : Type κ} (result : Fallible A) (next : A → Fallible B) {last : B}
    → (result >>= next) ≡ ok last
    → (value : A) × (result ≡ ok value) × (next value ≡ ok last)
>>=-eq-ok (ok value) next same = (value, refl, same)
>>=-eq-ok (err e) next same = cc
