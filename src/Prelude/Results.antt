-- ===== src/Prelude/Results.antt =====
-- Exceptions as values. The program's exception classes carry a text; a database error of the
-- driver carries none that the program reads.
use Prim.Native.String.{String}
use mathlib.Core.Bool.{Bool, true, false, not}
use mathlib.Core.Option.{Option, none, some}
use mathlib.Core.Path.{◌≡◌, refl}
use native.Mathlib.Omega.{arith}
use maoxx_os.Prelude.Tests.{if◌then◌else◌}

pub data Error : Type 0 where
  -- DeploymentPolicyError, DeploymentGateError, ApprovalValidationError, ValueError
  policy_error gate_error validation_error value_error : String → Error
  -- sqlalchemy.exc.IntegrityError, NoResultFound
  integrity_error no_result_found : Error
  -- SupervisorError, ResourceAuthorityError, IdentityAuthorityError, and any other exception
  supervisor_error resource_error identity_error : String → Error
  other_exception : Error

pub data Result {ℓ} (A : Type ℓ) : Type ℓ where
  err : Error → Result A
  ok : A → Result A

infixl 5 ◌>>=◌
abbrev pub ◌>>=◌ {ℓ κ} : {A : Type ℓ} {B : Type κ} → Result A → (A → Result B) → Result B
err e >>= f = err e
ok a >>= f = f a

infixl 5 ◌>>◌
abbrev pub ◌>>◌ {ℓ} : {B : Type ℓ} → Result (Unit {0}) → Result B → Result B
m >> k = m >>= λ _. k

-- `if c: raise e`
abbrev pub raise_if : Bool → Error → Result (Unit {0})
raise_if c e = if c then err e else ok tt

-- `if value is None: raise e`
abbrev pub or_raise {ℓ} : {A : Type ℓ} → Option A → Error → Result A
or_raise none e = err e
or_raise (some a) e = ok a

-- What holds of a result that was returned.
abbrev pub Returned {ℓ κ} : {A : Type ℓ} → (A → Type κ) → Result A → Type κ
Returned P r = elim r [ ok a ↦ P a | err _ ↦ Unit ]

-- A `do` block that returned has passed each of its steps.
pub raise_if-ok {ℓ} :
    {B : Type ℓ} (c : Bool) (e : Error) (k : Result B) {b : B}
    → (raise_if c e >> k) ≡ ok b
    → (c ≡ false) × (k ≡ ok b)
raise_if-ok true e k h = cc
raise_if-ok false e k h = (refl, h)

pub or_raise-ok {ℓ κ} :
    {A : Type ℓ} {B : Type κ} (o : Option A) (e : Error) (f : A → Result B) {b : B}
    → (or_raise o e >>= f) ≡ ok b
    → (a : A) × (o ≡ some a) × (f a ≡ ok b)
or_raise-ok none e f h = cc
or_raise-ok (some a) e f h = (a, refl, h)

pub bind-ok {ℓ κ} :
    {A : Type ℓ} {B : Type κ} (first : Result A) (next : A → Result B) {z : B}
    → first >>= next ≡ ok z
    → (x : A) × (first ≡ ok x) × (next x ≡ ok z)
bind-ok (err e) next h = cc
bind-ok (ok x) next h = (x, refl, h)

pub not_false→true : (b : Bool) → not b ≡ false → b ≡ true
not_false→true b h = ground arith
