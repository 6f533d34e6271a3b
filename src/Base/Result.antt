-- ===== src/Base/Result.antt =====
-- Results of calls that may throw an exception or stop the process.
use mathlib.Core.Bool.{Bool, true, false}
use mathlib.Core.Path.{◌≡◌, refl, ap}
use Prim.Native.String.{String}
use native.Mathlib.Omega.{arith}

-- `exception` is a thrown NighthawkException (or a class derived from it); `abort` is a failed
-- RELEASE_ASSERT or a PANIC, after which the process is gone.
pub data Failure : Type 0 where
  exception : String → Failure
  abort : Failure

pub data Result {ℓ} (A : Type ℓ) : Type ℓ where
  err : Failure → Result A
  ok : A → Result A

infixl 5 ◌>>=◌ ◌>>◌
-- What follows a call, in a do block.
abbrev pub ◌>>=◌ {ℓ κ} : {A : Type ℓ} {B : Type κ} → Result A → (A → Result B) → Result B
err failure >>= next = err failure
ok value >>= next = next value

abbrev pub throw_if : Bool → String → Result (Unit {0})
throw_if true message = err (exception message)
throw_if false message = ok tt

abbrev pub release_assert : Bool → Result (Unit {0})
release_assert true = ok tt
release_assert false = err abort

abbrev pub ◌>>◌ {ℓ} : {B : Type ℓ} → Result (Unit {0}) → Result B → Result B
err failure >> next = err failure
ok passed >> next = next

pub ok-injective {ℓ} : {A : Type ℓ} (a b : A) → ok a ≡ ok b → a ≡ b
ok-injective a b h = ap (λ r. elim r [ ok x ↦ x | err e ↦ a ]) h

-- A chain of calls that succeeds has succeeded in each of them.
pub bind-ok {ℓ κ} :
    {A : Type ℓ} {B : Type κ} (r : Result A) (next : A → Result B) (b : B)
    → (r >>= next) ≡ ok b
    → (a : A) × (r ≡ ok a) × (next a ≡ ok b)
bind-ok (ok a) next b h = (a, refl, h)
bind-ok (err e) next b h = ground (arith, h)

pub throw_if-ok :
    {B : Type 0} (test : Bool) (message : String) (next : Result B) (b : B)
    → (throw_if test message >> next) ≡ ok b
    → (test ≡ false) × (next ≡ ok b)
throw_if-ok false message next b h = (refl, h)
throw_if-ok true message next b h = ground (arith, h)
