-- ===== src/Base/Status.antt =====
-- absl::Status and absl::StatusOr, as the adaptive load controller and the sinks use them.
use Prim.Native.String.{String}
use mathlib.Core.Path.{◌≡◌, refl, ap}
use mathlib.Core.Logic.{◌⊎◌, inl, inr}
use mathlib.Core.Bool.{Bool, true, false}

pub data StatusCode : Type 0 where
  invalid_argument deadline_exceeded aborted internal not_found unimplemented unavailable :
      StatusCode
  unknown : StatusCode

pub record Error : Type 0 where
  pub code : StatusCode
  pub message : String

pub data StatusOr {ℓ} (A : Type ℓ) : Type ℓ where
  ok : A → StatusOr A
  error : Error → StatusOr A

infixl 5 ◌>>=◌
abbrev pub ◌>>=◌ {ℓ κ} : {A : Type ℓ} {B : Type κ} → StatusOr A → (A → StatusOr B) → StatusOr B
error status >>= next = error status
ok value >>= next = next value

abbrev pub fail_with {ℓ} : {A : Type ℓ} → StatusCode → String → StatusOr A
fail_with code message = error (record { code = code; message = message })

pub StatusOr-cases {ℓ} :
    {A : Type ℓ} (s : StatusOr A) → ((e : Error) × (s ≡ error e)) ⊎ ((a : A) × (s ≡ ok a))
StatusOr-cases (ok a) = inr (a, refl)
StatusOr-cases (error e) = inl (e, refl)

pub ok-injective {ℓ} : {A : Type ℓ} (a b : A) → ok a ≡ ok b → a ≡ b
ok-injective a b h = ap (λ s. elim s [ ok x ↦ x | error e ↦ a ]) h

-- absl::StrCat of a code.
abbrev pub code_text : StatusCode → String
code_text unknown = "2"
code_text invalid_argument = "3"
code_text deadline_exceeded = "4"
code_text not_found = "5"
code_text aborted = "10"
code_text unimplemented = "12"
code_text internal = "13"
code_text unavailable = "14"

abbrev pub is_unimplemented : StatusCode → Bool
is_unimplemented unimplemented = true
is_unimplemented code = false
