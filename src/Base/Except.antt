-- ===== src/Base/Except.antt =====
-- C++ exceptions as values. The text of a JSON type error is the library's and is not modelled.
use mathlib.Core.Path.{◌≡◌, refl}
use mathlib.Core.Logic.{◌⊎◌, inl, inr}
use tool_smith.Base.Str.{Bytes}

pub data Exn : Type 0 where
  invalid_argument : Bytes → Exn
  runtime_error : Bytes → Exn
  type_error : Exn

pub data Except {ℓ} (A : Type ℓ) : Type ℓ where
  ok : A → Except A
  throw : Exn → Except A

infixl 5 ◌>>=◌
abbrev pub ◌>>=◌ {ℓ κ} : {A : Type ℓ} {B : Type κ} → Except A → (A → Except B) → Except B
ok a >>= f = f a
throw e >>= f = throw e

pub Except-cases {ℓ} :
    {A : Type ℓ} (x : Except A) → ((a : A) × (x ≡ ok a)) ⊎ ((e : Exn) × (x ≡ throw e))
Except-cases (ok a) = inl (a, refl)
Except-cases (throw e) = inr (e, refl)
