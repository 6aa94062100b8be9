-- ===== src/Prelude/Outcomes.antt =====
-- What a Python call comes to: it returns a value or raises. A stateful call is a function on the
-- state that it changes; what it wrote before it raised stays written.

use mathlib.Core.Path.{◌≡◌, refl, sym}
use mathlib.Core.Logic.{◌⊎◌, inl, inr}

-- The exceptions that the code raises or tells apart; every other one is `other`.
pub data Exc : Type 0 where
  json_error unicode_error key_error value_error type_error attribute_error : Exc
  runtime_error import_error other : Exc

pub data Outcome {ℓ} (A : Type ℓ) : Type ℓ where
  ret : A → Outcome A
  raise : Exc → Outcome A

abbrev pub and_then {ℓ κ} : {A : Type ℓ} {B : Type κ} → Outcome A → (A → Outcome B) → Outcome B
and_then (ret a) f = f a
and_then (raise e) f = raise e

infixl 5 ◌>>=◌
abbrev pub ◌>>=◌ {ℓ κ} : {A : Type ℓ} {B : Type κ} → Outcome A → (A → Outcome B) → Outcome B
m >>= f = and_then m f

-- To split on what a call came to and keep the equation.
pub Outcome-cases {ℓ} :
    {A : Type ℓ} (o : Outcome A) → ((a : A) × (o ≡ ret a)) ⊎ ((e : Exc) × (o ≡ raise e))
Outcome-cases (ret a) = inl (a, refl)
Outcome-cases (raise e) = inr (e, refl)

pub ret_inj {ℓ} : {A : Type ℓ} {a b : A} → ret a ≡ ret b → a ≡ b
ret_inj e = cc

pub ret-ne-raise {ℓ} : {A : Type ℓ} {a : A} {e : Exc} → ¬ (ret a ≡ raise e)
ret-ne-raise h = cc

-- A chain that returns went through both calls.
pub and_then-ret {ℓ κ} :
    {A : Type ℓ} {B : Type κ} (o : Outcome A) (f : A → Outcome B) (b : B)
    → and_then o f ≡ ret b
    → (a : A) × (o ≡ ret a) × (f a ≡ ret b)
and_then-ret (ret a) f b h = (a, refl, h)
and_then-ret (raise e) f b h = absurd (ret-ne-raise (sym h))
