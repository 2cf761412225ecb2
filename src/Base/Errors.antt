-- ===== src/Base/Errors.antt =====
-- Results of code that throws or that runs into undefined behaviour.
use mathlib.Core.Path.{◌≡◌, refl, ap}
use mathlib.Core.Logic.{◌⊎◌, inl, inr}
use mathlib.Core.Bool.{Bool, true, false}
use link_server.Base.Tests.{if◌then◌else◌}

-- `out_of_range` is the exception that the code throws; the others are faults of the machine:
-- a null pointer, a division by zero, an access outside an object, a read of memory that nothing
-- has written, a loop that did not end within its
-- fuel, and an assertion that failed.
pub data Error : Type 0 where
  out_of_range null_deref div_by_zero out_of_bounds uninitialised no_fuel assertion : Error

pub data Result {ℓ} (A : Type ℓ) : Type ℓ where
  ok : A → Result A
  err : Error → Result A

infixl 5 ◌>>=◌
abbrev pub ◌>>=◌ {ℓ κ} : {A : Type ℓ} {B : Type κ} → Result A → (A → Result B) → Result B
ok a >>= f = f a
err e >>= f = err e

-- A chain that gives a result gives one at its first step.
pub ok-bind {ℓ κ} :
    {A : Type ℓ} {B : Type κ} (r : Result A) (f : A → Result B) (b : B)
    → (r >>= f) ≡ ok b
    → (a : A) × (r ≡ ok a) × (f a ≡ ok b)
ok-bind (ok a) f b h = (a, refl, h)
ok-bind (err e) f b h = cc h

pub ok-inj {ℓ} : {A : Type ℓ} {a b : A} → ok a ≡ ok b → a ≡ b
ok-inj {a = a} h = ap (λ r. elim r [ ok x ↦ x | err e ↦ a ]) h

-- Which branch gave a result.
pub if-ok {ℓ} :
    {A : Type ℓ} (b : Bool) (x y : Result A) (a : A)
    → (if b then x else y) ≡ ok a
    → (b ≡ true) × (x ≡ ok a) ⊎ (b ≡ false) × (y ≡ ok a)
if-ok true x y a h = inl (refl, h)
if-ok false x y a h = inr (refl, h)
