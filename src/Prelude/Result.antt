-- ===== src/Prelude/Result.antt =====
-- A Go result `(value, error)` of which exactly one is meant.
use mathlib.Core.Path.{◌≡◌, refl}

pub data Result {ℓ} (E A : Type ℓ) : Type ℓ where
  ok : A → Result E A
  err : E → Result E A

infixl 5 ◌>>=◌
abbrev pub ◌>>=◌ {ℓ} : {E A B : Type ℓ} → Result E A → (A → Result E B) → Result E B
ok a >>= f = f a
err e >>= f = err e

-- Where a chain has a value, its first step has one, from which the others get it.
pub chain_ok {ℓ} :
    {E A B : Type ℓ} (first : Result E A) (after : A → Result E B) {y : B}
    → (first >>= after) ≡ ok y
    → (x : A) × (first ≡ ok x) × (after x ≡ ok y)
chain_ok (err e) after h = cc
chain_ok (ok x) after h = (x, refl, h)
