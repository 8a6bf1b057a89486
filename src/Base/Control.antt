-- ===== src/Base/Control.antt =====
-- How a call of a Go function ends: it returns, or it panics.

use mathlib.Core.Path.{◌≡◌, subst}
use native.Mathlib.Omega.{arith}

pub data Panic : Type 0 where
  nil_pointer close_of_closed_channel index_out_of_range : Panic

pub data Outcome {ℓ} (A : Type ℓ) : Type ℓ where
  returned : A → Outcome A
  panicked : Panic → Outcome A

infixl 5 ◌>>=◌
abbrev pub ◌>>=◌ {ℓ κ} : {A : Type ℓ} {B : Type κ} → Outcome A → (A → Outcome B) → Outcome B
returned a >>= f = f a
panicked p >>= f = panicked p

-- The call returns, and its result has the property.
abbrev pub Returns {ℓ} : {A : Type ℓ} → (A → Type 0) → Outcome A → Type 0
Returns P (returned a) = P a
Returns P (panicked p) = ⊥

pub Returns-returned {ℓ} :
    {A : Type ℓ} (P : A → Type 0) (m : Outcome A) {a : A} → Returns P m → m ≡ returned a → P a
Returns-returned P (returned b) h e = subst P (ground arith) h
Returns-returned P (panicked p) h e = absurd h

pub Returns-bind {ℓ κ} :
    {A : Type ℓ} {B : Type κ} (P : A → Type 0) (Q : B → Type 0) (m : Outcome A) (f : A → Outcome B)
    → Returns P m
    → ((a : A) → P a → Returns Q (f a))
    → Returns Q (m >>= f)
Returns-bind P Q (returned a) f h k = k a h
Returns-bind P Q (panicked p) f h k = absurd h
