-- ===== src/Prelude/Options.antt =====
-- `?` on an `Option`, and `unwrap_or`.
use mathlib.Core.Option.{Option, none, some}

module _ {ℓ ℓ'} {A : Type ℓ} {B : Type ℓ'} where
  infixl 10 ◌>>=◌
  abbrev pub ◌>>=◌ : Option A → (A → Option B) → Option B
  none >>= f = none
  (some a) >>= f = f a

module _ {ℓ} {A : Type ℓ} where
  abbrev pub unwrap_or : A → Option A → A
  unwrap_or d none = d
  unwrap_or d (some a) = a
