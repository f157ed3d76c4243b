-- ===== src/Prelude/Options.antt =====
-- Rust's methods of `Option`, and the monad for `?` and `let … else`.
use mathlib.Core.Bool.{Bool, true, false}
use mathlib.Core.Option.{Option, none, some}
use mathlib.Core.Path.{◌≡◌, refl}
use rattler_sandbox.Prelude.Tests.{if◌then◌else◌}

module _ {ℓ κ} {A : Type ℓ} {B : Type κ} where
  infixl 5 ◌>>=◌
  abbrev pub ◌>>=◌ : Option A → (A → Option B) → Option B
  none >>= f = none
  some a >>= f = f a

  abbrev pub map_option : (A → B) → Option A → Option B
  map_option f none = none
  map_option f (some a) = some (f a)

module _ {ℓ} {A : Type ℓ} where
  abbrev pub unwrap_or : Option A → A → A
  unwrap_or none d = d
  unwrap_or (some a) d = a

  abbrev pub is_some : Option A → Bool
  is_some none = false
  is_some (some a) = true

  abbrev pub is_some_and : (A → Bool) → Option A → Bool
  is_some_and f none = false
  is_some_and f (some a) = f a

-- What a result of a chain says of its parts.
module _ {ℓ κ} {A : Type ℓ} {B : Type κ} where
  pub some_of_bind :
      (o : Option A) (f : A → Option B) (b : B)
      → (o >>= f) ≡ some b
      → (a : A) × (o ≡ some a) × (f a ≡ some b)
  some_of_bind none f b h = absurd (cc h)
  some_of_bind (some a) f b h = (a, refl, h)

module _ {ℓ} {A : Type ℓ} where
  pub some_of_else :
      (t : Bool) (o : Option A) (a : A)
      → (if t then none else o) ≡ some a
      → (t ≡ false) × (o ≡ some a)
  some_of_else true o a h = absurd (cc h)
  some_of_else false o a h = (refl, h)

  pub some_of_then :
      (t : Bool) (o : Option A) (a : A)
      → (if t then o else none) ≡ some a
      → (t ≡ true) × (o ≡ some a)
  some_of_then true o a h = (refl, h)
  some_of_then false o a h = absurd (cc h)
