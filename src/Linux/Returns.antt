-- ===== src/Linux/Returns.antt =====
-- What a fallible call of the Linux engine returns, if it returns: rules for `?` and its loops.
use rattler_sandbox.Prelude.{◌≡◌, refl, sym, List, [], ◌∷◌}
use mathlib.Core.Path.{subst}
use mathlib.Core.List.{Memᴰ}
use rattler_sandbox.Linux.Types.{Result, ok, err, ◌>>=◌, for_each}

abbrev pub Returns {ℓ κ} : {A : Type ℓ} → (A → Type κ) → Result A → Type κ
Returns P (ok a) = P a
Returns P (err e) = Unit

pub Returns-any {ℓ} : {A : Type ℓ} (m : Result A) → Returns (λ _. Unit {0}) m
Returns-any (ok a) = tt
Returns-any (err e) = tt

pub Returns-self {ℓ} : {A : Type ℓ} (m : Result A) → Returns (λ a. m ≡ ok a) m
Returns-self (ok a) = refl
Returns-self (err e) = tt

module _ {ℓ κ} {A : Type ℓ} where
  pub Returns-ok : (P : A → Type κ) (m : Result A) {a : A} → Returns P m → m ≡ ok a → P a
  Returns-ok P m r e = subst (Returns P) e r

  pub Returns-imp :
      (P Q : A → Type κ) (m : Result A) → ((a : A) → P a → Q a) → Returns P m → Returns Q m
  Returns-imp P Q (ok a) f r = f a r
  Returns-imp P Q (err e) f r = tt

module _ {ℓ κ μ ν} {A : Type ℓ} {B : Type κ} (P : A → Type μ) (Q : B → Type ν) where
  pub Returns-bind :
      (m : Result A) (f : A → Result B)
      → Returns P m
      → ((a : A) → P a → Returns Q (f a))
      → Returns Q (m >>= f)
  Returns-bind (ok a) f r k = k a r
  Returns-bind (err e) f r k = tt

module _ {ℓ κ μ} {S : Type ℓ} {A : Type κ} (step : S → A → Result S) where
  -- What a step keeps the whole loop keeps.
  pub for_each-keeps :
      (P : S → Type μ)
      → ((s : S) (a : A) → P s → Returns P (step s a))
      → (s : S) (xs : List A) → P s
      → Returns P (for_each step s xs)
  unfolding for_each
  for_each-keeps P keep s [] h = h
  for_each-keeps P keep s (x ∷ xs) h =
      Returns-bind P P (step s x) (λ t. for_each step t xs) (keep s x h)
        (λ t r. for_each-keeps P keep t xs r)

  -- A step that adds something, which the others keep.
  pub for_each-adds :
      (P : A → S → Type μ)
      → ((s : S) (a : A) → Returns (P a) (step s a))
      → ((s : S) (a b : A) → P b s → Returns (P b) (step s a))
      → (s : S) (xs : List A) (b : A) → Memᴰ b xs
      → Returns (P b) (for_each step s xs)
  unfolding for_each
  for_each-adds P add keep s [] b m = elim m [ ]
  for_each-adds P add keep s (x ∷ xs) b (Memᴰ.head p) =
      subst (λ c. Returns (P c) (step s x >>= λ t. for_each step t xs)) (sym p)
        (Returns-bind (P x) (P x) (step s x) (λ t. for_each step t xs) (add s x)
          (λ t r. for_each-keeps (P x) (λ u a. keep u a x) t xs r))
  for_each-adds P add keep s (x ∷ xs) b (Memᴰ.tail m) =
      Returns-bind (λ _. Unit {0}) (P b) (step s x) (λ t. for_each step t xs)
        (Returns-any (step s x)) (λ t _. for_each-adds P add keep t xs b m)
