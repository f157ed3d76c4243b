-- ===== src/Prelude/Members.antt =====
-- Membership with its place, the library's `Memᴰ`, and what the adaptors keep of it.
use mathlib.Core.Path.{◌≡◌, refl, sym, ap, subst, ◌∙◌}
use mathlib.Core.Logic.{◌⊎◌, inl, inr, ◌↔◌}
use mathlib.Core.Bool.{Bool, true, false}
use mathlib.Core.Option.{Option, none, some}
use mathlib.Core.List.{map, List, [], ◌∷◌, ◌++◌, Memᴰ}
use native.Mathlib.Omega.{arith}
use mathlib.Core.List.{foldl}
use rattler_sandbox.Prelude.Tests.{if◌then◌else◌, Bool-cases, Eq, ◌==◌, ==-eq}
use rattler_sandbox.Prelude.Lists.{any, all, filter, filter_map, contains}

-- The same members, whatever their order and their number.
abbrev pub SameMembers {ℓ} : {A : Type ℓ} → List A → List A → Type ℓ
SameMembers {A} xs ys = (a : A) → Memᴰ a xs ↔ Memᴰ a ys

module _ {ℓ} {A : Type ℓ} where
  pub mem-append_left : (a : A) (xs ys : List A) → Memᴰ a xs → Memᴰ a (xs ++ ys)
  mem-append_left a (x ∷ xs) ys (Memᴰ.head e) = Memᴰ.head e
  mem-append_left a (x ∷ xs) ys (Memᴰ.tail m) = Memᴰ.tail (mem-append_left a xs ys m)
  mem-append_left a [] ys m = elim m [ ]

  pub mem-append_right : (a : A) (xs ys : List A) → Memᴰ a ys → Memᴰ a (xs ++ ys)
  mem-append_right a [] ys m = m
  mem-append_right a (x ∷ xs) ys m = Memᴰ.tail (mem-append_right a xs ys m)

  pub mem_of_append : (a : A) (xs ys : List A) → Memᴰ a (xs ++ ys) → Memᴰ a xs ⊎ Memᴰ a ys
  mem_of_append a [] ys m = inr m
  mem_of_append a (x ∷ xs) ys (Memᴰ.head e) = inl (Memᴰ.head e)
  mem_of_append a (x ∷ xs) ys (Memᴰ.tail m) = elim (mem_of_append a xs ys m) [
    | inl k ↦ inl (Memᴰ.tail k)
    | inr k ↦ inr k
  ]

  pub mem-filter :
      (f : A → Bool) (a : A) (xs : List A) → Memᴰ a xs → f a ≡ true → Memᴰ a (filter f xs)
  mem-filter f a [] m h = elim m [ ]
  mem-filter f a (x ∷ xs) (Memᴰ.head e) h =
      subst (λ b. Memᴰ a (if b then x ∷ filter f xs else filter f xs)) (sym h ∙ ap f e)
        (Memᴰ.head e)
  mem-filter f a (x ∷ xs) (Memᴰ.tail m) h = elim (Bool-cases (f x)) [
    | inl k ↦ rw k (Memᴰ.tail (mem-filter f a xs m h))
    | inr k ↦ rw k (mem-filter f a xs m h)
  ]

  pub mem_of_filter :
      (f : A → Bool) (a : A) (xs : List A) → Memᴰ a (filter f xs) → Memᴰ a xs × (f a ≡ true)
  mem_of_filter f a [] m = elim m [ ]
  mem_of_filter f a (x ∷ xs) m = elim (Bool-cases (f x)) [
    | inl k ↦ by_cons (mem_of_filter f a xs) k (rw k at m)
    | inr k ↦ let (n, h) = mem_of_filter f a xs (rw k at m) in (Memᴰ.tail n, h)
  ]
    where
      by_cons :
          (Memᴰ a (filter f xs) → Memᴰ a xs × (f a ≡ true))
          → f x ≡ true
          → Memᴰ a (x ∷ filter f xs)
          → Memᴰ a (x ∷ xs) × (f a ≡ true)
      by_cons rest k (Memᴰ.head e) = (Memᴰ.head e, ap f e ∙ k)
      by_cons rest k (Memᴰ.tail n) = let (m', h) = rest n in (Memᴰ.tail m', h)

  pub any_of_mem : (f : A → Bool) (a : A) (xs : List A) → Memᴰ a xs → f a ≡ true → any f xs ≡ true
  any_of_mem f a [] m h = elim m [ ]
  any_of_mem f a (x ∷ xs) (Memᴰ.head e) h = ground (arith, ap f e)
  any_of_mem f a (x ∷ xs) (Memᴰ.tail m) h = ground (arith, any_of_mem f a xs m h)

  pub mem_of_any :
      (f : A → Bool) (xs : List A) → any f xs ≡ true → (a : A) × Memᴰ a xs × (f a ≡ true)
  mem_of_any f [] h = absurd (ground arith)
  mem_of_any f (x ∷ xs) h = elim (Bool-cases (f x)) [
    | inl k ↦ (x, Memᴰ.head refl, k)
    | inr k ↦ let (a, m, e) = mem_of_any f xs (rw k at h) in (a, Memᴰ.tail m, e)
  ]

  -- A test that fails for all fails for each.
  pub false_of_any :
      (f : A → Bool) (a : A) (xs : List A) → any f xs ≡ false → Memᴰ a xs → f a ≡ false
  false_of_any f a xs h m = elim (Bool-cases (f a)) [
    | inl k ↦ absurd (cc (any_of_mem f a xs m k))
    | inr k ↦ k
  ]

  pub true_of_all : (f : A → Bool) (a : A) (xs : List A) → all f xs ≡ true → Memᴰ a xs → f a ≡ true
  true_of_all f a [] h m = elim m [ ]
  true_of_all f a (x ∷ xs) h (Memᴰ.head e) = ground (arith, ap f e)
  true_of_all f a (x ∷ xs) h (Memᴰ.tail m) = true_of_all f a xs (ground arith) m

module _ {κ} {B : Type κ} where
  keep : Option B → List B → List B
  keep none ys = ys
  keep (some y) ys = y ∷ ys

  mem-keep : (o : Option B) (b : B) (ys : List B) → Memᴰ b ys → Memᴰ b (keep o ys)
  unfolding keep
  mem-keep none b ys m = m
  mem-keep (some y) b ys m = Memᴰ.tail m

  mem_of_keep : (o : Option B) (b : B) (ys : List B) → Memᴰ b (keep o ys) → (o ≡ some b) ⊎ Memᴰ b ys
  unfolding keep
  mem_of_keep none b ys m = inr m
  mem_of_keep (some y) b ys (Memᴰ.head e) = inl (ap some (sym e))
  mem_of_keep (some y) b ys (Memᴰ.tail m) = inr m

module _ {ℓ κ} {A : Type ℓ} {B : Type κ} where
  filter_map-cons :
      (f : A → Option B) (x : A) (xs : List A)
      → filter_map f (x ∷ xs) ≡ keep (f x) (filter_map f xs)
  unfolding keep
  filter_map-cons f x xs = ground arith

  pub mem-filter_map :
      (f : A → Option B) (a : A) (b : B) (xs : List A)
      → Memᴰ a xs
      → f a ≡ some b
      → Memᴰ b (filter_map f xs)
  unfolding keep
  mem-filter_map f a b [] m h = elim m [ ]
  mem-filter_map f a b (x ∷ xs) (Memᴰ.head e) h =
      rw filter_map-cons
        (subst (λ o. Memᴰ b (keep o (filter_map f xs))) (sym h ∙ ap f e) (Memᴰ.head refl))
  mem-filter_map f a b (x ∷ xs) (Memᴰ.tail m) h =
      rw filter_map-cons (mem-keep (f x) b _ (mem-filter_map f a b xs m h))

  pub mem_of_filter_map :
      (f : A → Option B) (b : B) (xs : List A)
      → Memᴰ b (filter_map f xs)
      → (a : A) × Memᴰ a xs × (f a ≡ some b)
  mem_of_filter_map f b [] m = elim m [ ]
  mem_of_filter_map f b (x ∷ xs) m = elim (mem_of_keep (f x) b _ (rw filter_map-cons at m)) [
    | inl h ↦ (x, Memᴰ.head refl, h)
    | inr n ↦ let (a, k, h) = mem_of_filter_map f b xs n in (a, Memᴰ.tail k, h)
  ]

module _ {ℓ} {A : Type ℓ} ⦃e : Eq A⦄ where
  pub mem_of_contains : (a : A) (xs : List A) → contains a xs ≡ true → Memᴰ a xs
  mem_of_contains a [] h = absurd (ground arith)
  mem_of_contains a (x ∷ xs) h = elim (Bool-cases (x == a)) [
    | inl k ↦ Memᴰ.head (sym (==-eq x a k))
    | inr k ↦ Memᴰ.tail (mem_of_contains a xs (ground arith))
  ]

  pub contains_of_mem : (a : A) (xs : List A) → Memᴰ a xs → contains a xs ≡ true
  contains_of_mem a [] m = elim m [ ]
  contains_of_mem a (x ∷ xs) (Memᴰ.head p) = ground arith
  contains_of_mem a (x ∷ xs) (Memᴰ.tail m) = ground (arith, contains_of_mem a xs m)

-- What a step keeps the whole loop keeps, and what a step adds stays.
module _ {ℓ κ} {S : Type ℓ} {A : Type κ} (step : S → A → S) where
  pub foldl-keeps {μ} :
      (P : S → Type μ)
      → ((s : S) (a : A) → P s → P (step s a))
      → (s : S) (xs : List A) → P s
      → P (foldl step s xs)
  foldl-keeps P keep s [] h = h
  foldl-keeps P keep s (x ∷ xs) h = foldl-keeps P keep (step s x) xs (keep s x h)

  pub foldl-adds {μ} :
      (P : A → S → Type μ)
      → ((s : S) (a : A) → P a (step s a))
      → ((s : S) (a b : A) → P b s → P b (step s a))
      → (s : S) (xs : List A) (b : A) → Memᴰ b xs
      → P b (foldl step s xs)
  foldl-adds P add keep s [] b m = elim m [ ]
  foldl-adds P add keep s (x ∷ xs) b (Memᴰ.head p) =
      subst (λ c. P c (foldl step (step s x) xs)) (sym p)
        (foldl-keeps (P x) (λ t a. keep t a x) (step s x) xs (add s x))
  foldl-adds P add keep s (x ∷ xs) b (Memᴰ.tail m) = foldl-adds P add keep (step s x) xs b m

pub filter_map-append {ℓ κ} :
    {A : Type ℓ} {B : Type κ} (f : A → Option B) (xs ys : List A)
    → filter_map f (xs ++ ys) ≡ filter_map f xs ++ filter_map f ys
filter_map-append f [] ys = refl
filter_map-append f (x ∷ xs) ys = ground (arith, filter_map-append f xs ys)

pub mem-map {ℓ κ} :
    {A : Type ℓ} {B : Type κ}
    → (f : A → B) (a : A) (xs : List A) → Memᴰ a xs
    → Memᴰ (f a) (map f xs)
mem-map f a [] m = elim m [ ]
mem-map f a (x ∷ xs) (Memᴰ.head e) = Memᴰ.head (ap f e)
mem-map f a (x ∷ xs) (Memᴰ.tail m) = Memᴰ.tail (mem-map f a xs m)

pub mem_of_map {ℓ κ} :
    {A : Type ℓ} {B : Type κ} (f : A → B) (b : B) (xs : List A)
    → Memᴰ b (map f xs)
    → (a : A) × Memᴰ a xs × (f a ≡ b)
mem_of_map f b [] m = elim m [ ]
mem_of_map f b (x ∷ xs) (Memᴰ.head e) = (x, Memᴰ.head refl, sym e)
mem_of_map f b (x ∷ xs) (Memᴰ.tail m) = let (a, n, e) = mem_of_map f b xs m in (a, Memᴰ.tail n, e)
