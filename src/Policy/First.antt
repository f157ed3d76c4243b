-- ===== src/Policy/First.antt =====
-- The head of what `filter` and `filter_map` leave of a list.
use mathlib.Core.List.{Memᴰ}
use mathlib.Core.Path.{subst}
use rattler_sandbox.Prelude.{
  ◌≡◌, refl, sym, ap, ◌∙◌, inl, inr, Bool, true, Option, none, some, List, [], ◌∷◌, ◌++◌,
  Bool-cases, head?, filter, filter_map, mem-filter, mem-filter_map,
}

-- The first element that passes a test and has an image.
pub record First {ℓ κ} {A : Type ℓ} {B : Type κ} (p : A → Bool) (f : A → Option B) (xs : List A)
    (b : B) : Type (ℓ ⊔ κ) where
  pub before : List A
  pub found : A
  pub after : List A
  pub parts : xs ≡ before ++ (found ∷ after)
  pub passes : p found ≡ true
  pub image : f found ≡ some b
  pub others : (a : A) → Memᴰ a before → p a ≡ true → f a ≡ none

module _ {ℓ κ} {A : Type ℓ} {B : Type κ} (p : A → Bool) (f : A → Option B) where
  First-behind :
      (x : A) (xs : List A) (b : B)
      → (p x ≡ true → f x ≡ none)
      → First p f xs b
      → First p f (x ∷ xs) b
  First-behind x xs b none_here first = record {
    before = x ∷ first.before;
    found = first.found;
    after = first.after;
    parts = ap (λ (l : List A). x ∷ l) first.parts;
    passes = first.passes;
    image = first.image;
    others = λ a m. by_place a m;
  }
    where
      by_place : (a : A) → Memᴰ a (x ∷ first.before) → p a ≡ true → f a ≡ none
      by_place a (Memᴰ.head e) = subst (λ (y : A). p y ≡ true → f y ≡ none) (sym e) none_here
      by_place a (Memᴰ.tail m) = first.others a m

  pub First-head :
      (xs : List A) (b : B) → head? (filter_map f (filter p xs)) ≡ some b → First p f xs b
  First-head [] b h = absurd (cc h)
  First-head (x ∷ xs) b h = elim (Bool-cases (p x)) [
    | inl e ↦ by_image e (First-head xs b) (f x) refl (rw e at h)
    | inr e ↦ First-behind x xs b (λ k. absurd (cc (k, e))) (First-head xs b (rw e at h))
  ]
    where
      by_image :
          p x ≡ true
          → (head? (filter_map f (filter p xs)) ≡ some b → First p f xs b)
          → (o : Option B) → f x ≡ o
          → head? (elim o [
            | none ↦ filter_map f (filter p xs)
            | some y ↦ y ∷ filter_map f (filter p xs)
          ])
            ≡ some b
          → First p f (x ∷ xs) b
      by_image here rest none e k = First-behind x xs b (λ _. e) (rest k)
      by_image here rest (some y) e k = record {
        before = [];
        found = x;
        after = xs;
        parts = refl;
        passes = here;
        image = e ∙ k;
        others = λ a m. elim m [ ];
      }

  pub none_of_head :
      (xs : List A)
      → head? (filter_map f (filter p xs)) ≡ none
      → (a : A) → Memᴰ a xs
      → p a ≡ true
      → f a ≡ none
  none_of_head xs h a m k = by_image (f a) refl
    where
      empty : {b : B} (l : List B) → head? l ≡ none → Memᴰ b l → f a ≡ none
      empty [] e n = elim n [ ]
      empty (y ∷ l) e n = absurd (cc e)

      by_image : (o : Option B) → f a ≡ o → f a ≡ none
      by_image none e = e
      by_image (some b) e =
          empty (filter_map f (filter p xs)) h
            (mem-filter_map f a b (filter p xs) (mem-filter p a xs m k) e)
