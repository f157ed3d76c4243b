-- ===== src/Prelude/Rearranged.antt =====
-- What sorting, reversing and folding a list keep of its members.
use mathlib.Core.Path.{◌≡◌, refl}
use mathlib.Core.Logic.{◌⊎◌, inl, inr}
use mathlib.Core.Bool.{Bool}
use mathlib.Core.List.{List, [], ◌∷◌, Memᴰ}
use mathlib.Core.List.{foldl, reverse, reverse_aux}
use rattler_sandbox.Prelude.Tests.{if◌then◌else◌, if_intro}
use rattler_sandbox.Prelude.Lists.{sort, insert_sorted}

module _ {ℓ} {A : Type ℓ} (le : A → A → Bool) where
  mem-insert_sorted_head : (a b : A) (xs : List A) → a ≡ b → Memᴰ a (insert_sorted le b xs)
  unfolding insert_sorted
  mem-insert_sorted_head a b [] e = Memᴰ.head e
  mem-insert_sorted_head a b (x ∷ xs) e =
      if_intro (Memᴰ a) (le b x) (λ _. Memᴰ.head e)
        (λ _. Memᴰ.tail (mem-insert_sorted_head a b xs e))

  mem-insert_sorted : (a b : A) (xs : List A) → Memᴰ a xs → Memᴰ a (insert_sorted le b xs)
  unfolding insert_sorted
  mem-insert_sorted a b [] m = elim m [ ]
  mem-insert_sorted a b (x ∷ xs) (Memᴰ.head e) =
      if_intro (Memᴰ a) (le b x) (λ _. Memᴰ.tail (Memᴰ.head e)) (λ _. Memᴰ.head e)
  mem-insert_sorted a b (x ∷ xs) (Memᴰ.tail m) =
      if_intro (Memᴰ a) (le b x) (λ _. Memᴰ.tail (Memᴰ.tail m))
        (λ _. Memᴰ.tail (mem-insert_sorted a b xs m))

  mem_of_insert_sorted : (a b : A) (xs : List A) → Memᴰ a (insert_sorted le b xs) → Memᴰ a (b ∷ xs)
  unfolding insert_sorted
  mem_of_insert_sorted a b [] = λ m. m
  mem_of_insert_sorted a b (x ∷ xs) = by_rest (mem_of_insert_sorted a b xs)
    where
      Kept : List A → Type ℓ
      Kept l = Memᴰ a l → Memᴰ a (b ∷ x ∷ xs)

      second : Memᴰ a (b ∷ xs) → Memᴰ a (b ∷ x ∷ xs)
      second (Memᴰ.head e) = Memᴰ.head e
      second (Memᴰ.tail m) = Memᴰ.tail (Memᴰ.tail m)

      first :
          (Memᴰ a (insert_sorted le b xs) → Memᴰ a (b ∷ xs))
          → Memᴰ a (x ∷ insert_sorted le b xs)
          → Memᴰ a (b ∷ x ∷ xs)
      first rest (Memᴰ.head e) = Memᴰ.tail (Memᴰ.head e)
      first rest (Memᴰ.tail m) = second (rest m)

      by_rest :
          (Memᴰ a (insert_sorted le b xs) → Memᴰ a (b ∷ xs))
          → Kept (if le b x then b ∷ x ∷ xs else x ∷ insert_sorted le b xs)
      by_rest rest = if_intro Kept (le b x) (λ _ m. m) (λ _. first rest)

  pub mem_of_sort : (a : A) (xs : List A) → Memᴰ a (sort le xs) → Memᴰ a xs
  unfolding sort
  mem_of_sort a [] m = m
  mem_of_sort a (x ∷ xs) m = by_place (mem_of_sort a xs) (mem_of_insert_sorted a x (sort le xs) m)
    where
      by_place : (Memᴰ a (sort le xs) → Memᴰ a xs) → Memᴰ a (x ∷ sort le xs) → Memᴰ a (x ∷ xs)
      by_place rest (Memᴰ.head e) = Memᴰ.head e
      by_place rest (Memᴰ.tail m) = Memᴰ.tail (rest m)

  pub mem-sort : (a : A) (xs : List A) → Memᴰ a xs → Memᴰ a (sort le xs)
  unfolding sort
  mem-sort a [] m = elim m [ ]
  mem-sort a (x ∷ xs) (Memᴰ.head e) = mem-insert_sorted_head a x (sort le xs) e
  mem-sort a (x ∷ xs) (Memᴰ.tail m) = mem-insert_sorted a x (sort le xs) (mem-sort a xs m)

module _ {ℓ} {A : Type ℓ} where
  mem_of_reverse_aux : (a : A) (xs r : List A) → Memᴰ a (reverse_aux xs r) → Memᴰ a xs ⊎ Memᴰ a r
  mem_of_reverse_aux a [] r m = inr m
  mem_of_reverse_aux a (x ∷ xs) r m = elim (mem_of_reverse_aux a xs (x ∷ r) m) [
    | inl k ↦ inl (Memᴰ.tail k)
    | inr k ↦ by_head k
  ]
    where
      by_head : Memᴰ a (x ∷ r) → Memᴰ a (x ∷ xs) ⊎ Memᴰ a r
      by_head (Memᴰ.head e) = inl (Memᴰ.head e)
      by_head (Memᴰ.tail k) = inr k

  mem-reverse_aux : (a : A) (xs r : List A) → Memᴰ a xs ⊎ Memᴰ a r → Memᴰ a (reverse_aux xs r)
  mem-reverse_aux a [] r (inl m) = elim m [ ]
  mem-reverse_aux a [] r (inr m) = m
  mem-reverse_aux a (x ∷ xs) r (inl (Memᴰ.head e)) =
      mem-reverse_aux a xs (x ∷ r) (inr (Memᴰ.head e))
  mem-reverse_aux a (x ∷ xs) r (inl (Memᴰ.tail m)) = mem-reverse_aux a xs (x ∷ r) (inl m)
  mem-reverse_aux a (x ∷ xs) r (inr m) = mem-reverse_aux a xs (x ∷ r) (inr (Memᴰ.tail m))

  pub mem-reverse : (a : A) (xs : List A) → Memᴰ a xs → Memᴰ a (reverse xs)
  mem-reverse a xs m = mem-reverse_aux a xs [] (inl m)

  pub mem_of_reverse : (a : A) (xs : List A) → Memᴰ a (reverse xs) → Memᴰ a xs
  mem_of_reverse a xs m = elim (mem_of_reverse_aux a xs [] m) [ inl k ↦ k | inr k ↦ elim k [ ] ]

-- What each member's step keeps the whole loop keeps.
pub foldl-keeps_mem {ℓ κ μ} :
    {S : Type ℓ} {A : Type κ} (step : S → A → S) (P : S → Type μ) (xs : List A)
    → ((s : S) (a : A) → Memᴰ a xs → P s → P (step s a))
    → (s : S) → P s
    → P (foldl step s xs)
foldl-keeps_mem step P [] keep s h = h
foldl-keeps_mem step P (x ∷ xs) keep s h =
    foldl-keeps_mem step P xs (λ t a m. keep t a (Memᴰ.tail m)) (step s x)
      (keep s x (Memᴰ.head refl) h)
