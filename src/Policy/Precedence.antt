-- ===== src/Policy/Precedence.antt =====
-- `max_by_key(resolved_entry_precedence)`: the order of resolved entries and its maximum.
use rattler_sandbox.Prelude.{
  ◌≡◌, refl, sym, ◌⊎◌, inl, inr, true, false, some, List, [], ◌∷◌, arith, Bool-cases,
}
use mathlib.Core.Path.{subst}
use mathlib.Core.List.{Memᴰ}
use rattler_sandbox.Policy.Types.{ResolvedFileSystemEntry}
use rattler_sandbox.Policy.Resolve.{precedence_lt, max_from, max_by_precedence}

precedence_lt_irrefl : (a : ResolvedFileSystemEntry) → precedence_lt a a ≡ false
unfolding precedence_lt
precedence_lt_irrefl a = ground arith

-- `b` has not a lower key than `a`, nor `c` than `b`.
precedence_lt_trans :
    (a b c : ResolvedFileSystemEntry)
    → precedence_lt b a ≡ false
    → precedence_lt c b ≡ false
    → precedence_lt c a ≡ false
unfolding precedence_lt
precedence_lt_trans a b c h k = ground arith

precedence_lt_asym :
    (a b : ResolvedFileSystemEntry) → precedence_lt a b ≡ true → precedence_lt b a ≡ false
unfolding precedence_lt
precedence_lt_asym a b h = ground arith

pub access_of_precedence :
    (a b : ResolvedFileSystemEntry)
    → precedence_lt a b ≡ false
    → precedence_lt b a ≡ false
    → a.access ≡ b.access
unfolding precedence_lt
access_of_precedence a b h k = ground arith

-- The maximum is one of the entries, and none comes before it.
max_from-mem :
    (b : ResolvedFileSystemEntry) (es : List ResolvedFileSystemEntry)
    → Memᴰ (max_from b es) (b ∷ es)
unfolding max_from
max_from-mem b [] = Memᴰ.head refl
max_from-mem b (e ∷ es) = elim (Bool-cases (precedence_lt e b)) [
  | inl h ↦ rw h (past_second (max_from b es) (max_from-mem b es))
  | inr h ↦ rw h (Memᴰ.tail (max_from-mem e es))
]
  where
    past_second : (m : ResolvedFileSystemEntry) → Memᴰ m (b ∷ es) → Memᴰ m (b ∷ e ∷ es)
    past_second m (Memᴰ.head p) = Memᴰ.head p
    past_second m (Memᴰ.tail p) = Memᴰ.tail (Memᴰ.tail p)

-- `max_from` never falls below where it starts.
max_from-first :
    (b : ResolvedFileSystemEntry) (es : List ResolvedFileSystemEntry)
    → precedence_lt (max_from b es) b ≡ false
unfolding max_from
max_from-first b [] = precedence_lt_irrefl b
max_from-first b (e ∷ es) = elim (Bool-cases (precedence_lt e b)) [
  | inl h ↦ rw h (max_from-first b es)
  | inr h ↦ rw h (precedence_lt_trans b e (max_from e es) h (max_from-first e es))
]

max_from-dominates :
    (f b : ResolvedFileSystemEntry) (es : List ResolvedFileSystemEntry)
    → Memᴰ f (b ∷ es)
    → precedence_lt (max_from b es) f ≡ false
unfolding max_from precedence_lt
max_from-dominates f b es (Memᴰ.head p) =
    subst (λ g. precedence_lt (max_from b es) g ≡ false) (sym p) (max_from-first b es)
max_from-dominates f b [] (Memᴰ.tail m) = elim m [ ]
max_from-dominates f b (e ∷ es) (Memᴰ.tail m) = elim (Bool-cases (precedence_lt e b)) [
  | inl h ↦ rw (h, max_from) (below h (λ n. max_from-dominates f b es (Memᴰ.tail n)) m)
  | inr h ↦ rw (h, max_from) (max_from-dominates f e es m)
]
  where
    below :
        precedence_lt e b ≡ true
        → (Memᴰ f es → precedence_lt (max_from b es) f ≡ false)
        → Memᴰ f (e ∷ es)
        → precedence_lt (max_from b es) f ≡ false
    below h rest (Memᴰ.head p) =
        subst (λ g. precedence_lt (max_from b es) g ≡ false) (sym p)
          (precedence_lt_trans e b (max_from b es) (precedence_lt_asym e b h) (max_from-first b es))
    below h rest (Memᴰ.tail n) = rest n

pub max_by_precedence-cases :
    (es : List ResolvedFileSystemEntry)
    → (es ≡ [])
      ⊎ ((e : ResolvedFileSystemEntry) × Memᴰ e es
          × (max_by_precedence es ≡ some e)
          × ((f : ResolvedFileSystemEntry) → Memᴰ f es → precedence_lt e f ≡ false))
unfolding max_by_precedence
max_by_precedence-cases [] = inl refl
max_by_precedence-cases (e ∷ es) =
    inr (max_from e es, max_from-mem e es, refl, λ f m. max_from-dominates f e es m)
