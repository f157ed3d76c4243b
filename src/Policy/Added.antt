-- ===== src/Policy/Added.antt =====
-- The resolved entries of a policy, and one `read` entry more.
use rattler_sandbox.Prelude.{
  ◌≤◌, ◌<◌, ◌≡◌, refl, sym, ap, ◌∙◌, ◌⊎◌, inl, inr, true, false, List, [], ◌∷◌, ◌++◌, arith, ltb,
  length, Bool-cases, mem-append_left, mem-append_right, mem_of_append,
}
use mathlib.Core.Path.{subst}
use mathlib.Core.List.{Memᴰ}
use rattler_sandbox.World.{World}
use rattler_sandbox.Paths.Std.{starts_with}
use rattler_sandbox.Paths.Absolute.{AbsolutePathBuf}
use rattler_sandbox.Paths.Prefix.{
  starts_with_refl, starts_with_trans, starts_with_linear, starts_with_antisym,
}
use rattler_sandbox.Policy.Types.{FileSystemAccessMode, read, write, ResolvedFileSystemEntry}
use rattler_sandbox.Policy.Grants.{can_read}
use rattler_sandbox.Policy.Resolve.{precedence_lt, access_among}
use rattler_sandbox.Policy.Access.{Governs, access_among-cases, access_among-Governs}
use rattler_sandbox.Policy.Precedence.{access_of_precedence}

none_of : (a : FileSystemAccessMode) → can_read a ≡ false → a ≡ FileSystemAccessMode.none
none_of FileSystemAccessMode.none h = refl
none_of read h = absurd (ground arith)
none_of write h = absurd (ground arith)

shorter_or_dominates :
    (e : ResolvedFileSystemEntry) (p : AbsolutePathBuf)
    → (length e.path < length p) ⊎ (precedence_lt e (record { path = p; access = read }) ≡ false)
unfolding precedence_lt
shorter_or_dominates e p = elim (Bool-cases (ltb (length e.path) (length p))) [
  | inl h ↦ inl (ground arith)
  | inr h ↦ inr (ground arith)
]

long_enough :
    (e : ResolvedFileSystemEntry) (p : AbsolutePathBuf)
    → precedence_lt e (record { path = p; access = read }) ≡ false
    → length p ≤ length e.path
unfolding precedence_lt
long_enough e p h = ground arith

not_new :
    {p : AbsolutePathBuf} (e : ResolvedFileSystemEntry)
    → Memᴰ e (record { path = p; access = read } ∷ [])
    → e.access ≡ FileSystemAccessMode.none
    → ⊥
not_new e (Memᴰ.head q) h = cc (ap (λ (x : ResolvedFileSystemEntry). x.access) q, h)
not_new e (Memᴰ.tail m) h = elim m [ ]

module _ (w : World) (es : List ResolvedFileSystemEntry) (p : AbsolutePathBuf) where
  abbrev added : List ResolvedFileSystemEntry
  added = es ++ record { path = p; access = read } ∷ []

  -- What governs a readable target still governs it beside a new read entry, if the new entry is
  -- for a path that could not be read.
  keeps_governing :
      (t : AbsolutePathBuf) (e : ResolvedFileSystemEntry)
      → can_read (access_among w es p) ≡ false
      → can_read e.access ≡ true
      → Governs es t e
      → Governs added t e
  keeps_governing t e hp he g = record {
    listed = mem-append_left e es _ g.listed;
    covers = g.covers;
    dominates =
        λ f m c. elim (mem_of_append f es _ m) [ inl k ↦ g.dominates f k c | inr k ↦ by_new f k c ];
  }
    where
      shorter_impossible : length e.path < length p → starts_with t p ≡ true → ⊥
      shorter_impossible l c =
          let over : starts_with p e.path ≡ true =
            starts_with_linear t p e.path c g.covers (omega arith) in
          elim (access_among-cases w es p) [
            | inl (f, h, a) ↦
                let same : e.access ≡ f.access =
                  access_of_precedence e f
                    (g.dominates f h.listed (starts_with_trans t p f.path c h.covers))
                    (h.dominates e g.listed over) in
                cc (a, same, hp, he)
            | inr (a, out) ↦ cc (over, out e g.listed)
          ]

      by_new :
          (f : ResolvedFileSystemEntry)
          → Memᴰ f (record { path = p; access = read } ∷ [])
          → starts_with t f.path ≡ true
          → precedence_lt e f ≡ false
      by_new f (Memᴰ.head q) c = elim (shorter_or_dominates e p) [
        | inl l ↦ absurd (
            shorter_impossible l
              (subst (λ (x : ResolvedFileSystemEntry). starts_with t x.path ≡ true) q c))
        | inr d ↦ subst (λ x. precedence_lt e x ≡ false) (sym q) d
      ]
      by_new f (Memᴰ.tail m) c = elim m [ ]

  -- So the access of every readable target stays what it was.
  pub access_among-added :
      (t : AbsolutePathBuf)
      → can_read (access_among w es p) ≡ false
      → can_read (access_among w es t) ≡ true
      → access_among w added t ≡ access_among w es t
  access_among-added t hp ht = elim (access_among-cases w es t) [
    | inl (e, g, a) ↦
        access_among-Governs w added t e (keeps_governing t e hp (rw (← a) ht) g) ∙ sym a
    | inr (a, out) ↦ absurd (cc (a, ht))
  ]

  -- The new path can be read, unless an entry of its own denies it.
  pub access_among-added_self :
      (can_read (access_among w added p) ≡ true)
      ⊎ ((d : ResolvedFileSystemEntry) × Memᴰ d es
          × (d.path ≡ p)
          × (d.access ≡ FileSystemAccessMode.none))
  access_among-added_self = elim (access_among-cases w added p) [
    | inl (e, g, a) ↦ elim (Bool-cases (can_read e.access)) [
      | inl h ↦ inl (rw a h)
      | inr h ↦ inr (denying e g (none_of e.access h))
    ]
    | inr (a, out) ↦ absurd (cc (starts_with_refl p, out new listed))
  ]
    where
      new : ResolvedFileSystemEntry
      new = record { path = p; access = read }

      listed : Memᴰ new added
      listed = mem-append_right new es _ (Memᴰ.head refl)

      denying :
          (e : ResolvedFileSystemEntry)
          → Governs added p e
          → e.access ≡ FileSystemAccessMode.none
          → (d : ResolvedFileSystemEntry) × Memᴰ d es
            × (d.path ≡ p)
            × (d.access ≡ FileSystemAccessMode.none)
      denying e g h = elim (mem_of_append e es _ g.listed) [
        | inl m ↦ (
          e,
          m,
          sym (
              starts_with_antisym p e.path g.covers
                (long_enough e p (g.dominates new listed (starts_with_refl p)))),
          h,
        )
        | inr m ↦ absurd (not_new e m h)
      ]
