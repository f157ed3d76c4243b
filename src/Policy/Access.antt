-- ===== src/Policy/Access.antt =====
-- `resolve_access_with_cwd`, and the entry that no other over the path comes before.
use rattler_sandbox.Prelude.{
  ◌≡◌, refl, sym, ◌∙◌, ◌⊎◌, inl, inr, Bool, true, false, Option, none, some, List, [], filter,
  map_option, unwrap_or, SameMembers, mem-filter, mem_of_filter, mem-filter_map, mem_of_filter_map,
  Bool-cases,
}
use mathlib.Core.Path.{subst}
use mathlib.Core.List.{Memᴰ}
use rattler_sandbox.World.{World}
use rattler_sandbox.Paths.Std.{PathBuf, starts_with}
use rattler_sandbox.Paths.Absolute.{AbsolutePathBuf, from_absolute_path}
use rattler_sandbox.Policy.Types.{
  FileSystemAccessMode, FileSystemSandboxEntry, FileSystemSandboxPolicy, ResolvedFileSystemEntry,
}
use rattler_sandbox.Policy.Grants.{is_restricted}
use rattler_sandbox.Policy.Resolve.{
  precedence_lt, max_by_precedence, access_among, resolve_entry, resolved_entries_with_cwd,
  resolve_access_with_cwd, resolve_candidate_path,
}
use rattler_sandbox.Policy.Precedence.{access_of_precedence, max_by_precedence-cases}

-- `e` is over the target, and no entry over the target comes before it.
pub record Governs (entries : List ResolvedFileSystemEntry) (target : AbsolutePathBuf)
    (e : ResolvedFileSystemEntry) : Type 0 where
  pub listed : Memᴰ e entries
  pub covers : starts_with target e.path ≡ true
  pub dominates :
      (f : ResolvedFileSystemEntry)
      → Memᴰ f entries
      → starts_with target f.path ≡ true
      → precedence_lt e f ≡ false

-- Either one entry governs the target and gives its access, or no entry is over the target and
-- the access is `none`.
pub access_among-cases :
    (w : World) (entries : List ResolvedFileSystemEntry) (target : AbsolutePathBuf)
    → ((e : ResolvedFileSystemEntry) × Governs entries target e
        × (access_among w entries target ≡ e.access))
      ⊎ ((access_among w entries target ≡ FileSystemAccessMode.none)
          × ((f : ResolvedFileSystemEntry) → Memᴰ f entries → starts_with target f.path ≡ false))
unfolding access_among max_by_precedence
access_among-cases w entries target = elim (max_by_precedence-cases over) [
  | inl h ↦ inr (
    rw (h, max_by_precedence) refl,
    λ f m. elim (Bool-cases (starts_with target f.path)) [
      | inl k ↦ absurd (no_member f (subst (λ l. Memᴰ f l) h (mem-filter covers f entries m k)))
      | inr k ↦ k
    ],
  )
  | inr (e, m, p, d) ↦
      let (n, c) = mem_of_filter covers e entries m in
      inl (
        e,
        record {
          listed = n;
          covers = c;
          dominates = λ f l k. d f (mem-filter covers f entries l k);
        },
        rw p refl,
      )
]
  where
    covers : ResolvedFileSystemEntry → Bool
    covers e = starts_with target e.path

    over : List ResolvedFileSystemEntry
    over = filter covers entries

    no_member : (f : ResolvedFileSystemEntry) → Memᴰ f [] → ⊥
    no_member f m = elim m [ ]

-- Only the set of entries matters, not their order or number.
pub access_among-same :
    (w : World) (es fs : List ResolvedFileSystemEntry) (target : AbsolutePathBuf)
    → SameMembers es fs
    → access_among w es target ≡ access_among w fs target
access_among-same w es fs target same =
    decide (access_among-cases w es target) (access_among-cases w fs target)
  where
    Cases : List ResolvedFileSystemEntry → Type 0
    Cases l =
        ((e : ResolvedFileSystemEntry) × Governs l target e × (access_among w l target ≡ e.access))
        ⊎ ((access_among w l target ≡ FileSystemAccessMode.none)
            × ((f : ResolvedFileSystemEntry) → Memᴰ f l → starts_with target f.path ≡ false))

    decide : Cases es → Cases fs → access_among w es target ≡ access_among w fs target
    decide (inl (e, g, p)) (inl (f, h, q)) =
        p
        ∙ access_of_precedence e f (g.dominates f ((same f).1 h.listed) h.covers)
            (h.dominates e ((same e).0 g.listed) g.covers)
        ∙ sym q
    decide (inl (e, g, p)) (inr (q, out)) = absurd (cc (g.covers, out e ((same e).0 g.listed)))
    decide (inr (p, out)) (inl (f, h, q)) = absurd (cc (h.covers, out f ((same f).1 h.listed)))
    decide (inr (p, _)) (inr (q, _)) = p ∙ sym q

-- An entry that governs a target gives it its access.
pub access_among-Governs :
    (w : World) (es : List ResolvedFileSystemEntry) (target : AbsolutePathBuf)
    → (e : ResolvedFileSystemEntry) → Governs es target e
    → access_among w es target ≡ e.access
access_among-Governs w es target e g = elim (access_among-cases w es target) [
  | inl (f, h, p) ↦
      p
      ∙ access_of_precedence f e (h.dominates e g.listed g.covers) (g.dominates f h.listed h.covers)
  | inr (p, out) ↦ absurd (cc (g.covers, out e g.listed))
]

module _ (w : World) (policy : FileSystemSandboxPolicy) (target cwd : PathBuf) where
  -- In a restricted policy, for a target that can be resolved, either an entry over the target that
  -- no other over it comes before gives the access, or no entry is over the target and the access
  -- is `none`.
  pub resolve_access_with_cwd-Governs :
      {t : AbsolutePathBuf}
      → is_restricted policy.kind ≡ true
      → resolve_candidate_path w target cwd ≡ some t
      → ((e : ResolvedFileSystemEntry) × Governs (resolved_entries_with_cwd w policy cwd) t e
          × (resolve_access_with_cwd w policy target cwd ≡ e.access))
        ⊎ ((resolve_access_with_cwd w policy target cwd ≡ FileSystemAccessMode.none)
            × ((f : ResolvedFileSystemEntry)
                → Memᴰ f (resolved_entries_with_cwd w policy cwd)
                → starts_with t f.path ≡ false))
  unfolding resolve_access_with_cwd
  resolve_access_with_cwd-Governs {t} r h =
      rw (r, h) (access_among-cases w (resolved_entries_with_cwd w policy cwd) t)

-- Two policies of one kind with the same entries, in any order and repeated or not, give every
-- path the same access.
pub resolve_access_with_cwd-same :
    (w : World) (p q : FileSystemSandboxPolicy) (target cwd : PathBuf)
    → p.kind ≡ q.kind
    → SameMembers p.entries q.entries
    → resolve_access_with_cwd w p target cwd ≡ resolve_access_with_cwd w q target cwd
unfolding resolve_access_with_cwd resolved_entries_with_cwd
resolve_access_with_cwd-same w p q target cwd k same =
    rw k (elim (Bool-cases (is_restricted q.kind)) [
      | inl r ↦ rw r (by_target (resolve_candidate_path w target cwd))
      | inr r ↦ rw r refl
    ])
  where
    one_way :
        (a b : FileSystemSandboxPolicy)
        → ((x : FileSystemSandboxEntry) → Memᴰ x a.entries → Memᴰ x b.entries)
        → (e : ResolvedFileSystemEntry) → Memᴰ e (resolved_entries_with_cwd w a cwd)
        → Memᴰ e (resolved_entries_with_cwd w b cwd)
    one_way a b sub e m =
        let (x, n, h) =
          mem_of_filter_map (resolve_entry w (from_absolute_path w cwd)) e a.entries m in
        mem-filter_map (resolve_entry w (from_absolute_path w cwd)) x e b.entries (sub x n) h

    by_target :
        (o : Option AbsolutePathBuf)
        → unwrap_or
            (map_option (access_among w (resolved_entries_with_cwd w p cwd)) o)
            FileSystemAccessMode.none
          ≡ unwrap_or
              (map_option (access_among w (resolved_entries_with_cwd w q cwd)) o)
              FileSystemAccessMode.none
    by_target none = refl
    by_target (some t) =
        access_among-same w _ _ t
          (λ e. (one_way p q (λ x. (same x).0) e, one_way q p (λ x. (same x).1) e))
