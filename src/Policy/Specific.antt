-- ===== src/Policy/Specific.antt =====
-- `resolve_access_with_cwd` against an independent description, which does not use its order of
-- entries: the entry that lies deepest decides, and of entries at one path the strongest.
use mathlib.Core.List.{Memᴰ}
use rattler_sandbox.Prelude.{
  ◌≡◌, refl, ap, ◌∙◌, ◌⊎◌, inl, inr, ◌≤◌, Bool, true, false, some, List, length, ltb, arith,
}
use rattler_sandbox.World.{World}
use rattler_sandbox.Paths.Std.{PathBuf, starts_with}
use rattler_sandbox.Paths.Prefix.{starts_with_linear}
use rattler_sandbox.Paths.Absolute.{AbsolutePathBuf}
use rattler_sandbox.Policy.Types.{
  FileSystemAccessMode, read, write, FileSystemSandboxPolicy, ResolvedFileSystemEntry,
}
use rattler_sandbox.Policy.Grants.{is_restricted, access_rank}
use rattler_sandbox.Policy.Resolve.{
  precedence_lt, resolved_entries_with_cwd, resolve_access_with_cwd, resolve_candidate_path,
}
use rattler_sandbox.Policy.Access.{Governs, resolve_access_with_cwd-Governs}

-- No access is stronger than `write`, and `write` than `read`.
unfoldable pub is_stronger : FileSystemAccessMode → FileSystemAccessMode → Bool
is_stronger FileSystemAccessMode.none FileSystemAccessMode.none = false
is_stronger FileSystemAccessMode.none write = true
is_stronger FileSystemAccessMode.none read = true
is_stronger write read = true
is_stronger write write = false
is_stronger write FileSystemAccessMode.none = false
is_stronger read access = false

-- `e` is over the target; it lies at or below each entry over the target, and no entry at its own
-- path is stronger.
pub record Decides (entries : List ResolvedFileSystemEntry) (target : AbsolutePathBuf)
    (e : ResolvedFileSystemEntry) : Type 0 where
  pub listed : Memᴰ e entries
  pub covers : starts_with target e.path ≡ true
  pub deepest :
      (f : ResolvedFileSystemEntry)
      → Memᴰ f entries
      → starts_with target f.path ≡ true
      → starts_with e.path f.path ≡ true
  pub strongest :
      (f : ResolvedFileSystemEntry)
      → Memᴰ f entries
      → f.path ≡ e.path
      → is_stronger f.access e.access ≡ false

not_stronger :
    (a b : FileSystemAccessMode)
    → ltb (access_rank b) (access_rank a) ≡ false
    → is_stronger a b ≡ false
unfolding is_stronger
not_stronger FileSystemAccessMode.none FileSystemAccessMode.none h = refl
not_stronger FileSystemAccessMode.none write h = absurd (ground arith)
not_stronger FileSystemAccessMode.none read h = absurd (ground arith)
not_stronger write FileSystemAccessMode.none h = refl
not_stronger write write h = refl
not_stronger write read h = absurd (ground arith)
not_stronger read a h = refl

longer_of_precedence :
    (e f : ResolvedFileSystemEntry) → precedence_lt e f ≡ false → length f.path ≤ length e.path
unfolding precedence_lt
longer_of_precedence e f h = ground arith

stronger_of_precedence :
    (e f : ResolvedFileSystemEntry)
    → f.path ≡ e.path
    → precedence_lt e f ≡ false
    → is_stronger f.access e.access ≡ false
unfolding precedence_lt
stronger_of_precedence e f p h =
    not_stronger f.access e.access (ground (arith, ap (λ (q : PathBuf). length q) p))

Decides-Governs :
    (entries : List ResolvedFileSystemEntry) (t : AbsolutePathBuf) (e : ResolvedFileSystemEntry)
    → Governs entries t e
    → Decides entries t e
Decides-Governs entries t e g = record {
  listed = g.listed;
  covers = g.covers;
  deepest = λ f m c.
      starts_with_linear t e.path f.path g.covers c (longer_of_precedence e f (g.dominates f m c));
  strongest = λ f m p.
      stronger_of_precedence e f p
        (g.dominates f m (ap (λ (q : PathBuf). starts_with t q) p ∙ g.covers));
}

module _ (w : World) (policy : FileSystemSandboxPolicy) (target cwd : PathBuf) where
  -- In a restricted policy, for a target that can be resolved, either the access is that of an entry
  -- over the target that lies at or below each entry over the target, where at its own path no entry
  -- is stronger (none is stronger than write, and write than read), or no entry is over the target
  -- and the access is none.
  pub resolve_access_with_cwd-Decides :
      {t : AbsolutePathBuf}
      → is_restricted policy.kind ≡ true
      → resolve_candidate_path w target cwd ≡ some t
      → ((e : ResolvedFileSystemEntry) × Decides (resolved_entries_with_cwd w policy cwd) t e
          × (resolve_access_with_cwd w policy target cwd ≡ e.access))
        ⊎ ((resolve_access_with_cwd w policy target cwd ≡ FileSystemAccessMode.none)
            × ((f : ResolvedFileSystemEntry)
                → Memᴰ f (resolved_entries_with_cwd w policy cwd)
                → starts_with t f.path ≡ false))
  resolve_access_with_cwd-Decides {t} r h =
      elim (resolve_access_with_cwd-Governs w policy target cwd r h) [
        | inl (e, g, a) ↦ inl (e, Decides-Governs _ t e g, a)
        | inr out ↦ inr out
      ]
