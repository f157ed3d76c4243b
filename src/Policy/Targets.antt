-- ===== src/Policy/Targets.antt =====
-- Entries at the same target: what `has_write_narrowing_entries` compares points to the same path.
use rattler_sandbox.Prelude.{
  ◌<◌, ◌≡◌, refl, sym, ap, ◌∙◌, ◌⊎◌, inl, inr, Bool, true, false, ◌&&◌, none, some, [], ◌∷◌,
  string_eq, ==-eq, arith, ltb, length, mem_of_any,
}
use mathlib.Core.List.{Memᴰ}
use rattler_sandbox.World.{World}
use rattler_sandbox.Paths.Std.{path_eq, root_dir}
use rattler_sandbox.Paths.Absolute.{AbsolutePathBuf}
use rattler_sandbox.Paths.Normal.{is_normalized}
use rattler_sandbox.Paths.Guarantees.{from_absolute_path_fixed}
use rattler_sandbox.Policy.Types.{
  FileSystemAccessMode, read, write, FileSystemSpecialPath, root, minimal, project_roots, tmpdir,
  slash_tmp, unknown, FileSystemPath, path, glob_pattern, special, FileSystemSandboxEntry,
  FileSystemSandboxPolicy, ResolvedFileSystemEntry, subpath_eq,
}
use rattler_sandbox.Policy.Grants.{
  narrows, can_write, access_rank, special_path_matches_absolute_path, special_paths_share_target,
  file_system_paths_share_target, has_same_target_write_override,
}
use rattler_sandbox.Policy.Resolve.{
  slash_tmp_path, precedence_lt, resolve_file_system_special_path, resolve_file_system_path,
  resolve_entry_path,
}
use rattler_sandbox.Policy.WellFormed.{
  is_normal_path, root_of_no_parent, absolute_root_path_for_cwd_lem,
}

module _ (w : World) (c : AbsolutePathBuf) (hn : is_normalized c ≡ true) where
  pub resolve-root : resolve_entry_path w (special root) (some c) ≡ some (root_dir ∷ [])
  unfolding resolve_entry_path
  resolve-root = absolute_root_path_for_cwd_lem w c hn

  -- Why an entry narrows nothing.
  pub narrows-cases :
      (p : FileSystemPath) (a : FileSystemAccessMode) (o : Bool)
      → narrows p a o ≡ false
      → (a ≡ write)
        ⊎ ((p ≡ special root) × (a ≡ read)
            ⊎ ((resolve_entry_path w p (some c) ≡ none) ⊎ (o ≡ true)))
  unfolding resolve_entry_path resolve_file_system_path resolve_file_system_special_path
  narrows-cases p write o h = inl refl
  narrows-cases (path _) read o h = inr (inr (inr (ground arith)))
  narrows-cases (path _) FileSystemAccessMode.none o h = inr (inr (inr (ground arith)))
  narrows-cases (glob_pattern _) read o h = absurd (ground arith)
  narrows-cases (glob_pattern _) FileSystemAccessMode.none o h = absurd (ground arith)
  narrows-cases (special root) read o h = inr (inl (refl, refl))
  narrows-cases (special root) FileSystemAccessMode.none o h = absurd (ground arith)
  narrows-cases (special minimal) read o h = inr (inr (inl refl))
  narrows-cases (special minimal) FileSystemAccessMode.none o h = inr (inr (inl refl))
  narrows-cases (special (unknown _ _)) read o h = inr (inr (inl refl))
  narrows-cases (special (unknown _ _)) FileSystemAccessMode.none o h = inr (inr (inl refl))
  narrows-cases (special (project_roots _)) read o h = inr (inr (inr (ground arith)))
  narrows-cases (special (project_roots _)) FileSystemAccessMode.none o h =
      inr (inr (inr (ground arith)))
  narrows-cases (special tmpdir) read o h = inr (inr (inr (ground arith)))
  narrows-cases (special tmpdir) FileSystemAccessMode.none o h = inr (inr (inr (ground arith)))
  narrows-cases (special slash_tmp) read o h = inr (inr (inr (ground arith)))
  narrows-cases (special slash_tmp) FileSystemAccessMode.none o h = inr (inr (inr (ground arith)))

  module _ (tmp : w.is_dir slash_tmp_path ≡ true) where
    resolve-slash_tmp : resolve_entry_path w (special slash_tmp) (some c) ≡ some slash_tmp_path
    unfolding resolve_entry_path resolve_file_system_path resolve_file_system_special_path
    resolve-slash_tmp = rw (from_absolute_path_fixed w slash_tmp_path refl) (rw tmp refl)

    -- What a special path matches without a directory is where it points.
    special_match :
        (v : FileSystemSpecialPath) (p : AbsolutePathBuf)
        → is_normalized p ≡ true
        → special_path_matches_absolute_path v p ≡ true
        → resolve_entry_path w (special v) (some c) ≡ some p
    unfolding special_path_matches_absolute_path
    special_match root p h k = resolve-root ∙ ap some (sym (root_of_no_parent p h (ground arith)))
    special_match slash_tmp p h k = resolve-slash_tmp ∙ ap some (sym (==-eq p slash_tmp_path k))
    special_match minimal p h k = absurd (ground arith)
    special_match (project_roots _) p h k = absurd (ground arith)
    special_match tmpdir p h k = absurd (ground arith)
    special_match (unknown _ _) p h k = absurd (ground arith)

    special_share :
        (v u : FileSystemSpecialPath)
        → special_paths_share_target v u ≡ true
        → resolve_entry_path w (special v) (some c) ≡ resolve_entry_path w (special u) (some c)
    unfolding special_paths_share_target
    special_share root root h = refl
    special_share minimal minimal h = refl
    special_share tmpdir tmpdir h = refl
    special_share slash_tmp slash_tmp h = refl
    special_share (project_roots a) (project_roots b) h =
        ap (λ s. resolve_entry_path w (special (project_roots s)) (some c)) (==-eq a b h)
    special_share (unknown a s) (unknown b t) h = ground arith
    special_share _ _ h = absurd (ground arith)

    -- Paths that share their target resolve alike.
    pub share_target :
        (y x : FileSystemPath) (q : AbsolutePathBuf)
        → is_normal_path y ≡ true
        → is_normal_path x ≡ true
        → file_system_paths_share_target y x ≡ true
        → resolve_entry_path w x (some c) ≡ some q
        → resolve_entry_path w y (some c) ≡ some q
    unfolding file_system_paths_share_target resolve_entry_path resolve_file_system_path
    share_target (path a) (path b) q hy hx h r =
        ap (λ s. resolve_entry_path w (path s) (some c)) (==-eq a b h) ∙ r
    share_target (special v) (special u) q hy hx h r = special_share v u h ∙ r
    share_target (special v) (path p) q hy hx h r = special_match v p hx h ∙ r
    share_target (path p) (special v) q hy hx h r = sym (special_match v p hy h) ∙ r
    share_target (glob_pattern _) (glob_pattern _) q hy hx h r = r
    share_target (glob_pattern _) (path _) q hy hx h r = absurd (ground arith)
    share_target (glob_pattern _) (special _) q hy hx h r = absurd (ground arith)
    share_target _ _ q hy hx h r = absurd (ground arith)

-- A less specific or weaker entry does not stand against one at the same place.
pub precedence_lt-access :
    (a b : ResolvedFileSystemEntry)
    → a.path ≡ b.path
    → access_rank a.access < access_rank b.access
    → precedence_lt a b ≡ true
unfolding precedence_lt
precedence_lt-access a b h k = ground (arith, ap length h)

-- The entry that overrides another at its own target.
pub overrider :
    (policy : FileSystemSandboxPolicy) (x : FileSystemSandboxEntry)
    → has_same_target_write_override policy x ≡ true
    → (z : FileSystemSandboxEntry) × Memᴰ z policy.entries
      × (access_rank x.access < access_rank z.access)
      × (file_system_paths_share_target z.path x.path ≡ true)
unfolding has_same_target_write_override
overrider policy x h =
    let (z, m, k) =
      mem_of_any
        (λ candidate.
          can_write candidate.access
          && ltb (access_rank x.access) (access_rank candidate.access)
          && file_system_paths_share_target candidate.path x.path)
        policy.entries h in
    (z, m, ground arith, ground arith)
