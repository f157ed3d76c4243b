-- ===== src/Policy/Listed.antt =====
-- The readable, writable and unreadable roots that the sandbox engines are given, against the
-- access that the policy itself decides.
use mathlib.Core.List.{Memᴰ}
use mathlib.Core.Path.{subst}
use rattler_sandbox.Prelude.{
  ◌≡◌, refl, sym, ap, ◌∙◌, true, false, not, List, arith, Bool-cases, inl, inr, mem-filter,
  mem_of_filter, mem-map, mem_of_map, mem_of_contains, contains_of_mem,
}
use rattler_sandbox.World.{World}
use rattler_sandbox.Paths.Std.{PathBuf, path_eq}
use rattler_sandbox.Paths.Absolute.{AbsolutePathBuf}
use rattler_sandbox.Policy.Types.{
  FileSystemAccessMode, FileSystemSandboxPolicy, ResolvedFileSystemEntry, WritableRoot,
}
use rattler_sandbox.Policy.Grants.{
  is_restricted, is_none, can_write, has_full_disk_read_access, has_full_disk_write_access,
}
use rattler_sandbox.Policy.Resolve.{resolved_entries_with_cwd, can_read_path_with_cwd}
use rattler_sandbox.Policy.Metadata.{can_write_path_with_cwd}
use rattler_sandbox.Policy.Dedup.{normalize_effective_absolute_path, dedup_absolute_paths}
use rattler_sandbox.Policy.Distinct.{dedup_absolute_paths_lem}
use rattler_sandbox.Policy.Roots.{
  get_readable_roots_with_cwd, get_writable_roots_with_cwd, writable_entries_with_cwd,
  writable_root_for, get_unreadable_roots_with_cwd, is_root_of,
}

module _ (w : World) where
  mem_of_dedup :
      (a : AbsolutePathBuf) (ps : List AbsolutePathBuf)
      → Memᴰ a (dedup_absolute_paths w ps true)
      → (p : AbsolutePathBuf) × Memᴰ p ps × (normalize_effective_absolute_path w p ≡ a)
  mem_of_dedup a ps m =
      mem_of_map (normalize_effective_absolute_path w) a ps
        (mem_of_contains a _ (sym (dedup_absolute_paths_lem w ps true a).1 ∙ contains_of_mem a _ m))

  mem-dedup :
      (p : AbsolutePathBuf) (ps : List AbsolutePathBuf)
      → Memᴰ p ps
      → Memᴰ (normalize_effective_absolute_path w p) (dedup_absolute_paths w ps true)
  mem-dedup p ps m =
      let a : AbsolutePathBuf = normalize_effective_absolute_path w p in
      mem_of_contains a _ (
        (dedup_absolute_paths_lem w ps true a).1
        ∙ contains_of_mem a _ (mem-map (normalize_effective_absolute_path w) p ps m))

module _ (w : World) (policy : FileSystemSandboxPolicy) (cwd : PathBuf) where
  -- Every writable root is the effective form of a path that the policy lets be written.
  pub get_writable_roots-can_write :
      (r : WritableRoot)
      → Memᴰ r (get_writable_roots_with_cwd w policy cwd)
      → (p : AbsolutePathBuf) × (normalize_effective_absolute_path w p ≡ r.root)
        × (can_write_path_with_cwd w policy p cwd ≡ true)
  unfolding get_writable_roots_with_cwd writable_root_for writable_entries_with_cwd
  get_writable_roots-can_write r m = elim (Bool-cases (has_full_disk_write_access policy)) [
    | inl h ↦ elim (rw h at m) [ ]
    | inr h ↦
        let (t, n, q) = mem_of_map (writable_root_for w policy cwd) r _ (rw h at m) in
        let (p, k, e) = mem_of_dedup w t (writable_entries_with_cwd w policy cwd) n in
        let (x, l, d) = mem_of_map (λ (x : ResolvedFileSystemEntry). x.path) p _ k in
        let (i, c) = mem_of_filter (λ x. can_write_path_with_cwd w policy x.path cwd) x _ l in
        (
          p,
          e ∙ ap (λ (s : WritableRoot). s.root) q,
          subst (λ s. can_write_path_with_cwd w policy s cwd ≡ true) d c,
        )
  ]

  -- Where the policy does not write the whole disk, every write entry whose path may be written
  -- is under its effective form among the writable roots.
  pub get_writable_roots_complete :
      (e : ResolvedFileSystemEntry)
      → has_full_disk_write_access policy ≡ false
      → Memᴰ e (resolved_entries_with_cwd w policy cwd)
      → can_write e.access ≡ true
      → can_write_path_with_cwd w policy e.path cwd ≡ true
      → (r : WritableRoot) × Memᴰ r (get_writable_roots_with_cwd w policy cwd)
        × (r.root ≡ normalize_effective_absolute_path w e.path)
  unfolding get_writable_roots_with_cwd writable_root_for writable_entries_with_cwd
  get_writable_roots_complete e h m a c = (
    writable_root_for w policy cwd (normalize_effective_absolute_path w e.path),
    rw h (
        mem-map (writable_root_for w policy cwd) _ _ (
          mem-dedup w e.path (writable_entries_with_cwd w policy cwd) (
            mem-map (λ (x : ResolvedFileSystemEntry). x.path) e _
              (mem-filter (λ x. can_write_path_with_cwd w policy x.path cwd) e _
                (mem-filter (λ x. can_write x.access) e _ m a) c)))),
    refl,
  )

  -- Every unreadable root is the effective form of a path that the policy does not let be read.
  pub get_unreadable_roots-denied :
      (t : AbsolutePathBuf)
      → Memᴰ t (get_unreadable_roots_with_cwd w policy cwd)
      → (p : AbsolutePathBuf) × (normalize_effective_absolute_path w p ≡ t)
        × (can_read_path_with_cwd w policy p cwd ≡ false)
  unfolding get_unreadable_roots_with_cwd
  get_unreadable_roots-denied t m = elim (Bool-cases (is_restricted policy.kind)) [
    | inl h ↦
        let (p, k, e) = mem_of_dedup w t _ (rw h at m) in
        let (x, l, d) = mem_of_map (λ (x : ResolvedFileSystemEntry). x.path) p _ k in
        let (i, _) = mem_of_filter (λ x. not (is_root_of w cwd x.path)) x _ l in
        let (_, c) = mem_of_filter (λ x. not (can_read_path_with_cwd w policy x.path cwd)) x _ i in
        (p, e, subst (λ s. can_read_path_with_cwd w policy s cwd ≡ false) d (ground arith))
    | inr h ↦ elim (rw h at m) [ ]
  ]

  -- In a restricted policy every deny entry whose path may not be read, but for the root of the
  -- working directory, is under its effective form among the unreadable roots.
  pub get_unreadable_roots_complete :
      (e : ResolvedFileSystemEntry)
      → is_restricted policy.kind ≡ true
      → Memᴰ e (resolved_entries_with_cwd w policy cwd)
      → e.access ≡ FileSystemAccessMode.none
      → can_read_path_with_cwd w policy e.path cwd ≡ false
      → is_root_of w cwd e.path ≡ false
      → Memᴰ
          (normalize_effective_absolute_path w e.path)
          (get_unreadable_roots_with_cwd w policy cwd)
  unfolding get_unreadable_roots_with_cwd
  get_unreadable_roots_complete e h m a c o = rw h (
      mem-dedup w e.path _ (
        mem-map (λ (x : ResolvedFileSystemEntry). x.path) e _
          (mem-filter (λ x. not (is_root_of w cwd x.path)) e _
            (mem-filter (λ x. not (can_read_path_with_cwd w policy x.path cwd)) e _
              (mem-filter (λ x. is_none x.access) e _ m (rw a refl)) (rw c refl))
            (rw o refl))))

  -- Every readable root is the effective form of a path that the policy lets be read.
  pub get_readable_roots-can_read :
      (t : AbsolutePathBuf)
      → Memᴰ t (get_readable_roots_with_cwd w policy cwd)
      → (p : AbsolutePathBuf) × (normalize_effective_absolute_path w p ≡ t)
        × (can_read_path_with_cwd w policy p cwd ≡ true)
  unfolding get_readable_roots_with_cwd
  get_readable_roots-can_read t m = elim (Bool-cases (has_full_disk_read_access policy)) [
    | inl h ↦ elim (rw h at m) [ ]
    | inr h ↦
        let (p, k, e) = mem_of_dedup w t _ (rw h at m) in
        let (x, l, d) = mem_of_map (λ (x : ResolvedFileSystemEntry). x.path) p _ k in
        let (i, c) = mem_of_filter (λ x. can_read_path_with_cwd w policy x.path cwd) x _ l in
        (p, e, subst (λ s. can_read_path_with_cwd w policy s cwd ≡ true) d c)
  ]
