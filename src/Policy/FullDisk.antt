-- ===== src/Policy/FullDisk.antt =====
-- What `has_full_disk_write_access` and `has_full_disk_read_access` promise of every path.
use rattler_sandbox.Prelude.{
  ◌<◌, ◌≡◌, refl, sym, ap, ◌∙◌, inl, inr, Bool, true, false, ◌&&◌, some, List, [], ◌∷◌, string_eq,
  arith, Bool-cases, mem_of_any, false_of_any, true_of_all, mem-filter_map, mem_of_filter_map,
}
use mathlib.Core.Path.{subst}
use mathlib.Core.List.{Memᴰ}
use rattler_sandbox.World.{World}
use rattler_sandbox.Paths.Std.{PathBuf, path_eq, root_dir, starts_with}
use rattler_sandbox.Paths.Absolute.{AbsolutePathBuf, from_absolute_path}
use rattler_sandbox.Paths.Normal.{is_normalized}
use rattler_sandbox.Policy.Types.{
  FileSystemAccessMode, read, write, root, FileSystemPath, special, FileSystemSandboxEntry,
  FileSystemSandboxPolicy, ResolvedFileSystemEntry, subpath_eq,
}
use rattler_sandbox.Policy.Grants.{
  is_restricted, is_root, is_none, narrows, can_read, can_write, access_rank, has_root_access,
  has_denied_read_restrictions, has_same_target_write_override, has_write_narrowing_entries,
  has_full_disk_read_access, has_full_disk_write_access,
}
use rattler_sandbox.Policy.Resolve.{
  slash_tmp_path, resolve_entry_path, resolve_entry, resolved_entries_with_cwd,
  resolve_candidate_path, resolve_access_with_cwd, can_read_path_with_cwd,
}
use rattler_sandbox.Policy.Metadata.{can_write_path_with_cwd}
use rattler_sandbox.Policy.WellFormed.{is_normal_path, IsWellFormed, starts_with-root}
use rattler_sandbox.Policy.Access.{Governs, resolve_access_with_cwd-Governs}
use rattler_sandbox.Policy.Targets.{
  resolve-root, share_target, narrows-cases, precedence_lt-access, overrider,
}

module _ (w : World) (policy : FileSystemSandboxPolicy) (cwd : PathBuf) (c : AbsolutePathBuf)
    (hc : from_absolute_path w cwd ≡ some c) (hn : is_normalized c ≡ true)
    (wf : IsWellFormed policy) where
  resolved : List ResolvedFileSystemEntry
  resolved = resolved_entries_with_cwd w policy cwd

  -- An entry that resolves is among the resolved entries.
  mem-resolved :
      (x : FileSystemSandboxEntry) (p : AbsolutePathBuf)
      → Memᴰ x policy.entries
      → resolve_entry_path w x.path (some c) ≡ some p
      → Memᴰ (record { path = p; access = x.access }) resolved
  unfolding resolved resolved_entries_with_cwd
  mem-resolved x p m h =
      rw hc (mem-filter_map (resolve_entry w (some c)) x _ policy.entries m (rw h refl))

  mem_of_resolved :
      (e : ResolvedFileSystemEntry)
      → Memᴰ e resolved
      → (x : FileSystemSandboxEntry) × Memᴰ x policy.entries
        × (resolve_entry_path w x.path (some c) ≡ some e.path)
        × (x.access ≡ e.access)
  unfolding resolved resolved_entries_with_cwd
  mem_of_resolved e m =
      let (x, n, h) = mem_of_filter_map (resolve_entry w (some c)) e policy.entries (rw hc at m) in
      (x, n, ground arith, ground arith)

  root_path : (p : FileSystemPath) → is_root p ≡ true → p ≡ special root
  root_path (special root) h = refl
  root_path _ h = absurd (ground arith)

  -- A stronger entry at the same place would come before the one that governs.
  not_beaten :
      (t : AbsolutePathBuf) (e : ResolvedFileSystemEntry) (y : FileSystemSandboxEntry)
      → Governs resolved t e
      → Memᴰ y policy.entries
      → resolve_entry_path w y.path (some c) ≡ some e.path
      → access_rank e.access < access_rank y.access
      → ⊥
  not_beaten t e y g m h k =
      let f : ResolvedFileSystemEntry = record { path = e.path; access = y.access } in
      cc (g.dominates f (mem-resolved y e.path m h) g.covers, precedence_lt-access e f refl k)

  -- A readable or writable root entry, as the test of `has_root_access` finds it.
  root_entry_of :
      (predicate : FileSystemAccessMode → Bool)
      → has_root_access predicate policy ≡ true
      → (y : FileSystemSandboxEntry) × Memᴰ y policy.entries
        × (y.path ≡ special root)
        × (predicate y.access ≡ true)
  unfolding has_root_access
  root_entry_of predicate h =
      let (y, m, k) =
        mem_of_any (λ entry. is_root entry.path && predicate entry.access) policy.entries
          (ground arith) in
      (y, m, root_path y.path (ground arith), ground arith)

  write_of : (a : FileSystemAccessMode) → can_write a ≡ true → a ≡ write
  write_of write h = refl
  write_of read h = absurd (ground arith)
  write_of FileSystemAccessMode.none h = absurd (ground arith)

  -- A root entry is over every path.
  uncovered :
      (t : AbsolutePathBuf)
      → is_normalized t ≡ true
      → (y : FileSystemSandboxEntry) → Memᴰ y policy.entries
      → y.path ≡ special root
      → ((f : ResolvedFileSystemEntry) → Memᴰ f resolved → starts_with t f.path ≡ false)
      → ⊥
  uncovered t h y m q out =
      let f : ResolvedFileSystemEntry = record { path = root_dir ∷ []; access = y.access } in
      cc (
        starts_with-root t h,
        out f (
            mem-resolved y (root_dir ∷ []) m
              (ap (λ s. resolve_entry_path w s (some c)) q ∙ resolve-root w c hn)),
      )

  unrestricted_access :
      (target : PathBuf)
      → is_restricted policy.kind ≡ false
      → resolve_access_with_cwd w policy target cwd ≡ write
  unfolding resolve_access_with_cwd
  unrestricted_access target r = rw r refl

  governed_read :
      (t : AbsolutePathBuf) (e : ResolvedFileSystemEntry)
      → has_denied_read_restrictions policy ≡ false
      → is_restricted policy.kind ≡ true
      → Governs resolved t e
      → can_read e.access ≡ true
  unfolding has_denied_read_restrictions
  governed_read t e h r g =
      let (x, m, p, a) = mem_of_resolved e g.listed in
      let d : is_none x.access ≡ false =
        false_of_any (λ entry. is_none entry.access) x policy.entries (ground arith) m in
      rw (← a) (ground arith)

  module _ (tmp : w.is_dir slash_tmp_path ≡ true) where
    governed_write :
        (t : AbsolutePathBuf) (e : ResolvedFileSystemEntry)
        → has_root_access can_write policy ≡ true
        → has_write_narrowing_entries policy ≡ false
        → is_restricted policy.kind ≡ true
        → Governs resolved t e
        → e.access ≡ write
    unfolding has_write_narrowing_entries
    governed_write t e hr hw r g =
        let (x, m, p, a) = mem_of_resolved e g.listed in
        let (y, n, q, b) = root_entry_of can_write hr in
        elim (narrows-cases w c hn x.path x.access (has_same_target_write_override policy x) (
          false_of_any
            (λ entry. narrows entry.path entry.access (has_same_target_write_override policy entry))
            x policy.entries (ground arith) m)) [
              | inl h ↦ sym a ∙ h
              | inr (inl (h, k)) ↦ absurd (
                  not_beaten t e y g n (ap (λ s. resolve_entry_path w s (some c)) (q ∙ sym h) ∙ p)
                    (ground (arith, write_of y.access b)))
              | inr (inr (inl h)) ↦ absurd (cc (p, h))
              | inr (inr (inr h)) ↦
                  let (z, l, k, s) = overrider policy x h in
                  absurd (
                    not_beaten t e z g l
                      (share_target w c hn tmp z.path x.path e.path
                        (true_of_all (λ entry. is_normal_path entry.path) z policy.entries wf l)
                        (true_of_all (λ entry. is_normal_path entry.path) x policy.entries wf m) s
                        p)
                      (subst (λ o. access_rank o < access_rank z.access) a k))
            ]

    full_access :
        (target : PathBuf) {t : AbsolutePathBuf}
        → has_full_disk_write_access policy ≡ true
        → resolve_candidate_path w target cwd ≡ some t
        → is_normalized t ≡ true
        → is_restricted policy.kind ≡ true
        → resolve_access_with_cwd w policy target cwd ≡ write
    unfolding has_full_disk_write_access resolved resolved_entries_with_cwd
    full_access target {t} h k ht r =
        let hr : has_root_access can_write policy ≡ true = ground arith in
        let hw : has_write_narrowing_entries policy ≡ false = ground arith in
        elim (resolve_access_with_cwd-Governs w policy target cwd r k) [
          | inl (e, g, a) ↦ a ∙ governed_write t e hr hw r g
          | inr (a, out) ↦
              let (y, m, q, b) = root_entry_of can_write hr in absurd (uncovered t ht y m q out)
        ]

    -- Where the policy is said to write the whole disk, every path that can be resolved may be
    -- written, protected metadata too. `/tmp` has to be a directory, the working directory and
    -- the target to have absolute, normalized forms, as have the paths of the entries.
    pub full_disk_write_access :
        (target : PathBuf) {t : AbsolutePathBuf}
        → has_full_disk_write_access policy ≡ true
        → resolve_candidate_path w target cwd ≡ some t
        → is_normalized t ≡ true
        → can_write_path_with_cwd w policy target cwd ≡ true
    unfolding can_write_path_with_cwd
    full_disk_write_access target {t} h k ht = elim (Bool-cases (is_restricted policy.kind)) [
      | inl r ↦ rw (full_access target h k ht r, h) refl
      | inr r ↦ rw (unrestricted_access target r, h) refl
    ]

  -- Where the policy is said to read the whole disk, every path that can be resolved may be read.
  -- The working directory and the target have absolute, normalized forms, as have the paths of
  -- the entries.
  pub full_disk_read_access :
      (target : PathBuf) {t : AbsolutePathBuf}
      → has_full_disk_read_access policy ≡ true
      → resolve_candidate_path w target cwd ≡ some t
      → is_normalized t ≡ true
      → can_read_path_with_cwd w policy target cwd ≡ true
  unfolding has_full_disk_read_access can_read_path_with_cwd resolved resolved_entries_with_cwd
  full_disk_read_access target {t} h k ht = elim (Bool-cases (is_restricted policy.kind)) [
    | inl r ↦ elim (resolve_access_with_cwd-Governs w policy target cwd r k) [
      | inl (e, g, a) ↦ rw a (governed_read t e (ground arith) r g)
      | inr (a, out) ↦
          let (y, m, q, b) = root_entry_of can_read (ground arith) in
          absurd (uncovered t ht y m q out)
    ]
    | inr r ↦ rw (unrestricted_access target r) refl
  ]
