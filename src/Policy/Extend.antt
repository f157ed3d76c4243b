-- ===== src/Policy/Extend.antt =====
-- Added roots: what `with_additional_readable_roots` changes and what it leaves alone.
use rattler_sandbox.Prelude.{
  all, ◌≡◌, refl, sym, ap, ◌∙◌, ◌⊎◌, inl, inr, Bool, true, false, List, [], ◌∷◌, ◌++◌, arith,
  Bool-cases, filter_map-append,
}
use mathlib.Core.List.{Memᴰ, foldl}
use rattler_sandbox.World.{World}
use rattler_sandbox.Paths.Std.{PathBuf}
use rattler_sandbox.Paths.Absolute.{AbsolutePathBuf, from_absolute_path}
use rattler_sandbox.Paths.Normal.{is_normalized}
use rattler_sandbox.Policy.Types.{
  FileSystemAccessMode, read, path, FileSystemSandboxPolicy, ResolvedFileSystemEntry,
}
use rattler_sandbox.Policy.Grants.{is_restricted, can_read, has_full_disk_read_access}
use rattler_sandbox.Policy.Resolve.{
  access_among, resolve_entry, resolve_entry_path, resolve_file_system_path,
  resolved_entries_with_cwd, resolve_access_with_cwd, can_read_path_with_cwd,
}
use rattler_sandbox.Policy.Build.{with_entry, add_readable_root, with_additional_readable_roots}
use rattler_sandbox.Policy.Deny.{resolve_candidate_path_fixed}
use rattler_sandbox.Policy.Added.{access_among-added, access_among-added_self}

module _ (w : World) (cwd : PathBuf) where
  resolved-with_entry :
      (policy : FileSystemSandboxPolicy) (p : AbsolutePathBuf) (a : FileSystemAccessMode)
      → resolved_entries_with_cwd w (with_entry w policy (record { path = path p; access = a })) cwd
        ≡ resolved_entries_with_cwd w policy cwd ++ record { path = p; access = a } ∷ []
  unfolding resolved_entries_with_cwd resolve_entry_path resolve_file_system_path
  resolved-with_entry policy p a =
      filter_map-append (resolve_entry w (from_absolute_path w cwd)) policy.entries _

  -- The access of an absolute, normalized path in a restricted policy.
  pub resolve_access_with_cwd_fixed :
      (policy : FileSystemSandboxPolicy) (t : AbsolutePathBuf)
      → is_restricted policy.kind ≡ true
      → is_normalized t ≡ true
      → resolve_access_with_cwd w policy t cwd
        ≡ access_among w (resolved_entries_with_cwd w policy cwd) t
  unfolding resolve_access_with_cwd
  resolve_access_with_cwd_fixed policy t r h = rw (r, resolve_candidate_path_fixed w t cwd h) refl

  can_read-among :
      (policy : FileSystemSandboxPolicy) (t : AbsolutePathBuf) (b : Bool)
      → is_restricted policy.kind ≡ true
      → is_normalized t ≡ true
      → can_read_path_with_cwd w policy t cwd ≡ b
      → can_read (access_among w (resolved_entries_with_cwd w policy cwd) t) ≡ b
  unfolding can_read_path_with_cwd
  can_read-among policy t b r h k =
      ap can_read (sym (resolve_access_with_cwd_fixed policy t r h)) ∙ k

  with_read-keeps :
      (policy : FileSystemSandboxPolicy) (p t : AbsolutePathBuf)
      → is_restricted policy.kind ≡ true
      → is_normalized p ≡ true
      → is_normalized t ≡ true
      → can_read_path_with_cwd w policy p cwd ≡ false
      → can_read_path_with_cwd w policy t cwd ≡ true
      → resolve_access_with_cwd w
          (with_entry w policy (record { path = path p; access = read }))
          t
          cwd
        ≡ resolve_access_with_cwd w policy t cwd
  with_read-keeps policy p t r hp ht k h =
      resolve_access_with_cwd_fixed (with_entry w policy (record { path = path p; access = read }))
        t r ht
      ∙ ap (λ l. access_among w l t) (resolved-with_entry policy p read)
      ∙ access_among-added w (resolved_entries_with_cwd w policy cwd) p t
          (can_read-among policy p false r hp k) (can_read-among policy t true r ht h)
      ∙ sym (resolve_access_with_cwd_fixed policy t r ht)

  add_readable_root-keeps :
      (policy : FileSystemSandboxPolicy) (p t : AbsolutePathBuf)
      → is_restricted policy.kind ≡ true
      → is_normalized p ≡ true
      → is_normalized t ≡ true
      → can_read_path_with_cwd w policy t cwd ≡ true
      → (is_restricted (add_readable_root w cwd policy p).kind ≡ true)
        × (resolve_access_with_cwd w (add_readable_root w cwd policy p) t cwd
            ≡ resolve_access_with_cwd w policy t cwd)
  unfolding add_readable_root
  add_readable_root-keeps policy p t r hp ht h =
      elim (Bool-cases (can_read_path_with_cwd w policy p cwd)) [
        | inl k ↦ rw k (r, refl)
        | inr k ↦ rw k (r, with_read-keeps policy p t r hp ht k h)
      ]

  -- Adding an absolute, normalized root to a restricted policy makes it readable, unless an entry
  -- of its own denies it.
  pub add_readable_root_self :
      (policy : FileSystemSandboxPolicy) (p : AbsolutePathBuf)
      → is_restricted policy.kind ≡ true
      → is_normalized p ≡ true
      → (can_read_path_with_cwd w (add_readable_root w cwd policy p) p cwd ≡ true)
        ⊎ ((d : ResolvedFileSystemEntry) × Memᴰ d (resolved_entries_with_cwd w policy cwd)
            × (d.path ≡ p)
            × (d.access ≡ FileSystemAccessMode.none))
  unfolding add_readable_root can_read_path_with_cwd
  add_readable_root_self policy p r hp = elim (Bool-cases (can_read_path_with_cwd w policy p cwd)) [
    | inl k ↦ inl (rw k k)
    | inr k ↦ elim (access_among-added_self w (resolved_entries_with_cwd w policy cwd) p) [
      | inl h ↦ inl (
          rw k (
            ap can_read (
              resolve_access_with_cwd_fixed
                (with_entry w policy (record { path = path p; access = read })) p r hp
              ∙ ap (λ l. access_among w l p) (resolved-with_entry policy p read))
            ∙ h))
      | inr d ↦ inr d
    ]
  ]

  -- Adding absolute, normalized readable roots to a restricted policy never changes the access of
  -- an absolute, normalized path that could be read before.
  pub with_additional_readable_roots-keeps :
      (policy : FileSystemSandboxPolicy) (roots : List AbsolutePathBuf) (t : AbsolutePathBuf)
      → is_restricted policy.kind ≡ true
      → all is_normalized roots ≡ true
      → is_normalized t ≡ true
      → can_read_path_with_cwd w policy t cwd ≡ true
      → resolve_access_with_cwd w (with_additional_readable_roots w policy cwd roots) t cwd
        ≡ resolve_access_with_cwd w policy t cwd
  unfolding with_additional_readable_roots can_read_path_with_cwd
  with_additional_readable_roots-keeps policy roots t r hr ht h =
      elim (Bool-cases (has_full_disk_read_access policy)) [
        | inl k ↦ rw k refl
        | inr k ↦ rw k (loop policy roots r hr h)
      ]
    where
      loop :
          (s : FileSystemSandboxPolicy) (ps : List AbsolutePathBuf)
          → is_restricted s.kind ≡ true
          → all is_normalized ps ≡ true
          → can_read_path_with_cwd w s t cwd ≡ true
          → resolve_access_with_cwd w (foldl (add_readable_root w cwd) s ps) t cwd
            ≡ resolve_access_with_cwd w s t cwd
      loop s [] r' n k = refl
      loop s (p ∷ ps) r' n k =
          let (r'', e) = add_readable_root-keeps s p t r' (ground arith) ht k in
          loop (add_readable_root w cwd s p) ps r'' (ground arith) (ap can_read e ∙ k) ∙ e
