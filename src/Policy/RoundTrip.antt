-- ===== src/Policy/RoundTrip.antt =====
-- A legacy policy, made into a file system policy and projected back.
use rattler_sandbox.Prelude.{
  ◌≡◌, refl, ap, ◌∙◌, Bool, true, false, ◌&&◌, ◌||◌, not, Option, none, some, List, [], ◌∷◌, ◌++◌,
  arith, map, any, ◌==◌, Bool-cases, inl, inr, is_some_and, foldl-keeps, all,
}
use mathlib.Core.List.{foldl, foldl-append, append_assoc, append-nil}
use rattler_sandbox.World.{World}
use rattler_sandbox.Paths.Std.{PathBuf, path_eq}
use rattler_sandbox.Paths.Absolute.{AbsolutePathBuf, from_absolute_path}
use rattler_sandbox.Policy.Types.{
  NetworkAccess, NetworkSandboxPolicy, FileSystemPath, path, FileSystemSandboxKind,
  FileSystemSandboxEntry, FileSystemSandboxPolicy, SandboxPolicy, danger_full_access, read_only,
  workspace_write,
}
use rattler_sandbox.Policy.Grants.{
  is_root, can_write, file_system_paths_share_target, has_root_access, has_full_disk_write_access,
}
use rattler_sandbox.Policy.Legacy.{has_full_network_access}
use rattler_sandbox.Policy.Defaults.{
  default_read_only_subpaths_for_writable_root, append_default_read_only_entry_if_no_explicit_rule,
  append_default_read_only_path_if_no_explicit_rule,
  append_default_read_only_project_root_subpath_if_no_explicit_rule, append_default_subpaths,
}
use rattler_sandbox.Policy.Build.{
  write_entry, workspace_grants, append_project_root_subpaths, append_workspace_defaults,
  network_policy_from, workspace_write_policy, policy_from, from_legacy_sandbox_policy_for_cwd,
}
use rattler_sandbox.Policy.Bridge.{
  push_root, LegacyScan, empty_scan, scan_write, scan_entry, scanned_policy,
  to_legacy_sandbox_policy,
}
use rattler_sandbox.Policy.Distinct.{is_distinct, dedup_absolute_paths_fixed}

module _ (w : World) (cwd : Option AbsolutePathBuf) where
  abbrev scan : List FileSystemSandboxEntry → LegacyScan
  scan entries = foldl (scan_entry w cwd) empty_scan entries

  abbrev writes_root : List FileSystemSandboxEntry → Bool
  writes_root entries = any (λ entry. is_root entry.path && can_write entry.access) entries

  -- Two lists of entries that the projection does not tell apart.
  pub record SameScan (xs ys : List FileSystemSandboxEntry) : Type 0 where
    pub scans : scan xs ≡ scan ys
    pub roots : writes_root xs ≡ writes_root ys

  writes_root-append :
      (xs ys : List FileSystemSandboxEntry)
      → writes_root (xs ++ ys) ≡ (writes_root xs || writes_root ys)
  writes_root-append [] ys = refl
  writes_root-append (x ∷ xs) ys = ground (arith, writes_root-append xs ys)

  -- A default read-only entry is not seen by the projection.
  append_entry-SameScan :
      (xs ys : List FileSystemSandboxEntry) (p : FileSystemPath)
      → SameScan xs ys
      → SameScan (append_default_read_only_entry_if_no_explicit_rule xs p) ys
  unfolding append_default_read_only_entry_if_no_explicit_rule scan_entry
  append_entry-SameScan xs ys p h =
      elim (Bool-cases (any (λ entry. file_system_paths_share_target entry.path p) xs)) [
        | inl k ↦ rw k h
        | inr k ↦ rw k (record {
          scans = foldl-append (scan_entry w cwd) empty_scan xs _ ∙ h.scans;
          roots = writes_root-append xs _ ∙ ground (arith, h.roots);
        })
      ]

  append_subpaths-SameScan :
      (protect : Bool) (xs ys : List FileSystemSandboxEntry) (r : AbsolutePathBuf)
      → SameScan xs ys
      → SameScan (append_default_subpaths w protect xs r) ys
  unfolding append_default_subpaths append_default_read_only_path_if_no_explicit_rule
  append_subpaths-SameScan protect xs ys r h =
      foldl-keeps append_default_read_only_path_if_no_explicit_rule (λ l. SameScan l ys)
        (λ l p k. append_entry-SameScan l ys (path p) k) xs
        (default_read_only_subpaths_for_writable_root w r protect) h

  append_roots-SameScan :
      (xs ys : List FileSystemSandboxEntry) (rs : List AbsolutePathBuf)
      → SameScan xs ys
      → SameScan (foldl (append_default_subpaths w false) xs rs) ys
  append_roots-SameScan xs ys rs h =
      foldl-keeps (append_default_subpaths w false) (λ l. SameScan l ys)
        (λ l r k. append_subpaths-SameScan false l ys r k) xs rs h

  append_project_roots-SameScan :
      (xs : List FileSystemSandboxEntry) → SameScan (append_project_root_subpaths xs) xs
  unfolding append_default_read_only_project_root_subpath_if_no_explicit_rule
  append_project_roots-SameScan xs = append_entry-SameScan _ xs _ (
      append_entry-SameScan _ xs _
        (append_entry-SameScan xs xs _ (record { scans = refl; roots = refl })))

  -- No root is the working directory itself.
  abbrev pub is_beside : AbsolutePathBuf → Bool
  is_beside r = not (is_some_and (λ dir. dir == r) cwd)

  scan-root :
      (r : AbsolutePathBuf) (s : LegacyScan)
      → is_beside r ≡ true
      → scan_entry w cwd s (write_entry r) ≡ push_root s r
  unfolding scan_entry scan_write
  scan-root r s h = let e : is_some_and (λ dir. dir == r) cwd ≡ false = ground arith in rw e refl

  scan-roots :
      (rs : List AbsolutePathBuf) (s : LegacyScan)
      → all is_beside rs ≡ true
      → foldl (scan_entry w cwd) s (map write_entry rs)
        ≡ record s { writable_roots = s.writable_roots ++ rs }
  scan-roots [] s h = rw append-nil refl
  scan-roots (r ∷ rs) s h =
      ap (λ t. foldl (scan_entry w cwd) t (map write_entry rs)) (scan-root r s (ground arith))
      ∙ scan-roots rs (push_root s r) (ground arith)
      ∙ rw append_assoc refl

  scan-grants :
      (rs : List AbsolutePathBuf) (a b : Bool)
      → all is_beside rs ≡ true
      → scan (workspace_grants rs a b) ≡ record {
        workspace_root_writable = true;
        writable_roots = rs;
        tmpdir_writable = not a;
        slash_tmp_writable = not b;
        unbridgeable_root_write = false;
      }
  unfolding scan_entry scan_write
  scan-grants rs true true h = scan-roots rs _ h
  scan-grants rs true false h = scan-roots rs _ h
  scan-grants rs false true h = scan-roots rs _ h
  scan-grants rs false false h = scan-roots rs _ h

  writes_root-roots : (rs : List AbsolutePathBuf) → writes_root (map write_entry rs) ≡ false
  writes_root-roots [] = refl
  writes_root-roots (r ∷ rs) = writes_root-roots rs

  writes_root-grants :
      (rs : List AbsolutePathBuf) (a b : Bool) → writes_root (workspace_grants rs a b) ≡ false
  writes_root-grants rs true true = writes_root-roots rs
  writes_root-grants rs true false = writes_root-roots rs
  writes_root-grants rs false true = writes_root-roots rs
  writes_root-grants rs false false = writes_root-roots rs

module _ (w : World) (cwd : PathBuf) where
  -- The entries of a policy made from `workspace-write`.
  from_legacy-SameScan :
      (rs : List AbsolutePathBuf) (net a b : Bool)
      → SameScan w
          (from_absolute_path w cwd)
          (from_legacy_sandbox_policy_for_cwd w (workspace_write rs net a b) cwd).entries
          (workspace_grants rs a b)
  unfolding from_legacy_sandbox_policy_for_cwd policy_from workspace_write_policy
      append_workspace_defaults
  from_legacy-SameScan rs net a b = append_roots-SameScan w dir _ grants rs (by_dir dir)
    where
      dir : Option AbsolutePathBuf
      dir = from_absolute_path w cwd

      grants : List FileSystemSandboxEntry
      grants = workspace_grants rs a b

      base : List FileSystemSandboxEntry
      base = foldl (append_default_subpaths w false) (append_project_root_subpaths grants) rs

      same : SameScan w dir base grants
      same = append_roots-SameScan w dir _ grants rs (append_project_roots-SameScan w dir grants)

      by_dir :
          (o : Option AbsolutePathBuf)
          → SameScan w dir
              (elim o [ none ↦ base | some c ↦ append_default_subpaths w true base c ])
              grants
      by_dir none = same
      by_dir (some c) = append_subpaths-SameScan w dir true base grants c same

  -- The writable roots are distinct, and none is the working directory.
  abbrev pub is_projectable : SandboxPolicy → Bool
  is_projectable (workspace_write rs _ _ _) =
      is_distinct rs && all (is_beside w (from_absolute_path w cwd)) rs
  is_projectable _ = true

  projected :
      (policy : FileSystemSandboxPolicy) (net : NetworkSandboxPolicy)
      → policy.kind ≡ FileSystemSandboxKind.restricted
      → writes_root w (from_absolute_path w cwd) policy.entries ≡ false
      → to_legacy_sandbox_policy w policy net cwd
        ≡ scanned_policy w net (scan w (from_absolute_path w cwd) policy.entries)
  unfolding to_legacy_sandbox_policy has_full_disk_write_access has_root_access
  projected policy net k h = ground arith

  to_legacy-workspace :
      (rs : List AbsolutePathBuf) (net a b : Bool)
      → is_projectable (workspace_write rs net a b) ≡ true
      → to_legacy_sandbox_policy w
          (from_legacy_sandbox_policy_for_cwd w (workspace_write rs net a b) cwd)
          (network_policy_from (workspace_write rs net a b))
          cwd
        ≡ some (workspace_write rs net a b)
  to_legacy-workspace rs net a b h =
      projected (from_legacy_sandbox_policy_for_cwd w (workspace_write rs net a b) cwd)
        (network_policy_from (workspace_write rs net a b))
        (unfold from_legacy_sandbox_policy_for_cwd policy_from workspace_write_policy in refl)
        (same.roots ∙ writes_root-grants w dir rs a b)
      ∙ ap (scanned_policy w (network_policy_from (workspace_write rs net a b)))
          (same.scans ∙ scan-grants w dir rs a b (ground arith))
      ∙ scanned
    where
      dir : Option AbsolutePathBuf
      dir = from_absolute_path w cwd

      same :
          SameScan w dir
            (from_legacy_sandbox_policy_for_cwd w (workspace_write rs net a b) cwd).entries
            (workspace_grants rs a b)
      same = from_legacy-SameScan rs net a b

      scanned :
          scanned_policy w (network_policy_from (workspace_write rs net a b)) (record {
            workspace_root_writable = true;
            writable_roots = rs;
            tmpdir_writable = not a;
            slash_tmp_writable = not b;
            unbridgeable_root_write = false;
          })
          ≡ some (workspace_write rs net a b)
      scanned =
          unfold scanned_policy network_policy_from has_full_network_access in
          rw (dedup_absolute_paths_fixed w rs (ground arith)) (ground arith)

  -- A legacy policy survives the way into the file system policy of a working directory and back,
  -- if its writable roots are distinct and none of them is the working directory.
  pub to_legacy-from_legacy :
      (p : SandboxPolicy)
      → is_projectable p ≡ true
      → to_legacy_sandbox_policy w
          (from_legacy_sandbox_policy_for_cwd w p cwd)
          (network_policy_from p)
          cwd
        ≡ some p
  unfolding to_legacy_sandbox_policy network_policy_from from_legacy_sandbox_policy_for_cwd
      policy_from has_full_network_access has_full_disk_write_access has_root_access scanned_policy
      scan_entry
  to_legacy-from_legacy danger_full_access h = refl
  to_legacy-from_legacy (SandboxPolicy.external_sandbox NetworkAccess.enabled) h = refl
  to_legacy-from_legacy (SandboxPolicy.external_sandbox NetworkAccess.restricted) h = refl
  to_legacy-from_legacy (read_only true) h = refl
  to_legacy-from_legacy (read_only false) h = refl
  to_legacy-from_legacy (workspace_write rs net a b) h = to_legacy-workspace rs net a b h
