-- ===== src/Policy/Bridge.antt =====
-- policy.rs: the projection to the legacy `SandboxPolicy`, and what it cannot express.
use rattler_sandbox.Prelude.{
  Bool, true, false, ◌||◌, not, Option, none, some, List, [], ◌∷◌, ◌++◌, if◌then◌else◌, ◌==◌, any,
  find, contains, is_empty, is_some_and,
}
use mathlib.Core.List.{foldl}
use rattler_sandbox.World.{World}
use rattler_sandbox.Paths.Std.{PathBuf, path_eq, normal}
use rattler_sandbox.Paths.Absolute.{AbsolutePathBuf, from_absolute_path, join}
use rattler_sandbox.Policy.Types.{
  NetworkAccess, NetworkSandboxPolicy, root, minimal, project_roots, tmpdir, slash_tmp, unknown,
  FileSystemPath, path, glob_pattern, special, FileSystemSandboxKind, FileSystemSandboxEntry,
  FileSystemSandboxPolicy, FileSystemSemanticSignature, WritableRoot, SandboxPolicy,
  danger_full_access, read_only, workspace_write, signature_eq,
}
use rattler_sandbox.Policy.Grants.{
  is_enabled, is_restricted, can_write, has_full_disk_read_access, has_full_disk_write_access,
  include_platform_defaults,
}
use rattler_sandbox.Policy.Resolve.{resolve_file_system_special_path}
use rattler_sandbox.Policy.Dedup.{
  dedup_absolute_paths, sorted_absolute_paths, sorted_writable_roots,
}
use rattler_sandbox.Policy.Legacy
use rattler_sandbox.Policy.Build.{legacy_runtime_file_system_policy_for_cwd}
use rattler_sandbox.Policy.Roots.{
  get_readable_roots_with_cwd, get_writable_roots_with_cwd, get_unreadable_roots_with_cwd,
  get_unreadable_globs_with_cwd,
}

-- The variables of the loop of `to_legacy_sandbox_policy`.
pub record LegacyScan : Type 0 where
  pub workspace_root_writable : Bool
  pub writable_roots : List AbsolutePathBuf
  pub tmpdir_writable : Bool
  pub slash_tmp_writable : Bool
  pub unbridgeable_root_write : Bool

abbrev pub empty_scan : LegacyScan
empty_scan = record {
  workspace_root_writable = false;
  writable_roots = [];
  tmpdir_writable = false;
  slash_tmp_writable = false;
  unbridgeable_root_write = false;
}

-- What is trusted where nothing confines the disk.
abbrev pub full_disk_policy : NetworkSandboxPolicy → SandboxPolicy
full_disk_policy network =
    if is_enabled network
    then danger_full_access
    else SandboxPolicy.external_sandbox NetworkAccess.restricted

abbrev pub push_root : LegacyScan → AbsolutePathBuf → LegacyScan
push_root s p = record s { writable_roots = s.writable_roots ++ p ∷ [] }

module _ (w : World) where
  -- What a `write` entry does to the variables; other entries leave them alone.
  unfoldable pub scan_write : Option AbsolutePathBuf → LegacyScan → FileSystemPath → LegacyScan
  scan_write cwd s (glob_pattern _) = s
  scan_write cwd s (path p) =
      if is_some_and (λ dir. dir == p) cwd
      then record s { workspace_root_writable = true }
      else push_root s p
  scan_write cwd s (special root) = record s { unbridgeable_root_write = true }
  scan_write cwd s (special minimal) = s
  scan_write cwd s (special (project_roots none)) = record s { workspace_root_writable = true }
  scan_write cwd s (special (project_roots (some subpath))) =
      elim (resolve_file_system_special_path w (project_roots (some subpath)) cwd) [
        | none ↦ s
        | some p ↦ push_root s p
      ]
  scan_write cwd s (special tmpdir) = record s { tmpdir_writable = true }
  scan_write cwd s (special slash_tmp) = record s { slash_tmp_writable = true }
  scan_write cwd s (special (unknown _ _)) = s

  unfoldable pub scan_entry :
      Option AbsolutePathBuf → LegacyScan → FileSystemSandboxEntry → LegacyScan
  scan_entry cwd s entry = if can_write entry.access then scan_write cwd s entry.path else s

  -- The policy of a scan; `none` is the error `InvalidInput`.
  unfoldable pub scanned_policy : NetworkSandboxPolicy → LegacyScan → Option SandboxPolicy
  scanned_policy network s =
      if s.workspace_root_writable
      then some (
          workspace_write (dedup_absolute_paths w s.writable_roots false) (is_enabled network)
            (not s.tmpdir_writable) (not s.slash_tmp_writable))
      else if s.unbridgeable_root_write
          || (not (is_empty s.writable_roots) || (s.tmpdir_writable || s.slash_tmp_writable))
      then none
      else some (read_only (is_enabled network))

  -- `FileSystemSandboxPolicy::to_legacy_sandbox_policy`
  unfoldable pub to_legacy_sandbox_policy :
      FileSystemSandboxPolicy → NetworkSandboxPolicy → PathBuf → Option SandboxPolicy
  to_legacy_sandbox_policy policy network cwd = elim policy.kind [
    | FileSystemSandboxKind.external_sandbox ↦ some (
        SandboxPolicy.external_sandbox
          (if is_enabled network then NetworkAccess.enabled else NetworkAccess.restricted))
    | FileSystemSandboxKind.unrestricted ↦ some (full_disk_policy network)
    | FileSystemSandboxKind.restricted ↦
        if has_full_disk_write_access policy
        then some (full_disk_policy network)
        else scanned_policy network
            (foldl (scan_entry (from_absolute_path w cwd)) empty_scan policy.entries)
  ]

  unfoldable pub semantic_signature :
      FileSystemSandboxPolicy → PathBuf → FileSystemSemanticSignature
  semantic_signature policy cwd = record {
    has_full_disk_read_access = has_full_disk_read_access policy;
    has_full_disk_write_access = has_full_disk_write_access policy;
    include_platform_defaults = include_platform_defaults policy;
    readable_roots = sorted_absolute_paths (get_readable_roots_with_cwd w policy cwd);
    writable_roots = sorted_writable_roots (get_writable_roots_with_cwd w policy cwd);
    unreadable_roots = sorted_absolute_paths (get_unreadable_roots_with_cwd w policy cwd);
    unreadable_globs = get_unreadable_globs_with_cwd policy cwd;
  }

  unfoldable pub is_semantically_equivalent_to :
      FileSystemSandboxPolicy → FileSystemSandboxPolicy → PathBuf → Bool
  is_semantically_equivalent_to policy other cwd =
      semantic_signature policy cwd == semantic_signature other cwd

  -- Whether the legacy roots fail to protect the metadata of one writable root.
  unfoldable pub root_needs_enforcement : List WritableRoot → WritableRoot → Bool
  root_needs_enforcement legacy_roots r =
      elim (find (λ candidate. candidate.root == r.root) legacy_roots) [
        | none ↦ not (is_empty r.protected_metadata_names)
        | some legacy_root ↦
            any
              (λ metadata_name.
                not (
                  contains (join r.root (normal metadata_name ∷ []))
                    legacy_root.read_only_subpaths))
              r.protected_metadata_names
      ]

  unfoldable pub protected_metadata_names_need_direct_runtime_enforcement :
      FileSystemSandboxPolicy → SandboxPolicy → PathBuf → Bool
  protected_metadata_names_need_direct_runtime_enforcement policy legacy_policy cwd =
      any (root_needs_enforcement (Legacy.get_writable_roots_with_cwd w legacy_policy cwd))
        (get_writable_roots_with_cwd w policy cwd)

  unfoldable pub needs_direct_runtime_enforcement :
      FileSystemSandboxPolicy → NetworkSandboxPolicy → PathBuf → Bool
  needs_direct_runtime_enforcement policy network cwd =
      if not (is_restricted policy.kind)
      then false
      else elim (to_legacy_sandbox_policy policy network cwd) [
        | none ↦ true
        | some legacy_policy ↦
            if protected_metadata_names_need_direct_runtime_enforcement policy legacy_policy cwd
            then true
            else not (
                semantic_signature policy cwd
                == semantic_signature
                    (legacy_runtime_file_system_policy_for_cwd w legacy_policy cwd) cwd)
      ]
