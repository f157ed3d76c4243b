-- ===== src/Policy/Grants.antt =====
-- policy.rs: access modes, the plain policies, and what a policy grants by its entries alone.
use rattler_sandbox.Prelude.{
  ℕ, Bool, true, false, ◌&&◌, not, none, List, [], ◌∷◌, if◌then◌else◌, ◌==◌, string_eq, ltb, any,
  is_some,
}
use rattler_sandbox.Paths.Std.{normal, root_dir, path_eq, parent}
use rattler_sandbox.Paths.Absolute.{AbsolutePathBuf}
use rattler_sandbox.Policy.Types.{
  NetworkAccess, NetworkSandboxPolicy, FileSystemAccessMode, read, write, FileSystemSpecialPath,
  root, minimal, project_roots, tmpdir, slash_tmp, unknown, FileSystemPath, path, glob_pattern,
  special, FileSystemSandboxKind, FileSystemSandboxEntry, FileSystemSandboxPolicy, subpath_eq,
}

-- `NetworkAccess::is_enabled`
abbrev pub is_access_enabled : NetworkAccess → Bool
is_access_enabled NetworkAccess.enabled = true
is_access_enabled NetworkAccess.restricted = false

-- `NetworkSandboxPolicy::is_enabled`
abbrev pub is_enabled : NetworkSandboxPolicy → Bool
is_enabled NetworkSandboxPolicy.enabled = true
is_enabled NetworkSandboxPolicy.restricted = false

abbrev pub can_read : FileSystemAccessMode → Bool
can_read FileSystemAccessMode.none = false
can_read _ = true

abbrev pub can_write : FileSystemAccessMode → Bool
can_write write = true
can_write _ = false

-- `access == FileSystemAccessMode::None`
abbrev pub is_none : FileSystemAccessMode → Bool
is_none FileSystemAccessMode.none = true
is_none _ = false

-- The derived order: `none` beats `write`, and `write` beats `read`.
abbrev pub access_rank : FileSystemAccessMode → ℕ
access_rank read = 0
access_rank write = 1
access_rank FileSystemAccessMode.none = 2

-- `matches!(kind, FileSystemSandboxKind::Restricted)`
abbrev pub is_restricted : FileSystemSandboxKind → Bool
is_restricted FileSystemSandboxKind.restricted = true
is_restricted _ = false

-- The default policy: all of the disk is readable.
abbrev pub default_policy : FileSystemSandboxPolicy
default_policy = record {
  kind = FileSystemSandboxKind.restricted;
  glob_scan_max_depth = none;
  entries = record { path = special root; access = read } ∷ [];
}

abbrev pub unrestricted : FileSystemSandboxPolicy
unrestricted = record {
  kind = FileSystemSandboxKind.unrestricted;
  glob_scan_max_depth = none;
  entries = [];
}

abbrev pub external_sandbox : FileSystemSandboxPolicy
external_sandbox = record {
  kind = FileSystemSandboxKind.external_sandbox;
  glob_scan_max_depth = none;
  entries = [];
}

abbrev pub restricted : List FileSystemSandboxEntry → FileSystemSandboxPolicy
restricted entries = record {
  kind = FileSystemSandboxKind.restricted;
  glob_scan_max_depth = none;
  entries = entries;
}

abbrev pub is_root : FileSystemPath → Bool
is_root (special root) = true
is_root _ = false

unfoldable pub has_root_access : (FileSystemAccessMode → Bool) → FileSystemSandboxPolicy → Bool
has_root_access predicate policy =
    is_restricted policy.kind
    && any (λ entry. is_root entry.path && predicate entry.access) policy.entries

unfoldable pub has_denied_read_restrictions : FileSystemSandboxPolicy → Bool
has_denied_read_restrictions policy =
    is_restricted policy.kind && any (λ entry. is_none entry.access) policy.entries

unfoldable pub special_path_matches_absolute_path : FileSystemSpecialPath → AbsolutePathBuf → Bool
special_path_matches_absolute_path root p = not (is_some (parent p))
special_path_matches_absolute_path slash_tmp p = p == (root_dir ∷ normal "tmp" ∷ [])
special_path_matches_absolute_path _ p = false

unfoldable pub special_paths_share_target : FileSystemSpecialPath → FileSystemSpecialPath → Bool
special_paths_share_target root root = true
special_paths_share_target minimal minimal = true
special_paths_share_target tmpdir tmpdir = true
special_paths_share_target slash_tmp slash_tmp = true
special_paths_share_target (project_roots left) (project_roots right) = left == right
special_paths_share_target (unknown left left_subpath) (unknown right right_subpath) =
    left == right && left_subpath == right_subpath
special_paths_share_target _ _ = false

unfoldable pub file_system_paths_share_target : FileSystemPath → FileSystemPath → Bool
file_system_paths_share_target (path left) (path right) = left == right
file_system_paths_share_target (special left) (special right) =
    special_paths_share_target left right
file_system_paths_share_target (path p) (special value) = special_path_matches_absolute_path value p
file_system_paths_share_target (special value) (path p) = special_path_matches_absolute_path value p
file_system_paths_share_target (glob_pattern left) (glob_pattern right) = left == right
file_system_paths_share_target _ _ = false

unfoldable pub has_same_target_write_override :
    FileSystemSandboxPolicy → FileSystemSandboxEntry → Bool
has_same_target_write_override policy entry =
    any
      (λ candidate.
        can_write candidate.access
        && ltb (access_rank entry.access) (access_rank candidate.access)
        && file_system_paths_share_target candidate.path entry.path)
      policy.entries

-- The closure of `has_write_narrowing_entries`, by the kind of path.
abbrev pub narrows : FileSystemPath → FileSystemAccessMode → Bool → Bool
narrows _ write overridden = false
narrows (path p) access overridden = not overridden
narrows (glob_pattern _) access overridden = true
narrows (special root) access overridden = is_none access
narrows (special minimal) access overridden = false
narrows (special (unknown _ _)) access overridden = false
narrows (special _) access overridden = not overridden

unfoldable pub has_write_narrowing_entries : FileSystemSandboxPolicy → Bool
has_write_narrowing_entries policy =
    is_restricted policy.kind
    && any (λ entry. narrows entry.path entry.access (has_same_target_write_override policy entry))
        policy.entries

unfoldable pub has_full_disk_read_access : FileSystemSandboxPolicy → Bool
has_full_disk_read_access policy =
    if is_restricted policy.kind
    then has_root_access can_read policy && not (has_denied_read_restrictions policy)
    else true

unfoldable pub has_full_disk_write_access : FileSystemSandboxPolicy → Bool
has_full_disk_write_access policy =
    if is_restricted policy.kind
    then has_root_access can_write policy && not (has_write_narrowing_entries policy)
    else true

abbrev pub is_minimal : FileSystemPath → Bool
is_minimal (special minimal) = true
is_minimal _ = false

unfoldable pub include_platform_defaults : FileSystemSandboxPolicy → Bool
include_platform_defaults policy =
    not (has_full_disk_read_access policy)
    && is_restricted policy.kind
    && any (λ entry. is_minimal entry.path && can_read entry.access) policy.entries
