-- ===== src/Policy/Metadata.antt =====
-- policy.rs: protected workspace metadata, and which paths may be written.
use rattler_sandbox.Prelude.{
  String, Bool, true, false, ◌&&◌, ◌||◌, not, Option, none, some, List, [], ◌∷◌, if◌then◌else◌,
  ◌==◌, string_eq, any, find, filter, filter_map, head?, ◌>>=◌,
}
use rattler_sandbox.World.{World}
use rattler_sandbox.Paths.Std.{PathBuf, normal, as_os_str, starts_with, strip_prefix}
use rattler_sandbox.Paths.Absolute.{AbsolutePathBuf, join}
use rattler_sandbox.Policy.Types.{FileSystemSandboxPolicy, ResolvedFileSystemEntry}
use rattler_sandbox.Policy.Grants.{is_restricted, can_write, has_full_disk_write_access}
use rattler_sandbox.Policy.Resolve.{
  resolve_candidate_path, resolved_entries_with_cwd, resolve_access_with_cwd,
}

abbrev pub protected_metadata_path_names : List String
protected_metadata_path_names = ".git" ∷ ".agents" ∷ ".codex" ∷ []

unfoldable pub is_protected_metadata_name : String → Bool
is_protected_metadata_name name =
    any (λ metadata_name. name == metadata_name) protected_metadata_path_names

unfoldable pub is_protected_metadata_directory_name : String → Bool
is_protected_metadata_directory_name name = name == ".agents" || name == ".codex"

unfoldable pub metadata_path_name : String → Option String
metadata_path_name name =
    find (λ metadata_name. name == metadata_name) protected_metadata_path_names

-- The entry's metadata path and its name, where the target lies in it.
unfoldable pub metadata_child_of_entry :
    PathBuf → ResolvedFileSystemEntry → Option (AbsolutePathBuf × String)
metadata_child_of_entry target entry = strip_prefix target entry.path >>= λ relative_path.
    head? relative_path >>= λ first_component.
    metadata_path_name (as_os_str first_component) >>= λ metadata_name.
    some (join entry.path (normal metadata_name ∷ []), metadata_name)

module _ (w : World) where
  unfoldable pub metadata_child_of_writable_root :
      FileSystemSandboxPolicy → PathBuf → PathBuf → Option (AbsolutePathBuf × String)
  metadata_child_of_writable_root policy target cwd = head? (
      filter_map (metadata_child_of_entry target)
        (filter (λ entry. can_write entry.access) (resolved_entries_with_cwd w policy cwd)))

  unfoldable pub has_explicit_write_entry_for_metadata_path :
      FileSystemSandboxPolicy → AbsolutePathBuf → PathBuf → PathBuf → Bool
  has_explicit_write_entry_for_metadata_path policy protected_metadata_path target cwd =
      any
        (λ entry.
          can_write entry.access
          && starts_with target entry.path
          && starts_with entry.path protected_metadata_path)
        (resolved_entries_with_cwd w policy cwd)

  -- What `is_metadata_write_denied` does with its resolved target.
  unfoldable pub is_target_write_denied : FileSystemSandboxPolicy → AbsolutePathBuf → PathBuf → Bool
  is_target_write_denied policy target cwd =
      elim (metadata_child_of_writable_root policy target cwd) [
        | none ↦ false
        | some (p, name) ↦ not (has_explicit_write_entry_for_metadata_path policy p target cwd)
      ]

  unfoldable pub is_metadata_write_denied : FileSystemSandboxPolicy → PathBuf → PathBuf → Bool
  is_metadata_write_denied policy target cwd =
      if is_restricted policy.kind
      then elim (resolve_candidate_path w target cwd) [
        | none ↦ true
        | some resolved ↦ is_target_write_denied policy resolved cwd
      ]
      else false

  unfoldable pub can_write_path_with_cwd : FileSystemSandboxPolicy → PathBuf → PathBuf → Bool
  can_write_path_with_cwd policy target cwd =
      if not (can_write (resolve_access_with_cwd w policy target cwd))
      then false
      else if has_full_disk_write_access policy
      then true
      else not (is_metadata_write_denied policy target cwd)

  -- What `forbidden_agent_metadata_write` does with its resolved target.
  unfoldable pub forbidden_in_target :
      FileSystemSandboxPolicy → AbsolutePathBuf → PathBuf → Option String
  forbidden_in_target policy target cwd =
      metadata_child_of_writable_root policy target cwd >>= λ (p, metadata_name).
      if has_explicit_write_entry_for_metadata_path policy p target cwd
      then none
      else if not (can_write_path_with_cwd policy target cwd)
      then some metadata_name
      else none

  unfoldable pub forbidden_agent_metadata_write :
      PathBuf → PathBuf → FileSystemSandboxPolicy → Option String
  forbidden_agent_metadata_write target cwd policy =
      if not (is_restricted policy.kind)
      then none
      else (resolve_candidate_path w target cwd >>= λ t. forbidden_in_target policy t cwd)
