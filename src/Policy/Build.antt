-- ===== src/Policy/Build.antt =====
-- policy.rs: how policies are made from legacy ones, and how they are extended.
use rattler_sandbox.Prelude.{
  Bool, true, false, ◌&&◌, Option, none, some, List, [], ◌∷◌, ◌++◌, if◌then◌else◌, ◌==◌, map, any,
  filter, contains, is_some,
}
use mathlib.Core.List.{foldl}
use rattler_sandbox.World.{World}
use rattler_sandbox.Paths.Std.{PathBuf, path_eq, normal}
use rattler_sandbox.Paths.Absolute.{AbsolutePathBuf, from_absolute_path}
use rattler_sandbox.Policy.Types.{
  NetworkSandboxPolicy, read, write, root, project_roots, tmpdir, slash_tmp, FileSystemPath, path,
  special, FileSystemSandboxKind, FileSystemSandboxEntry, FileSystemSandboxPolicy, SandboxPolicy,
  danger_full_access, read_only, workspace_write, entry_eq,
}
use rattler_sandbox.Policy.Grants.{
  can_write, is_none, is_restricted, unrestricted, external_sandbox, restricted,
  has_full_disk_read_access,
}
use rattler_sandbox.Policy.Resolve.{resolve_file_system_path, can_read_path_with_cwd}
use rattler_sandbox.Policy.Metadata.{can_write_path_with_cwd}
use rattler_sandbox.Policy.Defaults.{
  append_default_read_only_project_root_subpath_if_no_explicit_rule, append_default_subpaths,
}
use rattler_sandbox.Policy.Legacy.{has_full_network_access}

abbrev pub root_entry : FileSystemSandboxEntry
root_entry = record { path = special root; access = read }

abbrev pub write_entry : AbsolutePathBuf → FileSystemSandboxEntry
write_entry p = record { path = path p; access = write }

abbrev pub special_write_entry : Bool → FileSystemPath → List FileSystemSandboxEntry
special_write_entry exclude p = if exclude then [] else record { path = p; access = write } ∷ []

-- The entries that `workspace_write` and the legacy runtime start from.
abbrev pub workspace_grants : List AbsolutePathBuf → Bool → Bool → List FileSystemSandboxEntry
workspace_grants writable_roots exclude_tmpdir_env_var exclude_slash_tmp =
    root_entry
    ∷ record { path = special (project_roots none); access = write }
    ∷ (special_write_entry exclude_slash_tmp (special slash_tmp)
        ++ (special_write_entry exclude_tmpdir_env_var (special tmpdir)
            ++ map write_entry writable_roots))

abbrev pub append_project_root_subpaths : List FileSystemSandboxEntry → List FileSystemSandboxEntry
append_project_root_subpaths entries =
    foldl append_default_read_only_project_root_subpath_if_no_explicit_rule entries
      ((normal ".git" ∷ []) ∷ (normal ".agents" ∷ []) ∷ (normal ".codex" ∷ []) ∷ [])

-- `impl From<&SandboxPolicy> for NetworkSandboxPolicy`
unfoldable pub network_policy_from : SandboxPolicy → NetworkSandboxPolicy
network_policy_from policy =
    if has_full_network_access policy
    then NetworkSandboxPolicy.enabled
    else NetworkSandboxPolicy.restricted

-- The deny entries of `existing` that are not there yet are pushed one by one.
unfoldable pub push_missing :
    List FileSystemSandboxEntry → FileSystemSandboxEntry → List FileSystemSandboxEntry
push_missing entries deny_entry =
    if contains deny_entry entries then entries else entries ++ deny_entry ∷ []

unfoldable pub push_deny_entries :
    List FileSystemSandboxEntry → List FileSystemSandboxEntry → List FileSystemSandboxEntry
push_deny_entries entries existing =
    foldl push_missing entries (filter (λ entry. is_none entry.access) existing)

-- The policy whose allow side is kept, once an unrestricted one has been made enforceable.
unfoldable pub enforceable :
    FileSystemSandboxPolicy → FileSystemSandboxPolicy → FileSystemSandboxPolicy
enforceable policy existing = elim policy.kind [
  | FileSystemSandboxKind.unrestricted ↦
      if any (λ entry. is_none entry.access) existing.entries
      then restricted (record { path = special root; access = write } ∷ [])
      else policy
  | _ ↦ policy
]

unfoldable pub with_deny_entries :
    FileSystemSandboxPolicy → FileSystemSandboxPolicy → FileSystemSandboxPolicy
with_deny_entries policy existing =
    if is_restricted policy.kind
    then record policy {
      glob_scan_max_depth =
          if is_some policy.glob_scan_max_depth
          then policy.glob_scan_max_depth
          else existing.glob_scan_max_depth;
      entries = push_deny_entries policy.entries existing.entries;
    }
    else policy

unfoldable pub preserve_deny_read_restrictions_from :
    FileSystemSandboxPolicy → FileSystemSandboxPolicy → FileSystemSandboxPolicy
preserve_deny_read_restrictions_from policy existing =
    with_deny_entries (enforceable policy existing) existing

abbrev pub is_path_at : AbsolutePathBuf → FileSystemPath → Bool
is_path_at q (path existing) = existing == q
is_path_at q _ = false

abbrev pub is_write_entry_for : AbsolutePathBuf → FileSystemSandboxEntry → Bool
is_write_entry_for p entry = can_write entry.access && is_path_at p entry.path

module _ (w : World) where
  -- `FileSystemSandboxPolicy::workspace_write`
  unfoldable pub workspace_write_policy :
      List AbsolutePathBuf → Bool → Bool → FileSystemSandboxPolicy
  workspace_write_policy writable_roots exclude_tmpdir_env_var exclude_slash_tmp = restricted (
      foldl (append_default_subpaths w false)
        (append_project_root_subpaths
          (workspace_grants writable_roots exclude_tmpdir_env_var exclude_slash_tmp))
        writable_roots)

  -- `impl From<&SandboxPolicy> for FileSystemSandboxPolicy`
  unfoldable pub policy_from : SandboxPolicy → FileSystemSandboxPolicy
  policy_from danger_full_access = unrestricted
  policy_from (SandboxPolicy.external_sandbox _) = external_sandbox
  policy_from (read_only _) = restricted (root_entry ∷ [])
  policy_from (workspace_write writable_roots _ exclude_tmpdir_env_var exclude_slash_tmp) =
      workspace_write_policy writable_roots exclude_tmpdir_env_var exclude_slash_tmp

  -- The defaults of the working directory, where it can be told, and of the writable roots.
  unfoldable pub append_workspace_defaults :
      List FileSystemSandboxEntry → List AbsolutePathBuf → PathBuf → List FileSystemSandboxEntry
  append_workspace_defaults entries writable_roots cwd =
      foldl (append_default_subpaths w false)
        (elim (from_absolute_path w cwd) [
          | none ↦ entries
          | some cwd_root ↦ append_default_subpaths w true entries cwd_root
        ])
        writable_roots

  unfoldable pub from_legacy_sandbox_policy_for_cwd :
      SandboxPolicy → PathBuf → FileSystemSandboxPolicy
  from_legacy_sandbox_policy_for_cwd (workspace_write writable_roots network tmpdir_out tmp_out)
        cwd =
      let policy = policy_from (workspace_write writable_roots network tmpdir_out tmp_out) in
      record policy { entries = append_workspace_defaults policy.entries writable_roots cwd }
  from_legacy_sandbox_policy_for_cwd sandbox_policy cwd = policy_from sandbox_policy

  unfoldable pub legacy_runtime_file_system_policy_for_cwd :
      SandboxPolicy → PathBuf → FileSystemSandboxPolicy
  legacy_runtime_file_system_policy_for_cwd (workspace_write roots _ tmpdir_out tmp_out) cwd =
      restricted (append_workspace_defaults (workspace_grants roots tmpdir_out tmp_out) roots cwd)
  legacy_runtime_file_system_policy_for_cwd sandbox_policy cwd = policy_from sandbox_policy

  unfoldable pub from_legacy_sandbox_policy_preserving_deny_entries :
      SandboxPolicy → PathBuf → FileSystemSandboxPolicy → FileSystemSandboxPolicy
  from_legacy_sandbox_policy_preserving_deny_entries sandbox_policy cwd existing =
      let rebuilt = from_legacy_sandbox_policy_for_cwd sandbox_policy cwd in
      if is_restricted rebuilt.kind
      then record rebuilt {
        glob_scan_max_depth = existing.glob_scan_max_depth;
        entries = push_deny_entries rebuilt.entries existing.entries;
      }
      else rebuilt

  -- The path of one entry after `materialize_project_roots_with_cwd`.
  unfoldable pub materialize_path : Option AbsolutePathBuf → FileSystemPath → FileSystemPath
  materialize_path cwd (special (project_roots subpath)) =
      elim (resolve_file_system_path w (special (project_roots subpath)) cwd) [
        | none ↦ special (project_roots subpath)
        | some p ↦ path p
      ]
  materialize_path cwd p = p

  abbrev pub materialize_entry :
      Option AbsolutePathBuf → FileSystemSandboxEntry → FileSystemSandboxEntry
  materialize_entry cwd entry = record entry { path = materialize_path cwd entry.path }

  unfoldable pub materialize_project_roots_with_cwd :
      FileSystemSandboxPolicy → PathBuf → FileSystemSandboxPolicy
  materialize_project_roots_with_cwd policy cwd = record policy {
    entries = map (materialize_entry (from_absolute_path w cwd)) policy.entries;
  }

  abbrev pub with_entry : FileSystemSandboxPolicy → FileSystemSandboxEntry → FileSystemSandboxPolicy
  with_entry policy entry = record policy { entries = policy.entries ++ entry ∷ [] }

  unfoldable pub add_readable_root :
      PathBuf → FileSystemSandboxPolicy → AbsolutePathBuf → FileSystemSandboxPolicy
  add_readable_root cwd policy p =
      if can_read_path_with_cwd w policy p cwd
      then policy
      else with_entry policy (record { path = path p; access = read })

  unfoldable pub with_additional_readable_roots :
      FileSystemSandboxPolicy → PathBuf → List AbsolutePathBuf → FileSystemSandboxPolicy
  with_additional_readable_roots policy cwd additional_readable_roots =
      if has_full_disk_read_access policy
      then policy
      else foldl (add_readable_root cwd) policy additional_readable_roots

  unfoldable pub add_writable_root :
      PathBuf → FileSystemSandboxPolicy → AbsolutePathBuf → FileSystemSandboxPolicy
  add_writable_root cwd policy p =
      if can_write_path_with_cwd w policy p cwd then policy else with_entry policy (write_entry p)

  unfoldable pub with_additional_writable_roots :
      FileSystemSandboxPolicy → PathBuf → List AbsolutePathBuf → FileSystemSandboxPolicy
  with_additional_writable_roots policy cwd additional_writable_roots =
      foldl (add_writable_root cwd) policy additional_writable_roots

  unfoldable pub add_legacy_workspace_root :
      List FileSystemSandboxEntry → AbsolutePathBuf → List FileSystemSandboxEntry
  add_legacy_workspace_root entries p =
      append_default_subpaths w false
        (if any (is_write_entry_for p) entries then entries else entries ++ write_entry p ∷ []) p

  unfoldable pub with_additional_legacy_workspace_writable_roots :
      FileSystemSandboxPolicy → List AbsolutePathBuf → FileSystemSandboxPolicy
  with_additional_legacy_workspace_writable_roots policy additional_writable_roots =
      if is_restricted policy.kind
      then record policy {
        entries = foldl add_legacy_workspace_root policy.entries additional_writable_roots;
      }
      else policy
