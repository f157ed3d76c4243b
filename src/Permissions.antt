-- ===== src/Permissions.antt =====
-- policy_transforms.rs, and `PermissionProfile` of policy.rs.
use rattler_sandbox.Prelude.{
  Bool, true, false, ◌||◌, not, Option, none, some, [], map, if◌then◌else◌, unwrap_or, is_empty,
}
use rattler_sandbox.World.{World}
use rattler_sandbox.Paths.Std.{PathBuf}
use rattler_sandbox.Policy.Types.{
  NetworkSandboxPolicy, FileSystemSandboxPolicy, SandboxPolicy, read_only, workspace_write,
  PermissionProfile, AdditionalPermissionProfile,
}
use rattler_sandbox.Policy.Grants.{
  is_enabled, default_policy, unrestricted, has_full_disk_write_access,
}
use rattler_sandbox.Policy.Build.{workspace_write_policy}
use rattler_sandbox.Policy.Roots.{get_writable_roots_with_cwd}
use rattler_sandbox.Policy.Bridge.{full_disk_policy}

abbrev pub unrestricted_profile : PermissionProfile
unrestricted_profile = record { file_system = unrestricted; network = NetworkSandboxPolicy.enabled }

abbrev pub read_only_profile : PermissionProfile
read_only_profile = record {
  file_system = default_policy;
  network = NetworkSandboxPolicy.restricted;
}

unfoldable pub workspace_write_profile : World → PermissionProfile
workspace_write_profile w = record {
  file_system = workspace_write_policy w [] false false;
  network = NetworkSandboxPolicy.restricted;
}

unfoldable pub override_profile :
    PermissionProfile → Option AdditionalPermissionProfile → PermissionProfile
override_profile base none = base
override_profile base (some o) = record {
  file_system = unwrap_or o.file_system base.file_system;
  network = unwrap_or o.network base.network;
}

-- `effective_permission_profile`
unfoldable pub effective_permission_profile :
    PermissionProfile → Option AdditionalPermissionProfile → PermissionProfile
unfolding override_profile
effective_permission_profile base overrides = override_profile base overrides

unfoldable pub should_require_platform_sandbox :
    FileSystemSandboxPolicy → NetworkSandboxPolicy → Bool → Bool
should_require_platform_sandbox file_system network has_managed_network_requirements =
    if has_managed_network_requirements
    then true
    else not (has_full_disk_write_access file_system) || not (is_enabled network)

-- `none` is the error, which the code never returns.
unfoldable pub permission_profile_to_legacy_sandbox_policy :
    World → PermissionProfile → PathBuf → Option SandboxPolicy
permission_profile_to_legacy_sandbox_policy w profile cwd =
    if has_full_disk_write_access profile.file_system
    then some (full_disk_policy profile.network)
    else if is_empty (get_writable_roots_with_cwd w profile.file_system cwd)
    then some (read_only (is_enabled profile.network))
    else some (
        workspace_write (map (λ r. r.root) (get_writable_roots_with_cwd w profile.file_system cwd))
          (is_enabled profile.network) false false)
