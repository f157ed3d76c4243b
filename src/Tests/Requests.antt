-- ===== src/Tests/Requests.antt =====
-- Requests to the manager, derived policies and proxy variables.
use rattler_sandbox.Policy.Dedup.{dedup_seen, dedup_absolute_paths}
use rattler_sandbox.Prelude.{
  any, is_empty, ◌≡◌, refl, Bool, true, false, none, some, [], ◌∷◌, ◌==◌, string_eq, lookup, Env,
}
use rattler_sandbox.World.{World}
use rattler_sandbox.Paths.Std.{
  path_eq, starts_with, push, parent, strip_prefix, component_eq, ancestors_within, ancestors,
}
use rattler_sandbox.Paths.Absolute.{from_absolute_path, normalize_path, normalize_step, absolutize}
use rattler_sandbox.Policy.Types.{
  read, write, root, slash_tmp, path, special, NetworkSandboxPolicy, FileSystemSandboxPolicy,
  PermissionProfile, WindowsSandboxLevel, subpath_eq,
}
use rattler_sandbox.Policy.Grants.{
  restricted, has_full_disk_write_access, has_same_target_write_override,
  special_path_matches_absolute_path, file_system_paths_share_target, has_root_access,
  has_write_narrowing_entries,
}
use rattler_sandbox.Policy.Resolve.{
  slash_tmp_path, absolute_root_path_for_cwd, resolve_access_with_cwd, resolve_candidate_path,
  max_from, precedence_lt, resolve_file_system_special_path, resolve_file_system_path,
  resolve_entry_path, access_among, resolved_entries_with_cwd, max_by_precedence,
}
use rattler_sandbox.Policy.Roots.{get_writable_roots_with_cwd, writable_entries_with_cwd}
use rattler_sandbox.Policy.Metadata.{
  can_write_path_with_cwd, is_metadata_write_denied, is_target_write_denied,
  metadata_child_of_entry, metadata_child_of_writable_root,
}
use rattler_sandbox.Permissions.{read_only_profile}
use rattler_sandbox.Manager.Types.{SandboxType}
use rattler_sandbox.Manager.{
  TargetOs, Engine, SandboxTransformRequest, SandboxExecRequest, exec_request,
}
use rattler_sandbox.Manager.{compatibility_sandbox_policy_for_permission_profile}
use rattler_sandbox.Manager.Compatibility.{compatibility-tmp}
use rattler_sandbox.Policy.Legacy
use rattler_sandbox.Network.{NetworkProxy, apply_to_env}
use rattler_sandbox.Network.Laws.{lookup-apply_to_env_other}
use rattler_sandbox.Tests.{narrow, world, dir}

abbrev engine : Bool → Engine
engine wsl1 = record {
  target_os = TargetOs.linux;
  is_wsl1 = wsl1;
  profile_json = λ profile. "{}";
  seatbelt_args = λ command file_system network cwd managed proxy. command;
}

abbrev request : SandboxTransformRequest
request = record {
  command = record {
    program = "ls";
    args = "-l" ∷ [];
    cwd = dir;
    env = [];
    additional_permissions = none;
  };
  permissions = read_only_profile;
  sandbox = SandboxType.linux_seccomp;
  enforce_managed_network = false;
  network = none;
  sandbox_policy_cwd = "/w";
  linux_sandbox_exe = some "/usr/bin/rattler-linux-sandbox";
  use_legacy_landlock = false;
  windows_sandbox_level = WindowsSandboxLevel.disabled;
  windows_sandbox_private_desktop = false;
}

abbrev prepared : SandboxExecRequest
prepared =
    exec_request request read_only_profile
      ("/usr/bin/rattler-linux-sandbox" ∷ "--sandbox-policy-cwd" ∷ "/w" ∷ "--command-cwd" ∷ "/w"
        ∷ "--permission-profile" ∷ "{}" ∷ "--" ∷ "ls" ∷ "-l" ∷ [])
      (some "/usr/bin/rattler-linux-sandbox")

abbrev narrow_profile : PermissionProfile
narrow_profile = record { file_system = narrow; network = NetworkSandboxPolicy.restricted }

narrow_confined : has_full_disk_write_access narrow ≡ false
unfolding has_full_disk_write_access has_root_access
narrow_confined = refl

narrow_writes : is_empty (get_writable_roots_with_cwd world narrow dir) ≡ false
unfolding get_writable_roots_with_cwd has_full_disk_write_access has_root_access
    dedup_absolute_paths dedup_seen writable_entries_with_cwd resolved_entries_with_cwd
    resolve_entry_path resolve_file_system_path can_write_path_with_cwd resolve_access_with_cwd
    resolve_candidate_path from_absolute_path absolutize access_among max_by_precedence starts_with
    max_from component_eq normalize_path normalize_step push is_metadata_write_denied
    is_target_write_denied metadata_child_of_writable_root metadata_child_of_entry strip_prefix
narrow_writes = refl

-- The profile itself does not write `/tmp`.
narrow_tmp : can_write_path_with_cwd world narrow slash_tmp_path dir ≡ false
unfolding can_write_path_with_cwd resolve_access_with_cwd resolve_candidate_path from_absolute_path
    absolutize access_among max_by_precedence resolved_entries_with_cwd resolve_entry_path
    resolve_file_system_path starts_with normalize_path normalize_step push component_eq
narrow_tmp = refl

compatibility-tmp_example :
    any
      (λ r. r.root == slash_tmp_path)
      (Legacy.get_writable_roots_with_cwd world
        (compatibility_sandbox_policy_for_permission_profile world narrow_profile narrow
          NetworkSandboxPolicy.restricted dir)
        dir)
    ≡ true
unfolding path_eq
compatibility-tmp_example =
    compatibility-tmp world narrow_profile narrow NetworkSandboxPolicy.restricted dir
      narrow_confined narrow_writes refl

-- The same world without `/tmp`.
abbrev bare_world : World
bare_world = record world { is_dir = λ p. false }

-- The `write` entry of `/tmp` hides the `read` entry of the same path.
abbrev hidden_read : FileSystemSandboxPolicy
hidden_read = restricted (
    record { path = special root; access = write }
    ∷ record { path = special slash_tmp; access = write }
    ∷ record { path = path slash_tmp_path; access = read }
    ∷ [])

hidden_read_full : has_full_disk_write_access hidden_read ≡ true
unfolding has_full_disk_write_access has_root_access has_write_narrowing_entries
    has_same_target_write_override file_system_paths_share_target special_path_matches_absolute_path
    parent path_eq
hidden_read_full = refl

-- Without the directory only the `read` entry is resolved.
hidden_read_denied : can_write_path_with_cwd bare_world hidden_read slash_tmp_path dir ≡ false
unfolding can_write_path_with_cwd resolve_access_with_cwd resolve_candidate_path from_absolute_path
    absolutize access_among max_by_precedence resolved_entries_with_cwd resolve_entry_path
    absolute_root_path_for_cwd ancestors ancestors_within normalize_path normalize_step push parent
    starts_with path_eq max_from precedence_lt resolve_file_system_path
    resolve_file_system_special_path
hidden_read_denied = refl

abbrev proxy : NetworkProxy
proxy = record {
  http_addr = "127.0.0.1:8080";
  socks_addr = "127.0.0.1:1080";
  socks_enabled = true;
  allow_local_binding = false;
  dangerously_allow_all_unix_sockets = false;
  allow_unix_sockets = [];
}

-- The command's own settings.
abbrev command_env : Env
command_env = ("FTP_PROXY", "http://other") ∷ ("HTTP_PROXY", "http://other") ∷ []

lookup-apply_to_env_other_example :
    lookup "FTP_PROXY" (apply_to_env proxy command_env) ≡ lookup "FTP_PROXY" command_env
unfolding string_eq
lookup-apply_to_env_other_example = lookup-apply_to_env_other proxy command_env "FTP_PROXY" refl
