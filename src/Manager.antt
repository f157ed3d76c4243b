-- ===== src/Manager.antt =====
-- manager.rs: which sandbox is chosen, and the command that runs in it. The operating system,
-- `serde_json` and the argument lists of seatbelt.rs come in as an `Engine`. An `OsString` is a
-- text, so that the lossy conversion changes nothing.
pub mod Types
pub mod Laws
pub mod Compatibility
use Types.{SandboxType}
use rattler_sandbox.Prelude.{
  String, Bool, true, false, ◌&&◌, ◌||◌, not, Option, none, some, List, [], ◌∷◌, ◌++◌, map, filter,
  if◌then◌else◌, ◌==◌, string_eq, unwrap_or, is_some_and, Env, ◌>>=◌,
}
use rattler_sandbox.World.{World}
use rattler_sandbox.Paths.Std.{PathBuf, path_eq, components, path_text, file_name, is_empty_path}
use rattler_sandbox.Paths.Absolute.{AbsolutePathBuf, from_absolute_path}
use rattler_sandbox.Policy.Types.{
  NetworkSandboxPolicy, FileSystemSandboxPolicy, SandboxPolicy, workspace_write, PermissionProfile,
  AdditionalPermissionProfile, WindowsSandboxLevel,
}
use rattler_sandbox.Policy.Grants.{is_enabled, has_full_disk_write_access}
use rattler_sandbox.Policy.Resolve.{slash_tmp_path, resolve_tmpdir}
use rattler_sandbox.Policy.Metadata.{can_write_path_with_cwd}
use rattler_sandbox.Policy.Roots.{get_writable_roots_with_cwd}
use rattler_sandbox.Permissions.{
  effective_permission_profile, should_require_platform_sandbox,
  permission_profile_to_legacy_sandbox_policy,
}
use rattler_sandbox.Network.{NetworkProxy}

pub data SandboxablePreference : Type 0 where
  auto require forbid : SandboxablePreference

-- `cfg!(target_os = …)`
pub data TargetOs : Type 0 where
  macos linux windows other : TargetOs

pub data SandboxTransformError : Type 0 where
  missing_linux_sandbox_executable wsl1_unsupported_for_bubblewrap : SandboxTransformError
  seatbelt_unavailable : SandboxTransformError

pub data TransformResult (A : Type 0) : Type 0 where
  ok : A → TransformResult A
  err : SandboxTransformError → TransformResult A

pub record SandboxCommand : Type 0 where
  pub program : String
  pub args : List String
  pub cwd : AbsolutePathBuf
  pub env : Env
  pub additional_permissions : Option AdditionalPermissionProfile

pub record SandboxExecRequest : Type 0 where
  pub command : List String
  pub cwd : AbsolutePathBuf
  pub env : Env
  pub network : Option NetworkProxy
  pub sandbox : SandboxType
  pub windows_sandbox_level : WindowsSandboxLevel
  pub windows_sandbox_private_desktop : Bool
  pub permission_profile : PermissionProfile
  pub file_system_sandbox_policy : FileSystemSandboxPolicy
  pub network_sandbox_policy : NetworkSandboxPolicy
  pub arg0 : Option String

pub record SandboxTransformRequest : Type 0 where
  pub command : SandboxCommand
  pub permissions : PermissionProfile
  pub sandbox : SandboxType
  pub enforce_managed_network : Bool
  pub network : Option NetworkProxy
  pub sandbox_policy_cwd : String
  pub linux_sandbox_exe : Option String
  pub use_legacy_landlock : Bool
  pub windows_sandbox_level : WindowsSandboxLevel
  pub windows_sandbox_private_desktop : Bool

-- What the manager takes from elsewhere: the platform, `is_wsl1`, `serde_json::to_string` of a
-- profile, and `create_seatbelt_command_args`.
pub record Engine : Type 0 where
  pub target_os : TargetOs
  pub is_wsl1 : Bool
  pub profile_json : PermissionProfile → String
  pub seatbelt_args :
      List String
      → FileSystemSandboxPolicy
      → NetworkSandboxPolicy
      → String
      → Bool
      → Option NetworkProxy
      → List String

abbrev pub is_disabled : WindowsSandboxLevel → Bool
is_disabled WindowsSandboxLevel.disabled = true
is_disabled _ = false

unfoldable pub get_platform_sandbox : TargetOs → Bool → Option SandboxType
get_platform_sandbox TargetOs.macos enabled = some SandboxType.macos_seatbelt
get_platform_sandbox TargetOs.linux enabled = some SandboxType.linux_seccomp
get_platform_sandbox TargetOs.windows enabled =
    if enabled then some SandboxType.windows_restricted_token else none
get_platform_sandbox TargetOs.other enabled = none

abbrev pub platform_or_none : TargetOs → WindowsSandboxLevel → SandboxType
platform_or_none os level =
    unwrap_or (get_platform_sandbox os (not (is_disabled level))) SandboxType.none

unfoldable pub select_initial :
    TargetOs
    → FileSystemSandboxPolicy
    → NetworkSandboxPolicy
    → SandboxablePreference
    → WindowsSandboxLevel
    → Bool
    → SandboxType
select_initial os file_system network SandboxablePreference.forbid level managed = SandboxType.none
select_initial os file_system network SandboxablePreference.require level managed =
    platform_or_none os level
select_initial os file_system network SandboxablePreference.auto level managed =
    if should_require_platform_sandbox file_system network managed
    then platform_or_none os level
    else SandboxType.none

abbrev pub linux_sandbox_arg0 : String
linux_sandbox_arg0 = "rattler-linux-sandbox"

-- linux/landlock.rs
unfoldable pub create_linux_sandbox_command_args_for_permission_profile :
    Engine → List String → AbsolutePathBuf → PermissionProfile → String → Bool → Bool → List String
create_linux_sandbox_command_args_for_permission_profile e command command_cwd profile
      sandbox_policy_cwd use_legacy_landlock allow_network_for_proxy =
    "--sandbox-policy-cwd"
    ∷ sandbox_policy_cwd
    ∷ "--command-cwd"
    ∷ path_text command_cwd
    ∷ "--permission-profile"
    ∷ e.profile_json profile
    ∷ ((if use_legacy_landlock then "--use-legacy-landlock" ∷ [] else [])
        ++ ((if allow_network_for_proxy then "--allow-network-for-proxy" ∷ [] else [])
            ++ ("--" ∷ command)))

unfoldable pub linux_sandbox_arg0_override : String → String
linux_sandbox_arg0_override exe =
    if is_some_and (λ name. name == linux_sandbox_arg0) (file_name (components exe))
    then exe
    else linux_sandbox_arg0

-- Whether `ensure_linux_bubblewrap_is_supported` passes.
unfoldable pub is_bubblewrap_supported : FileSystemSandboxPolicy → Bool → Bool → Bool → Bool
is_bubblewrap_supported file_system use_legacy_landlock allow_network_for_proxy is_wsl1 = not (
    is_wsl1
    && (not use_legacy_landlock
        && (not (has_full_disk_write_access file_system) || allow_network_for_proxy)))

-- The arguments and the `arg0` that a sandbox runs a command with.
unfoldable pub sandboxed_command :
    Engine
    → SandboxTransformRequest
    → PermissionProfile
    → List String
    → SandboxType
    → TransformResult (List String × Option String)
sandboxed_command e r effective argv SandboxType.none = ok (argv, none)
sandboxed_command e r effective argv SandboxType.macos_seatbelt = elim e.target_os [
  | TargetOs.macos ↦ ok (
    "/usr/bin/sandbox-exec"
        ∷ e.seatbelt_args argv effective.file_system effective.network r.sandbox_policy_cwd
            r.enforce_managed_network r.network,
    none,
  )
  | _ ↦ err seatbelt_unavailable
]
sandboxed_command e r effective argv SandboxType.linux_seccomp = elim e.target_os [
  | TargetOs.linux ↦ elim r.linux_sandbox_exe [
    | none ↦ err missing_linux_sandbox_executable
    | some exe ↦
        if is_bubblewrap_supported effective.file_system r.use_legacy_landlock
          r.enforce_managed_network e.is_wsl1
        then ok (
          exe
              ∷ create_linux_sandbox_command_args_for_permission_profile e argv r.command.cwd
                  effective r.sandbox_policy_cwd r.use_legacy_landlock r.enforce_managed_network,
          some (linux_sandbox_arg0_override exe),
        )
        else err wsl1_unsupported_for_bubblewrap
  ]
  | _ ↦ err missing_linux_sandbox_executable
]
sandboxed_command e r effective argv SandboxType.windows_restricted_token = ok (argv, none)

abbrev pub exec_request :
    SandboxTransformRequest → PermissionProfile → List String → Option String → SandboxExecRequest
exec_request r effective command arg0 = record {
  command = command;
  cwd = r.command.cwd;
  env = r.command.env;
  network = r.network;
  sandbox = r.sandbox;
  windows_sandbox_level = r.windows_sandbox_level;
  windows_sandbox_private_desktop = r.windows_sandbox_private_desktop;
  permission_profile = effective;
  file_system_sandbox_policy = effective.file_system;
  network_sandbox_policy = effective.network;
  arg0 = arg0;
}

unfoldable pub transform : Engine → SandboxTransformRequest → TransformResult SandboxExecRequest
transform e r =
    let effective = effective_permission_profile r.permissions r.command.additional_permissions in
    elim (sandboxed_command e r effective (r.command.program ∷ r.command.args) r.sandbox) [
      | ok (command, arg0) ↦ ok (exec_request r effective command arg0)
      | err x ↦ err x
    ]

unfoldable pub compatibility_workspace_write_policy :
    World → FileSystemSandboxPolicy → NetworkSandboxPolicy → PathBuf → SandboxPolicy
compatibility_workspace_write_policy w file_system network cwd =
    workspace_write
      (filter (λ p. not (is_some_and (λ c. c == p) (from_absolute_path w cwd)))
        (map (λ r. r.root) (get_writable_roots_with_cwd w file_system cwd)))
      (is_enabled network)
      (not (is_some_and (λ t. can_write_path_with_cwd w file_system t cwd) (resolve_tmpdir w)))
      (not (w.is_dir slash_tmp_path && can_write_path_with_cwd w file_system slash_tmp_path cwd))

unfoldable pub compatibility_sandbox_policy_for_permission_profile :
    World
    → PermissionProfile
    → FileSystemSandboxPolicy
    → NetworkSandboxPolicy
    → PathBuf
    → SandboxPolicy
compatibility_sandbox_policy_for_permission_profile w permissions file_system network cwd =
    unwrap_or (permission_profile_to_legacy_sandbox_policy w permissions cwd)
      (compatibility_workspace_write_policy w file_system network cwd)
