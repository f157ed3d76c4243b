-- ===== src/Linux/Launch.antt =====
-- run_main.rs: what the helper does with its arguments, up to the `exec`.
pub mod Confined
pub mod Separator
pub mod Stages
use Prim.Native.Char.{code}
use Prim.Native.String
use rattler_sandbox.Prelude.{
  String, ◌<>◌, Bool, true, false, not, ◌&&◌, ◌||◌, Option, none, some, List, [], ◌∷◌, ◌++◌, ℕ, all,
  if◌then◌else◌, ◌==◌, string_eq, is_empty, unwrap_or, has_text, map_option, eqb,
}
use rattler_sandbox.World.{World}
use rattler_sandbox.Paths.Std.{PathBuf, path_text, components}
use rattler_sandbox.Policy.Types.{NetworkSandboxPolicy, FileSystemSandboxPolicy, PermissionProfile}
use rattler_sandbox.Policy.Grants.{is_enabled, has_full_disk_write_access}
use rattler_sandbox.Policy.Bridge.{needs_direct_runtime_enforcement}
use rattler_sandbox.Linux.Host.{Host}
use rattler_sandbox.Linux.Types.{
  BwrapNetworkMode, full_access, isolated, proxy_only, BwrapOptions, default_options, BwrapArgs,
  Result, ok, err, ◌>>=◌,
}
use rattler_sandbox.Linux.Runner.{create_bwrap_command_args}
use rattler_sandbox.Linux.Seccomp.{KernelStep, apply_permission_profile_to_current_thread}

-- The arguments, as `clap` has parsed them.
pub record LandlockCommand : Type 0 where
  pub sandbox_policy_cwd : PathBuf
  pub command_cwd : Option PathBuf
  pub permission_profile : Option PermissionProfile
  pub use_legacy_landlock : Bool
  pub apply_seccomp_then_exec : Bool
  pub allow_network_for_proxy : Bool
  pub proxy_route_spec : Option String
  pub no_proc : Bool
  pub command : List String

-- What the helper takes from elsewhere: the kernel's answers, the routes of proxy_routing.rs, the
-- launcher of bubblewrap, `serde_json` and the process's own name.
pub record Launcher : Type 0 where
  pub grants : KernelStep → Bool
  pub activate_proxy_routes_in_netns : String → Bool
  pub prepare_host_proxy_route_spec : Option String
  pub preferred_bwrap_supports_argv0 : Bool
  pub current_process_argv0 : String
  pub current_exe : String
  pub profile_json : PermissionProfile → String
  pub run_bwrap_in_child_capture_stderr : BwrapArgs → String

-- How the helper ends: a panic, the exit after a build error, or an `exec`, of the command after
-- these calls of the kernel, or of bubblewrap.
pub data Outcome : Type 0 where
  panicked exit_with_bwrap_build_error : Outcome
  exec_command : List KernelStep → List String → Outcome
  run_or_exec_bwrap : BwrapArgs → Outcome

unfoldable pub bwrap_network_mode : NetworkSandboxPolicy → Bool → BwrapNetworkMode
bwrap_network_mode network allow_network_for_proxy =
    if allow_network_for_proxy
    then proxy_only
    else if is_enabled network
    then full_access
    else isolated

unfoldable pub is_proc_mount_failure : String → Bool
is_proc_mount_failure stderr =
    has_text "Can't mount proc" stderr
    && (has_text "/newroot/proc" stderr
        && (has_text "Invalid argument" stderr
            || (has_text "Operation not permitted" stderr || has_text "Permission denied" stderr)))

-- `apply_inner_command_argv0_for_launcher`; `none` is a panic. The arguments are split at the
-- first `--`.
unfoldable pub split_at_separator : List String → Option (List String × List String)
split_at_separator [] = none
split_at_separator (arg ∷ argv) =
    let later = map_option (λ (before, after). (arg ∷ before, after)) (split_at_separator argv) in
    if arg == "--" then some ([], argv) else later

abbrev pub linux_sandbox_arg0 : String
linux_sandbox_arg0 = "rattler-linux-sandbox"

unfoldable pub replace_command : List String → String → List String → Option (List String)
replace_command before fallback [] = none
replace_command before fallback (command ∷ rest) = some (before ++ ("--" ∷ fallback ∷ rest))

unfoldable pub apply_inner_command_argv0_for_launcher :
    List String → Bool → String → Option (List String)
apply_inner_command_argv0_for_launcher argv supports_argv0 fallback =
    elim (split_at_separator argv) [
      | none ↦ none
      | some (before, after) ↦
          if supports_argv0
          then some (before ++ ("--argv0" ∷ linux_sandbox_arg0 ∷ "--" ∷ after))
          else replace_command before fallback after
    ]

-- `none` is a panic.
unfoldable pub build_inner_seccomp_command :
    Launcher
    → PathBuf
    → Option PathBuf
    → PermissionProfile
    → Bool
    → Option String
    → List String
    → Option (List String)
build_inner_seccomp_command l sandbox_policy_cwd command_cwd profile allow_network_for_proxy spec
      command =
    let cwd_args : List String = elim command_cwd [
      | none ↦ []
      | some cwd ↦ "--command-cwd" ∷ path_text cwd ∷ []
    ] in
    let start =
      l.current_exe
      ∷ "--sandbox-policy-cwd"
      ∷ path_text sandbox_policy_cwd
      ∷ (cwd_args
          ++ ("--permission-profile"
              ∷ l.profile_json profile
              ∷ "--apply-seccomp-then-exec"
              ∷ [])) in
    if allow_network_for_proxy
    then elim spec [
      | none ↦ none
      | some route ↦
          some
            (start ++ ("--allow-network-for-proxy" ∷ "--proxy-route-spec" ∷ route ∷ "--" ∷ command))
    ]
    else some (start ++ ("--" ∷ command))

module _ (h : Host) (l : Launcher) where
  unfoldable pub resolve_true_command : String
  resolve_true_command =
      if h.world.exists (components "/usr/bin/true")
      then "/usr/bin/true"
      else if h.world.exists (components "/bin/true")
      then "/bin/true"
      else "true"

  unfoldable pub build_bwrap_argv :
      List String → FileSystemSandboxPolicy → PathBuf → PathBuf → BwrapOptions → Result BwrapArgs
  build_bwrap_argv inner file_system sandbox_policy_cwd command_cwd options =
      create_bwrap_command_args h inner file_system sandbox_policy_cwd command_cwd options >>= λ b.
      ok (record b { args = "bwrap" ∷ b.args })

  unfoldable pub preflight_proc_mount_support :
      PathBuf → PathBuf → FileSystemSandboxPolicy → BwrapNetworkMode → Result Bool
  preflight_proc_mount_support sandbox_policy_cwd command_cwd file_system mode =
      build_bwrap_argv (resolve_true_command ∷ []) file_system sandbox_policy_cwd command_cwd
        (record default_options { network_mode = mode })
      >>= λ b. ok (not (is_proc_mount_failure (l.run_bwrap_in_child_capture_stderr b)))

  -- Whether `/proc` is mounted: asked for, and the preflight does not fail at it.
  unfoldable pub should_mount_proc :
      Bool → PathBuf → PathBuf → FileSystemSandboxPolicy → BwrapNetworkMode → Result Bool
  should_mount_proc false sandbox_policy_cwd command_cwd file_system mode = ok false
  should_mount_proc true sandbox_policy_cwd command_cwd file_system mode =
      preflight_proc_mount_support sandbox_policy_cwd command_cwd file_system mode

  unfoldable pub bwrap_outcome : Result BwrapArgs → Outcome
  bwrap_outcome (err e) = exit_with_bwrap_build_error
  bwrap_outcome (ok b) =
      elim (apply_inner_command_argv0_for_launcher b.args l.preferred_bwrap_supports_argv0
        l.current_process_argv0) [
          | none ↦ panicked
          | some argv ↦ run_or_exec_bwrap (record b { args = argv })
        ]

  unfoldable pub run_bwrap_with_proc_fallback :
      PathBuf
      → Option PathBuf
      → FileSystemSandboxPolicy
      → NetworkSandboxPolicy
      → List String
      → Bool
      → Bool
      → Outcome
  run_bwrap_with_proc_fallback sandbox_policy_cwd command_cwd file_system network inner mount_proc
        allow_network_for_proxy =
      let mode = bwrap_network_mode network allow_network_for_proxy in
      let cwd = unwrap_or command_cwd sandbox_policy_cwd in
      bwrap_outcome (
        should_mount_proc mount_proc sandbox_policy_cwd cwd file_system mode >>= λ proc.
        build_bwrap_argv inner file_system sandbox_policy_cwd cwd
          (record default_options { mount_proc = proc; network_mode = mode }))

  -- `apply_permission_profile_to_current_thread`, a panic if it fails, then `exec_or_panic`
  unfoldable pub restrict_and_exec :
      PermissionProfile → PathBuf → Bool → Bool → Bool → List String → Outcome
  restrict_and_exec profile cwd apply_landlock_fs allow_network_for_proxy proxy_routed command =
      let (steps, supported) =
        apply_permission_profile_to_current_thread h.world profile cwd apply_landlock_fs
          allow_network_for_proxy proxy_routed in
      if supported && all l.grants steps then exec_command steps command else panicked

  unfoldable pub inner_stage : LandlockCommand → PermissionProfile → Outcome
  inner_stage c profile =
      let run =
        restrict_and_exec profile c.sandbox_policy_cwd false c.allow_network_for_proxy
          c.allow_network_for_proxy c.command in
      if c.allow_network_for_proxy
      then elim c.proxy_route_spec [
        | none ↦ panicked
        | some spec ↦ if l.activate_proxy_routes_in_netns spec then run else panicked
      ]
      else run

  unfoldable pub outer_bwrap_stage : LandlockCommand → PermissionProfile → Option String → Outcome
  outer_bwrap_stage c profile spec =
      elim (build_inner_seccomp_command l c.sandbox_policy_cwd c.command_cwd profile
        c.allow_network_for_proxy spec c.command) [
          | none ↦ panicked
          | some inner ↦
              run_bwrap_with_proc_fallback c.sandbox_policy_cwd c.command_cwd profile.file_system
                profile.network inner (not c.no_proc) c.allow_network_for_proxy
        ]

  unfoldable pub outer_stage : LandlockCommand → PermissionProfile → Outcome
  outer_stage c profile =
      if has_full_disk_write_access profile.file_system && not c.allow_network_for_proxy
      then restrict_and_exec profile c.sandbox_policy_cwd false c.allow_network_for_proxy false
          c.command
      else if not c.use_legacy_landlock
      then (if c.allow_network_for_proxy
          then elim l.prepare_host_proxy_route_spec [
            | none ↦ panicked
            | some spec ↦ outer_bwrap_stage c profile (some spec)
          ]
          else outer_bwrap_stage c profile none)
      else restrict_and_exec profile c.sandbox_policy_cwd true c.allow_network_for_proxy false
          c.command

  -- `ensure_legacy_landlock_mode_supports_policy`: whether it returns.
  unfoldable pub legacy_landlock_supports : LandlockCommand → PermissionProfile → Bool
  legacy_landlock_supports c profile = not (
      c.use_legacy_landlock
      && needs_direct_runtime_enforcement h.world profile.file_system profile.network
          c.sandbox_policy_cwd)

  unfoldable pub run_main : LandlockCommand → Outcome
  run_main c =
      if is_empty c.command
      then panicked
      else if c.apply_seccomp_then_exec && c.use_legacy_landlock
      then panicked
      else elim c.permission_profile [
        | none ↦ panicked
        | some profile ↦
            if not (legacy_landlock_supports c profile)
            then panicked
            else if c.apply_seccomp_then_exec
            then inner_stage c profile
            else outer_stage c profile
      ]
