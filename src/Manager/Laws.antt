-- ===== src/Manager/Laws.antt =====
-- What the manager promises of its choice and of its requests.
use rattler_sandbox.Prelude.{
  inl, inr, Bool-cases, String, ◌≡◌, ◌≢◌, ◌⊎◌, ◌||◌, refl, ap, ◌↔◌, Bool, true, false, not, Option,
  none, some, List, [], ◌∷◌, ◌++◌, arith, if◌then◌else◌,
}
use rattler_sandbox.Policy.Types.{
  NetworkSandboxPolicy, FileSystemSandboxPolicy, WindowsSandboxLevel, PermissionProfile,
}
use rattler_sandbox.Policy.Grants.{has_full_disk_write_access}
use rattler_sandbox.Permissions.{effective_permission_profile, should_require_platform_sandbox}
use rattler_sandbox.Paths.Absolute.{AbsolutePathBuf}
use mathlib.Core.Path.{subst}
use rattler_sandbox.Manager.Types.{SandboxType}
use rattler_sandbox.Manager.{
  TargetOs, SandboxablePreference, TransformResult, ok, err, missing_linux_sandbox_executable,
  wsl1_unsupported_for_bubblewrap, Engine, SandboxTransformRequest, SandboxExecRequest,
  get_platform_sandbox, select_initial, is_bubblewrap_supported,
  create_linux_sandbox_command_args_for_permission_profile, sandboxed_command,
  linux_sandbox_arg0_override, exec_request, transform,
}

-- On Linux and macOS the automatic choice runs without a sandbox exactly where the policy writes
-- the whole disk, the network is open, and no managed network is asked for.
pub select_initial-auto :
    (os : TargetOs) (file_system : FileSystemSandboxPolicy) (network : NetworkSandboxPolicy)
    (level : WindowsSandboxLevel) (managed : Bool)
    → (os ≡ TargetOs.linux) ⊎ (os ≡ TargetOs.macos)
    → (select_initial os file_system network SandboxablePreference.auto level managed
        ≡ SandboxType.none)
      ↔ ((managed ≡ false)
          × (has_full_disk_write_access file_system ≡ true)
          × (network ≡ NetworkSandboxPolicy.enabled))
unfolding select_initial should_require_platform_sandbox get_platform_sandbox
select_initial-auto os file_system network level managed h = ground arith

-- A command line ends with the given arguments.
abbrev EndsWith : List String → TransformResult (List String × Option String) → Type 0
EndsWith argv (ok (command, _)) = (before : List String) × (command ≡ before ++ argv)
EndsWith argv (err _) = Unit

linux_args-append :
    (e : Engine) (argv : List String) (cwd : AbsolutePathBuf) (p : PermissionProfile) (dir : String)
    (legacy proxy : Bool)
    → (before : List String) × (create_linux_sandbox_command_args_for_permission_profile e argv cwd
          p dir legacy proxy
        ≡ before ++ argv)
unfolding create_linux_sandbox_command_args_for_permission_profile
linux_args-append e argv cwd p dir true true = (_ ∷ _ ∷ _ ∷ _ ∷ _ ∷ _ ∷ _ ∷ _ ∷ _ ∷ [], refl)
linux_args-append e argv cwd p dir true false = (_ ∷ _ ∷ _ ∷ _ ∷ _ ∷ _ ∷ _ ∷ _ ∷ [], refl)
linux_args-append e argv cwd p dir false true = (_ ∷ _ ∷ _ ∷ _ ∷ _ ∷ _ ∷ _ ∷ _ ∷ [], refl)
linux_args-append e argv cwd p dir false false = (_ ∷ _ ∷ _ ∷ _ ∷ _ ∷ _ ∷ _ ∷ [], refl)

sandboxed_command-EndsWith :
    (e : Engine) (r : SandboxTransformRequest) (p : PermissionProfile) (argv : List String)
    (s : SandboxType)
    → s ≢ SandboxType.macos_seatbelt
    → EndsWith argv (sandboxed_command e r p argv s)
unfolding sandboxed_command
sandboxed_command-EndsWith e r p argv SandboxType.none n = ([], refl)
sandboxed_command-EndsWith e r p argv SandboxType.macos_seatbelt n = absurd (n refl)
sandboxed_command-EndsWith e r p argv SandboxType.windows_restricted_token n = ([], refl)
sandboxed_command-EndsWith e r p argv SandboxType.linux_seccomp n =
    by_target e.target_os r.linux_sandbox_exe
  where
    run : String → TransformResult (List String × Option String)
    run exe =
        if is_bubblewrap_supported p.file_system r.use_legacy_landlock r.enforce_managed_network
          e.is_wsl1
        then ok (
          exe
              ∷ create_linux_sandbox_command_args_for_permission_profile e argv r.command.cwd p
                  r.sandbox_policy_cwd r.use_legacy_landlock r.enforce_managed_network,
          some (linux_sandbox_arg0_override exe),
        )
        else err wsl1_unsupported_for_bubblewrap

    by_support : (exe : String) → EndsWith argv (run exe)
    by_support exe =
        elim (Bool-cases (
          is_bubblewrap_supported p.file_system r.use_legacy_landlock r.enforce_managed_network
            e.is_wsl1)) [
              | inl h ↦
                  let (before, k) =
                    linux_args-append e argv r.command.cwd p r.sandbox_policy_cwd
                      r.use_legacy_landlock r.enforce_managed_network in
                  rw h (exe ∷ before, ap (λ l. exe ∷ l) k)
              | inr h ↦ rw h tt
            ]

    by_target :
        (os : TargetOs) (o : Option String)
        → EndsWith argv (elim os [
          | TargetOs.linux ↦ elim o [
            | none ↦ err missing_linux_sandbox_executable
            | some exe ↦ run exe
          ]
          | _ ↦ err missing_linux_sandbox_executable
        ])
    by_target TargetOs.linux none = tt
    by_target TargetOs.linux (some exe) = by_support exe
    by_target _ o = tt

-- A successful request that no seatbelt runs has the program with its arguments at the end of its
-- command line, the directory and the environment of the command, the sandbox that was asked for,
-- and the permissions that are in effect.
pub transform-ok :
    (e : Engine) (r : SandboxTransformRequest) (x : SandboxExecRequest)
    → r.sandbox ≢ SandboxType.macos_seatbelt
    → transform e r ≡ ok x
    → ((before : List String) × (x.command ≡ before ++ (r.command.program ∷ r.command.args)))
      × (x.cwd ≡ r.command.cwd)
      × (x.env ≡ r.command.env)
      × (x.sandbox ≡ r.sandbox)
      × (x.permission_profile
          ≡ effective_permission_profile r.permissions r.command.additional_permissions)
unfolding transform
transform-ok e r x n h =
    by_result (sandboxed_command e r effective argv r.sandbox)
      (sandboxed_command-EndsWith e r effective argv r.sandbox n) h
  where
    effective : PermissionProfile
    effective = effective_permission_profile r.permissions r.command.additional_permissions

    argv : List String
    argv = r.command.program ∷ r.command.args

    result_of : TransformResult SandboxExecRequest → SandboxExecRequest
    result_of (ok y) = y
    result_of (err _) = x

    Asked : SandboxExecRequest → Type 0
    Asked y =
        ((before : List String) × (y.command ≡ before ++ argv))
        × (y.cwd ≡ r.command.cwd)
        × (y.env ≡ r.command.env)
        × (y.sandbox ≡ r.sandbox)
        × (y.permission_profile ≡ effective)

    by_result :
        (o : TransformResult (List String × Option String))
        → EndsWith argv o
        → elim o [ ok (command, arg0) ↦ ok (exec_request r effective command arg0) | err y ↦ err y ]
          ≡ ok x
        → Asked x
    by_result (ok (command, arg0)) k q = subst Asked (ap result_of q) (k, refl, refl, refl, refl)
    by_result (err y) k q = absurd (ground arith)

-- On WSL1 a request for the Linux sandbox that names the helper and does not use legacy landlock
-- is refused exactly where the disk is not fully writable or a managed network is enforced.
pub transform-wsl1 :
    (e : Engine) (r : SandboxTransformRequest) (exe : String)
    → e.target_os ≡ TargetOs.linux
    → e.is_wsl1 ≡ true
    → r.sandbox ≡ SandboxType.linux_seccomp
    → r.linux_sandbox_exe ≡ some exe
    → r.use_legacy_landlock ≡ false
    → (transform e r ≡ err wsl1_unsupported_for_bubblewrap) ↔ (
        not (
            has_full_disk_write_access
              (effective_permission_profile r.permissions
                r.command.additional_permissions).file_system)
          || r.enforce_managed_network
        ≡ true)
unfolding transform sandboxed_command is_bubblewrap_supported
transform-wsl1 e r exe o k s x l = ground arith
