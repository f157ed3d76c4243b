-- ===== src/Linux/Launch/Confined.antt =====
-- Whatever the helper of run_main.rs runs is confined: its network, and its writes.
use mathlib.Core.List.{Memᴰ}
use rattler_sandbox.Prelude.{
  String, ◌≡◌, refl, sym, ap, Bool, true, false, ◌&&◌, Option, none, some, List, ◌∷◌, ◌++◌, arith,
  all, if_intro, if◌then◌else◌, mem-append_left, mem-append_right, string_eq,
}
use rattler_sandbox.Paths.Std.{PathBuf}
use rattler_sandbox.Policy.Types.{PermissionProfile, FileSystemSandboxPolicy, NetworkSandboxPolicy}
use rattler_sandbox.Linux.Host.{Host}
use rattler_sandbox.Linux.Types.{BwrapOptions, BwrapArgs, Result, ok, err, should_unshare_network}
use rattler_sandbox.Linux.Runner.{create_bwrap_command_args}
use rattler_sandbox.Linux.Runner.Shape.{IsWrapped, IsWrapped-net, IsWrapped-pid}
use rattler_sandbox.Linux.Returns.{Returns, Returns-bind}
use rattler_sandbox.Linux.Launch.Separator.{
  HoldsBefore, apply_inner_command_argv0_for_launcher-keeps,
}
use mathlib.Core.Path.{subst}
use mathlib.Core.Option.{some-injective}
use rattler_sandbox.Linux.Seccomp.{
  KernelStep, NetworkSeccompMode, restricted, proxy_routed, install_network_seccomp_filter,
  should_install_network_seccomp, network_seccomp_mode, apply_permission_profile_to_current_thread,
  landlock_steps, filter_steps,
}
use rattler_sandbox.Linux.Launch.{
  Launcher, Outcome, panicked, exit_with_bwrap_build_error, exec_command, run_or_exec_bwrap,
  restrict_and_exec, bwrap_outcome, build_bwrap_argv, apply_inner_command_argv0_for_launcher,
}

-- The command runs behind a network filter, or at the end of bubblewrap's arguments, with the flag
-- for a network namespace of its own before it.
abbrev pub IsNetworkConfined : List String → Outcome → Type 0
IsNetworkConfined command panicked = Unit {0}
IsNetworkConfined command exit_with_bwrap_build_error = Unit {0}
IsNetworkConfined command (exec_command steps ran) =
    (ran ≡ command) × (mode : NetworkSeccompMode) × Memᴰ (install_network_seccomp_filter mode) steps
IsNetworkConfined command (run_or_exec_bwrap b) = HoldsBefore "--unshare-net" command b.args

-- Bubblewrap is run for the command, with the flag for a network namespace if that is asked for, and
-- for one of processes always, or a build error ends it.
abbrev pub IsLaunch : Bool → List String → Outcome → Type 0
IsLaunch unshared command panicked = ⊥
IsLaunch unshared command exit_with_bwrap_build_error = Unit {0}
IsLaunch unshared command (exec_command steps ran) = ⊥
IsLaunch true command (run_or_exec_bwrap b) = HoldsBefore "--unshare-net" command b.args
IsLaunch false command (run_or_exec_bwrap b) = HoldsBefore "--unshare-pid" command b.args

HasFilter : List KernelStep → Type 0
HasFilter steps = (mode : NetworkSeccompMode) × Memᴰ (install_network_seccomp_filter mode) steps

HasFilter-append_left : (xs ys : List KernelStep) → HasFilter xs → HasFilter (xs ++ ys)
unfolding HasFilter
HasFilter-append_left xs ys (mode, m) = (mode, mem-append_left _ xs ys m)

HasFilter-filter_steps :
    (xs : List KernelStep) (network : NetworkSandboxPolicy) (allow routed : Bool)
    → should_install_network_seccomp network allow ≡ true
    → HasFilter (xs ++ filter_steps (network_seccomp_mode network allow routed))
unfolding HasFilter network_seccomp_mode
HasFilter-filter_steps xs network allow true e =
    rw e (proxy_routed, mem-append_right _ xs _ (Memᴰ.head refl))
HasFilter-filter_steps xs network allow false e =
    rw e (restricted, mem-append_right _ xs _ (Memᴰ.head refl))

module _ (h : Host) (l : Launcher) where
  -- A thread whose network is to be filtered runs its command behind a filter.
  pub restrict_and_exec-filtered :
      (profile : PermissionProfile) (cwd : PathBuf) (fs allow routed : Bool) (command : List String)
      → should_install_network_seccomp profile.network allow ≡ true
      → IsNetworkConfined command (restrict_and_exec h l profile cwd fs allow routed command)
  unfolding HasFilter restrict_and_exec apply_permission_profile_to_current_thread
  restrict_and_exec-filtered profile cwd fs allow routed command e =
      by_plan _ (HasFilter-filter_steps _ profile.network allow routed e)
        (landlock_steps h.world profile.file_system cwd fs)
    where
      by_plan :
          (before : List KernelStep)
          → HasFilter before
          → (o : Option (List KernelStep))
          → let r : List KernelStep × Bool = elim o [
            | none ↦ (before, false)
            | some steps ↦ (before ++ steps, true)
          ] in
            IsNetworkConfined command
              (if r.1 && all l.grants r.0 then exec_command r.0 command else panicked)
      by_plan before f none = tt
      by_plan before f (some steps) =
          if_intro (IsNetworkConfined command) (all l.grants (before ++ steps))
            (λ _. let (mode, m) = HasFilter-append_left before steps f in (refl, mode, m)) (λ _. tt)

  -- The arguments of bubblewrap that are made for a command.
  pub build_bwrap_argv-IsWrapped :
      (inner : List String) (file_system : FileSystemSandboxPolicy) (cwd command_cwd : PathBuf)
      → (options : BwrapOptions)
      → Returns
          (λ b. IsWrapped options inner b.args)
          (create_bwrap_command_args h inner file_system cwd command_cwd options)
      → Returns
          (λ b. IsWrapped options inner b.args)
          (build_bwrap_argv h l inner file_system cwd command_cwd options)
  unfolding build_bwrap_argv
  build_bwrap_argv-IsWrapped inner file_system cwd command_cwd options r =
      Returns-bind (λ b. IsWrapped options inner b.args) (λ b. IsWrapped options inner b.args) _ _ r
        (λ b w. record {
          mounts = "bwrap" ∷ w.mounts;
          chdir = w.chdir;
          parts = ap (λ (args : List String). "bwrap" ∷ args) w.parts;
        })

  -- What is launched after the arguments were made: bubblewrap, with the network unshared if it
  -- was to be, or nothing after a build error.
  pub bwrap_outcome-launches :
      (options : BwrapOptions) (program : String) (inner command : List String)
      → (r : Result BwrapArgs)
      → Returns (λ b. IsWrapped options (program ∷ (inner ++ ("--" ∷ command))) b.args) r
      → IsLaunch (should_unshare_network options.network_mode) command (bwrap_outcome h l r)
  unfolding bwrap_outcome string_eq
  bwrap_outcome-launches options program inner command (err e) w = tt
  bwrap_outcome-launches options program inner command (ok b) w =
      by_mode (should_unshare_network options.network_mode) refl
    where
      flag : Bool → String
      flag true = "--unshare-net"
      flag false = "--unshare-pid"

      launched : Option (List String) → Outcome
      launched o = elim o [
        | none ↦ panicked
        | some argv ↦ run_or_exec_bwrap (record b { args = argv })
      ]

      held :
          (unshared : Bool) (argv : List String)
          → HoldsBefore (flag unshared) command argv
          → IsLaunch unshared command (run_or_exec_bwrap (record b { args = argv }))
      held true argv m = m
      held false argv m = m

      of_some :
          (unshared : Bool) (o : Option (List String))
          → ((argv : List String) × (o ≡ some argv) × HoldsBefore (flag unshared) command argv)
          → IsLaunch unshared command (launched o)
      of_some unshared none (argv, p, m) = absurd (ground arith)
      of_some unshared (some x) (argv, p, m) = held unshared x (
          subst (λ (o : List String). HoldsBefore (flag unshared) command o)
            (sym (some-injective x argv p)) m)

      by_mode :
          (unshared : Bool)
          → should_unshare_network options.network_mode ≡ unshared
          → IsLaunch unshared command (
              launched (
                apply_inner_command_argv0_for_launcher b.args l.preferred_bwrap_supports_argv0
                  l.current_process_argv0))
      by_mode true e =
          let (ys, p) = IsWrapped-net w e in
          rw p (
            of_some true _ (
              apply_inner_command_argv0_for_launcher-keeps program inner command _ "--unshare-pid"
                "--unshare-net" ys _ _ refl refl))
      by_mode false e =
          let (ys, p) = IsWrapped-pid w in
          rw p (
            of_some false _ (
              apply_inner_command_argv0_for_launcher-keeps program inner command _ "--unshare-user"
                "--unshare-pid" ys _ _ refl refl))
