-- ===== src/Linux/Launch/Stages.antt =====
-- The stages of `run_main`: which of them run what, and that each confines it.
use mathlib.Core.List.{append_assoc}
use rattler_sandbox.Prelude.{
  [], ◌++◌, ap, String, ◌≡◌, ◌⊎◌, refl, sym, Bool, true, false, not, ◌&&◌, ◌||◌, Option, none, some,
  List, ◌∷◌, arith, inl, inr, if_intro, if◌then◌else◌, unwrap_or, is_some, is_empty,
}
use mathlib.Core.Path.{subst}
use rattler_sandbox.Paths.Std.{PathBuf, path_text}
use rattler_sandbox.Policy.Types.{PermissionProfile, NetworkSandboxPolicy}
use rattler_sandbox.Policy.Grants.{has_full_disk_write_access}
use rattler_sandbox.Policy.Bridge.{needs_direct_runtime_enforcement}
use rattler_sandbox.Linux.Host.{Host}
use rattler_sandbox.Linux.Types.{
  BwrapOptions, default_options, Result, ok, err, ◌>>=◌, should_unshare_network,
}
use rattler_sandbox.Linux.Returns.{Returns}
use rattler_sandbox.Linux.Runner.Shape.{
  IsWrapped, create_bwrap_command_args-IsWrapped, create_bwrap_command_args-IsWrapped_files,
}
use rattler_sandbox.Linux.Seccomp.{should_install_network_seccomp}
use rattler_sandbox.Linux.Launch.{
  LandlockCommand, Launcher, Outcome, panicked, exit_with_bwrap_build_error, exec_command,
  run_or_exec_bwrap, restrict_and_exec, inner_stage, outer_stage, outer_bwrap_stage, run_main,
  bwrap_outcome, run_bwrap_with_proc_fallback, should_mount_proc, build_bwrap_argv,
  bwrap_network_mode, build_inner_seccomp_command, legacy_landlock_supports,
}
use rattler_sandbox.Linux.Launch.Confined.{
  IsNetworkConfined, IsLaunch, restrict_and_exec-filtered, build_bwrap_argv-IsWrapped,
  bwrap_outcome-launches,
}

-- The network mode of a run unshares the network where the thread's network would be filtered.
unshares-filtered :
    (network : NetworkSandboxPolicy) (allow : Bool)
    → should_install_network_seccomp network allow ≡ true
    → should_unshare_network (bwrap_network_mode network allow) ≡ true
unfolding should_install_network_seccomp bwrap_network_mode
unshares-filtered NetworkSandboxPolicy.restricted true e = refl
unshares-filtered NetworkSandboxPolicy.restricted false e = refl
unshares-filtered NetworkSandboxPolicy.enabled true e = refl
unshares-filtered NetworkSandboxPolicy.enabled false e = cc

-- The arguments of the inner command before those for the proxy.
abbrev inner_start : Launcher → PathBuf → Option PathBuf → PermissionProfile → List String
inner_start l cwd command_cwd profile =
    let cwd_args : List String = elim command_cwd [
      | none ↦ []
      | some given ↦ "--command-cwd" ∷ path_text given ∷ []
    ] in
    "--sandbox-policy-cwd"
    ∷ path_text cwd
    ∷ (cwd_args
        ++ ("--permission-profile" ∷ l.profile_json profile ∷ "--apply-seccomp-then-exec" ∷ []))

-- The inner command is made where a route is given to a managed proxy, and ends with the command.
build_inner_seccomp_command-runs :
    (l : Launcher) (cwd : PathBuf) (command_cwd : Option PathBuf) (profile : PermissionProfile)
    → (allow : Bool) (spec : Option String) (command : List String)
    → (not allow || is_some spec) ≡ true
    → (program : String) × (inner : List String) × (build_inner_seccomp_command l cwd command_cwd
          profile allow spec command
        ≡ some (program ∷ (inner ++ ("--" ∷ command))))
unfolding build_inner_seccomp_command
build_inner_seccomp_command-runs l cwd command_cwd profile true none command e =
    absurd (ground arith)
build_inner_seccomp_command-runs l cwd command_cwd profile true (some s) command e = (
  l.current_exe,
  inner_start l cwd command_cwd profile
      ++ ("--allow-network-for-proxy" ∷ "--proxy-route-spec" ∷ s ∷ []),
  ap (λ (x : List String). some (l.current_exe ∷ x))
      (sym (append_assoc (inner_start l cwd command_cwd profile) _ ("--" ∷ command))),
)
build_inner_seccomp_command-runs l cwd command_cwd profile false spec command e =
    (l.current_exe, inner_start l cwd command_cwd profile, refl)

module _ (h : Host) (l : Launcher) where
  -- With bubblewrap's arguments wrapped whatever `/proc` is, the run is a launch.
  run_bwrap-launches :
      (cwd : PathBuf) (command_cwd : Option PathBuf) (profile : PermissionProfile)
      → (program : String) (inner command : List String) (mount_proc allow : Bool)
      → (should_unshare_network (bwrap_network_mode profile.network allow) ≡ true)
        ⊎ (has_full_disk_write_access profile.file_system ≡ false)
      → IsLaunch (should_unshare_network (bwrap_network_mode profile.network allow)) command (
          run_bwrap_with_proc_fallback h l cwd command_cwd profile.file_system profile.network
            (program ∷ (inner ++ ("--" ∷ command)))
            mount_proc
            allow)
  unfolding run_bwrap_with_proc_fallback
  run_bwrap-launches cwd command_cwd profile program inner command mount_proc allow why = by_proc (
      should_mount_proc h l mount_proc cwd (unwrap_or command_cwd cwd) profile.file_system
        (bwrap_network_mode profile.network allow))
    where
      options : Bool → BwrapOptions
      options proc = record default_options {
        mount_proc = proc;
        network_mode = bwrap_network_mode profile.network allow;
      }

      wrapped :
          (proc : Bool)
          → Returns
              (λ b. IsWrapped (options proc) (program ∷ (inner ++ ("--" ∷ command))) b.args)
              (build_bwrap_argv h l
                (program ∷ (inner ++ ("--" ∷ command)))
                profile.file_system
                cwd
                (unwrap_or command_cwd cwd)
                (options proc))
      wrapped proc =
          build_bwrap_argv-IsWrapped h l (program ∷ (inner ++ ("--" ∷ command))) profile.file_system
            cwd _ (options proc)
            (elim why [
              | inl e ↦ create_bwrap_command_args-IsWrapped h _ _ cwd _ (options proc) e
              | inr e ↦ create_bwrap_command_args-IsWrapped_files h _ _ cwd _ (options proc) e
            ])

      by_proc :
          (r : Result Bool)
          → IsLaunch (should_unshare_network (bwrap_network_mode profile.network allow)) command (
              bwrap_outcome h l (
                r >>= λ proc.
                build_bwrap_argv h l
                  (program ∷ (inner ++ ("--" ∷ command)))
                  profile.file_system
                  cwd
                  (unwrap_or command_cwd cwd)
                  (options proc)))
      by_proc (err e) = unfold bwrap_outcome in tt
      by_proc (ok proc) =
          bwrap_outcome-launches h l (options proc) program inner command _ (wrapped proc)

  outer_bwrap_stage-launches :
      (c : LandlockCommand) (profile : PermissionProfile) (spec : Option String)
      → (not c.allow_network_for_proxy || is_some spec) ≡ true
      → (should_unshare_network (bwrap_network_mode profile.network c.allow_network_for_proxy)
          ≡ true)
        ⊎ (has_full_disk_write_access profile.file_system ≡ false)
      → IsLaunch
          (should_unshare_network (bwrap_network_mode profile.network c.allow_network_for_proxy))
          c.command
          (outer_bwrap_stage h l c profile spec)
  unfolding outer_bwrap_stage
  outer_bwrap_stage-launches c profile spec given why =
      let (program, inner, made) =
        build_inner_seccomp_command-runs l c.sandbox_policy_cwd c.command_cwd profile
          c.allow_network_for_proxy spec c.command given in
      subst
        (λ (o : Option (List String)).
          IsLaunch
            (should_unshare_network (bwrap_network_mode profile.network c.allow_network_for_proxy))
            c.command
            (elim o [
              | none ↦ panicked
              | some inner ↦
                  run_bwrap_with_proc_fallback h l c.sandbox_policy_cwd c.command_cwd
                    profile.file_system profile.network inner (not c.no_proc)
                    c.allow_network_for_proxy
            ]))
        (sym made)
        (run_bwrap-launches c.sandbox_policy_cwd c.command_cwd profile program inner c.command
          (not c.no_proc) c.allow_network_for_proxy why)

  confined_of_launch :
      (command : List String) (o : Outcome) → IsLaunch true command o → IsNetworkConfined command o
  confined_of_launch command panicked p = tt
  confined_of_launch command exit_with_bwrap_build_error p = tt
  confined_of_launch command (exec_command steps ran) p = absurd p
  confined_of_launch command (run_or_exec_bwrap b) p = p

  inner_stage-confined :
      (c : LandlockCommand) (profile : PermissionProfile)
      → should_install_network_seccomp profile.network c.allow_network_for_proxy ≡ true
      → IsNetworkConfined c.command (inner_stage h l c profile)
  unfolding inner_stage
  inner_stage-confined c profile e =
      if_intro (IsNetworkConfined c.command) c.allow_network_for_proxy
        (λ _. by_spec c.proxy_route_spec) (λ _. run)
    where
      run : IsNetworkConfined c.command (
          restrict_and_exec h l profile c.sandbox_policy_cwd false c.allow_network_for_proxy
            c.allow_network_for_proxy c.command)
      run =
          restrict_and_exec-filtered h l profile c.sandbox_policy_cwd false
            c.allow_network_for_proxy c.allow_network_for_proxy c.command e

      by_spec :
          (o : Option String)
          → IsNetworkConfined c.command (elim o [
            | none ↦ panicked
            | some spec ↦
                if l.activate_proxy_routes_in_netns spec
                then restrict_and_exec h l profile c.sandbox_policy_cwd false
                    c.allow_network_for_proxy c.allow_network_for_proxy c.command
                else panicked
          ])
      by_spec none = tt
      by_spec (some spec) =
          if_intro (IsNetworkConfined c.command) (l.activate_proxy_routes_in_netns spec) (λ _. run)
            (λ _. tt)

  outer_stage-confined :
      (c : LandlockCommand) (profile : PermissionProfile)
      → should_install_network_seccomp profile.network c.allow_network_for_proxy ≡ true
      → IsNetworkConfined c.command (outer_stage h l c profile)
  unfolding outer_stage
  outer_stage-confined c profile e =
      if_intro (IsNetworkConfined c.command)
        (has_full_disk_write_access profile.file_system && not c.allow_network_for_proxy)
        (λ _. restrict_and_exec-filtered h l profile _ false c.allow_network_for_proxy false _ e)
        (λ _.
          if_intro (IsNetworkConfined c.command) (not c.use_legacy_landlock)
            (λ _.
              if_intro (IsNetworkConfined c.command) c.allow_network_for_proxy
                (λ a. by_route l.prepare_host_proxy_route_spec) (λ a. launched none (rw a refl)))
            (λ _.
              restrict_and_exec-filtered h l profile _ true c.allow_network_for_proxy false _ e))
    where
      launched :
          (spec : Option String)
          → (not c.allow_network_for_proxy || is_some spec) ≡ true
          → IsNetworkConfined c.command (outer_bwrap_stage h l c profile spec)
      launched spec given =
          let u = unshares-filtered profile.network c.allow_network_for_proxy e in
          confined_of_launch c.command (outer_bwrap_stage h l c profile spec) (
            subst (λ b. IsLaunch b c.command (outer_bwrap_stage h l c profile spec)) u
              (outer_bwrap_stage-launches c profile spec given (inl u)))

      by_route :
          (o : Option String)
          → IsNetworkConfined c.command
              (elim o [ none ↦ panicked | some spec ↦ outer_bwrap_stage h l c profile (some spec) ])
      by_route none = tt
      by_route (some spec) = launched (some spec) (ground arith)

  -- Where the profile restricts the network, or the network is given for a proxy alone, the helper
  -- ends without running the command, or runs it behind a network filter, or runs bubblewrap with
  -- arguments that end with the command and have the flag for a network namespace of its own
  -- before it.
  pub run_main-confined :
      (c : LandlockCommand) (profile : PermissionProfile)
      → c.permission_profile ≡ some profile
      → should_install_network_seccomp profile.network c.allow_network_for_proxy ≡ true
      → IsNetworkConfined c.command (run_main h l c)
  unfolding run_main
  run_main-confined c profile given e =
      if_intro (IsNetworkConfined c.command) (is_empty c.command) (λ _. tt)
        (λ _.
          if_intro (IsNetworkConfined c.command)
            (c.apply_seccomp_then_exec && c.use_legacy_landlock) (λ _. tt)
            (λ _. rw given (
              if_intro (IsNetworkConfined c.command) (not (legacy_landlock_supports h l c profile))
                (λ _. tt)
                (λ _.
                  if_intro (IsNetworkConfined c.command) c.apply_seccomp_then_exec
                    (λ _. inner_stage-confined c profile e)
                    (λ _. outer_stage-confined c profile e)))))

  -- Outside the inner stage and without legacy Landlock, for a command whose policy does not grant
  -- the whole disk, or that has a proxy, the helper runs bubblewrap with arguments that end with
  -- the command and have a flag before it, the one for a network namespace where the mode of the
  -- network asks for it and the one for a process namespace otherwise, or the build of the
  -- arguments fails. The helper does not panic, if a proxy gets its route.
  pub run_main-launches :
      (c : LandlockCommand) (profile : PermissionProfile)
      → c.permission_profile ≡ some profile
      → is_empty c.command ≡ false
      → c.apply_seccomp_then_exec ≡ false
      → c.use_legacy_landlock ≡ false
      → (has_full_disk_write_access profile.file_system && not c.allow_network_for_proxy) ≡ false
      → (not c.allow_network_for_proxy || is_some l.prepare_host_proxy_route_spec) ≡ true
      → IsLaunch
          (should_unshare_network (bwrap_network_mode profile.network c.allow_network_for_proxy))
          c.command
          (run_main h l c)
  unfolding run_main legacy_landlock_supports outer_stage bwrap_network_mode
  run_main-launches c profile given full outer modern partial routed =
      if_intro Launches (is_empty c.command) (λ e. absurd (cc (e, full)))
        (λ _.
          if_intro Launches (c.apply_seccomp_then_exec && c.use_legacy_landlock)
            (λ e. absurd (ground (arith, e, outer)))
            (λ _. rw given (
              if_intro Launches
                (not (
                  not (
                    c.use_legacy_landlock
                    && needs_direct_runtime_enforcement h.world profile.file_system profile.network
                        c.sandbox_policy_cwd)))
                (λ e. absurd (ground (arith, e, modern)))
                (λ _.
                  if_intro Launches c.apply_seccomp_then_exec (λ e. absurd (cc (e, outer)))
                    (λ _.
                      if_intro Launches
                        (has_full_disk_write_access profile.file_system
                          && not c.allow_network_for_proxy)
                        (λ e. absurd (cc (e, partial)))
                        (λ _.
                          if_intro Launches (not c.use_legacy_landlock) (λ _. bwrap_stage)
                            (λ e. absurd (ground (arith, e, modern)))))))))
    where
      Launches : Outcome → Type 0
      Launches o =
          IsLaunch
            (should_unshare_network (bwrap_network_mode profile.network c.allow_network_for_proxy))
            c.command o

      by_route :
          c.allow_network_for_proxy ≡ true
          → (o : Option String) → is_some o ≡ true
          → Launches
              (elim o [ none ↦ panicked | some spec ↦ outer_bwrap_stage h l c profile (some spec) ])
      by_route a none e = absurd (cc e)
      by_route a (some spec) e =
          outer_bwrap_stage-launches c profile (some spec) (rw a refl) (inl (rw a refl))

      bwrap_stage : Launches (
          if c.allow_network_for_proxy
          then elim l.prepare_host_proxy_route_spec [
            | none ↦ panicked
            | some spec ↦ outer_bwrap_stage h l c profile (some spec)
          ]
          else outer_bwrap_stage h l c profile none)
      bwrap_stage =
          if_intro Launches c.allow_network_for_proxy
            (λ a. by_route a l.prepare_host_proxy_route_spec (rw a at routed))
            (λ a.
              outer_bwrap_stage-launches c profile none (rw a refl)
                (inr (ground (arith, partial, a))))
