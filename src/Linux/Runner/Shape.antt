-- ===== src/Linux/Runner/Shape.antt =====
-- The shape of the command line of bubblewrap.
use rattler_sandbox.Prelude.{
  String, ◌≡◌, ◌∙◌, refl, ap, sym, Bool, true, false, ◌&&◌, List, [], ◌∷◌, ◌++◌, if_intro, is_empty,
  if◌then◌else◌,
}
use mathlib.Core.List.{append_assoc}
use rattler_sandbox.Paths.Std.{PathBuf}
use rattler_sandbox.Policy.Types.{FileSystemSandboxPolicy}
use rattler_sandbox.Policy.Grants.{has_full_disk_write_access}
use rattler_sandbox.Policy.Roots.{get_unreadable_globs_with_cwd}
use rattler_sandbox.Linux.Host.{Host}
use rattler_sandbox.Linux.Types.{
  BwrapOptions, should_unshare_network, full_access, isolated, proxy_only, BwrapNetworkMode,
}
use rattler_sandbox.Linux.Returns.{Returns, Returns-bind, Returns-any}
use rattler_sandbox.Linux.Plan.{create_filesystem_args}
use rattler_sandbox.Linux.Runner.{
  isolation_flags, create_bwrap_flags, create_bwrap_flags_full_filesystem,
  create_bwrap_command_args, chdir_args, is_full_access, option_or,
}

-- The mounts, the namespaces, the directory, and the command behind the separator.
pub record IsWrapped (options : BwrapOptions) (command args : List String) : Type 0 where
  pub mounts : List String
  pub chdir : List String
  pub parts : args ≡ mounts ++ (isolation_flags options ++ (chdir ++ ("--" ∷ command)))

module _ (h : Host) (command : List String) (policy : FileSystemSandboxPolicy)
    (sandbox_policy_cwd command_cwd : PathBuf) (options : BwrapOptions) where
  flags-IsWrapped :
      Returns
        (λ b. IsWrapped options command b.args)
        (create_bwrap_flags h command policy sandbox_policy_cwd command_cwd options)
  unfolding create_bwrap_flags
  flags-IsWrapped =
      Returns-bind (λ _. Unit {0}) (λ b. IsWrapped options command b.args)
        (create_filesystem_args h policy sandbox_policy_cwd
          (option_or options.glob_scan_max_depth policy.glob_scan_max_depth))
        _ (Returns-any _)
        (λ b _. record {
          mounts = "--new-session" ∷ "--die-with-parent" ∷ b.args;
          chdir = chdir_args h command_cwd;
          parts = refl;
        })

  -- Where the network is to be unshared the command is wrapped, whatever the file system grants.
  pub create_bwrap_command_args-IsWrapped :
      should_unshare_network options.network_mode ≡ true
      → Returns
          (λ b. IsWrapped options command b.args)
          (create_bwrap_command_args h command policy sandbox_policy_cwd command_cwd options)
  unfolding create_bwrap_command_args create_bwrap_flags_full_filesystem
  create_bwrap_command_args-IsWrapped e =
      if_intro (Returns (λ b. IsWrapped options command b.args))
        (has_full_disk_write_access policy
          && is_empty (get_unreadable_globs_with_cwd policy sandbox_policy_cwd))
        (λ _. rw (not_full options.network_mode e) (record {
          mounts = "--new-session" ∷ "--die-with-parent" ∷ "--bind" ∷ "/" ∷ "/" ∷ [];
          chdir = [];
          parts = refl;
        }))
        (λ _. flags-IsWrapped)
    where
      not_full :
          (mode : BwrapNetworkMode)
          → should_unshare_network mode ≡ true
          → is_full_access mode ≡ false
      not_full full_access e = cc
      not_full isolated e = refl
      not_full proxy_only e = refl

  -- Where the file system is not granted whole the command is wrapped, whatever the network.
  pub create_bwrap_command_args-IsWrapped_files :
      has_full_disk_write_access policy ≡ false
      → Returns
          (λ b. IsWrapped options command b.args)
          (create_bwrap_command_args h command policy sandbox_policy_cwd command_cwd options)
  unfolding create_bwrap_command_args
  create_bwrap_command_args-IsWrapped_files e = rw e flags-IsWrapped

abbrev proc_flags : BwrapOptions → List String
proc_flags options = if options.mount_proc then "--proc" ∷ "/proc" ∷ [] else []

abbrev net_flags : BwrapNetworkMode → List String
net_flags mode = if should_unshare_network mode then "--unshare-net" ∷ [] else []

module _ {options : BwrapOptions} {command args : List String}
    (w : IsWrapped options command args) where
  -- The arguments around the flag of the process namespace, which is always there,
  pub IsWrapped-pid :
      (ys : List String) × (args
        ≡ w.mounts ++ ("--unshare-user" ∷ "--unshare-pid" ∷ (ys ++ ("--" ∷ command))))
  IsWrapped-pid = (
    (net_flags options.network_mode ++ proc_flags options) ++ w.chdir,
    w.parts
        ∙ ap (λ (l : List String). w.mounts ++ ("--unshare-user" ∷ "--unshare-pid" ∷ l))
            (sym (append_assoc (net_flags options.network_mode ++ proc_flags options) w.chdir _)),
  )

  -- and around that of the network namespace.
  pub IsWrapped-net :
      should_unshare_network options.network_mode ≡ true
      → (ys : List String) × (args
          ≡ (w.mounts ++ ("--unshare-user" ∷ []))
            ++ ("--unshare-pid" ∷ "--unshare-net" ∷ (ys ++ ("--" ∷ command))))
  IsWrapped-net e = (
    proc_flags options ++ w.chdir,
    w.parts
        ∙ ap
            (λ (b : Bool).
              w.mounts
              ++ ("--unshare-user"
                  ∷ "--unshare-pid"
                  ∷ (((if b then "--unshare-net" ∷ [] else []) ++ proc_flags options)
                      ++ (w.chdir ++ ("--" ∷ command)))))
            e
        ∙ ap
            (λ (l : List String).
              w.mounts ++ ("--unshare-user" ∷ "--unshare-pid" ∷ "--unshare-net" ∷ l))
            (sym (append_assoc (proc_flags options) w.chdir _))
        ∙ sym (append_assoc w.mounts ("--unshare-user" ∷ []) _),
  )
