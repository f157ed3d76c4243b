-- ===== src/Linux/Runner.antt =====
-- bwrap_runner.rs: `create_bwrap_command_args`, the whole command line of bubblewrap.
pub mod Shape
use rattler_sandbox.Prelude.{
  String, Bool, true, false, not, ◌&&◌, Option, none, some, List, [], ◌∷◌, ◌++◌, ℕ, if◌then◌else◌,
  ◌==◌, is_empty,
}
use rattler_sandbox.Paths.Std.{PathBuf, path_eq, path_text}
use rattler_sandbox.Policy.Types.{FileSystemSandboxPolicy}
use rattler_sandbox.Policy.Grants.{has_full_disk_write_access}
use rattler_sandbox.Policy.Roots.{get_unreadable_globs_with_cwd}
use rattler_sandbox.Linux.Host.{Host}
use rattler_sandbox.Linux.Types.{
  BwrapNetworkMode, full_access, BwrapOptions, should_unshare_network, BwrapArgs, only_args, Result,
  ok, err, ◌>>=◌,
}
use rattler_sandbox.Linux.Walk.{normalize_command_cwd_for_bwrap}
use rattler_sandbox.Linux.Plan.{create_filesystem_args}

-- The namespaces and `/proc`.
abbrev pub isolation_flags : BwrapOptions → List String
isolation_flags options =
    "--unshare-user"
    ∷ "--unshare-pid"
    ∷ ((if should_unshare_network options.network_mode then "--unshare-net" ∷ [] else [])
        ++ (if options.mount_proc then "--proc" ∷ "/proc" ∷ [] else []))

unfoldable pub create_bwrap_flags_full_filesystem : List String → BwrapOptions → BwrapArgs
create_bwrap_flags_full_filesystem command options = only_args (
    "--new-session"
    ∷ "--die-with-parent"
    ∷ "--bind"
    ∷ "/"
    ∷ "/"
    ∷ (isolation_flags options ++ ("--" ∷ command)))

abbrev pub option_or {ℓ} : {A : Type ℓ} → Option A → Option A → Option A
option_or none b = b
option_or (some a) b = some a

abbrev pub is_full_access : BwrapNetworkMode → Bool
is_full_access full_access = true
is_full_access _ = false

module _ (h : Host) where
  unfoldable pub chdir_args : PathBuf → List String
  chdir_args command_cwd =
      let normalized = normalize_command_cwd_for_bwrap h command_cwd in
      if normalized == command_cwd then [] else "--chdir" ∷ path_text normalized ∷ []

  unfoldable pub create_bwrap_flags :
      List String → FileSystemSandboxPolicy → PathBuf → PathBuf → BwrapOptions → Result BwrapArgs
  create_bwrap_flags command policy sandbox_policy_cwd command_cwd options =
      create_filesystem_args h policy sandbox_policy_cwd
        (option_or options.glob_scan_max_depth policy.glob_scan_max_depth)
      >>= λ b. ok (record b {
        args =
            "--new-session"
            ∷ "--die-with-parent"
            ∷ (b.args ++ (isolation_flags options ++ (chdir_args command_cwd ++ ("--" ∷ command))));
      })

  unfoldable pub create_bwrap_command_args :
      List String → FileSystemSandboxPolicy → PathBuf → PathBuf → BwrapOptions → Result BwrapArgs
  create_bwrap_command_args command policy sandbox_policy_cwd command_cwd options =
      if has_full_disk_write_access policy
        && is_empty (get_unreadable_globs_with_cwd policy sandbox_policy_cwd)
      then (if is_full_access options.network_mode
          then ok (only_args command)
          else ok (create_bwrap_flags_full_filesystem command options))
      else create_bwrap_flags command policy sandbox_policy_cwd command_cwd options
