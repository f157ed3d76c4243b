-- ===== src/Tests/Helper.antt =====
-- The helper of run_main.rs and its registry at concrete inputs.
use mathlib.Core.Path.{subst}
use mathlib.Core.List.{Memᴰ}
use rattler_sandbox.Prelude.{
  ◌≡◌, refl, sym, true, false, none, some, List, [], ◌∷◌, ℕ, eqb, inr, if◌then◌else◌, ◌==◌,
}
use rattler_sandbox.Paths.Std.{PathBuf, path_eq, component_eq, normal, root_dir}
use rattler_sandbox.Policy.Types.{NetworkSandboxPolicy, PermissionProfile}
use rattler_sandbox.Policy.Grants.{has_full_disk_write_access, has_root_access}
use rattler_sandbox.Linux.Host.{Metadata, file}
use rattler_sandbox.Linux.Types.{
  SyntheticMountTarget, missing, existing_empty_file, should_unshare_network,
}
use rattler_sandbox.Linux.Seccomp.{should_install_network_seccomp}
use rattler_sandbox.Linux.Launch.{Launcher, LandlockCommand, run_main, bwrap_network_mode}
use rattler_sandbox.Linux.Launch.Confined.{IsNetworkConfined, IsLaunch}
use rattler_sandbox.Linux.Launch.Stages.{run_main-confined, run_main-launches}
use rattler_sandbox.Linux.Registry.{
  Store, MarkerFile, SyntheticMountTargetRegistration, synthetic, synthetic_mount_marker_dir,
  symlink_metadata, registered_target, cleanup_synthetic_mount_targets, hash_path, hash_bytes,
  register_synthetic_mount_targets, register_synthetic_mount_target, has_active_synthetic_owner,
  has_active_process_matching,
}
use rattler_sandbox.Linux.Registry.Steps.{
  System, Helper, IsPlanned, start, finish, starts, finishes, here, next,
}
use rattler_sandbox.Linux.Registry.Preserved.{HasOwnDir, preserved}
use rattler_sandbox.Linux.Registry.Last.{IsLast, cleanup-last}
use rattler_sandbox.Linux.Registry.Remembered.{has_owner, registered_target_lem}
use rattler_sandbox.Tests.Linux.{plain_host, private_policy, work_dir}

abbrev launcher : Launcher
launcher = record {
  grants = λ step. true;
  activate_proxy_routes_in_netns = λ spec. true;
  prepare_host_proxy_route_spec = some "{}";
  preferred_bwrap_supports_argv0 = true;
  current_process_argv0 = "rattler";
  current_exe = "/usr/bin/rattler";
  profile_json = λ profile. "{}";
  run_bwrap_in_child_capture_stderr = λ b. "";
}

abbrev private_profile : PermissionProfile
private_profile = record { file_system = private_policy; network = NetworkSandboxPolicy.restricted }

abbrev private_command : LandlockCommand
private_command = record {
  sandbox_policy_cwd = work_dir;
  command_cwd = none;
  permission_profile = some private_profile;
  use_legacy_landlock = false;
  apply_seccomp_then_exec = false;
  allow_network_for_proxy = false;
  proxy_route_spec = none;
  no_proc = false;
  command = "ls" ∷ [];
}

run_main-confined_example :
    IsNetworkConfined private_command.command (run_main plain_host launcher private_command)
unfolding should_install_network_seccomp
run_main-confined_example =
    run_main-confined plain_host launcher private_command private_profile refl refl

run_main-launches_example :
    IsLaunch
      (should_unshare_network
        (bwrap_network_mode private_profile.network private_command.allow_network_for_proxy))
      private_command.command
      (run_main plain_host launcher private_command)
unfolding has_full_disk_write_access has_root_access
run_main-launches_example =
    run_main-launches plain_host launcher private_command private_profile refl refl refl refl refl
      refl

-- `/w/.git` is an empty file that the user made, with the inode 2.
abbrev git_file : PathBuf
git_file = root_dir ∷ normal "w" ∷ normal ".git" ∷ []

abbrev empty : Metadata
empty = record { file_type = file; len = 0; dev = 1; ino = 2 }

abbrev bytes_of : PathBuf → List ℕ
bytes_of p = if p == git_file then 1 ∷ [] else 2 ∷ []

abbrev before_start : System
before_start = record {
  store = record { files = (git_file, empty) ∷ []; markers = [] };
  running = [];
}

abbrev targets : List SyntheticMountTarget
targets = existing_empty_file git_file empty ∷ []

abbrev started : System
started = start bytes_of (λ p. true) before_start 7 targets

abbrev helper : Helper
helper = record {
  pid = 7;
  registrations =
      record {
        target = existing_empty_file git_file empty;
        marker_dir = synthetic_mount_marker_dir bytes_of git_file;
        pid = 7;
      }
      ∷ [];
}

bytes_of-HasOwnDir : HasOwnDir bytes_of (λ p. true) git_file empty
unfolding synthetic_mount_marker_dir hash_path hash_bytes path_eq component_eq
bytes_of-HasOwnDir q u e = rw e refl

target-IsPlanned :
    (t : SyntheticMountTarget) → Memᴰ t targets → (true ≡ true) × IsPlanned before_start.store t
unfolding symlink_metadata path_eq component_eq
target-IsPlanned t (Memᴰ.head e) =
    (refl, subst (λ (x : SyntheticMountTarget). IsPlanned before_start.store x) (sym e) refl)
target-IsPlanned t (Memᴰ.tail k) = elim k [ ]

preserved_example :
    symlink_metadata git_file (finish bytes_of (λ p. true) started helper).store.files ≡ some empty
unfolding symlink_metadata path_eq component_eq register_synthetic_mount_targets
    register_synthetic_mount_target registered_target has_active_synthetic_owner
    has_active_process_matching
preserved_example =
    preserved bytes_of (λ p. true) git_file empty before_start
      (finish bytes_of (λ p. true) started helper) bytes_of-HasOwnDir refl refl refl
      (next (next here (starts before_start 7 targets refl target-IsPlanned))
        (finishes started helper (Memᴰ.head refl)))

-- `/w/.git` is what bubblewrap made for the helper 7, whose marker is there.
abbrev own_marker : MarkerFile
own_marker = record {
  dir = synthetic_mount_marker_dir bytes_of git_file;
  pid = 7;
  contents = synthetic;
}

abbrev made : Store
made = record { files = (git_file, empty) ∷ []; markers = own_marker ∷ [] }

abbrev made_registration : SyntheticMountTargetRegistration
made_registration = record {
  target = missing git_file;
  marker_dir = synthetic_mount_marker_dir bytes_of git_file;
  pid = 7;
}

own_marker-IsLast :
    IsLast (λ pid. true) bytes_of (synthetic_mount_marker_dir bytes_of git_file) 7 made.markers
own_marker-IsLast m (Memᴰ.head e) d a = subst (λ (x : MarkerFile). eqb x.pid 7 ≡ true) (sym e) refl
own_marker-IsLast m (Memᴰ.tail k) d a = elim k [ ]

cleanup-last_example :
    symlink_metadata git_file
      (cleanup_synthetic_mount_targets (λ pid. true) bytes_of made (made_registration ∷ [])).files
    ≡ none
unfolding symlink_metadata path_eq component_eq
cleanup-last_example =
    cleanup-last (λ pid. true) bytes_of git_file made (made_registration ∷ []) made_registration
      (Memᴰ.head refl) refl own_marker-IsLast (inr (empty, refl, refl))

registered_target_lem_example :
    (registered_target (λ pid. true) bytes_of (existing_empty_file git_file empty) made.markers).1
    ≡ (if has_owner
          (λ pid. true)
          bytes_of
          (synthetic_mount_marker_dir bytes_of git_file)
          made.markers
        then missing git_file
        else existing_empty_file git_file empty)
registered_target_lem_example =
    registered_target_lem (λ pid. true) bytes_of (existing_empty_file git_file empty) made.markers
