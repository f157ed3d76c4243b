-- ===== src/Linux/Registry.antt =====
-- run_main.rs: the registry of synthetic mount targets and protected names, which the helpers of
-- one user share. The marker files and the files of the host are the store; the calls that fail
-- with another error than `NotFound` and `DirectoryNotEmpty`, where the code panics, do not occur.
pub mod Steps
pub mod Remembered
pub mod Preserved
pub mod Last
use mathlib.Core.List.{foldl, reverse}
use rattler_sandbox.Prelude.{
  Bool, true, false, not, ◌&&◌, ◌||◌, Option, none, some, List, [], ◌∷◌, ◌++◌, ℕ, zero, suc, ◌*◌,
  ◌%◌, ◌^◌, eqb, any, filter, if◌then◌else◌, ◌==◌, is_some,
}
use mathlib.Core.Path.{◌≡◌}
use Prim.Native.Nat.{bit_xor}
use rattler_sandbox.Paths.Std.{PathBuf, path_eq, starts_with}
use rattler_sandbox.Linux.Host.{Metadata, is_directory_type}
use rattler_sandbox.Linux.Types.{
  SyntheticMountTarget, SyntheticMountTargetKind, empty_file, empty_directory, missing,
  missing_empty_directory, preserves_pre_existing_path, should_remove_after_bwrap,
  ProtectedCreateTarget,
}

-- `hash_path`: FNV-1a over the bytes of the path, on 64 bits
unfoldable pub hash_bytes : ℕ → List ℕ → ℕ
hash_bytes hash [] = hash
hash_bytes hash (byte ∷ bytes) = hash_bytes (bit_xor hash byte * 0x100000001b3 % 2 ^ 64) bytes

unfoldable pub hash_path : List ℕ → ℕ
hash_path bytes = hash_bytes 0xcbf29ce484222325 bytes

-- `SYNTHETIC_MOUNT_MARKER_SYNTHETIC`, `SYNTHETIC_MOUNT_MARKER_EXISTING`, `PROTECTED_CREATE_MARKER`
pub data Marker : Type 0 where
  synthetic existing protected_create : Marker

abbrev pub is_synthetic : Marker → Bool
is_synthetic synthetic = true
is_synthetic _ = false

-- A marker file: its directory, by the hash of the path, its name, which is a process, and what it
-- holds.
pub record MarkerFile : Type 0 where
  pub dir : ℕ
  pub pid : ℕ
  pub contents : Marker

pub record Store : Type 0 where
  pub files : List (PathBuf × Metadata)
  pub markers : List MarkerFile

pub record SyntheticMountTargetRegistration : Type 0 where
  pub target : SyntheticMountTarget
  pub marker_dir : ℕ
  pub pid : ℕ

pub record ProtectedCreateTargetRegistration : Type 0 where
  pub target : ProtectedCreateTarget
  pub marker_dir : ℕ
  pub pid : ℕ

-- `fs::symlink_metadata`
unfoldable pub symlink_metadata : PathBuf → List (PathBuf × Metadata) → Option Metadata
symlink_metadata path [] = none
symlink_metadata path ((other, m) ∷ files) =
    if other == path then some m else symlink_metadata path files

-- `fs::remove_file`
unfoldable pub remove_file : PathBuf → List (PathBuf × Metadata) → List (PathBuf × Metadata)
remove_file path files = filter (λ (other, _). not (other == path)) files

unfoldable pub has_entries : PathBuf → List (PathBuf × Metadata) → Bool
has_entries path files = any (λ (other, _). not (other == path) && starts_with other path) files

-- `fs::remove_dir`, which fails with `DirectoryNotEmpty` where the directory has entries
unfoldable pub remove_dir : PathBuf → List (PathBuf × Metadata) → List (PathBuf × Metadata)
remove_dir path files = if has_entries path files then files else remove_file path files

-- `fs::remove_dir_all`
unfoldable pub remove_dir_all : PathBuf → List (PathBuf × Metadata) → List (PathBuf × Metadata)
remove_dir_all path files = filter (λ (other, _). not (starts_with other path)) files

abbrev pub is_marker_of : ℕ → ℕ → MarkerFile → Bool
is_marker_of dir pid m = eqb m.dir dir && eqb m.pid pid

unfoldable pub remove_marker : ℕ → ℕ → List MarkerFile → List MarkerFile
remove_marker dir pid markers = filter (λ m. not (is_marker_of dir pid m)) markers

-- `fs::write` of a marker file
unfoldable pub write_marker : ℕ → ℕ → Marker → List MarkerFile → List MarkerFile
write_marker dir pid contents markers =
    record { dir = dir; pid = pid; contents = contents } ∷ remove_marker dir pid markers

abbrev pub marker_contents : SyntheticMountTarget → Marker
marker_contents target = if preserves_pre_existing_path target then existing else synthetic

abbrev pub missing_of_kind : SyntheticMountTargetKind → PathBuf → SyntheticMountTarget
missing_of_kind empty_file path = missing path
missing_of_kind empty_directory path = missing_empty_directory path

abbrev pub set_markers : Store → List MarkerFile → Store
set_markers s markers = record s { markers = markers }

abbrev pub set_files : Store → List (PathBuf × Metadata) → Store
set_files s files = record s { files = files }

unfoldable pub remove_synthetic_mount_target :
    List (PathBuf × Metadata) → SyntheticMountTarget → List (PathBuf × Metadata)
remove_synthetic_mount_target files target = elim (symlink_metadata target.path files) [
  | none ↦ files
  | some m ↦
      if should_remove_after_bwrap target m
      then elim target.kind [
        | empty_file ↦ remove_file target.path files
        | empty_directory ↦ remove_dir target.path files
      ]
      else files
]

-- `try_remove_protected_create_target`, which succeeds, and whether there was anything to remove
unfoldable pub remove_protected_create_target :
    List (PathBuf × Metadata) → ProtectedCreateTarget → List (PathBuf × Metadata) × Bool
remove_protected_create_target files target = elim (symlink_metadata target.path files) [
  | none ↦ (files, false)
  | some m ↦
      if is_directory_type m.file_type
      then (remove_dir_all target.path files, true)
      else (remove_file target.path files, true)
]

-- The marker directory of a path, by the bytes of the path.
unfoldable pub synthetic_mount_marker_dir : (PathBuf → List ℕ) → PathBuf → ℕ
synthetic_mount_marker_dir path_bytes path = hash_path (path_bytes path)

-- `process_is_active`, and the bytes of a path
module _ (active : ℕ → Bool) (path_bytes : PathBuf → List ℕ) where
  -- `synthetic_mount_marker_dir_has_active_process_matching`: the markers of processes that have
  -- ended are removed, up to the first that matches.
  unfoldable pub has_active_process_matching :
      (MarkerFile → Bool) → ℕ → List MarkerFile → List MarkerFile × Bool
  has_active_process_matching matches dir [] = ([], false)
  has_active_process_matching matches dir (m ∷ markers) =
      let (rest, found) = has_active_process_matching matches dir markers in
      let kept : List MarkerFile × Bool = (m ∷ rest, found) in
      if not (eqb m.dir dir)
      then kept
      else if not (active m.pid)
      then (rest, found)
      else if matches m
      then (m ∷ markers, true)
      else kept

  unfoldable pub has_active_synthetic_owner : ℕ → List MarkerFile → List MarkerFile × Bool
  has_active_synthetic_owner dir markers =
      has_active_process_matching (λ m. is_synthetic m.contents) dir markers

  unfoldable pub has_active_process : ℕ → List MarkerFile → List MarkerFile × Bool
  has_active_process dir markers = has_active_process_matching (λ m. true) dir markers

  -- The target that is registered, and the markers after the look for an owner.
  unfoldable pub registered_target :
      SyntheticMountTarget → List MarkerFile → List MarkerFile × SyntheticMountTarget
  registered_target target markers =
      if preserves_pre_existing_path target
      then (let (seen, owned) =
            has_active_synthetic_owner (synthetic_mount_marker_dir path_bytes target.path)
              markers in
          (seen, if owned then missing_of_kind target.kind target.path else target))
      else (markers, target)

  unfoldable pub register_synthetic_mount_target :
      ℕ
      → List MarkerFile
      → SyntheticMountTarget
      → List MarkerFile × SyntheticMountTargetRegistration
  register_synthetic_mount_target pid markers target =
      let (seen, chosen) = registered_target target markers in
      let dir = synthetic_mount_marker_dir path_bytes target.path in
      (
        write_marker dir pid (marker_contents chosen) seen,
        record { target = chosen; marker_dir = dir; pid = pid },
      )

  unfoldable pub register_synthetic_mount_targets :
      ℕ
      → List MarkerFile
      → List SyntheticMountTarget
      → List MarkerFile × List SyntheticMountTargetRegistration
  register_synthetic_mount_targets pid markers [] = (markers, [])
  register_synthetic_mount_targets pid markers (target ∷ targets) =
      let (written, registration) = register_synthetic_mount_target pid markers target in
      let (last, registrations) = register_synthetic_mount_targets pid written targets in
      (last, registration ∷ registrations)

  unfoldable pub register_protected_create_targets :
      ℕ
      → List MarkerFile
      → List ProtectedCreateTarget
      → List MarkerFile × List ProtectedCreateTargetRegistration
  register_protected_create_targets pid markers [] = (markers, [])
  register_protected_create_targets pid markers (target ∷ targets) =
      let dir = synthetic_mount_marker_dir path_bytes target.path in
      let (last, registrations) =
        register_protected_create_targets pid (write_marker dir pid protected_create markers)
          targets in
      (last, record { target = target; marker_dir = dir; pid = pid } ∷ registrations)

  unfoldable pub remove_own_markers :
      List MarkerFile → List SyntheticMountTargetRegistration → List MarkerFile
  remove_own_markers markers registrations =
      foldl (λ ms r. remove_marker r.marker_dir r.pid ms) markers registrations

  -- The second loop of `cleanup_synthetic_mount_targets`. A marker directory that is left without
  -- markers has nothing more in it.
  unfoldable pub cleanup_target : Store → SyntheticMountTargetRegistration → Store
  cleanup_target s r =
      let (seen, busy) = has_active_process r.marker_dir s.markers in
      record {
        files = if busy then s.files else remove_synthetic_mount_target s.files r.target;
        markers = seen;
      }

  unfoldable pub cleanup_synthetic_mount_targets :
      Store → List SyntheticMountTargetRegistration → Store
  cleanup_synthetic_mount_targets s registrations =
      let backwards = reverse registrations in
      foldl cleanup_target (set_markers s (remove_own_markers s.markers backwards)) backwards

  -- The second loop of `cleanup_protected_create_targets`, and whether a target was there; `exists`
  -- is `Path::exists`, which follows links.
  unfoldable pub cleanup_protected_target :
      (List (PathBuf × Metadata) → PathBuf → Bool)
      → Store × Bool
      → ProtectedCreateTargetRegistration
      → Store × Bool
  cleanup_protected_target exists (s, violation) r =
      let (seen, busy) = has_active_process r.marker_dir s.markers in
      let (files, removed) = remove_protected_create_target s.files r.target in
      if busy
      then (set_markers s seen, violation || exists s.files r.target.path)
      else (record { files = files; markers = seen }, violation || removed)

  unfoldable pub cleanup_protected_create_targets :
      (List (PathBuf × Metadata) → PathBuf → Bool)
      → Store
      → List ProtectedCreateTargetRegistration
      → Store × Bool
  cleanup_protected_create_targets exists s registrations =
      let backwards = reverse registrations in
      let unmarked = foldl (λ ms r. remove_marker r.marker_dir r.pid ms) s.markers backwards in
      foldl (cleanup_protected_target exists) (set_markers s unmarked, false) backwards

  -- The end of a run: the protected targets are cleaned up only if the monitor saw no violation.
  unfoldable pub cleanup_after_bwrap :
      (List (PathBuf × Metadata) → PathBuf → Bool)
      → Bool
      → Store
      → List SyntheticMountTargetRegistration
      → List ProtectedCreateTargetRegistration
      → Store × Bool
  cleanup_after_bwrap exists monitor_violation s synthetics protecteds =
      let cleaned = cleanup_synthetic_mount_targets s synthetics in
      if monitor_violation
      then (cleaned, true)
      else cleanup_protected_create_targets exists cleaned protecteds

-- `exit_with_wait_status_or_policy_violation`, for a child that has exited
unfoldable pub exit_code : ℕ → Bool → ℕ
exit_code status protected_create_violation =
    if protected_create_violation && eqb status 0 then 1 else status
