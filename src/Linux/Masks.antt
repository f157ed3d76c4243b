-- ===== src/Linux/Masks.antt =====
-- bwrap_runner.rs: the arguments for one protected path.
pub mod Grows
pub mod Denied
use rattler_sandbox.Prelude.{
  String, ◌<>◌, Bool, true, false, not, ◌&&◌, ◌||◌, Option, none, some, List, [], ◌∷◌, ◌++◌, ℕ, leb,
  any, filter, map, eqb, if◌then◌else◌, ◌==◌, is_some_and, is_empty, length, sort, string_eq,
}
use mathlib.Core.List.{foldl, reverse}
use rattler_sandbox.World.{World}
use rattler_sandbox.Paths.Std.{
  PathBuf, path_eq, starts_with, parent, ancestors, file_name, path_text,
}
use rattler_sandbox.Policy.Metadata.{is_protected_metadata_name}
use rattler_sandbox.Linux.Host.{
  Host, Metadata, IoResult, found, not_found, other_error, is_file_type, is_directory_type,
}
use rattler_sandbox.Linux.Types.{
  BwrapArgs, push_args, SyntheticMountTarget, missing, missing_empty_directory, existing_empty_file,
  existing_empty_directory, Result, ok, err, fatal, io, or_io, ◌>>=◌,
}
use rattler_sandbox.Linux.Walk.{
  is_within_allowed_write_paths, path_depth, first_writable_symlink_component_in_path,
  find_first_non_existent_component,
}

-- `sort_by_key(|path| path_depth(path))`, which is stable
unfoldable pub sort_by_depth : List PathBuf → List PathBuf
sort_by_depth paths = sort (λ a b. leb (path_depth a) (path_depth b)) paths

-- `take_while(|path| *path != anchor)`
unfoldable pub take_until : PathBuf → List PathBuf → List PathBuf
take_until anchor [] = []
take_until anchor (path ∷ paths) =
    let rest = take_until anchor paths in if path == anchor then [] else path ∷ rest

abbrev pub dir_args : List PathBuf → List String
dir_args [] = []
dir_args (dir ∷ dirs) = "--dir" ∷ path_text dir ∷ dir_args dirs

unfoldable pub mount_target_dirs : PathBuf → PathBuf → List PathBuf
mount_target_dirs mount_target_dir anchor = reverse (take_until anchor (ancestors mount_target_dir))

abbrev pub push_target : BwrapArgs → SyntheticMountTarget → BwrapArgs
push_target b target = record b {
  synthetic_mount_targets = b.synthetic_mount_targets ++ (target ∷ []);
}

unfoldable pub append_empty_directory_args : BwrapArgs → PathBuf → BwrapArgs
append_empty_directory_args b path =
    push_args b
      ("--perms" ∷ "555" ∷ "--tmpfs" ∷ path_text path ∷ "--remount-ro" ∷ path_text path ∷ [])

unfoldable pub append_existing_empty_directory_args : BwrapArgs → PathBuf → Metadata → BwrapArgs
append_existing_empty_directory_args b path metadata =
    push_target (append_empty_directory_args b path) (existing_empty_directory path metadata)

pub data EmptyProtectedMetadataPath : Type 0 where
  empty_file empty_directory : Metadata → EmptyProtectedMetadataPath

module _ (h : Host) where
  unfoldable pub append_mount_target_parent_dir_args : List String → PathBuf → PathBuf → List String
  append_mount_target_parent_dir_args args mount_target anchor =
      if h.world.is_dir mount_target
      then args ++ dir_args (mount_target_dirs mount_target anchor)
      else elim (parent mount_target) [
        | none ↦ args
        | some dir ↦ args ++ dir_args (mount_target_dirs dir anchor)
      ]

  -- The descriptor of `/dev/null`, which is opened once.
  unfoldable pub with_null_file : BwrapArgs → List String → Result (BwrapArgs × String)
  with_null_file b (fd ∷ _) = ok (b, fd)
  with_null_file b [] =
      or_io h.open_dev_null >>= λ fd. ok (record b { preserved_files = fd ∷ [] }, fd)

  unfoldable pub append_empty_file_bind_data_args : BwrapArgs → PathBuf → Result BwrapArgs
  append_empty_file_bind_data_args b path = with_null_file b b.preserved_files >>= λ (opened, fd).
      ok (push_args opened ("--ro-bind-data" ∷ fd ∷ path_text path ∷ []))

  unfoldable pub append_missing_empty_file_bind_data_args : BwrapArgs → PathBuf → Result BwrapArgs
  append_missing_empty_file_bind_data_args b path =
      append_empty_file_bind_data_args b path >>= λ c. ok (push_target c (missing path))

  unfoldable pub append_existing_empty_file_bind_data_args :
      BwrapArgs → PathBuf → Metadata → Result BwrapArgs
  append_existing_empty_file_bind_data_args b path metadata =
      append_empty_file_bind_data_args b path >>= λ c.
      ok (push_target c (existing_empty_file path metadata))

  unfoldable pub append_missing_read_only_subpath_args : BwrapArgs → PathBuf → Result BwrapArgs
  append_missing_read_only_subpath_args b path =
      if is_some_and is_protected_metadata_name (file_name path)
      then ok (push_target (append_empty_directory_args b path) (missing_empty_directory path))
      else append_missing_empty_file_bind_data_args b path

  unfoldable pub directory_is_empty : PathBuf → Bool
  directory_is_empty path = elim (h.read_dir path) [
    | none ↦ false
    | some entries ↦ is_empty entries
  ]

  unfoldable pub transient_empty_metadata_path : PathBuf → Option EmptyProtectedMetadataPath
  transient_empty_metadata_path path =
      if is_some_and is_protected_metadata_name (file_name path)
      then elim (h.symlink_metadata path) [
        | found m ↦
            if is_file_type m.file_type && eqb m.len 0
            then some (empty_file m)
            else if is_directory_type m.file_type && directory_is_empty path
            then some (empty_directory m)
            else none
        | not_found ↦ none
        | other_error ↦ none
      ]
      else none

  -- The protected path that is missing: its first missing component is masked, if that could be
  -- created from inside.
  unfoldable pub append_missing_component :
      (BwrapArgs → PathBuf → Result BwrapArgs)
      → BwrapArgs
      → PathBuf
      → List PathBuf
      → Result BwrapArgs
  append_missing_component append b path allowed = elim (find_first_non_existent_component h path) [
    | none ↦ ok b
    | some first ↦ if is_within_allowed_write_paths first allowed then append b first else ok b
  ]

  unfoldable pub append_transient :
      BwrapArgs → PathBuf → EmptyProtectedMetadataPath → Result BwrapArgs
  append_transient b path (empty_file metadata) =
      append_existing_empty_file_bind_data_args b path metadata
  append_transient b path (empty_directory metadata) =
      ok (append_existing_empty_directory_args b path metadata)

  -- The rest of `append_read_only_subpath_args` where the path is no transient target.
  unfoldable pub append_stable_read_only : BwrapArgs → PathBuf → List PathBuf → Result BwrapArgs
  append_stable_read_only b subpath allowed =
      if h.world.exists subpath
      then (if is_within_allowed_write_paths subpath allowed
          then ok (push_args b ("--ro-bind" ∷ path_text subpath ∷ path_text subpath ∷ []))
          else ok b)
      else append_missing_component append_missing_read_only_subpath_args b subpath allowed

  unfoldable pub append_read_only_subpath_args :
      BwrapArgs → PathBuf → List PathBuf → Result BwrapArgs
  append_read_only_subpath_args b subpath allowed =
      elim (first_writable_symlink_component_in_path h subpath allowed) [
        | some link ↦ err (
            fatal (
              "cannot enforce sandbox read-only path "
              <> path_text subpath
              <> " because it crosses writable symlink "
              <> path_text link))
        | none ↦ elim (transient_empty_metadata_path subpath) [
          | some metadata ↦
              if is_within_allowed_write_paths subpath allowed
              then append_transient b subpath metadata
              else append_stable_read_only b subpath allowed
          | none ↦ append_stable_read_only b subpath allowed
        ]
      ]

  unfoldable pub writable_descendants_of : PathBuf → List PathBuf → List PathBuf
  writable_descendants_of unreadable_root allowed =
      filter (λ path. not (path == unreadable_root) && starts_with path unreadable_root) allowed

  unfoldable pub append_existing_unreadable_path_args :
      BwrapArgs → PathBuf → List PathBuf → Result BwrapArgs
  append_existing_unreadable_path_args b root allowed =
      if h.world.is_dir root
      then (let descendants = writable_descendants_of root allowed in
          let perms = if is_empty descendants then "000" else "111" in
          let opened = b.args ++ ("--perms" ∷ perms ∷ "--tmpfs" ∷ path_text root ∷ []) in
          let reopened =
            foldl (λ args path. append_mount_target_parent_dir_args args path root) opened
              (sort_by_depth descendants) in
          ok (record b { args = reopened ++ ("--remount-ro" ∷ path_text root ∷ []) }))
      else append_empty_file_bind_data_args (push_args b ("--perms" ∷ "000" ∷ [])) root

  unfoldable pub append_unreadable_root_args : BwrapArgs → PathBuf → List PathBuf → Result BwrapArgs
  append_unreadable_root_args b root allowed =
      elim (first_writable_symlink_component_in_path h root allowed) [
        | some link ↦ err (
            fatal (
              "cannot enforce sandbox deny-read path "
              <> path_text root
              <> " because it crosses writable symlink "
              <> path_text link))
        | none ↦
            if h.world.exists root
            then append_existing_unreadable_path_args b root allowed
            else append_missing_component append_missing_empty_file_bind_data_args b root allowed
      ]
