-- ===== src/Policy/Roots.antt =====
-- policy.rs: the readable, writable and unreadable roots that the sandbox engines are given.
use rattler_sandbox.Prelude.{
  String, Bool, true, false, not, Option, none, some, List, [], ◌∷◌, ◌++◌, if◌then◌else◌, ◌==◌,
  string_eq, map, any, all, filter, filter_map, head?, is_some, is_some_and, sort, dedup, ◌>>=◌,
}
use rattler_sandbox.World.{World}
use rattler_sandbox.Paths.Std.{
  PathBuf, path_eq, normal, as_os_str, starts_with, strip_prefix, parent, components, path_text,
  is_empty_path,
}
use rattler_sandbox.Paths.Absolute.{
  AbsolutePathBuf, from_absolute_path, join, resolve_path_against_base,
}
use rattler_sandbox.Policy.Types.{
  FileSystemPath, glob_pattern, FileSystemSandboxPolicy, ResolvedFileSystemEntry, WritableRoot,
}
use rattler_sandbox.Policy.Grants.{
  is_restricted, is_none, can_read, can_write, has_full_disk_read_access,
  has_full_disk_write_access,
}
use rattler_sandbox.Policy.Resolve.{
  absolute_root_path_for_cwd, resolved_entries_with_cwd, can_read_path_with_cwd,
}
use rattler_sandbox.Policy.Metadata.{protected_metadata_path_names, can_write_path_with_cwd}
use rattler_sandbox.Policy.Dedup.{text_le, normalize_effective_absolute_path, dedup_absolute_paths}
use rattler_sandbox.Policy.Defaults.{default_read_only_subpaths_for_writable_root}

unfoldable pub path_contains_protected_metadata_name : WritableRoot → PathBuf → Bool
path_contains_protected_metadata_name r target =
    is_some_and
      (λ first_component.
        any (λ name. as_os_str first_component == name) r.protected_metadata_names)
      (strip_prefix target r.root >>= head?)

unfoldable pub is_path_writable : WritableRoot → PathBuf → Bool
is_path_writable r target =
    if not (starts_with target r.root)
    then false
    else if any (starts_with target) r.read_only_subpaths
    then false
    else if path_contains_protected_metadata_name r target
    then false
    else true

unfoldable pub has_explicit_resolved_path_entry :
    List ResolvedFileSystemEntry → AbsolutePathBuf → Bool
has_explicit_resolved_path_entry entries p = any (λ entry. entry.path == p) entries

-- The suffix of a carveout under the first raw root that has one, moved under the root.
unfoldable pub moved_carveout :
    AbsolutePathBuf → List AbsolutePathBuf → AbsolutePathBuf → Option AbsolutePathBuf
moved_carveout target [] p = none
moved_carveout target (raw_root ∷ raw_roots) p = elim (strip_prefix p raw_root) [
  | none ↦ moved_carveout target raw_roots p
  | some suffix ↦
      if is_empty_path suffix then moved_carveout target raw_roots p else some (join target suffix)
]

unfoldable pub raw_carveout_path :
    AbsolutePathBuf → List AbsolutePathBuf → AbsolutePathBuf → Option AbsolutePathBuf
raw_carveout_path target raw_writable_roots p =
    if is_some (parent target)
    then (if p == target
        then none
        else if starts_with p target
        then some p
        else moved_carveout target raw_writable_roots p)
    else none

module _ (w : World) where
  unfoldable pub get_readable_roots_with_cwd :
      FileSystemSandboxPolicy → PathBuf → List AbsolutePathBuf
  get_readable_roots_with_cwd policy cwd =
      if has_full_disk_read_access policy
      then []
      else dedup_absolute_paths w
          (map (λ entry. entry.path)
            (filter (λ entry. can_read_path_with_cwd w policy entry.path cwd)
              (filter (λ entry. can_read entry.access) (resolved_entries_with_cwd w policy cwd))))
          true

  unfoldable pub protected_metadata_names_for_writable_root :
      FileSystemSandboxPolicy → AbsolutePathBuf → List AbsolutePathBuf → PathBuf → List String
  protected_metadata_names_for_writable_root policy target raw_writable_roots cwd =
      filter
        (λ metadata_name.
          all (λ metadata_path. not (can_write_path_with_cwd w policy metadata_path cwd))
            (map (λ base. join base (normal metadata_name ∷ [])) (target ∷ raw_writable_roots)))
        protected_metadata_path_names

  -- The carveout of one narrower entry under a writable root, if it lies there.
  unfoldable pub carveout_under :
      AbsolutePathBuf → List AbsolutePathBuf → ResolvedFileSystemEntry → Option AbsolutePathBuf
  carveout_under target raw_writable_roots entry =
      elim (raw_carveout_path target raw_writable_roots entry.path) [
        | some raw ↦ some raw
        | none ↦
            let effective_path = normalize_effective_absolute_path w entry.path in
            if effective_path == target
            then none
            else if starts_with effective_path target
            then some effective_path
            else none
      ]

  unfoldable pub writable_entries_with_cwd :
      FileSystemSandboxPolicy → PathBuf → List AbsolutePathBuf
  writable_entries_with_cwd policy cwd =
      map (λ entry. entry.path)
        (filter (λ entry. can_write_path_with_cwd w policy entry.path cwd)
          (filter (λ entry. can_write entry.access) (resolved_entries_with_cwd w policy cwd)))

  unfoldable pub raw_writable_roots_of :
      FileSystemSandboxPolicy → PathBuf → AbsolutePathBuf → List AbsolutePathBuf
  raw_writable_roots_of policy cwd target =
      filter (λ p. normalize_effective_absolute_path w p == target)
        (writable_entries_with_cwd policy cwd)

  unfoldable pub read_only_subpaths_of :
      FileSystemSandboxPolicy → PathBuf → AbsolutePathBuf → List AbsolutePathBuf
  read_only_subpaths_of policy cwd target =
      let resolved_entries = resolved_entries_with_cwd w policy cwd in
      let protect_missing_dot_codex =
        is_some_and (λ dir. normalize_effective_absolute_path w dir == target)
          (from_absolute_path w cwd) in
      filter (λ p. not (has_explicit_resolved_path_entry resolved_entries p))
        (default_read_only_subpaths_for_writable_root w target protect_missing_dot_codex)
      ++ filter_map (carveout_under target (raw_writable_roots_of policy cwd target)) (
          filter (λ entry. not (can_write_path_with_cwd w policy entry.path cwd))
            (filter (λ entry. not (can_write entry.access)) resolved_entries))

  -- One root of `get_writable_roots_with_cwd`, with its carveouts.
  unfoldable pub writable_root_for :
      FileSystemSandboxPolicy → PathBuf → AbsolutePathBuf → WritableRoot
  writable_root_for policy cwd target = record {
    root = target;
    read_only_subpaths = dedup_absolute_paths w (read_only_subpaths_of policy cwd target) false;
    protected_metadata_names =
        protected_metadata_names_for_writable_root policy target
          (raw_writable_roots_of policy cwd target) cwd;
  }

  unfoldable pub get_writable_roots_with_cwd : FileSystemSandboxPolicy → PathBuf → List WritableRoot
  get_writable_roots_with_cwd policy cwd =
      if has_full_disk_write_access policy
      then []
      else map (writable_root_for policy cwd)
          (dedup_absolute_paths w (writable_entries_with_cwd policy cwd) true)

  -- The root of the working directory is never an unreadable root.
  unfoldable pub is_root_of : PathBuf → AbsolutePathBuf → Bool
  is_root_of cwd p =
      is_some_and (λ top. top == p) (from_absolute_path w cwd >>= absolute_root_path_for_cwd w)

  unfoldable pub get_unreadable_roots_with_cwd :
      FileSystemSandboxPolicy → PathBuf → List AbsolutePathBuf
  get_unreadable_roots_with_cwd policy cwd =
      if is_restricted policy.kind
      then dedup_absolute_paths w
          (map (λ entry. entry.path)
            (filter (λ entry. not (is_root_of cwd entry.path))
              (filter (λ entry. not (can_read_path_with_cwd w policy entry.path cwd))
                (filter (λ entry. is_none entry.access) (resolved_entries_with_cwd w policy cwd)))))
          true
      else []

abbrev pub glob_text : PathBuf → FileSystemPath → Option String
glob_text cwd (glob_pattern pattern) =
    some (path_text (resolve_path_against_base (components pattern) cwd))
glob_text cwd _ = none

unfoldable pub get_unreadable_globs_with_cwd : FileSystemSandboxPolicy → PathBuf → List String
get_unreadable_globs_with_cwd policy cwd =
    if is_restricted policy.kind
    then dedup (
        sort text_le (
          filter_map (λ entry. glob_text cwd entry.path)
            (filter (λ entry. is_none entry.access) policy.entries)))
    else []
