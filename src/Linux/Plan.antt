-- ===== src/Linux/Plan.antt =====
-- bwrap_runner.rs: `create_filesystem_args`, the mounts for a policy, in their order.
pub mod Order
pub mod Layers
pub mod Hidden
use Prim.Native.Char.{code}
use Prim.Native.String
use rattler_sandbox.Prelude.{
  String, ◌<>◌, Bool, true, false, not, ◌&&◌, ◌||◌, Option, none, some, List, [], ◌∷◌, ◌++◌, ℕ, leb,
  any, filter, filter_map, map, if◌then◌else◌, ◌==◌, string_eq, is_some, is_some_and, is_empty,
  sort, dedup, unwrap_or, contains, trim_start, has_prefix,
}
use mathlib.Core.List.{foldl}
use rattler_sandbox.World.{World}
use rattler_sandbox.Paths.Std.{
  PathBuf, path_eq, path_le, root_dir, normal, path_text, components, push, starts_with,
  strip_prefix, ancestors,
}
use rattler_sandbox.Paths.Absolute.{AbsolutePathBuf, from_absolute_path, resolve_path_against_base}
use rattler_sandbox.Policy.Types.{
  FileSystemAccessMode, FileSystemSpecialPath, FileSystemPath, special, path, project_roots,
  FileSystemSandboxEntry, FileSystemSandboxPolicy, WritableRoot,
}
use rattler_sandbox.Policy.Grants.{
  has_full_disk_read_access, has_full_disk_write_access, include_platform_defaults,
}
use rattler_sandbox.Policy.Roots.{
  get_readable_roots_with_cwd, get_writable_roots_with_cwd, get_unreadable_roots_with_cwd,
  get_unreadable_globs_with_cwd,
}
use rattler_sandbox.Linux.Host.{
  Host, Metadata, FileType, IoResult, found, not_found, other_error, is_directory_type,
  is_file_type,
}
use rattler_sandbox.Linux.Types.{
  BwrapArgs, only_args, push_args, ProtectedCreateTarget, protected_missing, Result, ok, err, or_io,
  ◌>>=◌, for_each,
}
use rattler_sandbox.Linux.Walk.{
  path_depth, canonical_target_if_symlinked_path, remap_paths_for_symlink_target,
}
use rattler_sandbox.Linux.Masks.{
  sort_by_depth, append_mount_target_parent_dir_args, append_read_only_subpath_args,
  append_unreadable_root_args,
}
use rattler_sandbox.Linux.Globs.{expand_unreadable_globs_with_ripgrep}

abbrev pub linux_platform_default_read_roots : List String
linux_platform_default_read_roots =
    "/bin" ∷ "/sbin" ∷ "/usr" ∷ "/etc" ∷ "/lib" ∷ "/lib64" ∷ "/nix/store" ∷ "/run/current-system/sw"
    ∷ []

abbrev pub slash : PathBuf
slash = root_dir ∷ []

abbrev pub name_path : String → PathBuf
name_path name = components name

abbrev pub read_only_root : List String
read_only_root = "--ro-bind" ∷ "/" ∷ "/" ∷ "--dev" ∷ "/dev" ∷ []

-- `Iterator::max_by_key`, which keeps the last of equal ones
unfoldable pub deepest : List PathBuf → Option PathBuf
deepest paths =
    foldl
      (λ best p. elim best [
        | none ↦ some p
        | some b ↦ if leb (path_depth b) (path_depth p) then some p else some b
      ])
      none paths

abbrev pub project_subpath : FileSystemPath → Option PathBuf
project_subpath (special (project_roots (some subpath))) = some subpath
project_subpath _ = none

abbrev pub is_read_mode : FileSystemAccessMode → Bool
is_read_mode FileSystemAccessMode.read = true
is_read_mode _ = false

unfoldable pub is_metadata_subpath : PathBuf → Bool
is_metadata_subpath subpath =
    subpath == name_path ".git" || (subpath == name_path ".agents" || subpath == name_path ".codex")

module _ (h : Host) where
  unfoldable pub ancestor_has_git_metadata : PathBuf → Bool
  ancestor_has_git_metadata ancestor =
      let git_path = push ancestor (name_path ".git") in
      elim (h.symlink_metadata git_path) [
        | not_found ↦ false
        | other_error ↦ false
        | found m ↦
            if is_directory_type m.file_type
            then elim (h.symlink_metadata (push git_path (name_path "HEAD"))) [
              | found _ ↦ true
              | not_found ↦ false
              | other_error ↦ false
            ]
            else if is_file_type m.file_type
            then is_some_and (λ contents. has_prefix "gitdir:" (trim_start contents))
                (h.world.read_to_string git_path)
            else false
      ]

  abbrev pub is_missing : PathBuf → Bool
  is_missing p = elim (h.symlink_metadata p) [
    | not_found ↦ true
    | found _ ↦ false
    | other_error ↦ false
  ]

  abbrev pub skip_first : List PathBuf → List PathBuf
  skip_first [] = []
  skip_first (_ ∷ rest) = rest

  unfoldable pub should_leave_missing_git_for_parent_repo_discovery : PathBuf → String → Bool
  should_leave_missing_git_for_parent_repo_discovery mount_root name =
      name == ".git"
      && (is_missing (push mount_root (name_path name))
          && any ancestor_has_git_metadata (skip_first (ancestors mount_root)))

  unfoldable pub append_metadata_path_masks_for_writable_root :
      List PathBuf → PathBuf → PathBuf → List String → List PathBuf
  append_metadata_path_masks_for_writable_root read_only_subpaths root mount_root names =
      foldl
        (λ subpaths name.
          let masked = push root (name_path name) in
          if should_leave_missing_git_for_parent_repo_discovery mount_root name
          then subpaths
          else if contains masked subpaths
          then subpaths
          else subpaths ++ (masked ∷ []))
        read_only_subpaths names

  unfoldable pub metadata_path_in_root : PathBuf → Option PathBuf → String → PathBuf
  metadata_path_in_root root symlink_target name =
      let plain = push root (name_path name) in
      elim symlink_target [
        | none ↦ plain
        | some target ↦ elim (strip_prefix plain root) [
          | none ↦ plain
          | some relative ↦ push target relative
        ]
      ]

  unfoldable pub append_protected_create_targets_for_writable_root :
      BwrapArgs → List String → PathBuf → Option PathBuf → List PathBuf → BwrapArgs
  append_protected_create_targets_for_writable_root b names root symlink_target subpaths =
      foldl
        (λ c name.
          let p = metadata_path_in_root root symlink_target name in
          if contains p subpaths || h.world.exists p then c else record c {
            protected_create_targets = c.protected_create_targets ++ (protected_missing p ∷ []);
          })
        b names

  -- What the policy gives `create_filesystem_args` before any mount.
  unfoldable pub existing_writable_roots :
      FileSystemSandboxPolicy → PathBuf → Result (List WritableRoot)
  existing_writable_roots policy cwd =
      let roots =
        filter (λ r. h.world.exists r.root) (get_writable_roots_with_cwd h.world policy cwd) in
      if is_empty roots
        && (has_full_disk_write_access policy
            && not (is_empty (get_unreadable_globs_with_cwd policy cwd)))
      then (or_io (from_absolute_path h.world slash) >>= λ root.
          ok (record { root = root; read_only_subpaths = []; protected_metadata_names = [] } ∷ []))
      else ok roots

  unfoldable pub missing_auto_metadata_subpaths : FileSystemSandboxPolicy → PathBuf → List PathBuf
  missing_auto_metadata_subpaths policy cwd =
      filter_map
        (λ e. elim (project_subpath e.path) [
          | none ↦ none
          | some subpath ↦
              if is_metadata_subpath subpath
              then (let resolved = resolve_path_against_base subpath cwd in
                  if h.world.exists resolved then none else some resolved)
              else none
        ])
        (filter (λ e. is_read_mode e.access) policy.entries)

  unfoldable pub all_unreadable_roots :
      FileSystemSandboxPolicy → PathBuf → Option ℕ → Result (List PathBuf)
  all_unreadable_roots policy cwd max_depth =
      expand_unreadable_globs_with_ripgrep h (get_unreadable_globs_with_cwd policy cwd) cwd
        max_depth
      >>= λ matched.
          ok (dedup (sort path_le (get_unreadable_roots_with_cwd h.world policy cwd ++ matched)))

  unfoldable pub readable_mount_root : List WritableRoot → PathBuf → PathBuf
  readable_mount_root writable_roots root =
      if any (λ r. starts_with root r.root) writable_roots
      then unwrap_or (canonical_target_if_symlinked_path h root) root
      else root

  unfoldable pub readable_roots_set : FileSystemSandboxPolicy → PathBuf → List PathBuf
  readable_roots_set policy cwd = dedup (
      sort path_le (
        get_readable_roots_with_cwd h.world policy cwd
        ++ (if include_platform_defaults policy
            then filter h.world.exists (map components linux_platform_default_read_roots)
            else [])))

  unfoldable pub base_args : FileSystemSandboxPolicy → PathBuf → List WritableRoot → List String
  base_args policy cwd writable_roots =
      if has_full_disk_read_access policy
      then read_only_root
      else (let readable = readable_roots_set policy cwd in
          if any (λ root. root == slash) readable
          then read_only_root
          else foldl
              (λ args root.
                let mount_root = path_text (readable_mount_root writable_roots root) in
                if h.world.exists root
                then args ++ ("--ro-bind" ∷ mount_root ∷ mount_root ∷ [])
                else args)
              ("--tmpfs" ∷ "/" ∷ "--dev" ∷ "/dev" ∷ []) readable)

  unfoldable pub allowed_write_paths_of : List WritableRoot → List PathBuf
  allowed_write_paths_of [] = []
  allowed_write_paths_of (r ∷ roots) =
      let rest = allowed_write_paths_of roots in
      elim (canonical_target_if_symlinked_path h r.root) [
        | none ↦ r.root ∷ rest
        | some target ↦ r.root ∷ target ∷ rest
      ]

  -- The loop body for a writable root, in parts: its bind, after the directories that it needs
  -- under a mask;
  unfoldable pub bind_writable_root : BwrapArgs → List PathBuf → PathBuf → PathBuf → BwrapArgs
  bind_writable_root b unreadable_roots root mount_root =
      let opened : List String =
        elim (deepest (filter (λ u. starts_with root u) unreadable_roots)) [
          | none ↦ b.args
          | some masking_root ↦ append_mount_target_parent_dir_args h b.args root masking_root
        ] in
      record b { args = opened ++ ("--bind" ∷ path_text mount_root ∷ path_text mount_root ∷ []) }

  abbrev pub remapped : Option PathBuf → PathBuf → List PathBuf → List PathBuf
  remapped none root paths = paths
  remapped (some target) root paths = remap_paths_for_symlink_target paths root target

  -- the read-only paths below it, in the order of their depth;
  unfoldable pub read_only_subpaths_to_mount :
      WritableRoot → List PathBuf → List PathBuf → Option PathBuf → List PathBuf
  read_only_subpaths_to_mount r unreadable_roots missing_auto symlink_target =
      let kept =
        filter (λ p. not (contains p missing_auto))
          (filter (λ p. not (contains p unreadable_roots)) r.read_only_subpaths) in
      remapped symlink_target r.root (
        append_metadata_path_masks_for_writable_root kept r.root (unwrap_or symlink_target r.root)
          r.protected_metadata_names)

  -- and the unreadable paths below it.
  unfoldable pub nested_unreadable_roots : List PathBuf → PathBuf → Option PathBuf → List PathBuf
  nested_unreadable_roots unreadable_roots root symlink_target =
      sort_by_depth
        (remapped symlink_target root (filter (λ p. starts_with p root) unreadable_roots))

  abbrev pub append_unreadable : List PathBuf → BwrapArgs → PathBuf → Result BwrapArgs
  append_unreadable allowed b root = append_unreadable_root_args h b root allowed

  unfoldable pub mount_writable_root :
      List PathBuf → List PathBuf → List PathBuf → BwrapArgs → WritableRoot → Result BwrapArgs
  mount_writable_root unreadable_roots missing_auto allowed b r =
      let symlink_target = canonical_target_if_symlinked_path h r.root in
      let bound = bind_writable_root b unreadable_roots r.root (unwrap_or symlink_target r.root) in
      let subpaths = read_only_subpaths_to_mount r unreadable_roots missing_auto symlink_target in
      let protected =
        append_protected_create_targets_for_writable_root bound r.protected_metadata_names r.root
          symlink_target subpaths in
      for_each (λ c p. append_read_only_subpath_args h c p allowed) protected
        (sort_by_depth subpaths)
      >>= λ carved.
          for_each (append_unreadable allowed) carved
            (nested_unreadable_roots unreadable_roots r.root symlink_target)

  unfoldable pub unreadable_ancestors_of_writable_roots : List PathBuf → List PathBuf → List PathBuf
  unreadable_ancestors_of_writable_roots unreadable_roots allowed = sort_by_depth (
      filter
        (λ p.
          not (any (λ root. starts_with p root) allowed)
          && any (λ root. starts_with root p) allowed)
        unreadable_roots)

  unfoldable pub rootless_unreadable_roots : List PathBuf → List PathBuf → List PathBuf
  rootless_unreadable_roots unreadable_roots allowed = sort_by_depth (
      filter (λ p. not (any (λ root. starts_with p root || starts_with root p) allowed))
        unreadable_roots)

  unfoldable pub sorted_writable_roots : List WritableRoot → List WritableRoot
  sorted_writable_roots roots = sort (λ a b. leb (path_depth a.root) (path_depth b.root)) roots

  -- The mounts over the base, from what the policy gives.
  unfoldable pub layer_mounts :
      List String → List PathBuf → List PathBuf → List WritableRoot → Result BwrapArgs
  layer_mounts args unreadable_roots missing_auto writable_roots =
      let allowed = allowed_write_paths_of writable_roots in
      for_each (append_unreadable allowed) (only_args args)
        (unreadable_ancestors_of_writable_roots unreadable_roots allowed)
      >>= λ masked.
          for_each (mount_writable_root unreadable_roots missing_auto allowed) masked
            (sorted_writable_roots writable_roots)
          >>= λ mounted.
              for_each (append_unreadable allowed) mounted
                (rootless_unreadable_roots unreadable_roots allowed)

  unfoldable pub create_filesystem_args :
      FileSystemSandboxPolicy → PathBuf → Option ℕ → Result BwrapArgs
  create_filesystem_args policy cwd glob_scan_max_depth =
      existing_writable_roots policy cwd >>= λ writable_roots.
      all_unreadable_roots policy cwd glob_scan_max_depth >>= λ unreadable_roots.
      layer_mounts (base_args policy cwd writable_roots) unreadable_roots
        (missing_auto_metadata_subpaths policy cwd) writable_roots
