-- ===== src/Tests/Linux.antt =====
-- The Linux engine at concrete inputs.
use rattler_sandbox.Prelude.{
  String, ◌≡◌, refl, Bool, true, false, ◌||◌, not, ◌&&◌, none, some, List, [], ◌∷◌, ◌++◌, ◌%◌, ◌^◌,
  ◌↔◌, ◌⊎◌, inl, if◌then◌else◌, ◌==◌, string_eq,
}
use rattler_sandbox.World.{World}
use rattler_sandbox.Paths.Std.{
  PathBuf, path_eq, normal, root_dir, component_eq, starts_with, strip_prefix, push, components,
}
use rattler_sandbox.Policy.Types.{
  FileSystemAccessMode, read, write, path, special, root, FileSystemSandboxPolicy,
}
use rattler_sandbox.Policy.Grants.{restricted}
use rattler_sandbox.Linux.Host.{
  Host, Metadata, FileType, file, directory, symlink, found, not_found, not_installed,
}
use rattler_sandbox.Linux.Types.{
  BwrapArgs, ok, SyntheticMountTarget, missing_empty_directory, for_each,
}
use rattler_sandbox.Linux.Plan.{
  sorted_writable_roots, create_filesystem_args, unreadable_ancestors_of_writable_roots,
  rootless_unreadable_roots, nested_unreadable_roots,
}
use rattler_sandbox.Linux.Walk.{
  find_first_non_existent_component, first_writable_symlink_component_in_path,
}
use rattler_sandbox.Linux.Walk.Prefixes.{first_writable_symlink_component-none, is_writable_link}
use rattler_sandbox.Linux.Globs.{escape_unclosed_glob_classes}
use rattler_sandbox.Linux.Globs.Classes.{is_closed}
use rattler_sandbox.Linux.Globs.Escape.{EscapesOne, escape_unclosed_glob_classes_lem}
use rattler_sandbox.Linux.Seccomp.{
  proxy_routed, restricted as restricted_mode, socket, socketpair, is_denied,
}
use rattler_sandbox.Linux.Seccomp.Sockets.{is_denied-domain}
use rattler_sandbox.Policy.Roots.{get_writable_roots_with_cwd, get_unreadable_roots_with_cwd}
use rattler_sandbox.Paths.Std.{
  component_eq, path_eq, starts_with, strip_prefix, push, parent, ancestors_within, ancestors,
  file_name, path_le, split_slash, pieces_components, leading_components, components, joined,
  path_text,
}
use rattler_sandbox.Paths.Absolute.{
  normalize_step, normalize_path, path_with_base, absolutize_from, resolve_path_against_base, join,
  absolutize, from_absolute_path,
}
use rattler_sandbox.Paths.Canonical.{
  is_nested_symlink, should_preserve_logical_path, canonicalize_preserving_symlinks,
}
use rattler_sandbox.Policy.Grants.{
  has_root_access, has_denied_read_restrictions, has_full_disk_read_access,
  has_full_disk_write_access, include_platform_defaults,
}
use rattler_sandbox.Policy.Resolve.{
  precedence_lt, max_from, max_by_precedence, absolute_root_path_for_cwd, resolve_file_system_path,
  resolve_entry_path, resolve_candidate_path, resolved_entries_with_cwd, access_among,
  resolve_access_with_cwd, can_read_path_with_cwd,
}
use rattler_sandbox.Policy.Metadata.{
  is_protected_metadata_name, metadata_path_name, metadata_child_of_entry,
  metadata_child_of_writable_root, has_explicit_write_entry_for_metadata_path,
  is_target_write_denied, is_metadata_write_denied, can_write_path_with_cwd,
}
use rattler_sandbox.Policy.Dedup.{
  dedup_seen, normalized_by_ancestor, first_normalized, normalize_effective_absolute_path,
  dedup_absolute_paths,
}
use rattler_sandbox.Policy.Defaults.{default_read_only_subpaths_for_writable_root}
use rattler_sandbox.Policy.Roots.{
  has_explicit_resolved_path_entry, moved_carveout, raw_carveout_path, get_readable_roots_with_cwd,
  protected_metadata_names_for_writable_root, carveout_under, writable_entries_with_cwd,
  raw_writable_roots_of, read_only_subpaths_of, writable_root_for, get_writable_roots_with_cwd,
  is_root_of, get_unreadable_roots_with_cwd, get_unreadable_globs_with_cwd,
}
use rattler_sandbox.Linux.Walk.{
  walk, is_within_allowed_write_paths, remap_paths_for_symlink_target, writable_symlink_at,
  first_writable_symlink_component_in_path, missing_at, find_first_non_existent_component,
  symlink_target_of, symlinked_at, canonical_target_if_symlinked_path,
}
use rattler_sandbox.Linux.Masks.{
  sort_by_depth, append_empty_directory_args, append_missing_read_only_subpath_args,
  transient_empty_metadata_path, append_missing_component, append_stable_read_only,
  append_read_only_subpath_args, writable_descendants_of, append_existing_unreadable_path_args,
  append_unreadable_root_args,
}
use rattler_sandbox.Linux.Globs.{expand_unreadable_globs_with_ripgrep}
use rattler_sandbox.Linux.Plan.{
  deepest, ancestor_has_git_metadata, should_leave_missing_git_for_parent_repo_discovery,
  append_metadata_path_masks_for_writable_root, metadata_path_in_root,
  append_protected_create_targets_for_writable_root, existing_writable_roots,
  missing_auto_metadata_subpaths, all_unreadable_roots, readable_roots_set, base_args,
  allowed_write_paths_of, bind_writable_root, read_only_subpaths_to_mount, nested_unreadable_roots,
  mount_writable_root, unreadable_ancestors_of_writable_roots, rootless_unreadable_roots,
  sorted_writable_roots, layer_mounts, create_filesystem_args,
}
use rattler_sandbox.Prelude.{insert_sorted, sort, dedup}
use rattler_sandbox.Prelude.{string_eq}

-- `/w/link` is a symbolic link to `/real`, which has a file `secret`.
abbrev pub link_dir : PathBuf
link_dir = root_dir ∷ normal "w" ∷ normal "link" ∷ []

abbrev pub real_dir : PathBuf
real_dir = root_dir ∷ normal "real" ∷ []

abbrev pub real_secret : PathBuf
real_secret = root_dir ∷ normal "real" ∷ normal "secret" ∷ []

abbrev pub work_dir : PathBuf
work_dir = root_dir ∷ normal "w" ∷ []

abbrev metadata_of : FileType → Metadata
metadata_of t = record { file_type = t; len = 7; dev = 1; ino = 2 }

abbrev resolve_link : PathBuf → PathBuf
resolve_link p = elim (strip_prefix p link_dir) [ none ↦ p | some rest ↦ push real_dir rest ]

abbrev is_there : PathBuf → Bool
is_there p =
    p == root_dir ∷ []
    || (p == real_dir || (p == real_secret || (p == work_dir || p == push real_dir [])))

abbrev pub linked_world : World
linked_world = record {
  current_dir = some work_dir;
  tmpdir = none;
  is_dir = λ p. is_there (resolve_link p) && not (resolve_link p == real_secret);
  is_file = λ p. resolve_link p == real_secret;
  exists = λ p. is_there (resolve_link p);
  symlink_metadata = λ p.
      if p == link_dir then some true else if is_there (resolve_link p) then some false else none;
  canonicalize = λ p. if is_there (resolve_link p) then some (resolve_link p) else none;
  dunce_canonicalize = λ p. if is_there (resolve_link p) then some (resolve_link p) else none;
  read_to_string = λ p. none;
}

abbrev pub linked_host : Host
linked_host = record {
  world = linked_world;
  symlink_metadata = λ p.
      if p == link_dir
      then found (metadata_of symlink)
      else if is_there (resolve_link p)
      then found (metadata_of (if resolve_link p == real_secret then file else directory))
      else not_found;
  read_dir = λ p. none;
  open_dev_null = some "3";
  ripgrep = λ args. not_installed;
  build_glob = λ glob. none;
  build_glob_set = λ globs. true;
  tree_depth = 8;
  number_text = λ n. "1";
}

abbrev pub linked_policy : FileSystemSandboxPolicy
linked_policy = restricted (
    record { path = special root; access = read }
    ∷ record { path = path link_dir; access = write }
    ∷ record { path = path real_secret; access = FileSystemAccessMode.none }
    ∷ [])

-- `/w` may be written, `/w/private` may not be read.
abbrev pub private_dir : PathBuf
private_dir = root_dir ∷ normal "w" ∷ normal "private" ∷ []

abbrev pub plain_world : World
plain_world = record linked_world {
  is_dir = λ p. p == work_dir || p == private_dir;
  exists = λ p. p == work_dir || p == private_dir;
  symlink_metadata = λ p. if p == work_dir || p == private_dir then some false else none;
  canonicalize = λ p. if p == work_dir || p == private_dir then some p else none;
  dunce_canonicalize = λ p. if p == work_dir || p == private_dir then some p else none;
}

abbrev pub plain_host : Host
plain_host = record linked_host {
  world = plain_world;
  symlink_metadata =
      λ p. if p == work_dir || p == private_dir then found (metadata_of directory) else not_found;
}

abbrev pub private_policy : FileSystemSandboxPolicy
private_policy = restricted (
    record { path = special root; access = read }
    ∷ record { path = path work_dir; access = write }
    ∷ record { path = path private_dir; access = FileSystemAccessMode.none }
    ∷ [])

abbrev missing_directory : PathBuf → SyntheticMountTarget
missing_directory p = missing_empty_directory p

abbrev masked_name : String → List String → List String
masked_name name rest = "--perms" ∷ "555" ∷ "--tmpfs" ∷ name ∷ "--remount-ro" ∷ name ∷ rest

-- The bind of `/w`, the masks of its metadata, and the mask of the denied directory.
abbrev pub private_args : BwrapArgs
private_args = record {
  args =
      "--ro-bind"
      ∷ "/"
      ∷ "/"
      ∷ "--dev"
      ∷ "/dev"
      ∷ "--bind"
      ∷ "/w"
      ∷ "/w"
      ∷ masked_name "/w/.codex" (
          masked_name "/w/.git" (
            masked_name "/w/.agents"
              ("--perms" ∷ "000" ∷ "--tmpfs" ∷ "/w/private" ∷ "--remount-ro" ∷ "/w/private" ∷ [])));
  preserved_files = [];
  synthetic_mount_targets =
      missing_directory (work_dir ++ (normal ".codex" ∷ []))
      ∷ missing_directory (work_dir ++ (normal ".git" ∷ []))
      ∷ missing_directory (work_dir ++ (normal ".agents" ∷ []))
      ∷ [];
  protected_create_targets = [];
}

-- The link may be written, what it leads to may not be read: the mounts of `/real` hide nothing of
-- `/real/secret`.
abbrev pub linked_args : BwrapArgs
linked_args = record {
  args =
      "--ro-bind"
      ∷ "/"
      ∷ "/"
      ∷ "--dev"
      ∷ "/dev"
      ∷ "--bind"
      ∷ "/real"
      ∷ "/real"
      ∷ masked_name "/real/.git" (masked_name "/real/.agents" (masked_name "/real/.codex" []));
  preserved_files = [];
  synthetic_mount_targets =
      missing_directory (real_dir ++ (normal ".git" ∷ []))
      ∷ missing_directory (real_dir ++ (normal ".agents" ∷ []))
      ∷ missing_directory (real_dir ++ (normal ".codex" ∷ []))
      ∷ [];
  protected_create_targets = [];
}

linked_run : create_filesystem_args linked_host linked_policy work_dir none ≡ ok linked_args
unfolding path_eq starts_with strip_prefix push parent ancestors_within ancestors file_name path_le
    split_slash pieces_components leading_components components joined path_text normalize_step
    normalize_path path_with_base absolutize_from resolve_path_against_base join absolutize
    from_absolute_path is_nested_symlink should_preserve_logical_path
    canonicalize_preserving_symlinks has_root_access has_denied_read_restrictions
    has_full_disk_read_access has_full_disk_write_access include_platform_defaults precedence_lt
    max_from max_by_precedence absolute_root_path_for_cwd resolve_file_system_path
    resolve_entry_path resolve_candidate_path resolved_entries_with_cwd access_among
    resolve_access_with_cwd can_read_path_with_cwd is_protected_metadata_name metadata_path_name
    metadata_child_of_entry metadata_child_of_writable_root
    has_explicit_write_entry_for_metadata_path is_target_write_denied is_metadata_write_denied
    can_write_path_with_cwd dedup_seen normalized_by_ancestor first_normalized
    normalize_effective_absolute_path dedup_absolute_paths
    default_read_only_subpaths_for_writable_root has_explicit_resolved_path_entry moved_carveout
    raw_carveout_path get_readable_roots_with_cwd protected_metadata_names_for_writable_root
    carveout_under writable_entries_with_cwd raw_writable_roots_of read_only_subpaths_of
    writable_root_for get_writable_roots_with_cwd is_root_of get_unreadable_roots_with_cwd
    get_unreadable_globs_with_cwd walk is_within_allowed_write_paths remap_paths_for_symlink_target
    writable_symlink_at first_writable_symlink_component_in_path missing_at
    find_first_non_existent_component symlink_target_of append_stable_read_only
    append_read_only_subpath_args writable_descendants_of append_existing_unreadable_path_args
    append_unreadable_root_args expand_unreadable_globs_with_ripgrep deepest
    ancestor_has_git_metadata should_leave_missing_git_for_parent_repo_discovery
    append_metadata_path_masks_for_writable_root metadata_path_in_root
    append_protected_create_targets_for_writable_root existing_writable_roots
    missing_auto_metadata_subpaths all_unreadable_roots readable_roots_set base_args
    allowed_write_paths_of bind_writable_root read_only_subpaths_to_mount nested_unreadable_roots
    mount_writable_root unreadable_ancestors_of_writable_roots rootless_unreadable_roots
    layer_mounts create_filesystem_args insert_sorted sort dedup for_each sorted_writable_roots
    sort_by_depth canonical_target_if_symlinked_path symlinked_at transient_empty_metadata_path
    append_missing_component append_missing_read_only_subpath_args append_empty_directory_args
linked_run = refl

first_writable_symlink_component-none_example :
    is_writable_link plain_host (work_dir ∷ []) work_dir (metadata_of directory) ≡ false
unfolding first_writable_symlink_component_in_path walk writable_symlink_at path_eq push
first_writable_symlink_component-none_example =
    first_writable_symlink_component-none plain_host private_dir (work_dir ∷ []) refl refl work_dir
      (metadata_of directory) (inl refl) refl

escape_unclosed_glob_classes_lem_example :
    (is_closed false "a[b" ≡ true → escape_unclosed_glob_classes "a[b" ≡ "a[b")
    × (is_closed false "a[b" ≡ false → EscapesOne "a[b" (escape_unclosed_glob_classes "a[b"))
escape_unclosed_glob_classes_lem_example = escape_unclosed_glob_classes_lem "a[b"

is_denied-domain_example :
    ((is_denied restricted_mode socket 2 ≡ false) ↔ (2 % 2 ^ 32 ≡ 1))
    × ((is_denied restricted_mode socketpair 2 ≡ false) ↔ (2 % 2 ^ 32 ≡ 1))
    × ((is_denied proxy_routed socket 2 ≡ false) ↔ ((2 % 2 ^ 32 ≡ 2) ⊎ (2 % 2 ^ 32 ≡ 10)))
    × ((is_denied proxy_routed socketpair 2 ≡ true) ↔ (2 % 2 ^ 32 ≡ 1))
is_denied-domain_example = is_denied-domain 2
