-- ===== src/Tests/Roots.antt =====
-- The roots that the engines are given for concrete policies.
use mathlib.Core.List.{Memᴰ}
use rattler_sandbox.Prelude.{◌≡◌, refl, true, false, string_eq}
use rattler_sandbox.Paths.Std.{
  component_eq, path_eq, starts_with, strip_prefix, push, parent, ancestors, ancestors_within,
}
use rattler_sandbox.Paths.Absolute.{
  AbsolutePathBuf, from_absolute_path, absolutize, normalize_path, normalize_step,
}
use rattler_sandbox.Policy.Types.{
  FileSystemAccessMode, write, WritableRoot, ResolvedFileSystemEntry,
}
use rattler_sandbox.Policy.Grants.{
  has_full_disk_write_access, has_full_disk_read_access, has_root_access,
}
use rattler_sandbox.Policy.Resolve.{
  resolved_entries_with_cwd, resolve_entry_path, resolve_file_system_path, resolve_access_with_cwd,
  resolve_candidate_path, can_read_path_with_cwd, access_among, max_by_precedence, max_from,
  precedence_lt, absolute_root_path_for_cwd,
}
use rattler_sandbox.Policy.Metadata.{
  can_write_path_with_cwd, is_metadata_write_denied, is_target_write_denied,
  metadata_child_of_writable_root, metadata_child_of_entry,
}
use rattler_sandbox.Policy.Dedup.{
  dedup_absolute_paths, dedup_seen, normalize_effective_absolute_path, first_normalized,
  normalized_by_ancestor,
}
use rattler_sandbox.Policy.Roots.{
  get_writable_roots_with_cwd, get_unreadable_roots_with_cwd, get_readable_roots_with_cwd,
  writable_entries_with_cwd, writable_root_for, is_root_of,
}
use rattler_sandbox.Policy.Listed.{
  get_writable_roots-can_write, get_writable_roots_complete, get_unreadable_roots_complete,
}
use rattler_sandbox.Tests.{world, dir, secret, guarded, narrow}

abbrev dir_entry : ResolvedFileSystemEntry
dir_entry = record { path = dir; access = write }

abbrev denied_entry : ResolvedFileSystemEntry
denied_entry = record { path = secret; access = FileSystemAccessMode.none }

dir_writable_root :
    Memᴰ (writable_root_for world guarded dir dir) (get_writable_roots_with_cwd world guarded dir)
unfolding get_writable_roots_with_cwd has_full_disk_write_access has_root_access
    dedup_absolute_paths dedup_seen writable_entries_with_cwd resolved_entries_with_cwd
    resolve_entry_path resolve_file_system_path can_write_path_with_cwd resolve_access_with_cwd
    resolve_candidate_path from_absolute_path absolutize access_among max_by_precedence starts_with
    max_from precedence_lt normalize_path normalize_step push is_metadata_write_denied
    is_target_write_denied metadata_child_of_writable_root metadata_child_of_entry strip_prefix
    normalize_effective_absolute_path first_normalized normalized_by_ancestor ancestors
    ancestors_within parent path_eq absolute_root_path_for_cwd
dir_writable_root = Memᴰ.head refl

dir_resolved : Memᴰ dir_entry (resolved_entries_with_cwd world guarded dir)
unfolding resolved_entries_with_cwd resolve_entry_path resolve_file_system_path from_absolute_path
    absolutize normalize_path normalize_step push ancestors ancestors_within parent
    absolute_root_path_for_cwd
dir_resolved = Memᴰ.tail (Memᴰ.head refl)

secret_resolved : Memᴰ denied_entry (resolved_entries_with_cwd world guarded dir)
unfolding resolved_entries_with_cwd resolve_entry_path resolve_file_system_path from_absolute_path
    absolutize normalize_path normalize_step push ancestors ancestors_within parent
    absolute_root_path_for_cwd
secret_resolved = Memᴰ.tail (Memᴰ.tail (Memᴰ.head refl))

dir_can_be_written : can_write_path_with_cwd world guarded dir dir ≡ true
unfolding has_full_disk_write_access has_root_access resolved_entries_with_cwd resolve_entry_path
    resolve_file_system_path can_write_path_with_cwd resolve_access_with_cwd resolve_candidate_path
    from_absolute_path absolutize access_among max_by_precedence starts_with max_from precedence_lt
    normalize_path normalize_step push is_metadata_write_denied is_target_write_denied
    metadata_child_of_writable_root metadata_child_of_entry strip_prefix ancestors ancestors_within
    parent path_eq absolute_root_path_for_cwd
dir_can_be_written = refl

guarded_confined : has_full_disk_write_access guarded ≡ false
unfolding has_full_disk_write_access has_root_access
guarded_confined = refl

secret_unread : can_read_path_with_cwd world guarded secret dir ≡ false
unfolding resolved_entries_with_cwd resolve_entry_path resolve_file_system_path
    resolve_access_with_cwd resolve_candidate_path from_absolute_path absolutize access_among
    max_by_precedence starts_with max_from precedence_lt normalize_path normalize_step push
    ancestors ancestors_within parent path_eq absolute_root_path_for_cwd can_read_path_with_cwd
secret_unread = refl

secret_inside : is_root_of world dir secret ≡ false
unfolding from_absolute_path absolutize normalize_path normalize_step push ancestors
    ancestors_within parent path_eq absolute_root_path_for_cwd is_root_of
secret_inside = refl

secret_unreadable_root : Memᴰ secret (get_unreadable_roots_with_cwd world guarded dir)
unfolding dedup_absolute_paths dedup_seen resolved_entries_with_cwd resolve_entry_path
    resolve_file_system_path resolve_access_with_cwd resolve_candidate_path from_absolute_path
    absolutize access_among max_by_precedence starts_with max_from precedence_lt normalize_path
    normalize_step push normalize_effective_absolute_path first_normalized normalized_by_ancestor
    ancestors ancestors_within parent path_eq absolute_root_path_for_cwd is_root_of
    get_unreadable_roots_with_cwd can_read_path_with_cwd
secret_unreadable_root = Memᴰ.head refl

dir_readable_root : Memᴰ dir (get_readable_roots_with_cwd world narrow dir)
unfolding has_root_access dedup_absolute_paths dedup_seen resolved_entries_with_cwd
    resolve_entry_path resolve_file_system_path resolve_access_with_cwd resolve_candidate_path
    from_absolute_path absolutize access_among max_by_precedence starts_with max_from normalize_path
    normalize_step push normalize_effective_absolute_path first_normalized normalized_by_ancestor
    ancestors ancestors_within parent path_eq get_readable_roots_with_cwd has_full_disk_read_access
    can_read_path_with_cwd
dir_readable_root = Memᴰ.head refl

get_writable_roots-can_write_example :
    (p : AbsolutePathBuf) × (normalize_effective_absolute_path world p
      ≡ (writable_root_for world guarded dir dir).root)
    × (can_write_path_with_cwd world guarded p dir ≡ true)
get_writable_roots-can_write_example =
    get_writable_roots-can_write world guarded dir (writable_root_for world guarded dir dir)
      dir_writable_root

get_writable_roots_complete_example :
    (r : WritableRoot) × Memᴰ r (get_writable_roots_with_cwd world guarded dir)
    × (r.root ≡ normalize_effective_absolute_path world dir)
get_writable_roots_complete_example =
    get_writable_roots_complete world guarded dir dir_entry guarded_confined dir_resolved refl
      dir_can_be_written

get_unreadable_roots_complete_example :
    Memᴰ
      (normalize_effective_absolute_path world secret)
      (get_unreadable_roots_with_cwd world guarded dir)
get_unreadable_roots_complete_example =
    get_unreadable_roots_complete world guarded dir denied_entry refl secret_resolved refl
      secret_unread secret_inside
