-- ===== src/Tests/Policies.antt =====
-- Policies at concrete inputs.
use mathlib.Core.List.{Memᴰ}
use rattler_sandbox.Prelude.{
  length, not, is_some, ◌≤◌, ap, ◌≡◌, ◌⊎◌, refl, true, false, some, [], ◌∷◌, string_eq, any, arith,
  SameMembers,
}
use rattler_sandbox.Paths.Std.{
  path_eq, component_eq, ancestors, ancestors_within, push, parent, strip_prefix, starts_with,
}
use rattler_sandbox.Paths.Absolute.{
  absolutize, absolutize_from, normalize_path, normalize_step, path_with_base, from_absolute_path,
  resolve_path_against_base, join,
}
use rattler_sandbox.Paths.Guarantees.{from_absolute_path_fixed}
use rattler_sandbox.Policy.Types.{write, subpath_eq, FileSystemAccessMode, ResolvedFileSystemEntry}
use rattler_sandbox.Policy.Grants.{
  unrestricted, has_full_disk_read_access, has_denied_read_restrictions,
  file_system_paths_share_target, has_full_disk_write_access, has_root_access,
  has_same_target_write_override, has_write_narrowing_entries, special_path_matches_absolute_path,
}
use rattler_sandbox.Policy.Resolve.{
  access_among, max_by_precedence, resolve_entry_path, max_from, precedence_lt,
  resolve_file_system_path, absolute_root_path_for_cwd, resolved_entries_with_cwd,
  resolve_candidate_path, resolve_access_with_cwd, can_read_path_with_cwd,
}
use rattler_sandbox.Policy.Metadata.{
  forbidden_agent_metadata_write, forbidden_in_target, metadata_child_of_writable_root,
  metadata_child_of_entry, can_write_path_with_cwd, has_explicit_write_entry_for_metadata_path,
  is_metadata_write_denied, is_target_write_denied, metadata_path_name,
}
use rattler_sandbox.Policy.Build.{
  network_policy_from, from_legacy_sandbox_policy_for_cwd, preserve_deny_read_restrictions_from,
  materialize_project_roots_with_cwd, with_additional_readable_roots,
}
use rattler_sandbox.Policy.Bridge.{to_legacy_sandbox_policy}
use rattler_sandbox.Policy.Specific.{Decides, resolve_access_with_cwd-Decides}
use rattler_sandbox.Policy.Access.{resolve_access_with_cwd-same}
use rattler_sandbox.Policy.FullDisk.{full_disk_write_access, full_disk_read_access}
use rattler_sandbox.Policy.Deny.{
  resolve_candidate_path_fixed, preserve_deny_read_restrictions_from-denies,
}
use rattler_sandbox.Policy.Extend.{with_additional_readable_roots-keeps}
use rattler_sandbox.Policy.Materialize.{is_project_roots, materialize_project_roots_with_cwd_lem}
use rattler_sandbox.Policy.Reported.{
  Reports, forbidden_agent_metadata_write_lem, forbidden_agent_metadata_write-can_write,
}
use rattler_sandbox.Policy.RoundTrip.{to_legacy-from_legacy}
use rattler_sandbox.Tests.{
  world, dir, other_dir, secret, key, git_config, guarded, reordered, overridden, symbolic, narrow,
  legacy, world-HasAbsoluteDir,
}

reordered-SameMembers : SameMembers guarded.entries reordered.entries
reordered-SameMembers e = (there, back)
  where
    there : Memᴰ e guarded.entries → Memᴰ e reordered.entries
    there (Memᴰ.head p) = Memᴰ.tail (Memᴰ.head p)
    there (Memᴰ.tail (Memᴰ.head p)) = Memᴰ.tail (Memᴰ.tail (Memᴰ.head p))
    there (Memᴰ.tail (Memᴰ.tail (Memᴰ.head p))) = Memᴰ.head p
    there (Memᴰ.tail (Memᴰ.tail (Memᴰ.tail m))) = elim m [ ]

    back : Memᴰ e reordered.entries → Memᴰ e guarded.entries
    back (Memᴰ.head p) = Memᴰ.tail (Memᴰ.tail (Memᴰ.head p))
    back (Memᴰ.tail (Memᴰ.head p)) = Memᴰ.head p
    back (Memᴰ.tail (Memᴰ.tail (Memᴰ.head p))) = Memᴰ.tail (Memᴰ.head p)
    back (Memᴰ.tail (Memᴰ.tail (Memᴰ.tail m))) = elim m [ ]

-- No entry of the guarded policy is deeper than `secret`.
guarded_depth :
    (f : ResolvedFileSystemEntry)
    → Memᴰ f (resolved_entries_with_cwd world guarded dir)
    → starts_with key f.path ≡ true
    → length f.path ≤ 3
unfolding from_absolute_path absolutize resolved_entries_with_cwd resolve_entry_path
    absolute_root_path_for_cwd ancestors ancestors_within normalize_path normalize_step push parent
    resolve_file_system_path
guarded_depth f (Memᴰ.head p) h =
    omega (arith, ap (λ (x : ResolvedFileSystemEntry). length x.path) p)
guarded_depth f (Memᴰ.tail (Memᴰ.head p)) h =
    omega (arith, ap (λ (x : ResolvedFileSystemEntry). length x.path) p)
guarded_depth f (Memᴰ.tail (Memᴰ.tail (Memᴰ.head p))) h =
    omega (arith, ap (λ (x : ResolvedFileSystemEntry). length x.path) p)
guarded_depth f (Memᴰ.tail (Memᴰ.tail (Memᴰ.tail m))) h = elim m [ ]

-- `secret` decides over the working directory and the root.
secret_denied : resolve_access_with_cwd world guarded key dir ≡ FileSystemAccessMode.none
unfolding resolve_access_with_cwd resolve_candidate_path from_absolute_path absolutize access_among
    max_by_precedence resolved_entries_with_cwd resolve_entry_path absolute_root_path_for_cwd
    ancestors ancestors_within normalize_path normalize_step push parent starts_with component_eq
    max_from precedence_lt resolve_file_system_path
secret_denied = refl

-- The configuration of git is protected, though its directory is writable.
git_reported : forbidden_agent_metadata_write world git_config dir guarded ≡ some ".git"
unfolding forbidden_agent_metadata_write forbidden_in_target metadata_child_of_writable_root
    metadata_child_of_entry strip_prefix can_write_path_with_cwd
    has_explicit_write_entry_for_metadata_path is_metadata_write_denied is_target_write_denied
    metadata_path_name resolve_access_with_cwd resolve_candidate_path from_absolute_path absolutize
    access_among max_by_precedence resolved_entries_with_cwd resolve_entry_path
    absolute_root_path_for_cwd ancestors ancestors_within normalize_path normalize_step push parent
    starts_with component_eq absolutize_from join path_with_base resolve_path_against_base max_from
    precedence_lt resolve_file_system_path has_full_disk_write_access has_root_access string_eq
git_reported = refl

dir_readable : can_read_path_with_cwd world narrow dir dir ≡ true
unfolding can_read_path_with_cwd resolve_access_with_cwd resolve_candidate_path from_absolute_path
    absolutize access_among max_by_precedence resolved_entries_with_cwd resolve_entry_path
    normalize_path normalize_step push starts_with component_eq max_from resolve_file_system_path
dir_readable = refl

dir_fixed : from_absolute_path world dir ≡ some dir
dir_fixed = from_absolute_path_fixed world dir refl

other_dir_fixed : from_absolute_path world other_dir ≡ some other_dir
other_dir_fixed = from_absolute_path_fixed world other_dir refl

-- An absolute, normalized path is its own candidate.
pub key_candidate : resolve_candidate_path world key dir ≡ some key
key_candidate = resolve_candidate_path_fixed world key dir refl

git_candidate : resolve_candidate_path world git_config dir ≡ some git_config
git_candidate = resolve_candidate_path_fixed world git_config dir refl

resolve_access_with_cwd-Decides_example :
    ((e : ResolvedFileSystemEntry) × Decides (resolved_entries_with_cwd world guarded dir) key e
      × (resolve_access_with_cwd world guarded key dir ≡ e.access))
    ⊎ ((resolve_access_with_cwd world guarded key dir ≡ FileSystemAccessMode.none)
        × ((f : ResolvedFileSystemEntry)
            → Memᴰ f (resolved_entries_with_cwd world guarded dir)
            → starts_with key f.path ≡ false))
resolve_access_with_cwd-Decides_example =
    resolve_access_with_cwd-Decides world guarded key dir refl key_candidate

resolve_access_with_cwd-same_example :
    resolve_access_with_cwd world guarded key dir ≡ resolve_access_with_cwd world reordered key dir
resolve_access_with_cwd-same_example =
    resolve_access_with_cwd-same world guarded reordered key dir refl reordered-SameMembers

full_disk_write_access_example : can_write_path_with_cwd world overridden git_config dir ≡ true
unfolding file_system_paths_share_target has_full_disk_write_access has_root_access
    has_same_target_write_override has_write_narrowing_entries special_path_matches_absolute_path
    path_eq parent
full_disk_write_access_example =
    full_disk_write_access world overridden dir dir dir_fixed refl refl refl git_config refl
      git_candidate refl

full_disk_read_access_example : can_read_path_with_cwd world symbolic key dir ≡ true
unfolding has_full_disk_read_access has_root_access has_denied_read_restrictions
full_disk_read_access_example =
    full_disk_read_access world symbolic dir dir dir_fixed refl refl key refl key_candidate refl

forbidden_agent_metadata_write_lem_example : Reports world guarded git_config dir git_config
unfolding has_full_disk_write_access has_root_access
forbidden_agent_metadata_write_lem_example =
    forbidden_agent_metadata_write_lem world guarded git_config dir world-HasAbsoluteDir refl refl
      git_candidate

-- The entry over the configuration of git is the one for the working directory.
git_granted : resolve_access_with_cwd world guarded git_config dir ≡ write
unfolding resolve_access_with_cwd resolve_candidate_path from_absolute_path absolutize access_among
    max_by_precedence resolved_entries_with_cwd resolve_entry_path absolute_root_path_for_cwd
    ancestors ancestors_within normalize_path normalize_step push parent starts_with component_eq
    max_from precedence_lt resolve_file_system_path
git_granted = refl

forbidden_agent_metadata_write-can_write_example :
    is_some (forbidden_agent_metadata_write world git_config dir guarded)
    ≡ not (can_write_path_with_cwd world guarded git_config dir)
unfolding has_full_disk_write_access has_root_access
forbidden_agent_metadata_write-can_write_example =
    forbidden_agent_metadata_write-can_write world guarded git_config dir world-HasAbsoluteDir refl
      refl git_candidate git_granted

preserve_deny_read_restrictions_from-denies_example :
    can_read_path_with_cwd world
      (preserve_deny_read_restrictions_from unrestricted guarded)
      secret
      dir
    ≡ false
preserve_deny_read_restrictions_from-denies_example =
    preserve_deny_read_restrictions_from-denies world unrestricted guarded secret dir
      (λ e. ground (arith, e)) (Memᴰ.tail (Memᴰ.tail (Memᴰ.head refl))) refl

with_additional_readable_roots-keeps_example :
    resolve_access_with_cwd world
      (with_additional_readable_roots world narrow dir (other_dir ∷ []))
      dir
      dir
    ≡ resolve_access_with_cwd world narrow dir dir
with_additional_readable_roots-keeps_example =
    with_additional_readable_roots-keeps world dir narrow (other_dir ∷ []) dir refl refl refl
      dir_readable

materialize_project_roots_with_cwd_lem_example :
    (any
        (λ e. is_project_roots e.path)
        (materialize_project_roots_with_cwd world symbolic dir).entries
      ≡ false)
    × (resolve_access_with_cwd world
          (materialize_project_roots_with_cwd world symbolic dir)
          key
          other_dir
        ≡ resolve_access_with_cwd world symbolic key dir)
materialize_project_roots_with_cwd_lem_example =
    materialize_project_roots_with_cwd_lem world symbolic dir other_dir key dir_fixed
      other_dir_fixed refl refl refl

to_legacy-from_legacy_example :
    to_legacy_sandbox_policy world
      (from_legacy_sandbox_policy_for_cwd world legacy dir)
      (network_policy_from legacy)
      dir
    ≡ some legacy
unfolding from_absolute_path absolutize normalize_path normalize_step push path_eq
to_legacy-from_legacy_example = to_legacy-from_legacy world dir legacy refl
