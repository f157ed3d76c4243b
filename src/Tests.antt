-- ===== src/Tests.antt =====
-- A concrete world and concrete policies; the children run the code on them.
pub mod Boundaries
pub mod Roots
pub mod Requests
pub mod Frames
pub mod Policies
pub mod Linux
pub mod Helper
pub mod Seatbelt
pub mod Routing
use mathlib.Core.Path.{subst}
use mathlib.Core.Option.{some-injective}
use mathlib.Core.List.{Memᴰ}
use rattler_sandbox.Prelude.{
  length, ◌≤◌, ap, string_discrete, String, ◌≡◌, ◌≢◌, ◌⊎◌, inl, inr, ◌↔◌, refl, Bool, true, false,
  not, ◌||◌, Option, none, some, List, [], ◌∷◌, ◌++◌, ◌>>=◌, ◌==◌, string_eq, any, lookup, Env,
  contains, map, if◌then◌else◌, unwrap_or, all, arith, SameMembers,
}
use rattler_sandbox.World.{World}
use rattler_sandbox.Paths.Std.{
  PathBuf, path_eq, component_eq, Component-discrete, PathBuf-discrete, ancestors, ancestors_within,
  push, pop, parent, strip_prefix, normal, root_dir, parent_dir, starts_with, is_absolute,
}
use rattler_sandbox.Paths.Absolute.{
  AbsolutePathBuf, absolutize, absolutize_from, normalize_path, normalize_step, path_with_base,
  from_absolute_path, from_absolute_path_checked, resolve_path_against_base, join,
}
use rattler_sandbox.Paths.Canonical.{canonicalize_preserving_symlinks, should_preserve_logical_path}
use rattler_sandbox.Paths.Normal.{is_normalized}
use rattler_sandbox.Paths.Guarantees.{
  HasAbsoluteDir, resolve_path_against_base-normalized, from_absolute_path-normalized,
  from_absolute_path_fixed, from_absolute_path_checked_lem, starts_with-join,
  canonicalize_preserving_symlinks_lem,
}
use rattler_sandbox.Policy.Types.{
  subpath_discrete, subpath_eq, NetworkAccess, NetworkSandboxPolicy, FileSystemAccessMode, read,
  write, FileSystemSpecialPath, root, project_roots, slash_tmp, FileSystemPath, path, glob_pattern,
  special, FileSystemSandboxKind, FileSystemSandboxEntry, FileSystemSandboxPolicy,
  ResolvedFileSystemEntry, SandboxPolicy, workspace_write, PermissionProfile, WindowsSandboxLevel,
}
use rattler_sandbox.Policy.Grants.{
  restricted, unrestricted, has_full_disk_read_access, has_denied_read_restrictions,
  file_system_paths_share_target, has_full_disk_write_access, has_root_access,
  has_same_target_write_override, has_write_narrowing_entries, special_path_matches_absolute_path,
  special_paths_share_target,
}
use rattler_sandbox.Policy.Resolve.{
  slash_tmp_path, access_among, max_by_precedence, resolve_entry_path, max_from, precedence_lt,
  resolve_file_system_path, resolve_file_system_special_path, resolve_tmpdir,
  absolute_root_path_for_cwd, resolved_entries_with_cwd, resolve_candidate_path,
  resolve_access_with_cwd, can_read_path_with_cwd,
}
use rattler_sandbox.Policy.Metadata.{
  forbidden_agent_metadata_write, forbidden_in_target, metadata_child_of_writable_root,
  metadata_child_of_entry, can_write_path_with_cwd, has_explicit_write_entry_for_metadata_path,
  is_metadata_write_denied, is_target_write_denied, metadata_path_name,
}
use rattler_sandbox.Policy.Dedup.{normalize_effective_absolute_path, dedup_absolute_paths}
use rattler_sandbox.Policy.Build.{
  policy_from, workspace_write_policy, root_entry, write_entry, network_policy_from,
  from_legacy_sandbox_policy_for_cwd, from_legacy_sandbox_policy_preserving_deny_entries,
  preserve_deny_read_restrictions_from, materialize_project_roots_with_cwd,
  with_additional_readable_roots, add_readable_root,
}
use rattler_sandbox.Policy.Bridge.{to_legacy_sandbox_policy}
use rattler_sandbox.Policy.WellFormed.{absolute_root_path_for_cwd_lem}
use rattler_sandbox.Policy.FullDisk.{full_disk_write_access, full_disk_read_access}
use rattler_sandbox.Policy.Deny.{
  resolve_candidate_path_fixed, deny_wins, preserve_deny_read_restrictions_from-denies,
  from_legacy_preserving-denies,
}
use rattler_sandbox.Policy.Extend.{with_additional_readable_roots-keeps, add_readable_root_self}
use rattler_sandbox.Policy.Materialize.{is_project_roots, materialize_project_roots_with_cwd_lem}
use rattler_sandbox.Policy.Distinct.{is_distinct, dedup_absolute_paths_lem}
use rattler_sandbox.Policy.RoundTrip.{to_legacy-from_legacy}

-- A world whose only directory is `/tmp`, in which no path can be made canonical.
abbrev pub world : World
world = record {
  current_dir = some (root_dir ∷ normal "w" ∷ []);
  tmpdir = none;
  is_dir = λ p. p == slash_tmp_path;
  is_file = λ p. false;
  exists = λ p. false;
  symlink_metadata = λ p. none;
  canonicalize = λ p. none;
  dunce_canonicalize = λ p. none;
  read_to_string = λ p. none;
}

pub world-HasAbsoluteDir : HasAbsoluteDir world
world-HasAbsoluteDir dir h = subst (λ p. is_absolute p ≡ true) (some-injective _ _ h) refl

abbrev pub dir : PathBuf
dir = root_dir ∷ normal "w" ∷ []

abbrev pub other_dir : PathBuf
other_dir = root_dir ∷ normal "elsewhere" ∷ []

abbrev pub secret : PathBuf
secret = root_dir ∷ normal "w" ∷ normal "secret" ∷ []

abbrev pub key : PathBuf
key = root_dir ∷ normal "w" ∷ normal "secret" ∷ normal "key" ∷ []

abbrev pub git_config : PathBuf
git_config = root_dir ∷ normal "w" ∷ normal ".git" ∷ normal "config" ∷ []

abbrev pub secret_entry : FileSystemSandboxEntry
secret_entry = record { path = path secret; access = FileSystemAccessMode.none }

-- The disk is readable, the working directory writable, and `secret` in it denied.
abbrev pub guarded : FileSystemSandboxPolicy
guarded = restricted (root_entry ∷ write_entry dir ∷ secret_entry ∷ [])

abbrev pub reordered : FileSystemSandboxPolicy
reordered = restricted (secret_entry ∷ root_entry ∷ write_entry dir ∷ [])

-- The whole disk is writable: the `read` entry is overridden at its own place.
abbrev pub overridden : FileSystemSandboxPolicy
overridden = restricted (
    record { path = special root; access = write }
    ∷ record { path = path dir; access = read }
    ∷ write_entry dir
    ∷ [])

abbrev pub symbolic : FileSystemSandboxPolicy
symbolic =
    restricted (root_entry ∷ record { path = special (project_roots none); access = write } ∷ [])

-- Only the working directory can be read.
abbrev pub narrow : FileSystemSandboxPolicy
narrow = restricted (write_entry dir ∷ [])

abbrev pub legacy : SandboxPolicy
legacy = workspace_write (other_dir ∷ secret ∷ []) true false true
