-- ===== src/Tests/Boundaries.antt =====
-- Paths and the deny matcher at concrete inputs.
use rattler_sandbox.Policy.Dedup.{
  normalize_effective_absolute_path, dedup_seen, first_normalized, normalized_by_ancestor,
  dedup_absolute_paths,
}
use mathlib.Core.List.{Memᴰ}
use rattler_sandbox.Prelude.{
  insert_sorted, String, ◌≡◌, refl, true, false, none, some, [], ◌∷◌, ◌==◌, string_eq,
  if◌then◌else◌, unwrap_or, sort, dedup,
}
use rattler_sandbox.Paths.Std.{
  path_eq, PathBuf, normal, root_dir, parent_dir, starts_with, joined, components, pop, push,
  split_slash, path_text, parent, pieces_components, leading_components, component_eq,
  ancestors_within, ancestors,
}
use rattler_sandbox.Paths.Absolute.{
  from_absolute_path, resolve_path_against_base, normalize_path, normalize_step, absolutize_from,
  absolutize, path_with_base,
}
use rattler_sandbox.Paths.Normal.{is_normalized}
use rattler_sandbox.Paths.Guarantees.{from_absolute_path-normalized}
use rattler_sandbox.Policy.Types.{
  FileSystemAccessMode, glob_pattern, FileSystemSandboxPolicy, subpath_eq,
}
use rattler_sandbox.Policy.Grants.{restricted, has_denied_read_restrictions}
use rattler_sandbox.Policy.Resolve.{
  absolute_root_path_for_cwd, resolve_access_with_cwd, resolve_candidate_path, max_from,
  precedence_lt, resolve_file_system_path, resolve_entry_path, access_among, can_read_path_with_cwd,
  resolved_entries_with_cwd, max_by_precedence,
}
use rattler_sandbox.Policy.Matcher.{GlobSet, ReadDenyMatcher, is_read_denied, new_matcher}
use rattler_sandbox.Policy.ReadDeny.{is_read_denied-below}
use rattler_sandbox.Policy.Roots.{
  get_unreadable_roots_with_cwd, get_unreadable_globs_with_cwd, is_root_of,
}
use rattler_sandbox.Policy.Build.{root_entry}
use rattler_sandbox.Tests.{world, world-HasAbsoluteDir, dir, secret, key, guarded}

-- `..` is resolved before the path is relative to anything.
abbrev dotted : PathBuf
dotted = normal "a" ∷ parent_dir ∷ normal "b" ∷ []

from_absolute_path-normalized_example :
    is_normalized (root_dir ∷ normal "w" ∷ normal "b" ∷ []) ≡ true
unfolding from_absolute_path absolutize absolutize_from normalize_path path_with_base push
    normalize_step pop parent
from_absolute_path-normalized_example =
    from_absolute_path-normalized world dotted (root_dir ∷ normal "w" ∷ normal "b" ∷ [])
      world-HasAbsoluteDir refl

-- A pattern language with one pattern, for `key`.
abbrev globs : GlobSet
globs = record {
  build = λ pattern. if pattern == "/w/secret/key" then some (λ p. p == key) else none;
}

abbrev matcher_of : FileSystemSandboxPolicy → ReadDenyMatcher
matcher_of policy =
    unwrap_or (new_matcher globs world policy dir)
      (record { denied_candidates = []; deny_read_matchers = []; invalid_pattern = false })

abbrev with_pattern : String → FileSystemSandboxPolicy
with_pattern pattern =
    restricted
      (root_entry ∷ record { path = glob_pattern pattern; access = FileSystemAccessMode.none } ∷ [])

below_made : new_matcher globs world guarded dir ≡ some (matcher_of guarded)
unfolding new_matcher has_denied_read_restrictions
below_made = refl

below_listed : Memᴰ secret (get_unreadable_roots_with_cwd world guarded dir)
unfolding get_unreadable_roots_with_cwd dedup_absolute_paths dedup_seen resolved_entries_with_cwd
    resolve_entry_path from_absolute_path absolutize absolute_root_path_for_cwd ancestors
    ancestors_within normalize_path normalize_step push parent resolve_file_system_path
    can_read_path_with_cwd resolve_access_with_cwd path_eq starts_with first_normalized
    normalize_effective_absolute_path normalized_by_ancestor access_among max_by_precedence max_from
    precedence_lt resolve_candidate_path is_root_of
below_listed = Memᴰ.head refl

is_read_denied-below_example : is_read_denied world (matcher_of guarded) key ≡ true
unfolding starts_with component_eq
is_read_denied-below_example =
    is_read_denied-below globs world guarded dir (matcher_of guarded) below_made secret key
      below_listed refl refl refl

matched_made :
    new_matcher globs world (with_pattern "secret/key") dir
    ≡ some (matcher_of (with_pattern "secret/key"))
unfolding new_matcher has_denied_read_restrictions
matched_made = refl

matched_listed :
    Memᴰ "/w/secret/key" (get_unreadable_globs_with_cwd (with_pattern "secret/key") dir)
unfolding get_unreadable_globs_with_cwd dedup sort insert_sorted path_text resolve_path_against_base
    absolutize_from normalize_path path_with_base components leading_components split_slash
    string_eq pieces_components push normalize_step joined
matched_listed = Memᴰ.head refl

invalid_made :
    new_matcher globs world (with_pattern "secret/{") dir
    ≡ some (matcher_of (with_pattern "secret/{"))
unfolding new_matcher has_denied_read_restrictions
invalid_made = refl

invalid_listed : Memᴰ "/w/secret/{" (get_unreadable_globs_with_cwd (with_pattern "secret/{") dir)
unfolding get_unreadable_globs_with_cwd dedup sort insert_sorted path_text resolve_path_against_base
    absolutize_from normalize_path path_with_base components leading_components split_slash
    string_eq pieces_components push normalize_step joined
invalid_listed = Memᴰ.head refl
