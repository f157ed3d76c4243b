-- ===== src/Policy/Matcher.antt =====
-- policy.rs: `ReadDenyMatcher`. The `globset` crate is a parameter: what building a pattern with
-- its two options gives, and the matcher that comes of it.
use rattler_sandbox.Prelude.{
  String, Bool, true, ◌||◌, not, Option, none, some, List, [], ◌∷◌, ◌++◌, if◌then◌else◌, ◌==◌, any,
  map, filter_map, contains, is_some, unwrap_or, ◌>>=◌,
}
use rattler_sandbox.World.{World}
use rattler_sandbox.Paths.Std.{PathBuf, path_eq, starts_with}
use rattler_sandbox.Paths.Absolute.{from_absolute_path}
use rattler_sandbox.Policy.Types.{FileSystemSandboxPolicy}
use rattler_sandbox.Policy.Grants.{has_denied_read_restrictions}
use rattler_sandbox.Policy.Roots.{get_unreadable_roots_with_cwd, get_unreadable_globs_with_cwd}

-- `GlobBuilder::new(pattern).literal_separator(true).allow_unclosed_class(true).build()`, and
-- `is_match` of the compiled matcher.
pub record GlobSet : Type 0 where
  pub build : String → Option (PathBuf → Bool)

pub record ReadDenyMatcher : Type 0 where
  pub denied_candidates : List (List PathBuf)
  pub deny_read_matchers : List (PathBuf → Bool)
  pub invalid_pattern : Bool

unfoldable pub push_unique : List PathBuf → PathBuf → List PathBuf
push_unique candidates candidate =
    if contains candidate candidates then candidates else candidates ++ candidate ∷ []

unfoldable pub build_glob_matcher : GlobSet → String → Option (PathBuf → Bool)
build_glob_matcher g pattern = g.build pattern

unfoldable pub normalized_and_canonical_candidates : World → PathBuf → List PathBuf
normalized_and_canonical_candidates w p =
    let candidates = push_unique [] (unwrap_or (from_absolute_path w p) p) in
    elim (w.canonicalize p >>= from_absolute_path w) [
      | none ↦ candidates
      | some canonical_absolute ↦ push_unique candidates canonical_absolute
    ]

module _ (g : GlobSet) (w : World) where
  -- `ReadDenyMatcher::new`
  unfoldable pub new_matcher : FileSystemSandboxPolicy → PathBuf → Option ReadDenyMatcher
  new_matcher policy cwd =
      if has_denied_read_restrictions policy
      then some (record {
        denied_candidates =
            map (normalized_and_canonical_candidates w)
              (get_unreadable_roots_with_cwd w policy cwd);
        deny_read_matchers =
            filter_map (build_glob_matcher g) (get_unreadable_globs_with_cwd policy cwd);
        invalid_pattern =
            any (λ pattern. not (is_some (build_glob_matcher g pattern)))
              (get_unreadable_globs_with_cwd policy cwd);
      })
      else none

unfoldable pub is_read_denied : World → ReadDenyMatcher → PathBuf → Bool
is_read_denied w m p =
    let path_candidates = normalized_and_canonical_candidates w p in
    if m.invalid_pattern
    then true
    else if any
        (λ denied_candidates.
          any
            (λ candidate.
              any
                (λ denied_candidate.
                  candidate == denied_candidate || starts_with candidate denied_candidate)
                denied_candidates)
            path_candidates)
        m.denied_candidates
    then true
    else any (λ matcher. any matcher path_candidates) m.deny_read_matchers
