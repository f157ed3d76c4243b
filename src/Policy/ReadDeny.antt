-- ===== src/Policy/ReadDeny.antt =====
-- `ReadDenyMatcher`: what a denied root, a denied pattern and a pattern that cannot be built do.
use mathlib.Core.List.{Memᴰ}
use mathlib.Core.Path.{subst}
use mathlib.Core.Option.{some-injective}
use rattler_sandbox.Prelude.{
  String, ◌≡◌, refl, sym, Bool, true, ◌||◌, not, Option, none, some, List, [], ◌∷◌, arith, any, map,
  contains, is_some, unwrap_or, filter_map, ◌>>=◌, ◌==◌, any_of_mem, mem-append_left,
  mem-filter_map, mem-map, Bool-cases, inl, inr,
}
use rattler_sandbox.World.{World}
use rattler_sandbox.Paths.Std.{PathBuf, path_eq, starts_with}
use rattler_sandbox.Paths.Absolute.{from_absolute_path}
use rattler_sandbox.Paths.Normal.{is_normalized}
use rattler_sandbox.Paths.Guarantees.{from_absolute_path_fixed}
use rattler_sandbox.Policy.Types.{FileSystemSandboxPolicy}
use rattler_sandbox.Policy.Grants.{has_denied_read_restrictions}
use rattler_sandbox.Policy.Roots.{get_unreadable_roots_with_cwd, get_unreadable_globs_with_cwd}
use rattler_sandbox.Policy.Matcher.{
  GlobSet, ReadDenyMatcher, push_unique, build_glob_matcher, normalized_and_canonical_candidates,
  new_matcher, is_read_denied,
}

push_unique-keeps : (ps : List PathBuf) (a b : PathBuf) → Memᴰ b ps → Memᴰ b (push_unique ps a)
unfolding push_unique
push_unique-keeps ps a b m = elim (Bool-cases (contains a ps)) [
  | inl h ↦ rw h m
  | inr h ↦ rw h (mem-append_left b ps (a ∷ []) m)
]

-- An absolute, normalized path is among its own candidates.
candidates-self :
    (w : World) (p : PathBuf)
    → is_normalized p ≡ true
    → Memᴰ p (normalized_and_canonical_candidates w p)
unfolding normalized_and_canonical_candidates
candidates-self w p h =
    subst
      (λ o. Memᴰ p (elim (w.canonicalize p >>= from_absolute_path w) [
        | none ↦ push_unique [] (unwrap_or o p)
        | some c ↦ push_unique (push_unique [] (unwrap_or o p)) c
      ]))
      (sym (from_absolute_path_fixed w p h))
      (by_canonical (w.canonicalize p >>= from_absolute_path w))
  where
    first : Memᴰ p (push_unique [] p)
    first = unfold push_unique in Memᴰ.head refl

    by_canonical :
        (o : Option PathBuf)
        → Memᴰ p (elim o [ none ↦ push_unique [] p | some c ↦ push_unique (push_unique [] p) c ])
    by_canonical none = first
    by_canonical (some c) = push_unique-keeps (push_unique [] p) c p first

module _ (g : GlobSet) (w : World) (policy : FileSystemSandboxPolicy) (cwd : PathBuf)
    (m : ReadDenyMatcher) (made : new_matcher g w policy cwd ≡ some m) where
  made-restricted : has_denied_read_restrictions policy ≡ true
  unfolding new_matcher
  made-restricted = elim (Bool-cases (has_denied_read_restrictions policy)) [
    | inl h ↦ h
    | inr h ↦ absurd (ground arith)
  ]

  made_lem : m ≡ record {
    denied_candidates =
        map (normalized_and_canonical_candidates w) (get_unreadable_roots_with_cwd w policy cwd);
    deny_read_matchers =
        filter_map (build_glob_matcher g) (get_unreadable_globs_with_cwd policy cwd);
    invalid_pattern =
        any
          (λ pattern. not (is_some (build_glob_matcher g pattern)))
          (get_unreadable_globs_with_cwd policy cwd);
  }
  unfolding new_matcher
  made_lem = sym (some-injective _ _ (rw made-restricted at made))

  -- A denied pattern that cannot be built makes the matcher of the policy deny every path.
  pub is_read_denied-invalid :
      (pattern : String) (p : PathBuf)
      → Memᴰ pattern (get_unreadable_globs_with_cwd policy cwd)
      → g.build pattern ≡ none
      → is_read_denied w m p ≡ true
  unfolding is_read_denied build_glob_matcher
  is_read_denied-invalid pattern p k h =
      rw
        (
          made_lem,
          any_of_mem (λ x. not (is_some (g.build x))) pattern
              (get_unreadable_globs_with_cwd policy cwd) k (rw h refl),
        )
        refl

  -- A path at or below a denied root is denied by the matcher of the policy. Both are absolute and
  -- normalized.
  pub is_read_denied-below :
      (root p : PathBuf)
      → Memᴰ root (get_unreadable_roots_with_cwd w policy cwd)
      → is_normalized root ≡ true
      → is_normalized p ≡ true
      → starts_with p root ≡ true
      → is_read_denied w m p ≡ true
  unfolding is_read_denied
  is_read_denied-below root p k hr hp c =
      rw
        (
          made_lem,
          any_of_mem denies (normalized_and_canonical_candidates w root) _
              (mem-map (normalized_and_canonical_candidates w) root _ k) by_self,
        )
        (ground arith)
    where
      denies : List PathBuf → Bool
      denies ds =
          any (λ x. any (λ d. x == d || starts_with x d) ds)
            (normalized_and_canonical_candidates w p)

      by_self : denies (normalized_and_canonical_candidates w root) ≡ true
      by_self =
          any_of_mem
            (λ x. any (λ d. x == d || starts_with x d) (normalized_and_canonical_candidates w root))
            p (normalized_and_canonical_candidates w p) (candidates-self w p hp)
            (any_of_mem (λ d. p == d || starts_with p d) root
              (normalized_and_canonical_candidates w root) (candidates-self w root hr)
              (ground (arith, c)))

  -- A path that a denied pattern matches is denied by the matcher of the policy. The path is absolute
  -- and normalized.
  pub is_read_denied-matched :
      (pattern : String) (matcher : PathBuf → Bool) (p : PathBuf)
      → Memᴰ pattern (get_unreadable_globs_with_cwd policy cwd)
      → g.build pattern ≡ some matcher
      → is_normalized p ≡ true
      → matcher p ≡ true
      → is_read_denied w m p ≡ true
  unfolding is_read_denied build_glob_matcher
  is_read_denied-matched pattern matcher p k h hp c =
      rw
        (
          made_lem,
          any_of_mem (λ f. any f (normalized_and_canonical_candidates w p)) matcher
              (filter_map (build_glob_matcher g) (get_unreadable_globs_with_cwd policy cwd))
              (mem-filter_map (build_glob_matcher g) pattern matcher _ k h)
              (any_of_mem matcher p _ (candidates-self w p hp) c),
        )
        (ground arith)
