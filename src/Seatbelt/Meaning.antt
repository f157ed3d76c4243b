-- ===== src/Seatbelt/Meaning.antt =====
-- seatbelt.rs: the text of `build_seatbelt_access_policy` says what its roots are to open.
use rattler_sandbox.Prelude.{
  String, ℕ, ◌+◌, Bool, true, not, ◌&&◌, some, List, [], ◌∷◌, ◌++◌, map, ◌≡◌, inl, inr, refl, sym,
  ap, ◌∙◌, any, all, if_intro, ◌==◌, string_eq, ==-eq, is_empty, arith, Bool-cases, mem-append_left,
  mem-append_right,
}
use mathlib.Core.List.{Memᴰ}
use rattler_sandbox.World.{World}
use rattler_sandbox.Paths.Std.{PathBuf, path_eq, starts_with}
use rattler_sandbox.Paths.Absolute.{AbsolutePathBuf}
use rattler_sandbox.Seatbelt.Texts.{Profile, join_texts, concat_texts}
use rattler_sandbox.Seatbelt.Access.{
  SeatbeltAccessRoot, Params, sandbox_path, policy_components, build_seatbelt_access_policy,
}
use rattler_sandbox.Seatbelt.Filters.{
  Rule, allow_text, param_value, matches, applies, opens, is_protected,
}
use rattler_sandbox.Seatbelt.Keys.{Key, root_key, excluded_key, key_text}
use rattler_sandbox.Paths.Prefix.{starts_with_refl}
use rattler_sandbox.Seatbelt.Rules.{
  excluded_filters, metadata_filter, all_filters, rule_of, rules_of, rules_of-text,
}
use rattler_sandbox.Seatbelt.Values.{Entry, keyed_excluded, keyed, param_value-access_params}

all-append {ℓ} :
    {A : Type ℓ} (f : A → Bool) (xs ys : List A) → all f (xs ++ ys) ≡ (all f xs && all f ys)
all-append f [] ys = refl
all-append f (x ∷ xs) ys = ground (arith, all-append f xs ys)

-- To forbid a path and all under it says no more than the latter.
same_or_under :
    (path value : PathBuf) (rest : Bool)
    → (not (path == value) && (not (starts_with path value) && rest))
      ≡ (not (starts_with path value) && rest)
same_or_under path value rest = elim (Bool-cases (path == value)) [
  | inl e ↦
      let e' =
        ap (λ (p : PathBuf). starts_with path p) (sym (==-eq path value e))
        ∙ starts_with_refl path in
      rw e (rw e' refl)
  | inr e ↦ rw e refl
]

module _ (w : World) (profile : Profile) (regex_match : String → String → Bool) (prefix : String)
    (params : Params) (path : PathBuf) where
  abbrev Has : List Entry → Type 0
  Has xs =
      (k : Key) (v : PathBuf) → Memᴰ (k, v) xs → param_value (key_text prefix k) params ≡ some v

  excluded_filters-matches :
      (i j : ℕ) (es : List AbsolutePathBuf)
      → Has (keyed_excluded w profile i j es)
      → all (matches regex_match params path) (excluded_filters prefix i j es)
        ≡ not (any (λ e. starts_with path (sandbox_path w profile e)) es)
  unfolding excluded_filters keyed_excluded
  excluded_filters-matches i j [] h = refl
  excluded_filters-matches i j (e ∷ rest) h =
      rw (h (excluded_key i j) (sandbox_path w profile e) (Memᴰ.head refl)) (
        rw (excluded_filters-matches i (j + 1) rest (λ k v m. h k v (Memᴰ.tail m)))
          (same_or_under path (sandbox_path w profile e) _ ∙ ground arith))

  metadata_filters-matches :
      (r : SeatbeltAccessRoot) (names : List String)
      → all (matches regex_match params path) (map (metadata_filter w profile r) names)
        ≡ not (any (is_protected w profile regex_match path r) names)
  unfolding metadata_filter
  metadata_filters-matches r [] = refl
  metadata_filters-matches r (name ∷ names) = ground (arith, metadata_filters-matches r names)

  all_filters-matches :
      (i : ℕ) (r : SeatbeltAccessRoot) (roots : List SeatbeltAccessRoot)
      → Has (keyed w profile i (r ∷ roots))
      → all (matches regex_match params path) (all_filters w profile prefix i r)
        ≡ opens w profile regex_match path r
  unfolding all_filters opens keyed
  all_filters-matches i r roots h =
      rw (h (root_key i) (sandbox_path w profile r.root) (Memᴰ.head refl)) (
        ap (λ (b : Bool). starts_with path (sandbox_path w profile r.root) && b)
          (all-append (matches regex_match params path)
              (excluded_filters prefix i 0 r.excluded_subpaths) _
            ∙ rw
                (excluded_filters-matches i 0 r.excluded_subpaths
                  (λ k v m. h k v (Memᴰ.tail (mem-append_left (k, v) _ _ m))))
                (rw (metadata_filters-matches r r.protected_metadata_names) refl)))

  rule_of-applies :
      (i : ℕ) (r : SeatbeltAccessRoot) (roots : List SeatbeltAccessRoot)
      → Has (keyed w profile i (r ∷ roots))
      → applies regex_match params path (rule_of w profile prefix i r)
        ≡ opens w profile regex_match path r
  unfolding rule_of opens keyed
  rule_of-applies i r roots h =
      if_intro
        (λ (x : Rule). applies regex_match params path x ≡ opens w profile regex_match path r)
        (is_empty r.excluded_subpaths && is_empty r.protected_metadata_names)
        (λ plain.
          rw (h (root_key i) (sandbox_path w profile r.root) (Memᴰ.head refl))
            (sym (open_all r.excluded_subpaths r.protected_metadata_names _ _ _ plain)))
        (λ _. all_filters-matches i r roots h)
    where
      open_all :
          (es : List AbsolutePathBuf) (names : List String) (b : Bool) (f : AbsolutePathBuf → Bool)
          (g : String → Bool)
          → (is_empty es && is_empty names) ≡ true
          → (b && (not (any f es) && not (any g names))) ≡ b
      open_all [] [] b f g h = ground arith
      open_all [] (n ∷ names) b f g h = absurd (cc h)
      open_all (e ∷ es) names b f g h = absurd (cc h)

  rules_of-applies :
      (i : ℕ) (roots : List SeatbeltAccessRoot)
      → Has (keyed w profile i roots)
      → any (applies regex_match params path) (rules_of w profile prefix i roots)
        ≡ any (opens w profile regex_match path) roots
  unfolding rules_of keyed
  rules_of-applies i [] h = refl
  rules_of-applies i (r ∷ roots) h = rw (rule_of-applies i r roots h) (
      rw
        (rules_of-applies (i + 1) roots (λ k v m. h k v (
          Memᴰ.tail
            (mem-append_right (k, v) (keyed_excluded w profile i 0 r.excluded_subpaths) _ m))))
        refl)

-- What has a value among the parameters has the same value among more of them.
abbrev pub IsWithin : Params → Params → Type 0
IsWithin few params =
    (key : String) (v : PathBuf) → param_value key few ≡ some v → param_value key params ≡ some v

module _ (w : World) (profile : Profile) where
  -- The text for an action and its roots is the print of rules, or nothing where there is no root.
  -- With the parameters that come with it, alone or among others that keep their values, and
  -- whatever engine matches the regexes, these rules allow a path exactly when one of the roots is
  -- to open it: it lies under the root, it does not lie at or under an excluded path, and no regex
  -- of a protected name matches it.
  pub build_seatbelt_access_policy_lem :
      (action param_prefix : String) (roots : List SeatbeltAccessRoot) (params : Params)
      (regex_match : String → String → Bool) (path : PathBuf)
      → IsWithin (build_seatbelt_access_policy w profile action param_prefix roots).1 params
      → ((build_seatbelt_access_policy w profile action param_prefix roots).0
          ≡ allow_text action (rules_of w profile param_prefix 0 roots))
        × (any (applies regex_match params path) (rules_of w profile param_prefix 0 roots)
            ≡ any (opens w profile regex_match path) roots)
  unfolding build_seatbelt_access_policy rules_of policy_components
  build_seatbelt_access_policy_lem action prefix [] params regex_match path within = (refl, refl)
  build_seatbelt_access_policy_lem action prefix (r ∷ roots) params regex_match path within = (
    ap
        (λ (texts : List String).
          concat_texts ("(allow " ∷ action ∷ "\n" ∷ join_texts " " texts ∷ "\n)" ∷ []))
        (rules_of-text w profile prefix 0 (r ∷ roots)),
    rules_of-applies w profile regex_match prefix params path 0 (r ∷ roots) (λ k v m.
        within (key_text prefix k) v
          (param_value-access_params w profile prefix 0 (r ∷ roots) k v m)),
  )
