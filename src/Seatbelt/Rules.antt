-- ===== src/Seatbelt/Rules.antt =====
-- seatbelt.rs: the filters that `build_seatbelt_access_policy` writes.
use rattler_sandbox.Prelude.{
  String, ℕ, ◌+◌, Bool, true, false, ◌&&◌, List, [], ◌∷◌, ◌++◌, map, ◌≡◌, refl, ap, if◌then◌else◌,
  string_eq, is_empty,
}
use mathlib.Core.List.{map-map}
use rattler_sandbox.World.{World}
use rattler_sandbox.Paths.Std.{path_eq}
use rattler_sandbox.Paths.Absolute.{AbsolutePathBuf}
use rattler_sandbox.Seatbelt.Texts.{Profile, join_texts, concat_texts}
use rattler_sandbox.Seatbelt.Access.{
  SeatbeltAccessRoot, sandbox_path, metadata_regex, all_excluded_parts, policy_component,
  root_param, excluded_param, policy_components, require_not_text, regex_text,
}
use rattler_sandbox.Seatbelt.Filters.{
  Filter, subpath, literal, regex, require_not, Rule, single, require_all, filter_text, rule_text,
}

pub map-append {ℓ κ} :
    {A : Type ℓ} {B : Type κ} (f : A → B) (xs ys : List A) → map f (xs ++ ys) ≡ map f xs ++ map f ys
map-append f [] ys = refl
map-append f (x ∷ xs) ys = ap (λ (l : List _). f x ∷ l) (map-append f xs ys)

-- The filters of a rule, as the loop makes them.
unfoldable pub excluded_filters : String → ℕ → ℕ → List AbsolutePathBuf → List Filter
excluded_filters prefix i j [] = []
excluded_filters prefix i j (e ∷ rest) =
    require_not (literal (excluded_param prefix i j))
    ∷ require_not (subpath (excluded_param prefix i j))
    ∷ excluded_filters prefix i (j + 1) rest

module _ (w : World) (profile : Profile) where
  excluded_filters-text :
      (prefix : String) (i j : ℕ) (excluded : List AbsolutePathBuf)
      → all_excluded_parts w profile prefix i j excluded
        ≡ map filter_text (excluded_filters prefix i j excluded)
  unfolding all_excluded_parts excluded_filters
  excluded_filters-text prefix i j [] = refl
  excluded_filters-text prefix i j (e ∷ rest) =
      rw (excluded_filters-text prefix i (j + 1) rest) refl

  unfoldable pub metadata_filter : SeatbeltAccessRoot → String → Filter
  metadata_filter r name =
      require_not (regex (metadata_regex w profile (sandbox_path w profile r.root) name))

  unfoldable pub all_filters : String → ℕ → SeatbeltAccessRoot → List Filter
  all_filters prefix i r =
      subpath (root_param prefix i) ∷ excluded_filters prefix i 0 r.excluded_subpaths
      ++ map (metadata_filter r) r.protected_metadata_names

  unfoldable pub rule_of : String → ℕ → SeatbeltAccessRoot → Rule
  rule_of prefix i r =
      if is_empty r.excluded_subpaths && is_empty r.protected_metadata_names
      then single (subpath (root_param prefix i))
      else require_all (all_filters prefix i r)

  unfoldable pub rules_of : String → ℕ → List SeatbeltAccessRoot → List Rule
  rules_of prefix i [] = []
  rules_of prefix i (r ∷ roots) = rule_of prefix i r ∷ rules_of prefix (i + 1) roots

  rule_of-text :
      (prefix : String) (i : ℕ) (r : SeatbeltAccessRoot)
      → policy_component w profile prefix i r ≡ rule_text (rule_of prefix i r)
  unfolding policy_component rule_of all_filters metadata_filter
  rule_of-text prefix i r =
      by_test (is_empty r.excluded_subpaths && is_empty r.protected_metadata_names)
    where
      parts : List String
      parts =
          all_excluded_parts w profile prefix i 0 r.excluded_subpaths
          ++ map
              (λ name.
                require_not_text
                  (regex_text (metadata_regex w profile (sandbox_path w profile r.root) name)))
              r.protected_metadata_names

      parts_text :
          parts
          ≡ map filter_text (
              excluded_filters prefix i 0 r.excluded_subpaths
              ++ map (metadata_filter r) r.protected_metadata_names)
      parts_text = rw map-append (
          rw (excluded_filters-text prefix i 0 r.excluded_subpaths)
            (rw (map-map filter_text (metadata_filter r) r.protected_metadata_names) refl))

      by_test :
          (b : Bool)
          → (if b
              then filter_text (subpath (root_param prefix i))
              else concat_texts (
                  "(require-all "
                  ∷ join_texts " " (filter_text (subpath (root_param prefix i)) ∷ parts)
                  ∷ " )"
                  ∷ []))
            ≡ rule_text (
                if b
                then single (subpath (root_param prefix i))
                else require_all (all_filters prefix i r))
      by_test true = refl
      by_test false =
          ap
            (λ (l : List String). concat_texts (
              "(require-all "
              ∷ join_texts " " (filter_text (subpath (root_param prefix i)) ∷ l)
              ∷ " )"
              ∷ []))
            parts_text

  pub rules_of-text :
      (prefix : String) (i : ℕ) (roots : List SeatbeltAccessRoot)
      → policy_components w profile prefix i roots ≡ map rule_text (rules_of prefix i roots)
  unfolding policy_components rules_of
  rules_of-text prefix i [] = refl
  rules_of-text prefix i (r ∷ roots) =
      rw (rule_of-text prefix i r) (rw (rules_of-text prefix (i + 1) roots) refl)
