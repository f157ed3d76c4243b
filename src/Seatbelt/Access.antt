-- ===== src/Seatbelt/Access.antt =====
-- seatbelt.rs: the rules that open directories, with the parameters they name.
use Prim.Native.String.{count}
use rattler_sandbox.Prelude.{
  String, ◌<>◌, ℕ, zero, suc, ltb, ◌+◌, not, ◌&&◌, List, [], ◌∷◌, ◌++◌, map, if◌then◌else◌, ◌==◌,
  string_eq, any, is_empty, unwrap_or, number_text, ends_with_char, pop_char,
}
use mathlib.Core.List.{foldl}
use rattler_sandbox.World.{World}
use rattler_sandbox.Paths.Std.{PathBuf, normal, path_text}
use rattler_sandbox.Paths.Absolute.{AbsolutePathBuf, join}
use rattler_sandbox.Policy.Types.{FileSystemSandboxPolicy, WritableRoot}
use rattler_sandbox.Policy.Metadata.{protected_metadata_path_names, can_write_path_with_cwd}
use rattler_sandbox.Seatbelt.Texts.{Profile, join_texts, concat_texts, escape_quotes}
use rattler_sandbox.Seatbelt.Inputs.{normalize_path_for_sandbox}

pub record SeatbeltAccessRoot : Type 0 where
  pub root : AbsolutePathBuf
  pub excluded_subpaths : List AbsolutePathBuf
  pub protected_metadata_names : List String

abbrev pub Params : Type 0
Params = List (String × PathBuf)

abbrev pub root_param : String → ℕ → String
root_param param_prefix index = param_prefix <> ("_" <> number_text index)

abbrev pub excluded_param : String → ℕ → ℕ → String
excluded_param param_prefix index excluded_index =
    param_prefix <> ("_" <> (number_text index <> ("_EXCLUDED_" <> number_text excluded_index)))

abbrev pub subpath_text : String → String
subpath_text param = "(subpath (param \"" <> (param <> "\"))")

abbrev pub literal_text : String → String
literal_text param = "(literal (param \"" <> (param <> "\"))")

abbrev pub regex_text : String → String
regex_text regex = "(regex #\"" <> (regex <> "\")")

abbrev pub require_not_text : String → String
require_not_text filter = "(require-not " <> (filter <> ")")

-- The loop that takes slashes off the end, but not the only character. Each round takes one, so
-- the number of characters is fuel enough.
unfoldable pub pop_slashes : ℕ → String → String
pop_slashes zero root = root
pop_slashes (suc fuel) root =
    let rest = pop_slashes fuel (pop_char root) in
    if ltb 1 (count root) && ends_with_char b'/' root then rest else root

module _ (profile : Profile) where
  unfoldable pub seatbelt_protected_metadata_name_regex : AbsolutePathBuf → String → String
  seatbelt_protected_metadata_name_regex root name =
      let text = path_text root in
      let root_text = profile.escape (pop_slashes (count text) text) in
      let name_text = profile.escape name in
      if root_text == "/"
      then "^/" <> (name_text <> "(/.*)?$")
      else "^" <> (root_text <> ("/" <> (name_text <> "(/.*)?$")))

module _ (w : World) (profile : Profile) where
  abbrev pub sandbox_path : AbsolutePathBuf → AbsolutePathBuf
  sandbox_path path = unwrap_or (normalize_path_for_sandbox w path) path

  -- The parts for one excluded path, and those for all of them.
  abbrev pub excluded_parts : String → List String
  excluded_parts param =
      require_not_text (literal_text param) ∷ require_not_text (subpath_text param) ∷ []

  unfoldable pub all_excluded_parts : String → ℕ → ℕ → List AbsolutePathBuf → List String
  all_excluded_parts param_prefix index excluded_index [] = []
  all_excluded_parts param_prefix index excluded_index (excluded_subpath ∷ rest) =
      excluded_parts (excluded_param param_prefix index excluded_index)
      ++ all_excluded_parts param_prefix index (excluded_index + 1) rest

  unfoldable pub excluded_params : String → ℕ → ℕ → List AbsolutePathBuf → Params
  excluded_params param_prefix index excluded_index [] = []
  excluded_params param_prefix index excluded_index (excluded_subpath ∷ rest) =
      (excluded_param param_prefix index excluded_index, sandbox_path excluded_subpath)
      ∷ excluded_params param_prefix index (excluded_index + 1) rest

  abbrev pub metadata_regex : AbsolutePathBuf → String → String
  metadata_regex root metadata_name =
      escape_quotes (seatbelt_protected_metadata_name_regex profile root metadata_name)

  unfoldable pub policy_component : String → ℕ → SeatbeltAccessRoot → String
  policy_component param_prefix index access_root =
      let root = sandbox_path access_root.root in
      let opened = subpath_text (root_param param_prefix index) in
      if is_empty access_root.excluded_subpaths && is_empty access_root.protected_metadata_names
      then opened
      else concat_texts (
          "(require-all "
          ∷ join_texts " " (
              opened ∷ all_excluded_parts param_prefix index 0 access_root.excluded_subpaths
              ++ map (λ name. require_not_text (regex_text (metadata_regex root name)))
                  access_root.protected_metadata_names)
          ∷ " )"
          ∷ [])

  -- The loop over the roots, from an index on.
  unfoldable pub policy_components : String → ℕ → List SeatbeltAccessRoot → List String
  policy_components param_prefix index [] = []
  policy_components param_prefix index (access_root ∷ roots) =
      policy_component param_prefix index access_root
      ∷ policy_components param_prefix (index + 1) roots

  unfoldable pub access_params : String → ℕ → List SeatbeltAccessRoot → Params
  access_params param_prefix index [] = []
  access_params param_prefix index (access_root ∷ roots) =
      (root_param param_prefix index, sandbox_path access_root.root)
      ∷ (excluded_params param_prefix index 0 access_root.excluded_subpaths
          ++ access_params param_prefix (index + 1) roots)

  unfoldable pub build_seatbelt_access_policy :
      String → String → List SeatbeltAccessRoot → String × Params
  build_seatbelt_access_policy action param_prefix roots =
      if is_empty (policy_components param_prefix 0 roots) then ("", []) else (
        concat_texts (
            "(allow "
            ∷ action
            ∷ "\n"
            ∷ join_texts " " (policy_components param_prefix 0 roots)
            ∷ "\n)"
            ∷ []),
        access_params param_prefix 0 roots,
      )

  -- The body of the loop over the protected names.
  unfoldable pub push_protected_name :
      FileSystemSandboxPolicy → WritableRoot → PathBuf → List String → String → List String
  push_protected_name policy writable_root cwd names name =
      if any (λ existing. existing == name) names
      then names
      else if not
          (can_write_path_with_cwd w policy (join writable_root.root (normal name ∷ [])) cwd)
      then names ++ (name ∷ [])
      else names

  unfoldable pub protected_metadata_names_for_writable_root :
      FileSystemSandboxPolicy → WritableRoot → PathBuf → List String
  protected_metadata_names_for_writable_root policy writable_root cwd =
      foldl (push_protected_name policy writable_root cwd) writable_root.protected_metadata_names
        protected_metadata_path_names
