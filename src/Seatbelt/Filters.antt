-- ===== src/Seatbelt/Filters.antt =====
-- The filters of the profile language that seatbelt.rs writes, and what they mean: a view of its
-- rules that is independent of how the text is put together.
use rattler_sandbox.Prelude.{
  String, Bool, false, not, ◌&&◌, Option, none, some, List, [], ◌∷◌, map, any, all, if◌then◌else◌,
  ◌==◌, string_eq,
}
use rattler_sandbox.World.{World}
use rattler_sandbox.Paths.Std.{PathBuf, path_eq, starts_with, path_text}
use rattler_sandbox.Seatbelt.Texts.{Profile, join_texts, concat_texts}
use rattler_sandbox.Seatbelt.Access.{
  SeatbeltAccessRoot, Params, subpath_text, literal_text, regex_text, require_not_text,
  sandbox_path, metadata_regex,
}

pub data Filter : Type 0 where
  subpath literal regex : String → Filter
  require_not : Filter → Filter

pub data Rule : Type 0 where
  single : Filter → Rule
  require_all : List Filter → Rule

abbrev pub filter_text : Filter → String
filter_text (subpath param) = subpath_text param
filter_text (literal param) = literal_text param
filter_text (regex text) = regex_text text
filter_text (require_not filter) = require_not_text (filter_text filter)

abbrev pub rule_text : Rule → String
rule_text (single filter) = filter_text filter
rule_text (require_all filters) =
    concat_texts ("(require-all " ∷ join_texts " " (map filter_text filters) ∷ " )" ∷ [])

abbrev pub allow_text : String → List Rule → String
allow_text action [] = ""
allow_text action (rule ∷ rules) =
    concat_texts
      ("(allow " ∷ action ∷ "\n" ∷ join_texts " " (map rule_text (rule ∷ rules)) ∷ "\n)" ∷ [])

-- The value of a parameter: `-D` gives it.
unfoldable pub param_value : String → Params → Option PathBuf
param_value key [] = none
param_value key ((name, value) ∷ params) =
    if name == key then some value else param_value key params

-- The engine of the regexes is a parameter. A filter on a parameter without a value matches nothing.
module _ (regex_match : String → String → Bool) (params : Params) (path : PathBuf) where
  abbrev pub under : Option PathBuf → Bool
  under none = false
  under (some value) = starts_with path value

  abbrev pub same : Option PathBuf → Bool
  same none = false
  same (some value) = path == value

  abbrev pub matches : Filter → Bool
  matches (subpath param) = under (param_value param params)
  matches (literal param) = same (param_value param params)
  matches (regex text) = regex_match text (path_text path)
  matches (require_not filter) = not (matches filter)

  abbrev pub applies : Rule → Bool
  applies (single filter) = matches filter
  applies (require_all filters) = all matches filters

-- What a root is to open: what lies under it, but nothing at or under an excluded path and nothing
-- that the regex of a protected name matches.
module _ (w : World) (profile : Profile) (regex_match : String → String → Bool)
    (path : PathBuf) where
  abbrev pub is_protected : SeatbeltAccessRoot → String → Bool
  is_protected access_root name =
      regex_match (metadata_regex w profile (sandbox_path w profile access_root.root) name)
        (path_text path)

  unfoldable pub opens : SeatbeltAccessRoot → Bool
  opens access_root =
      starts_with path (sandbox_path w profile access_root.root)
      && (not (any (λ e. starts_with path (sandbox_path w profile e)) access_root.excluded_subpaths)
          && not (any (is_protected access_root) access_root.protected_metadata_names))
