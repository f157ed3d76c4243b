-- ===== src/Seatbelt/Globs.antt =====
-- seatbelt.rs: the rules against what the globs of the policy make unreadable.
use Prim.Native.Char.{Char, code}
use Prim.Native.String.{count}
use rattler_sandbox.Prelude.{
  String, ◌<>◌, ℕ, zero, suc, Bool, false, not, ◌||◌, Option, none, some, List, [], ◌∷◌, ◌++◌, sort,
  dedup, if◌then◌else◌, ◌==◌, string_eq, eqb, split_once, ◌>>=◌, map_option, is_empty_text,
}
use rattler_sandbox.World.{World}
use rattler_sandbox.Paths.Std.{PathBuf, components, path_text}
use rattler_sandbox.Policy.Types.{FileSystemSandboxPolicy}
use rattler_sandbox.Policy.Dedup.{text_le}
use rattler_sandbox.Policy.Roots.{get_unreadable_globs_with_cwd}
use rattler_sandbox.Seatbelt.Texts.{Profile, join_texts, concat_texts, escape_quotes}
use rattler_sandbox.Seatbelt.Inputs.{normalize_path_for_sandbox}

unfoldable pub is_glob_char : Char → Bool
is_glob_char c =
    eqb (code c) b'*' || (eqb (code c) b'?' || (eqb (code c) b'[' || eqb (code c) b']'))

-- The text before the first glob character, and the rest from it on.
unfoldable pub split_at_glob : String → Option (String × String)
split_at_glob String.[] = none
split_at_glob (String.◌∷◌ c s) =
    let rest = split_at_glob s in
    if is_glob_char c
    then some ("", String.◌∷◌ c s)
    else map_option (λ (before, after). (String.◌∷◌ c before, after)) rest

-- The text before the last slash, and the rest from it on.
unfoldable pub split_at_last_slash : String → Option (String × String)
split_at_last_slash String.[] = none
split_at_last_slash (String.◌∷◌ c s) = elim (split_at_last_slash s) [
  | some (before, after) ↦ some (String.◌∷◌ c before, after)
  | none ↦ if eqb (code c) b'/' then some ("", String.◌∷◌ c s) else none
]

-- What an escaped class starts with, and what it goes on with.
unfoldable pub class_first : Char → String
class_first c =
    if eqb (code c) b'!' then "^" else if eqb (code c) b'^' then "\\^" else String.◌∷◌ c ""

unfoldable pub class_rest : String → String
class_rest String.[] = ""
class_rest (String.◌∷◌ c s) =
    (if eqb (code c) b'\\' then "\\\\" else String.◌∷◌ c "") <> class_rest s

unfoldable pub class_text : String → String
class_text String.[] = ""
class_text (String.◌∷◌ c s) = class_first c <> class_rest s

-- The pieces behind a `*`.
unfoldable pub after_star : String → String × String
after_star String.[] = ("[^/]*", "")
after_star (String.◌∷◌ c String.[]) =
    if eqb (code c) b'*' then (".*", "") else ("[^/]*", String.◌∷◌ c "")
after_star (String.◌∷◌ c (String.◌∷◌ d s)) =
    if eqb (code c) b'*'
    then (if eqb (code d) b'/' then ("(.*/)?", s) else (".*", String.◌∷◌ d s))
    else ("[^/]*", String.◌∷◌ c (String.◌∷◌ d s))

-- The pieces behind a `[`: a class that is not closed is a plain character.
unfoldable pub after_bracket : String → String × String
after_bracket s = elim (split_once b']' s) [
  | some (class, rest) ↦ ("[" <> (class_text class <> "]"), rest)
  | none ↦ ("\\[", s)
]

module _ (profile : Profile) where
  -- One round of the loop: what it writes, what is left, and whether it saw a glob character.
  unfoldable pub glob_round : Char → String → String × String
  glob_round c s =
      if eqb (code c) b'*'
      then after_star s
      else if eqb (code c) b'?'
      then ("[^/]", s)
      else if eqb (code c) b'['
      then after_bracket s
      else if eqb (code c) b']'
      then ("\\]", s)
      else (profile.escape (String.◌∷◌ c ""), s)

  -- The loop, and `saw_glob` behind it. Each round takes a character or more, so the number of
  -- characters is fuel enough.
  unfoldable pub glob_rounds : ℕ → Bool → String → String × Bool
  glob_rounds zero saw_glob s = ("", saw_glob)
  glob_rounds (suc fuel) saw_glob String.[] = ("", saw_glob)
  glob_rounds (suc fuel) saw_glob (String.◌∷◌ c s) =
      let (piece, left) = glob_round c s in
      let (regex, saw) = glob_rounds fuel (saw_glob || is_glob_char c) left in (piece <> regex, saw)

  unfoldable pub seatbelt_regex_for_unreadable_glob : String → Option String
  seatbelt_regex_for_unreadable_glob pattern =
      if is_empty_text pattern
      then none
      else (let (regex, saw_glob) = glob_rounds (count pattern) false pattern in
          some ("^" <> (regex <> (if saw_glob then "$" else "(/.*)?$"))))

module _ (w : World) where
  abbrev pub normalized_glob : String → String → String → Option String
  normalized_glob pattern before suffix =
      if is_empty_text before
      then none
      else (normalize_path_for_sandbox w (components before) >>= λ root.
          let normalized_pattern = path_text root <> suffix in
          if not (normalized_pattern == pattern) then some normalized_pattern else none)

  -- The end of the prefix is the last slash before the first glob character; none and a first one
  -- give zero.
  unfoldable pub canonicalize_glob_static_prefix_for_sandbox : String → Option String
  canonicalize_glob_static_prefix_for_sandbox pattern = elim (split_at_glob pattern) [
    | none ↦ map_option path_text (normalize_path_for_sandbox w (components pattern))
    | some (static_prefix, rest) ↦ elim (split_at_last_slash static_prefix) [
      | none ↦ none
      | some (before, after) ↦ normalized_glob pattern before (after <> rest)
    ]
  ]

abbrev pub listed : Option String → List String
listed none = []
listed (some text) = text ∷ []

abbrev pub deny_rules : String → List String
deny_rules regex =
    concat_texts ("(deny file-read* (regex #\"" ∷ escape_quotes regex ∷ "\"))" ∷ [])
    ∷ concat_texts ("(deny file-write-unlink (regex #\"" ∷ escape_quotes regex ∷ "\"))" ∷ [])
    ∷ []

unfoldable pub concat_map {ℓ κ} : {A : Type ℓ} {B : Type κ} → (A → List B) → List A → List B
concat_map f [] = []
concat_map f (a ∷ list) = f a ++ concat_map f list

module _ (w : World) (profile : Profile) where
  -- The set of the regexes of a pattern, in order.
  unfoldable pub pattern_regexes : String → List String
  pattern_regexes pattern = dedup (
      sort text_le (
        listed (seatbelt_regex_for_unreadable_glob profile pattern)
        ++ listed (
            canonicalize_glob_static_prefix_for_sandbox w pattern
            >>= seatbelt_regex_for_unreadable_glob profile)))

  unfoldable pub build_seatbelt_unreadable_glob_policy : FileSystemSandboxPolicy → PathBuf → String
  build_seatbelt_unreadable_glob_policy policy cwd = join_texts "\n" (
      concat_map (λ pattern. concat_map deny_rules (pattern_regexes pattern))
        (get_unreadable_globs_with_cwd policy cwd))
