-- ===== src/Paths/Std.antt =====
-- `std::path` on Unix, as path.rs and policy.rs use it. A path is the sequence of its
-- `components()`, which is what Rust compares, orders, hashes and takes prefixes of.
use Prim.Native.Char.{code}
use Prim.Native.String.{compare as compare_text}
use Prim.Native.Nat.{Ordering}
use rattler_sandbox.Prelude.{
  ℕ, zero, suc, String, ◌<>◌, Bool, true, false, ◌&&◌, Option, none, some, List, [], ◌∷◌, ◌++◌,
  if◌then◌else◌, Eq, ◌==◌, string_eq, string_discrete, length, map_option, eqb, is_empty,
}

pub data Component : Type 0 where
  root_dir cur_dir parent_dir : Component
  normal : String → Component

unfoldable pub Component-discrete : Discrete Component
unfolding string_discrete
Component-discrete = hlevel string_discrete

abbrev pub PathBuf : Type 0
PathBuf = List Component

unfoldable pub PathBuf-discrete : Discrete PathBuf
unfolding Component-discrete
PathBuf-discrete = hlevel Component-discrete

instance unfoldable pub component_eq : Eq Component
unfolding Component-discrete
component_eq = record { dec = Component-discrete }

instance unfoldable pub path_eq : Eq PathBuf
unfolding PathBuf-discrete component_eq string_eq
path_eq = record { dec = PathBuf-discrete }

-- `Path::is_absolute`, which on Unix is `has_root`.
abbrev pub is_absolute : PathBuf → Bool
is_absolute (root_dir ∷ _) = true
is_absolute _ = false

-- `Path::starts_with`: whole components.
unfoldable pub starts_with : PathBuf → PathBuf → Bool
starts_with path [] = true
starts_with [] (b ∷ base) = false
starts_with (c ∷ path) (b ∷ base) = c == b && starts_with path base

-- `Path::strip_prefix`; `none` is its `StripPrefixError`.
unfoldable pub strip_prefix : PathBuf → PathBuf → Option PathBuf
strip_prefix path [] = some path
strip_prefix [] (b ∷ base) = none
strip_prefix (c ∷ path) (b ∷ base) =
    let rest = strip_prefix path base in if c == b then rest else none

-- A `.` is a component only where it leads a path.
abbrev pub without_cur_dir : PathBuf → PathBuf
without_cur_dir (cur_dir ∷ path) = path
without_cur_dir path = path

-- `PathBuf::push` and `Path::join`: an absolute path replaces the base.
unfoldable pub push : PathBuf → PathBuf → PathBuf
push [] path = path
push (b ∷ base) (root_dir ∷ path) = root_dir ∷ path
push (b ∷ base) path = (b ∷ base) ++ without_cur_dir path

-- `Path::parent`: the root and the empty path have none.
unfoldable pub parent : PathBuf → Option PathBuf
parent [] = none
parent (root_dir ∷ []) = none
parent (c ∷ []) = some []
parent (c ∷ d ∷ path) = map_option (λ rest. c ∷ rest) (parent (d ∷ path))

-- `PathBuf::pop`
unfoldable pub pop : PathBuf → PathBuf
pop path = elim (parent path) [ none ↦ path | some rest ↦ rest ]

-- `Path::ancestors`. A parent is one component shorter, so the length is fuel enough.
unfoldable pub ancestors_within : ℕ → PathBuf → List PathBuf
ancestors_within zero path = path ∷ []
ancestors_within (suc n) path =
    path ∷ elim (parent path) [ none ↦ [] | some rest ↦ ancestors_within n rest ]

unfoldable pub ancestors : PathBuf → List PathBuf
ancestors path = ancestors_within (length path) path

-- `Path::file_name`
unfoldable pub file_name : PathBuf → Option String
file_name [] = none
file_name (normal name ∷ []) = some name
file_name (c ∷ []) = none
file_name (c ∷ d ∷ path) = file_name (d ∷ path)

-- `Component::as_os_str`
abbrev pub as_os_str : Component → String
as_os_str root_dir = "/"
as_os_str cur_dir = "."
as_os_str parent_dir = ".."
as_os_str (normal name) = name

-- `OsStr::is_empty` of a path's text: only the empty text has no component.
abbrev pub is_empty_path : PathBuf → Bool
is_empty_path = is_empty

-- `Ord for Component`: the order of the variants, then of the names' bytes.
abbrev pub component_cmp : Component → Component → Ordering
component_cmp root_dir root_dir = Ordering.eq
component_cmp root_dir _ = Ordering.lt
component_cmp cur_dir root_dir = Ordering.gt
component_cmp cur_dir cur_dir = Ordering.eq
component_cmp cur_dir _ = Ordering.lt
component_cmp parent_dir (normal b) = Ordering.lt
component_cmp parent_dir parent_dir = Ordering.eq
component_cmp parent_dir _ = Ordering.gt
component_cmp (normal a) (normal b) = compare_text a b
component_cmp (normal a) _ = Ordering.gt

-- `Ord for Path`: component by component, and a prefix first. True for `less` and `equal`.
unfoldable pub path_le : PathBuf → PathBuf → Bool
path_le [] q = true
path_le (c ∷ p) [] = false
path_le (c ∷ p) (d ∷ q) =
    let rest = path_le p q in
    elim (component_cmp c d) [ Ordering.lt ↦ true | Ordering.eq ↦ rest | Ordering.gt ↦ false ]

-- The pieces of a text between its slashes.
unfoldable pub split_slash : String → List String
split_slash String.[] = "" ∷ []
split_slash (String.◌∷◌ c s) =
    if eqb (code c) b'/' then "" ∷ split_slash s else elim (split_slash s) [
      | [] ↦ (String.◌∷◌ c String.[]) ∷ []
      | piece ∷ pieces ↦ (String.◌∷◌ c piece) ∷ pieces
    ]

unfoldable pub pieces_components : List String → PathBuf
pieces_components [] = []
pieces_components (piece ∷ pieces) =
    let rest = pieces_components pieces in
    if piece == ""
    then rest
    else if piece == "."
    then rest
    else if piece == ".."
    then parent_dir ∷ rest
    else normal piece ∷ rest

unfoldable pub leading_components : List String → PathBuf
leading_components [] = []
leading_components (first ∷ rest) =
    if first == "." then cur_dir ∷ pieces_components rest else pieces_components (first ∷ rest)

-- `Path::new(text).components()`
unfoldable pub components : String → PathBuf
components String.[] = []
components (String.◌∷◌ c s) =
    if eqb (code c) b'/'
    then root_dir ∷ pieces_components (split_slash s)
    else leading_components (split_slash (String.◌∷◌ c s))

unfoldable pub joined : PathBuf → String
joined [] = ""
joined (c ∷ []) = as_os_str c
joined (c ∷ d ∷ path) = as_os_str c <> "/" <> joined (d ∷ path)

-- `to_string_lossy` of a path that was built by `push`.
unfoldable pub path_text : PathBuf → String
path_text (root_dir ∷ path) = "/" <> joined path
path_text path = joined path
