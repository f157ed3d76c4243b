-- ===== src/Linux/Globs.antt =====
-- bwrap_runner.rs: the files that the unreadable patterns match now.
pub mod Classes
pub mod Escape
pub mod Depth
use Prim.Native.Char.{code, Char}
use Prim.Native.String
use rattler_sandbox.Prelude.{
  String, ◌<>◌, Bool, true, false, not, ◌&&◌, ◌||◌, Option, none, some, List, [], ◌∷◌, ◌++◌, ℕ,
  zero, suc, ◌-◌, ltb, leb, eqb, filter, map, if◌then◌else◌, ◌==◌, string_eq, is_some, is_empty,
  length, sort, dedup, unwrap_or, is_empty_text, any, map_option,
}
use mathlib.Core.List.{foldl}
use rattler_sandbox.World.{World}
use rattler_sandbox.Paths.Std.{
  PathBuf, path_eq, path_text, components, path_le, push, is_absolute, strip_prefix,
}
use rattler_sandbox.Paths.Absolute.{
  AbsolutePathBuf, resolve_path_against_base, from_absolute_path_checked,
}
use rattler_sandbox.Linux.Host.{
  Host, FileType, DirEntry, RipgrepOutput, not_installed, could_not_run, finished, is_file_type,
  is_symlink_type, is_directory_type,
}
use rattler_sandbox.Linux.Types.{Result, ok, err, fatal, io, out_of_fuel, or_io, ◌>>=◌, for_each}
use rattler_sandbox.Linux.Walk.{canonical_target_if_symlinked_path}

abbrev pub max_unreadable_glob_matches : ℕ
max_unreadable_glob_matches = 8192

abbrev pub is_glob_char : Char → Bool
is_glob_char c = any (eqb (code c)) (b'*' ∷ b'?' ∷ b'[' ∷ b']' ∷ [])

-- The text before the first of the glob characters, and the text from it on.
unfoldable pub split_at_glob : String → Option (String × String)
split_at_glob String.[] = none
split_at_glob (String.◌∷◌ c s) =
    let rest = split_at_glob s in
    if is_glob_char c
    then some ("", String.◌∷◌ c s)
    else map_option (λ (before, after). (String.◌∷◌ c before, after)) rest

-- The text before the last slash, and the text after it: `rfind('/')`
unfoldable pub split_at_last_slash : String → Option (String × String)
split_at_last_slash String.[] = none
split_at_last_slash (String.◌∷◌ c s) = elim (split_at_last_slash s) [
  | some (before, after) ↦ some (String.◌∷◌ c before, after)
  | none ↦ if eqb (code c) b'/' then some ("", s) else none
]

-- `escape_unclosed_glob_classes`, as a walk: the second argument holds what was read since an
-- opener that is not closed yet.
unfoldable pub escape_from : Option String → String → String
escape_from none String.[] = ""
escape_from (some class) String.[] = "\\[" <> class
escape_from none (String.◌∷◌ c s) = elim (String.◌∷◌ c "" == "[") [
  | true ↦ escape_from (some "") s
  | false ↦ String.◌∷◌ c (escape_from none s)
]
escape_from (some class) (String.◌∷◌ c s) = elim (String.◌∷◌ c "" == "]") [
  | true ↦ "[" <> (class <> ("]" <> escape_from none s))
  | false ↦ escape_from (some (class <> String.◌∷◌ c "")) s
]

unfoldable pub escape_unclosed_glob_classes : String → String
escape_unclosed_glob_classes glob = escape_from none glob

abbrev pub without_first : String → String
without_first String.[] = ""
without_first (String.◌∷◌ c s) = s

-- The search root and the glob of a pattern that is split at its first glob character. The
-- directory's text is empty where the slash is the first character.
unfoldable pub rooted_glob : String → String → Option (AbsolutePathBuf × String)
rooted_glob directory suffix =
    let root = if is_empty_text directory then components "/" else components directory in
    elim (from_absolute_path_checked root) [
      | none ↦ none
      | some search_root ↦
          let glob = escape_unclosed_glob_classes suffix in
          if is_empty_text glob then none else some (search_root, glob)
    ]

unfoldable pub split_pattern_for_ripgrep : String → PathBuf → Option (AbsolutePathBuf × String)
split_pattern_for_ripgrep pattern cwd =
    let text = path_text (resolve_path_against_base (components pattern) cwd) in
    elim (split_at_glob text) [
      | none ↦ none
      | some (static_prefix, globbed) ↦
          if is_empty_text static_prefix || static_prefix == "/"
          then none
          else elim (split_at_last_slash static_prefix) [
            | some (directory, name) ↦ rooted_glob directory (name <> globbed)
            | none ↦ rooted_glob "" (without_first text)
          ]
    ]

-- The arguments of `rg`.
unfoldable pub ripgrep_args : (ℕ → String) → PathBuf → List String → Option ℕ → List String
ripgrep_args number_text search_root globs max_depth =
    let depth : List String = elim max_depth [
      | none ↦ []
      | some n ↦ "--max-depth" ∷ number_text n ∷ []
    ] in
    let with_globs = foldl (λ args glob. args ++ ("--glob" ∷ glob ∷ [])) depth globs in
    "--files"
    ∷ "--hidden"
    ∷ "--no-ignore"
    ∷ "--null"
    ∷ (with_globs ++ ("--" ∷ path_text search_root ∷ []))

-- The pieces of a text between its NUL bytes.
unfoldable pub split_nul : String → List String
split_nul String.[] = "" ∷ []
split_nul (String.◌∷◌ c s) = if eqb (code c) 0 then "" ∷ split_nul s else elim (split_nul s) [
  | [] ↦ (String.◌∷◌ c String.[]) ∷ []
  | piece ∷ pieces ↦ (String.◌∷◌ c piece) ∷ pieces
]

-- `collect::<Result<Vec<_>>>()`, whose error is one of `std::io`
unfoldable pub collect_io {ℓ} : {A : Type ℓ} → List (Option A) → Result (List A)
collect_io [] = ok []
collect_io (none ∷ rest) = err io
collect_io (some a ∷ rest) = collect_io rest >>= λ found. ok (a ∷ found)

unfoldable pub ripgrep_paths : PathBuf → String → Result (List AbsolutePathBuf)
ripgrep_paths search_root stdout = collect_io (
    map
      (λ text.
        let path = components text in
        from_absolute_path_checked (if is_absolute path then path else push search_root path))
      (filter (λ piece. not (is_empty_text piece)) (split_nul stdout)))

module _ (h : Host) where
  -- The names that the walk may still go down, after this directory.
  abbrev pub next_depth : Option ℕ → Option (Option ℕ)
  next_depth none = some none
  next_depth (some zero) = none
  next_depth (some (suc zero)) = none
  next_depth (some (suc (suc depth))) = some (some (suc depth))

  unfoldable pub collect_match :
      PathBuf
      → (PathBuf → Bool)
      → PathBuf
      → FileType
      → List AbsolutePathBuf
      → Result (List AbsolutePathBuf)
  collect_match search_root is_match path file_type paths =
      let relative = unwrap_or (strip_prefix path search_root) path in
      if (is_file_type file_type || is_symlink_type file_type) && is_match relative
      then (or_io (from_absolute_path_checked path) >>= λ found. ok (paths ++ (found ∷ [])))
      else ok paths

  -- A call of `collect_glob_files` for the entries of a directory; `descend` is the recursive call.
  unfoldable pub collect_entries :
      PathBuf
      → (PathBuf → Bool)
      → (PathBuf → Option ℕ → List AbsolutePathBuf → Result (List AbsolutePathBuf))
      → Option ℕ
      → List AbsolutePathBuf
      → List (Option DirEntry)
      → Result (List AbsolutePathBuf)
  collect_entries search_root is_match descend remaining paths [] = ok paths
  collect_entries search_root is_match descend remaining paths (none ∷ rest) = err io
  collect_entries search_root is_match descend remaining paths (some entry ∷ rest) =
      or_io entry.file_type >>= λ file_type.
      collect_match search_root is_match entry.path file_type paths >>= λ matched.
      (if is_directory_type file_type
        then elim (next_depth remaining) [
          | none ↦ ok matched
          | some depth ↦ descend entry.path depth matched
        ]
        else ok matched)
      >>= λ found. collect_entries search_root is_match descend remaining found rest

  -- `none` is that the fuel ran out: a directory tree deeper than the fuel.
  unfoldable pub collect_glob_files :
      ℕ
      → PathBuf
      → (PathBuf → Bool)
      → PathBuf
      → Option ℕ
      → List AbsolutePathBuf
      → Result (List AbsolutePathBuf)
  collect_glob_files zero search_root is_match dir remaining paths = err out_of_fuel
  collect_glob_files (suc fuel) search_root is_match dir remaining paths =
      or_io (h.read_dir dir) >>= λ entries.
      collect_entries search_root is_match (collect_glob_files fuel search_root is_match) remaining
        paths entries

  unfoldable pub build_globs : PathBuf → List String → Result (List (PathBuf → Bool))
  build_globs search_root [] = ok []
  build_globs search_root (glob ∷ globs) = elim (h.build_glob glob) [
    | none ↦ err (fatal ("unreadable glob pattern is invalid for " <> path_text search_root))
    | some is_match ↦ build_globs search_root globs >>= λ built. ok (is_match ∷ built)
  ]

  unfoldable pub glob_files : PathBuf → List String → Option ℕ → Result (List AbsolutePathBuf)
  glob_files search_root globs max_depth = build_globs search_root globs >>= λ built.
      if h.build_glob_set globs
      then collect_glob_files h.tree_depth search_root
          (λ path. any (λ is_match. is_match path) built) search_root max_depth []
      else err (fatal ("unreadable glob matcher failed for " <> path_text search_root))

  abbrev pub is_code_one : Option ℕ → Bool
  is_code_one none = false
  is_code_one (some code) = eqb code 1

  abbrev pub is_success : Option ℕ → Bool
  is_success none = false
  is_success (some code) = eqb code 0

  unfoldable pub ripgrep_files : PathBuf → List String → Option ℕ → Result (List AbsolutePathBuf)
  ripgrep_files search_root globs max_depth =
      elim (h.ripgrep (ripgrep_args h.number_text search_root globs max_depth)) [
        | not_installed ↦ glob_files search_root globs max_depth
        | could_not_run ↦ err io
        | finished status stdout stderr ↦
            if is_success status
            then ripgrep_paths search_root stdout
            else if is_code_one status && is_empty_text stderr
            then ok []
            else err (
                fatal (
                  "ripgrep unreadable glob scan failed for "
                  <> path_text search_root
                  <> ": "
                  <> stderr))
      ]

  -- `entry(search_root).or_default().push(glob)` of a `BTreeMap`, whose entries stay in order
  unfoldable pub push_glob :
      List (AbsolutePathBuf × List String)
      → AbsolutePathBuf
      → String
      → List (AbsolutePathBuf × List String)
  push_glob [] root glob = (root, glob ∷ []) ∷ []
  push_glob ((other, globs) ∷ rest) root glob =
      let later = (other, globs) ∷ push_glob rest root glob in
      if other == root
      then (other, globs ++ (glob ∷ [])) ∷ rest
      else if path_le root other
      then (root, glob ∷ []) ∷ (other, globs) ∷ rest
      else later

  unfoldable pub patterns_by_search_root :
      List String → PathBuf → List (AbsolutePathBuf × List String)
  patterns_by_search_root patterns cwd =
      foldl
        (λ groups pattern. elim (split_pattern_for_ripgrep pattern cwd) [
          | none ↦ groups
          | some (root, glob) ↦ if h.world.is_dir root then push_glob groups root glob else groups
        ])
        [] patterns

  -- `BTreeSet::insert`
  unfoldable pub insert_path : List AbsolutePathBuf → AbsolutePathBuf → List AbsolutePathBuf
  insert_path paths path = dedup (sort path_le (path ∷ paths))

  -- The body of the loop over the paths that a scan found.
  unfoldable pub expand_path :
      AbsolutePathBuf → List AbsolutePathBuf → AbsolutePathBuf → Result (List AbsolutePathBuf)
  expand_path search_root expanded path =
      (elim (canonical_target_if_symlinked_path h path) [
        | none ↦ ok expanded
        | some target ↦ or_io (from_absolute_path_checked target) >>= λ checked.
            ok (insert_path expanded checked)
      ])
      >>= λ with_target.
          let inserted = insert_path with_target path in
          if ltb max_unreadable_glob_matches (length inserted)
          then err (
              fatal (
                "unreadable glob expansion for "
                <> path_text search_root
                <> " matched more than 8192 paths"))
          else ok inserted

  abbrev pub is_depth_zero : Option ℕ → Bool
  is_depth_zero (some zero) = true
  is_depth_zero _ = false

  unfoldable pub expand_unreadable_globs_with_ripgrep :
      List String → PathBuf → Option ℕ → Result (List AbsolutePathBuf)
  expand_unreadable_globs_with_ripgrep patterns cwd max_depth =
      if is_empty patterns || is_depth_zero max_depth
      then ok []
      else for_each
          (λ expanded (root, globs). ripgrep_files root globs max_depth >>= λ paths.
            for_each (expand_path root) expanded paths)
          [] (patterns_by_search_root patterns cwd)
