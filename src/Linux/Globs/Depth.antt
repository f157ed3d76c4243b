-- ===== src/Linux/Globs/Depth.antt =====
-- The walk of `collect_glob_files` of bwrap_runner.rs ends where its depth is bounded.
use rattler_sandbox.Prelude.{
  ℕ, zero, suc, ◌≤◌, Bool, ◌&&◌, ◌||◌, Option, none, some, List, [], ◌∷◌, arith, if_intro,
  unwrap_or,
}
use rattler_sandbox.Paths.Std.{PathBuf, strip_prefix}
use rattler_sandbox.Paths.Absolute.{AbsolutePathBuf, from_absolute_path_checked}
use rattler_sandbox.Linux.Host.{
  Host, DirEntry, FileType, is_directory_type, is_file_type, is_symlink_type,
}
use rattler_sandbox.Linux.Types.{Result, ok, err, fatal, io, out_of_fuel, or_io, ◌>>=◌}
use rattler_sandbox.Linux.Globs.{collect_match, collect_entries, collect_glob_files, next_depth}

-- The walk has come to its end, with paths or with an error of the system.
abbrev pub HasEnded {ℓ} : {A : Type ℓ} → Result A → Type 0
HasEnded (err out_of_fuel) = ⊥
HasEnded (err io) = Unit {0}
HasEnded (err (fatal _)) = Unit {0}
HasEnded (ok _) = Unit {0}

HasEnded-bind {ℓ κ} :
    {A : Type ℓ} {B : Type κ} (m : Result A) (f : A → Result B)
    → HasEnded m
    → ((a : A) → HasEnded (f a))
    → HasEnded (m >>= f)
HasEnded-bind (ok a) f e k = k a
HasEnded-bind (err out_of_fuel) f e k = e
HasEnded-bind (err io) f e k = tt
HasEnded-bind (err (fatal _)) f e k = tt

HasEnded-or_io {ℓ} : {A : Type ℓ} (o : Option A) → HasEnded (or_io o)
HasEnded-or_io none = tt
HasEnded-or_io (some a) = tt

module _ (h : Host) (root : PathBuf) (is_match : PathBuf → Bool) where
  collect_match-ends :
      (path : PathBuf) (t : FileType) (paths : List AbsolutePathBuf)
      → HasEnded (collect_match h root is_match path t paths)
  unfolding collect_match
  collect_match-ends path t paths =
      if_intro HasEnded
        ((is_file_type t || is_symlink_type t)
          && is_match (unwrap_or (strip_prefix path root) path))
        (λ _.
          HasEnded-bind (or_io (from_absolute_path_checked path)) _
            (HasEnded-or_io (from_absolute_path_checked path)) (λ a. tt))
        (λ _. tt)

  collect_entries-ends :
      (descend : PathBuf → Option ℕ → List AbsolutePathBuf → Result (List AbsolutePathBuf))
      → (depth : ℕ)
      → ((path : PathBuf) (d : ℕ) (paths : List AbsolutePathBuf)
          → suc (suc d) ≤ depth
          → HasEnded (descend path (some (suc d)) paths))
      → (entries : List (Option DirEntry)) (paths : List AbsolutePathBuf)
      → HasEnded (collect_entries h root is_match descend (some depth) paths entries)
  unfolding collect_entries
  collect_entries-ends descend depth ends [] paths = tt
  collect_entries-ends descend depth ends (none ∷ rest) paths = tt
  collect_entries-ends descend depth ends (some entry ∷ rest) paths =
      HasEnded-bind (or_io entry.file_type) _ (HasEnded-or_io entry.file_type) (λ t.
        HasEnded-bind (collect_match h root is_match entry.path t paths) _
          (collect_match-ends entry.path t paths)
          (λ matched.
            HasEnded-bind _ _
              (if_intro HasEnded (is_directory_type t) (λ _. by_depth depth ends matched) (λ _. tt))
              (λ found. collect_entries-ends descend depth ends rest found)))
    where
      by_depth :
          (depth : ℕ)
          → ((path : PathBuf) (d : ℕ) (paths : List AbsolutePathBuf)
              → suc (suc d) ≤ depth
              → HasEnded (descend path (some (suc d)) paths))
          → (matched : List AbsolutePathBuf)
          → HasEnded (elim (next_depth h (some depth)) [
            | none ↦ ok matched
            | some depth ↦ descend entry.path depth matched
          ])
      by_depth zero ends matched = tt
      by_depth (suc zero) ends matched = tt
      by_depth (suc (suc d)) ends matched = ends entry.path d matched (omega arith)

  -- A walk with a maximal depth ends within as many levels of directories, and one at least, however
  -- deep the tree is.
  pub collect_glob_files-ends :
      (fuel depth : ℕ)
      → depth ≤ suc fuel
      → (dir : PathBuf) (paths : List AbsolutePathBuf)
      → HasEnded (collect_glob_files h (suc fuel) root is_match dir (some depth) paths)
  unfolding collect_glob_files
  collect_glob_files-ends zero depth enough dir paths =
      HasEnded-bind (or_io (h.read_dir dir)) _ (HasEnded-or_io (h.read_dir dir)) (λ entries.
        collect_entries-ends (collect_glob_files h zero root is_match) depth
          (λ path d ps less. absurd (omega arith)) entries paths)
  collect_glob_files-ends (suc fuel) depth enough dir paths =
      HasEnded-bind (or_io (h.read_dir dir)) _ (HasEnded-or_io (h.read_dir dir)) (λ entries.
        collect_entries-ends (collect_glob_files h (suc fuel) root is_match) depth
          (λ path d ps less. collect_glob_files-ends fuel (suc d) (omega arith) path ps) entries
          paths)
