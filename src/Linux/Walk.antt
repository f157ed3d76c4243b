-- ===== src/Linux/Walk.antt =====
-- bwrap_runner.rs: walks along the components of a path.
pub mod Prefixes
use mathlib.Core.List.{foldl}
use rattler_sandbox.Prelude.{
  String, Bool, true, false, ◌&&◌, Option, none, some, List, [], ◌∷◌, ◌++◌, ℕ, any, length, map,
  if◌then◌else◌, ◌==◌, ◌>>=◌, not,
}
use rattler_sandbox.World.{World}
use rattler_sandbox.Paths.Std.{
  PathBuf, path_eq, Component, root_dir, cur_dir, parent_dir, normal, push, pop, starts_with,
  strip_prefix,
}
use rattler_sandbox.Linux.Host.{Host, IoResult, found, not_found, other_error, is_symlink_type}

-- The walk that three functions make: `visit` looks at the path so far after each name, and says
-- whether the walk ends there.
unfoldable pub walk {ℓ} : {A : Type ℓ} → (PathBuf → Option A) → A → PathBuf → PathBuf → A
walk visit missing current [] = missing
walk visit missing current (root_dir ∷ rest) =
    walk visit missing (push current (root_dir ∷ [])) rest
walk visit missing current (cur_dir ∷ rest) = walk visit missing current rest
walk visit missing current (parent_dir ∷ rest) = walk visit missing (pop current) rest
walk visit missing current (normal part ∷ rest) =
    let here = push current (normal part ∷ []) in
    let later = walk visit missing here rest in elim (visit here) [ none ↦ later | some a ↦ a ]

unfoldable pub is_within_allowed_write_paths : PathBuf → List PathBuf → Bool
is_within_allowed_write_paths path allowed = any (λ root. starts_with path root) allowed

abbrev pub path_depth : PathBuf → ℕ
path_depth path = length path

unfoldable pub remap_paths_for_symlink_target : List PathBuf → PathBuf → PathBuf → List PathBuf
remap_paths_for_symlink_target paths root target =
    map
      (λ path. elim (strip_prefix path root) [ none ↦ path | some relative ↦ push target relative ])
      paths

module _ (h : Host) where
  -- What the walk does at one path of `first_writable_symlink_component_in_path`
  unfoldable pub writable_symlink_at : List PathBuf → PathBuf → Option (Option PathBuf)
  writable_symlink_at allowed current = elim (h.symlink_metadata current) [
    | found m ↦
        if is_symlink_type m.file_type && is_within_allowed_write_paths current allowed
        then some (some current)
        else none
    | not_found ↦ some none
    | other_error ↦ some none
  ]

  unfoldable pub first_writable_symlink_component_in_path : PathBuf → List PathBuf → Option PathBuf
  first_writable_symlink_component_in_path target allowed =
      walk (writable_symlink_at allowed) none [] target

  unfoldable pub missing_at : PathBuf → Option (Option PathBuf)
  missing_at current = if h.world.exists current then none else some (some current)

  unfoldable pub find_first_non_existent_component : PathBuf → Option PathBuf
  find_first_non_existent_component target = walk missing_at none [] target

  unfoldable pub symlink_target_of : PathBuf → Option PathBuf
  symlink_target_of path =
      h.world.canonicalize path >>= λ target. if target == path then none else some target

  unfoldable pub symlinked_at : PathBuf → PathBuf → Option (Option PathBuf)
  symlinked_at path current = elim (h.symlink_metadata current) [
    | found m ↦ if is_symlink_type m.file_type then some (symlink_target_of path) else none
    | not_found ↦ some none
    | other_error ↦ some none
  ]

  unfoldable pub canonical_target_if_symlinked_path : PathBuf → Option PathBuf
  canonical_target_if_symlinked_path path = walk (symlinked_at path) none [] path

  unfoldable pub normalize_command_cwd_for_bwrap : PathBuf → PathBuf
  normalize_command_cwd_for_bwrap command_cwd = elim (h.world.canonicalize command_cwd) [
    | none ↦ command_cwd
    | some canonical ↦ canonical
  ]
