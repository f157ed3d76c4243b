-- ===== src/Paths/Absolute.antt =====
-- path.rs: `absolutize` and `AbsolutePathBuf`, on Unix, where `normalize_path_for_platform`
-- returns its argument. An `AbsolutePathBuf` is the path that it wraps.
use mathlib.Core.List.{foldl}
use rattler_sandbox.Prelude.{Option, none, some, [], ◌∷◌, if◌then◌else◌, map_option, ◌>>=◌}
use rattler_sandbox.Paths.Std.{
  Component, root_dir, cur_dir, parent_dir, normal, PathBuf, is_absolute, push, pop, is_empty_path,
}
use rattler_sandbox.World.{World}

-- The body of the loop of `normalize_path`.
unfoldable pub normalize_step : PathBuf → Component → PathBuf
normalize_step normalized cur_dir = normalized
normalize_step normalized parent_dir = pop normalized
normalize_step normalized root_dir = push normalized (root_dir ∷ [])
normalize_step normalized (normal name) = push normalized (normal name ∷ [])

unfoldable pub normalize_path : PathBuf → PathBuf
normalize_path path =
    let normalized = foldl normalize_step [] path in
    if is_empty_path normalized then cur_dir ∷ [] else normalized

unfoldable pub path_with_base : PathBuf → PathBuf → PathBuf
path_with_base path base = if is_absolute path then path else push base path

unfoldable pub absolutize_from : PathBuf → PathBuf → PathBuf
absolutize_from path base = normalize_path (path_with_base path base)

abbrev pub AbsolutePathBuf : Type 0
AbsolutePathBuf = PathBuf

-- `AbsolutePathBuf::resolve_path_against_base`, whose arguments come in this order
unfoldable pub resolve_path_against_base : PathBuf → PathBuf → AbsolutePathBuf
resolve_path_against_base path base = absolutize_from path base

unfoldable pub join : AbsolutePathBuf → PathBuf → AbsolutePathBuf
join base path = resolve_path_against_base path base

unfoldable pub from_absolute_path_checked : PathBuf → Option AbsolutePathBuf
from_absolute_path_checked path =
    if is_absolute path then some (absolutize_from path (root_dir ∷ [])) else none

module _ (w : World) where
  unfoldable pub absolutize : PathBuf → Option PathBuf
  absolutize path =
      if is_absolute path
      then some (normalize_path path)
      else map_option (λ dir. absolutize_from path dir) w.current_dir

  -- `none` is the error of `current_dir`.
  unfoldable pub from_absolute_path : PathBuf → Option AbsolutePathBuf
  from_absolute_path path = absolutize path

  unfoldable pub current_dir_absolute : Option AbsolutePathBuf
  current_dir_absolute = w.current_dir >>= λ dir. from_absolute_path dir

  unfoldable pub relative_to_current_dir : PathBuf → Option AbsolutePathBuf
  relative_to_current_dir path =
      map_option (λ dir. resolve_path_against_base path dir) w.current_dir
