-- ===== src/Paths/Canonical.antt =====
-- path.rs: canonical paths that keep nested symbolic links.
use rattler_sandbox.Prelude.{
  Bool, false, ◌&&◌, not, Option, none, some, if◌then◌else◌, any, is_some, ◌==◌, ◌>>=◌,
}
use rattler_sandbox.Paths.Std.{PathBuf, path_eq, parent, ancestors}
use rattler_sandbox.Paths.Absolute.{from_absolute_path}
use rattler_sandbox.World.{World}

module _ (w : World) where
  unfoldable pub is_nested_symlink : PathBuf → Bool
  is_nested_symlink ancestor = elim (w.symlink_metadata ancestor) [
    | none ↦ false
    | some is_symlink ↦ is_symlink && is_some (parent ancestor >>= parent)
  ]

  unfoldable pub should_preserve_logical_path : PathBuf → Bool
  should_preserve_logical_path logical = any is_nested_symlink (ancestors logical)

  unfoldable pub canonicalize_preserving_symlinks : PathBuf → Option PathBuf
  canonicalize_preserving_symlinks path = from_absolute_path w path >>= λ logical.
      elim (w.dunce_canonicalize path) [
        | none ↦ some logical
        | some canonical ↦
            if should_preserve_logical_path logical && not (canonical == logical)
            then some logical
            else some canonical
      ]

  unfoldable pub canonicalize_existing_preserving_symlinks : PathBuf → Option PathBuf
  canonicalize_existing_preserving_symlinks path = from_absolute_path w path >>= λ logical.
      w.dunce_canonicalize path >>= λ canonical.
      if should_preserve_logical_path logical && not (canonical == logical)
      then some logical
      else some canonical
