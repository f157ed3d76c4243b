-- ===== src/Policy/Dedup.antt =====
-- policy.rs: effective paths, deduplication and sorted forms.
use Prim.Native.Nat.{Ordering}
use Prim.Native.String.{compare as compare_text}
use rattler_sandbox.Prelude.{
  String, Bool, true, false, Option, none, some, List, [], ◌∷◌, if◌then◌else◌, string_eq, contains,
  map, sort, dedup, ◌>>=◌, is_some,
}
use rattler_sandbox.World.{World}
use rattler_sandbox.Paths.Std.{PathBuf, path_eq, path_le, push, strip_prefix, ancestors}
use rattler_sandbox.Paths.Absolute.{AbsolutePathBuf, from_absolute_path}
use rattler_sandbox.Paths.Canonical.{canonicalize_preserving_symlinks}
use rattler_sandbox.Policy.Types.{WritableRoot}

-- The byte order of texts: at most.
abbrev pub text_le : String → String → Bool
text_le a b = elim (compare_text a b) [ Ordering.gt ↦ false | _ ↦ true ]

unfoldable pub sorted_absolute_paths : List AbsolutePathBuf → List AbsolutePathBuf
sorted_absolute_paths paths = sort path_le paths

unfoldable pub sorted_writable_root : WritableRoot → WritableRoot
sorted_writable_root r = record r {
  read_only_subpaths = sorted_absolute_paths r.read_only_subpaths;
  protected_metadata_names = dedup (sort text_le r.protected_metadata_names);
}

unfoldable pub sorted_writable_roots : List WritableRoot → List WritableRoot
sorted_writable_roots roots =
    sort (λ left right. path_le left.root right.root) (map sorted_writable_root roots)

-- The loop of `dedup_absolute_paths`, with the paths that were seen.
unfoldable pub dedup_seen : List AbsolutePathBuf → List AbsolutePathBuf → List AbsolutePathBuf
dedup_seen seen [] = []
dedup_seen seen (p ∷ paths) =
    let rest = dedup_seen (if contains p seen then seen else p ∷ seen) paths in
    if contains p seen then rest else p ∷ rest

module _ (w : World) where
  -- The body of the loop of `normalize_effective_absolute_path`; `none` is `continue`.
  unfoldable pub normalized_by_ancestor : PathBuf → PathBuf → Option AbsolutePathBuf
  normalized_by_ancestor raw_path ancestor =
      if is_some (w.symlink_metadata ancestor)
      then (canonicalize_preserving_symlinks w ancestor >>= λ normalized_ancestor.
          strip_prefix raw_path ancestor >>= λ suffix.
          from_absolute_path w (push normalized_ancestor suffix))
      else none

  unfoldable pub first_normalized : PathBuf → List PathBuf → AbsolutePathBuf
  first_normalized p [] = p
  first_normalized p (ancestor ∷ rest) = elim (normalized_by_ancestor p ancestor) [
    | some normalized_path ↦ normalized_path
    | none ↦ first_normalized p rest
  ]

  unfoldable pub normalize_effective_absolute_path : AbsolutePathBuf → AbsolutePathBuf
  normalize_effective_absolute_path p = first_normalized p (ancestors p)

  unfoldable pub dedup_absolute_paths : List AbsolutePathBuf → Bool → List AbsolutePathBuf
  dedup_absolute_paths paths normalize_effective_paths =
      dedup_seen []
        (if normalize_effective_paths then map normalize_effective_absolute_path paths else paths)
