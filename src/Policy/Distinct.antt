-- ===== src/Policy/Distinct.antt =====
-- `dedup_absolute_paths`: the same paths, each once, in the order of their first places.
use rattler_sandbox.Prelude.{
  ◌≡◌, refl, Bool, true, false, ◌&&◌, not, List, [], ◌∷◌, arith, map, contains, Bool-cases, inl,
  inr, if◌then◌else◌,
}
use rattler_sandbox.World.{World}
use rattler_sandbox.Paths.Std.{path_eq}
use rattler_sandbox.Paths.Absolute.{AbsolutePathBuf}
use rattler_sandbox.Policy.Dedup.{
  dedup_seen, dedup_absolute_paths, normalize_effective_absolute_path,
}

-- No path stands twice.
abbrev pub is_distinct : List AbsolutePathBuf → Bool
is_distinct [] = true
is_distinct (p ∷ paths) = not (contains p paths) && is_distinct paths

-- None of the paths is among the second ones.
abbrev pub is_apart : List AbsolutePathBuf → List AbsolutePathBuf → Bool
is_apart [] seen = true
is_apart (p ∷ paths) seen = not (contains p seen) && is_apart paths seen

contains-dedup_seen :
    (a : AbsolutePathBuf) (seen paths : List AbsolutePathBuf)
    → contains a (dedup_seen seen paths) ≡ (contains a paths && not (contains a seen))
unfolding dedup_seen
contains-dedup_seen a seen [] = refl
contains-dedup_seen a seen (p ∷ paths) = elim (Bool-cases (contains p seen)) [
  | inl h ↦ rw h (ground (arith, contains-dedup_seen a seen paths))
  | inr h ↦ rw h (ground (arith, contains-dedup_seen a (p ∷ seen) paths))
]

dedup_seen-distinct :
    (seen paths : List AbsolutePathBuf) → is_distinct (dedup_seen seen paths) ≡ true
unfolding dedup_seen
dedup_seen-distinct seen [] = refl
dedup_seen-distinct seen (p ∷ paths) = elim (Bool-cases (contains p seen)) [
  | inl h ↦ rw h (dedup_seen-distinct seen paths)
  | inr h ↦
      rw h (
        ground
          (arith, contains-dedup_seen p (p ∷ seen) paths, dedup_seen-distinct (p ∷ seen) paths))
]

is_apart-cons :
    (p : AbsolutePathBuf) (seen paths : List AbsolutePathBuf)
    → contains p paths ≡ false
    → is_apart paths seen ≡ true
    → is_apart paths (p ∷ seen) ≡ true
is_apart-cons p seen [] h k = refl
is_apart-cons p seen (q ∷ paths) h k = ground (arith, is_apart-cons p seen paths)

dedup_seen_fixed :
    (seen paths : List AbsolutePathBuf)
    → is_distinct paths ≡ true
    → is_apart paths seen ≡ true
    → dedup_seen seen paths ≡ paths
unfolding dedup_seen
dedup_seen_fixed seen [] h k = refl
dedup_seen_fixed seen (p ∷ paths) h k =
    ground (arith, dedup_seen_fixed (p ∷ seen) paths, is_apart-cons p seen paths)

is_apart-nil : (paths : List AbsolutePathBuf) → is_apart paths [] ≡ true
is_apart-nil [] = refl
is_apart-nil (p ∷ paths) = is_apart-nil paths

-- Paths that are distinct already are left as they are.
pub dedup_absolute_paths_fixed :
    (w : World) (paths : List AbsolutePathBuf)
    → is_distinct paths ≡ true
    → dedup_absolute_paths w paths false ≡ paths
unfolding dedup_absolute_paths
dedup_absolute_paths_fixed w paths h = dedup_seen_fixed [] paths h (is_apart-nil paths)

-- The result has the same paths as the argument, by their effective forms where these are asked
-- for, and none twice.
pub dedup_absolute_paths_lem :
    (w : World) (paths : List AbsolutePathBuf) (normalize : Bool) (a : AbsolutePathBuf)
    → (is_distinct (dedup_absolute_paths w paths normalize) ≡ true)
      × (contains a (dedup_absolute_paths w paths normalize)
          ≡ contains a
              (if normalize then map (normalize_effective_absolute_path w) paths else paths))
unfolding dedup_absolute_paths
dedup_absolute_paths_lem w paths normalize a = (
  dedup_seen-distinct []
      (if normalize then map (normalize_effective_absolute_path w) paths else paths),
  ground (
    arith,
    contains-dedup_seen a []
        (if normalize then map (normalize_effective_absolute_path w) paths else paths),
  ),
)
