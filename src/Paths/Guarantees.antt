-- ===== src/Paths/Guarantees.antt =====
-- What path.rs promises: `AbsolutePathBuf` is absolute and normalized, and the canonical forms.
use mathlib.Core.List.{append-nil}
use mathlib.Core.Path.{subst}
use mathlib.Core.Option.{some-injective}
use rattler_sandbox.Prelude.{
  ℕ, zero, suc, ◌≤◌, ◌≡◌, refl, ap, ◌∙◌, true, ◌&&◌, not, Option, none, some, [], ◌∷◌, ◌++◌,
  if◌then◌else◌, arith, map_option, ◌>>=◌, unwrap_or, length, last, ◌==◌, Bool-cases, inl, inr,
}
use rattler_sandbox.Paths.Std.{
  root_dir, normal, PathBuf, path_eq, is_absolute, push, parent, starts_with, ancestors,
  ancestors_within,
}
use rattler_sandbox.Paths.Absolute.{
  path_with_base, absolutize_from, resolve_path_against_base, join, absolutize, from_absolute_path,
  from_absolute_path_checked,
}
use rattler_sandbox.Paths.Canonical.{should_preserve_logical_path, canonicalize_preserving_symlinks}
use rattler_sandbox.Paths.Normal.{
  all_normal, is_normalized, normalize_path-normalized, normalize_path_fixed,
  absolute_of_normalized, push-name-normalized, parent_of_names,
}
use rattler_sandbox.Paths.Prefix.{starts_with-append}
use rattler_sandbox.World.{World}

-- The process's directory is absolute, if it can be told.
abbrev pub HasAbsoluteDir : World → Type 0
HasAbsoluteDir w = (dir : PathBuf) → w.current_dir ≡ some dir → is_absolute dir ≡ true

push-absolute : (p q : PathBuf) → is_absolute p ≡ true → is_absolute (push p q) ≡ true
unfolding push
push-absolute [] q h = absurd (ground arith)
push-absolute (root_dir ∷ p) [] h = refl
push-absolute (root_dir ∷ p) (root_dir ∷ q) h = refl
push-absolute (root_dir ∷ p) (_ ∷ q) h = refl
push-absolute (_ ∷ p) q h = absurd (ground arith)

last-ancestors_within :
    (n : ℕ) (p q : PathBuf) → last (q ∷ ancestors_within n p) ≡ last (ancestors_within n p)
unfolding ancestors_within
last-ancestors_within zero p q = refl
last-ancestors_within (suc n) p q = refl

-- Resolving any path against an absolute base gives an absolute, normalized path.
pub resolve_path_against_base-normalized :
    (p base : PathBuf)
    → is_absolute base ≡ true
    → is_normalized (resolve_path_against_base p base) ≡ true
unfolding resolve_path_against_base absolutize_from path_with_base
resolve_path_against_base-normalized p base h = elim (Bool-cases (is_absolute p)) [
  | inl e ↦ rw e (normalize_path-normalized p e)
  | inr e ↦ rw e (normalize_path-normalized (push base p) (push-absolute base p h))
]

-- `from_absolute_path` gives absolute, normalized paths only, also for relative ones, in a process
-- whose directory is absolute.
pub from_absolute_path-normalized :
    (w : World) (p q : PathBuf)
    → HasAbsoluteDir w
    → from_absolute_path w p ≡ some q
    → is_normalized q ≡ true
unfolding from_absolute_path absolutize absolutize_from resolve_path_against_base
from_absolute_path-normalized w p q d h = elim (Bool-cases (is_absolute p)) [
  | inl e ↦
      subst (λ r. is_normalized r ≡ true) (some-injective _ _ (rw e at h))
        (normalize_path-normalized p e)
  | inr e ↦ from_dir w.current_dir d (rw e at h)
]
  where
    from_dir :
        (dir : Option PathBuf)
        → ((b : PathBuf) → dir ≡ some b → is_absolute b ≡ true)
        → map_option (λ b. absolutize_from p b) dir ≡ some q
        → is_normalized q ≡ true
    from_dir none k m = absurd (ground arith)
    from_dir (some b) k m =
        subst (λ r. is_normalized r ≡ true) (some-injective _ _ m)
          (resolve_path_against_base-normalized p b (k b refl))

-- `from_absolute_path` leaves an absolute, normalized path as it is.
pub from_absolute_path_fixed :
    (w : World) (p : PathBuf) → is_normalized p ≡ true → from_absolute_path w p ≡ some p
unfolding from_absolute_path absolutize
from_absolute_path_fixed w p h =
    rw (absolute_of_normalized p h) (ap some (normalize_path_fixed p h))

-- The checked constructor accepts exactly the absolute paths, and agrees with the other there.
pub from_absolute_path_checked_lem :
    (w : World) (p : PathBuf)
    → from_absolute_path_checked p ≡ (if is_absolute p then from_absolute_path w p else none)
unfolding from_absolute_path_checked absolutize_from path_with_base from_absolute_path absolutize
from_absolute_path_checked_lem w p = elim (Bool-cases (is_absolute p)) [
  | inl e ↦ rw e refl
  | inr e ↦ rw e refl
]

-- Joining names to an absolute, normalized path appends them.
pub join-names :
    (base names : PathBuf)
    → is_normalized base ≡ true
    → all_normal names ≡ true
    → join base names ≡ base ++ names
unfolding join resolve_path_against_base absolutize_from path_with_base push
join-names [] names h k = absurd (ground arith)
join-names (b ∷ base) [] h k = rw append-nil (normalize_path_fixed (b ∷ base) h)
join-names (b ∷ base) (normal a ∷ names) h k =
    normalize_path_fixed _ (push-name-normalized (b ∷ base) (normal a ∷ names) h k)
join-names (b ∷ base) (_ ∷ names) h k = absurd (ground arith)

-- Joining names to an absolute, normalized path stays at or below it.
pub starts_with-join :
    (base names : PathBuf)
    → is_normalized base ≡ true
    → all_normal names ≡ true
    → starts_with (join base names) base ≡ true
starts_with-join base names h k = rw (join-names base names h k) (starts_with-append base names)

-- The result fails where the path has no absolute form. Otherwise a nested symbolic link on the way
-- keeps the logical path. Without one the canonical path is
-- taken, or the logical one where the path cannot be canonicalized.
pub canonicalize_preserving_symlinks_lem :
    (w : World) (p : PathBuf)
    → canonicalize_preserving_symlinks w p ≡ (
        from_absolute_path w p >>= λ logical.
        if should_preserve_logical_path w logical
        then some logical
        else some (unwrap_or (w.dunce_canonicalize p) logical))
unfolding canonicalize_preserving_symlinks
canonicalize_preserving_symlinks_lem w p = by_logical (from_absolute_path w p)
  where
    by_logical :
        (o : Option PathBuf)
        → (o >>= λ logical. elim (w.dunce_canonicalize p) [
          | none ↦ some logical
          | some canonical ↦
              if should_preserve_logical_path w logical && not (canonical == logical)
              then some logical
              else some canonical
        ])
          ≡ (o >>= λ logical.
              if should_preserve_logical_path w logical
              then some logical
              else some (unwrap_or (w.dunce_canonicalize p) logical))
    by_logical none = refl
    by_logical (some l) = ground arith

last-ancestors_within_root :
    (n : ℕ) (p : PathBuf)
    → length p ≤ n
    → all_normal p ≡ true
    → last (ancestors_within n (root_dir ∷ p)) ≡ some (root_dir ∷ [])
unfolding ancestors_within parent
last-ancestors_within_root zero [] l h = refl
last-ancestors_within_root zero (_ ∷ _) l h = absurd (omega arith)
last-ancestors_within_root (suc n) [] l h = refl
last-ancestors_within_root (suc n) (d ∷ p) l h =
    let (q, e, k, m) = parent_of_names d p h in
    rw e (
      last-ancestors_within n (root_dir ∷ q) (root_dir ∷ d ∷ p)
      ∙ last-ancestors_within_root n q (omega (arith, m)) k)

-- The last ancestor of an absolute, normalized path is the root.
pub last-ancestors :
    (p : PathBuf) → is_normalized p ≡ true → last (ancestors p) ≡ some (root_dir ∷ [])
unfolding ancestors
last-ancestors [] h = absurd (ground arith)
last-ancestors (root_dir ∷ p) h =
    last-ancestors_within_root (length (root_dir ∷ p)) p (omega arith) h
last-ancestors (_ ∷ p) h = absurd (ground arith)
