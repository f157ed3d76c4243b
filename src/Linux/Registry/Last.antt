-- ===== src/Linux/Registry/Last.antt =====
-- The last helper of run_main.rs that cleans up a synthetic target removes it.
use mathlib.Core.List.{Memᴰ, foldl, reverse}
use mathlib.Core.Path.{subst}
use rattler_sandbox.Prelude.{
  ℕ, Bool, true, false, ◌≡◌, ◌∙◌, ◌⊎◌, inl, inr, refl, sym, ap, Option, none, some, List, [], ◌∷◌,
  not, eqb, arith, if_intro, if◌then◌else◌, Bool-cases, ◌==◌, ==-eq, mem_of_filter, foldl-keeps,
  foldl-adds, mem-reverse,
}
use rattler_sandbox.Paths.Std.{PathBuf, path_eq}
use rattler_sandbox.Linux.Host.{Metadata}
use rattler_sandbox.Linux.Types.{
  SyntheticMountTarget, empty_file, empty_directory, should_remove_after_bwrap, is_of_kind, missing,
  SyntheticMountTargetKind,
}
use rattler_sandbox.Linux.Registry.{
  Store, MarkerFile, SyntheticMountTargetRegistration, symlink_metadata, remove_file, remove_dir,
  has_entries, remove_marker, is_marker_of, remove_synthetic_mount_target, has_active_process,
  has_active_process_matching, remove_own_markers, cleanup_target, cleanup_synthetic_mount_targets,
}
use rattler_sandbox.Linux.Registry.Remembered.{mem_of_matching, symlink_metadata-remove_file}
use mathlib.Core.Option.{some-injective}

-- Removing files leaves a path as it is, or takes it away.
IsLess : PathBuf → List (PathBuf × Metadata) → List (PathBuf × Metadata) → Type 0
IsLess p files after =
    (symlink_metadata p after ≡ none) ⊎ (symlink_metadata p after ≡ symlink_metadata p files)

remove_file-gone :
    (p : PathBuf) (files : List (PathBuf × Metadata))
    → symlink_metadata p (remove_file p files) ≡ none
unfolding symlink_metadata remove_file
remove_file-gone p [] = refl
remove_file-gone p ((x, m) ∷ files) = ground (arith, remove_file-gone p files)

remove_file-IsLess :
    (p q : PathBuf) (files : List (PathBuf × Metadata)) → IsLess p files (remove_file q files)
unfolding IsLess
remove_file-IsLess p q files = elim (Bool-cases (q == p)) [
  | inl e ↦ inl (
      subst (λ x. symlink_metadata p (remove_file x files) ≡ none) (sym (==-eq q p e))
        (remove_file-gone p files))
  | inr e ↦ inr (symlink_metadata-remove_file p q files e)
]

remove_synthetic-IsLess :
    (p : PathBuf) (t : SyntheticMountTarget) (files : List (PathBuf × Metadata))
    → IsLess p files (remove_synthetic_mount_target files t)
unfolding remove_synthetic_mount_target remove_dir IsLess
remove_synthetic-IsLess p t files = by_found (symlink_metadata t.path files)
  where
    by_kind :
        (k : SyntheticMountTargetKind)
        → IsLess p files (elim k [
          | empty_file ↦ remove_file t.path files
          | empty_directory ↦ if has_entries t.path files then files else remove_file t.path files
        ])
    by_kind empty_file = remove_file-IsLess p t.path files
    by_kind empty_directory =
        if_intro (IsLess p files) (has_entries t.path files) (λ _. inr refl)
          (λ _. remove_file-IsLess p t.path files)

    by_found :
        (o : Option Metadata)
        → IsLess p files (elim o [
          | none ↦ files
          | some m ↦
              if should_remove_after_bwrap t m
              then elim t.kind [
                | empty_file ↦ remove_file t.path files
                | empty_directory ↦
                    if has_entries t.path files then files else remove_file t.path files
              ]
              else files
        ])
    by_found none = inr refl
    by_found (some m) =
        if_intro (IsLess p files) (should_remove_after_bwrap t m) (λ _. by_kind t.kind)
          (λ _. inr refl)

-- What is at a path, if anything, is an empty file.
abbrev pub IsEmptyOrGone : PathBuf → List (PathBuf × Metadata) → Type 0
IsEmptyOrGone p files =
    (symlink_metadata p files ≡ none)
    ⊎ ((m : Metadata) × (symlink_metadata p files ≡ some m) × (is_of_kind empty_file m ≡ true))

IsEmptyOrGone-IsLess :
    (p : PathBuf) (files after : List (PathBuf × Metadata))
    → IsEmptyOrGone p files
    → IsLess p files after
    → IsEmptyOrGone p after
unfolding IsLess
IsEmptyOrGone-IsLess p files after e (inl g) = inl g
IsEmptyOrGone-IsLess p files after (inl g) (inr s) = inl (s ∙ g)
IsEmptyOrGone-IsLess p files after (inr (m, g, k)) (inr s) = inr (m, s ∙ g, k)

-- A target registered as a missing empty file takes that file away.
remove_synthetic-missing :
    (p : PathBuf) (files : List (PathBuf × Metadata))
    → IsEmptyOrGone p files
    → symlink_metadata p (remove_synthetic_mount_target files (missing p)) ≡ none
unfolding remove_synthetic_mount_target should_remove_after_bwrap
remove_synthetic-missing p files e = by_found (symlink_metadata p files) refl e
  where
    Gone : List (PathBuf × Metadata) → Type 0
    Gone after = symlink_metadata p after ≡ none

    by_found :
        (o : Option Metadata)
        → symlink_metadata p files ≡ o
        → IsEmptyOrGone p files
        → Gone (elim o [
          | none ↦ files
          | some m ↦
              if (if is_of_kind empty_file m then true else false)
              then remove_file p files
              else files
        ])
    by_found none q e = q
    by_found (some m) q (inl g) = absurd (cc (q, g))
    by_found (some m) q (inr (n, g, k)) =
        rw (ap (λ (x : Metadata). is_of_kind empty_file x) (some-injective m n (sym q ∙ g)) ∙ k)
          (remove_file-gone p files)

module _ (active : ℕ → Bool) (path_bytes : PathBuf → List ℕ) where
  -- No process that runs has a marker in the directory, but for `own`.
  abbrev pub IsLast : ℕ → ℕ → List MarkerFile → Type 0
  IsLast dir own markers =
      (m : MarkerFile)
      → Memᴰ m markers
      → eqb m.dir dir ≡ true
      → active m.pid ≡ true
      → eqb m.pid own ≡ true

  not_busy :
      (dir : ℕ) (markers : List MarkerFile)
      → ((m : MarkerFile) → Memᴰ m markers → eqb m.dir dir ≡ true → active m.pid ≡ false)
      → (has_active_process active path_bytes dir markers).1 ≡ false
  unfolding has_active_process has_active_process_matching
  not_busy dir [] h = refl
  not_busy dir (x ∷ markers) h = by_rest (not_busy dir markers (λ m k. h m (Memᴰ.tail k)))
    where
      None : List MarkerFile × Bool → Type 0
      None r = r.1 ≡ false

      by_rest :
          (has_active_process active path_bytes dir markers).1 ≡ false
          → (has_active_process active path_bytes dir (x ∷ markers)).1 ≡ false
      by_rest rest =
          if_intro None (not (eqb x.dir dir)) (λ _. rest)
            (λ e.
              if_intro None (not (active x.pid)) (λ _. rest)
                (λ a. absurd (ground (arith, h x (Memᴰ.head refl), e, a))))

  unmarked :
      (markers : List MarkerFile) (rs : List SyntheticMountTargetRegistration)
      → (r : SyntheticMountTargetRegistration) → Memᴰ r rs
      → (m : MarkerFile) → Memᴰ m (remove_own_markers active path_bytes markers rs)
      → is_marker_of r.marker_dir r.pid m ≡ false
  unfolding remove_own_markers remove_marker
  unmarked markers rs r k =
      foldl-adds (λ ms r. remove_marker r.marker_dir r.pid ms)
        (λ r ms. (m : MarkerFile) → Memᴰ m ms → is_marker_of r.marker_dir r.pid m ≡ false)
        (λ ms r m k.
          ground (arith, (mem_of_filter (λ x. not (is_marker_of r.marker_dir r.pid x)) m ms k).1))
        (λ ms r t h m k.
          h m (mem_of_filter (λ x. not (is_marker_of r.marker_dir r.pid x)) m ms k).0)
        markers rs r k

  mem_of_unmarked :
      (markers : List MarkerFile) (rs : List SyntheticMountTargetRegistration) (m : MarkerFile)
      → Memᴰ m (remove_own_markers active path_bytes markers rs)
      → Memᴰ m markers
  unfolding remove_own_markers remove_marker
  mem_of_unmarked markers rs m =
      foldl-keeps (λ ms r. remove_marker r.marker_dir r.pid ms) (λ ms. Memᴰ m ms → Memᴰ m markers)
        (λ ms r h k. h (mem_of_filter (λ x. not (is_marker_of r.marker_dir r.pid x)) m ms k).0)
        markers rs (λ k. k)

  -- No running process has a marker in the directory.
  abbrev IsIdle : ℕ → List MarkerFile → Type 0
  IsIdle dir markers =
      (m : MarkerFile) → Memᴰ m markers → eqb m.dir dir ≡ true → active m.pid ≡ false

  cleanup_target-IsLess :
      (p : PathBuf) (s : Store) (r : SyntheticMountTargetRegistration)
      → IsLess p s.files (cleanup_target active path_bytes s r).files
  unfolding cleanup_target IsLess
  cleanup_target-IsLess p s r =
      if_intro (IsLess p s.files) (has_active_process active path_bytes r.marker_dir s.markers).1
        (λ _. inr refl) (λ _. remove_synthetic-IsLess p r.target s.files)

  cleanup_target-IsIdle :
      (dir : ℕ) (s : Store) (r : SyntheticMountTargetRegistration)
      → IsIdle dir s.markers
      → IsIdle dir (cleanup_target active path_bytes s r).markers
  unfolding cleanup_target has_active_process
  cleanup_target-IsIdle dir s r h m k =
      h m (mem_of_matching active path_bytes (λ m. true) r.marker_dir s.markers m k)

  gone_stays :
      (p : PathBuf) (rs : List SyntheticMountTargetRegistration) (s : Store)
      → symlink_metadata p s.files ≡ none
      → symlink_metadata p (foldl (cleanup_target active path_bytes) s rs).files ≡ none
  unfolding IsLess
  gone_stays p rs s =
      foldl-keeps (cleanup_target active path_bytes) (λ t. symlink_metadata p t.files ≡ none)
        (λ t r g. elim (cleanup_target-IsLess p t r) [ inl e ↦ e | inr e ↦ e ∙ g ]) s rs

  cleanup_loop :
      (p : PathBuf) (r : SyntheticMountTargetRegistration)
      → r.target ≡ missing p
      → (rs : List SyntheticMountTargetRegistration) → Memᴰ r rs
      → (s : Store) → IsEmptyOrGone p s.files
      → IsIdle r.marker_dir s.markers
      → symlink_metadata p (foldl (cleanup_target active path_bytes) s rs).files ≡ none
  cleanup_loop p r mine [] k s e idle = elim k [ ]
  cleanup_loop p r mine (x ∷ rs) (Memᴰ.head q) s e idle = gone_stays p rs _ (
      subst (λ y. symlink_metadata p (cleanup_target active path_bytes s y).files ≡ none) q
        (by_idle (not_busy r.marker_dir s.markers idle)))
    where
      by_idle :
          (has_active_process active path_bytes r.marker_dir s.markers).1 ≡ false
          → symlink_metadata p (cleanup_target active path_bytes s r).files ≡ none
      by_idle free = unfold cleanup_target in rw (free, mine) (remove_synthetic-missing p s.files e)
  cleanup_loop p r mine (x ∷ rs) (Memᴰ.tail k) s e idle =
      cleanup_loop p r mine rs k (cleanup_target active path_bytes s x)
        (IsEmptyOrGone-IsLess p s.files _ e (cleanup_target-IsLess p s x))
        (cleanup_target-IsIdle r.marker_dir s x idle)

  -- A helper that cleans up a target registered as a missing empty file leaves nothing at its path,
  -- if at most an empty file is there and no other running process has a marker for it.
  pub cleanup-last :
      (p : PathBuf) (s : Store) (rs : List SyntheticMountTargetRegistration)
      → (r : SyntheticMountTargetRegistration) → Memᴰ r rs
      → r.target ≡ missing p
      → IsLast r.marker_dir r.pid s.markers
      → IsEmptyOrGone p s.files
      → symlink_metadata p (cleanup_synthetic_mount_targets active path_bytes s rs).files ≡ none
  unfolding cleanup_synthetic_mount_targets
  cleanup-last p s rs r k mine last e =
      cleanup_loop p r mine (reverse rs) (mem-reverse r rs k) _ e (λ m l d.
        elim (Bool-cases (active m.pid)) [
          | inl a ↦ absurd (
              ground (
                arith,
                unmarked s.markers (reverse rs) r (mem-reverse r rs k) m l,
                last m (mem_of_unmarked s.markers (reverse rs) m l) d a,
                d,
              ))
          | inr a ↦ a
        ])
