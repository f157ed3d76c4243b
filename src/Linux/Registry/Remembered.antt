-- ===== src/Linux/Registry/Remembered.antt =====
-- What a look for markers keeps, and the targets that remember what was there, in run_main.rs.
use mathlib.Core.List.{Memᴰ}
use mathlib.Core.Path.{subst}
use rattler_sandbox.Prelude.{
  ℕ, Bool, true, false, ◌≡◌, ◌∙◌, refl, sym, ap, Option, none, some, List, [], ◌∷◌, any, not, ◌&&◌,
  eqb, arith, if_intro, if◌then◌else◌, ◌==◌,
}
use rattler_sandbox.Paths.Std.{PathBuf, path_eq}
use rattler_sandbox.Linux.Host.{Metadata}
use rattler_sandbox.Linux.Types.{
  SyntheticMountTarget, SyntheticMountTargetKind, empty_file, empty_directory,
  identity_from_metadata, should_remove_after_bwrap, preserves_pre_existing_path, is_of_kind,
  differs_from, FileIdentity,
}
use rattler_sandbox.Linux.Registry.{
  MarkerFile, is_synthetic, symlink_metadata, remove_file, remove_dir, has_entries,
  remove_synthetic_mount_target, synthetic_mount_marker_dir, has_active_process_matching,
  has_active_synthetic_owner, registered_target, missing_of_kind,
}

-- Removing another path leaves a path as it is.
pub symlink_metadata-remove_file :
    (p q : PathBuf) (files : List (PathBuf × Metadata))
    → (q == p) ≡ false
    → symlink_metadata p (remove_file q files) ≡ symlink_metadata p files
unfolding symlink_metadata remove_file
symlink_metadata-remove_file p q [] e = refl
symlink_metadata-remove_file p q ((x, m) ∷ files) e =
    ground (arith, symlink_metadata-remove_file p q files)

pub remove_synthetic-other :
    (p : PathBuf) (t : SyntheticMountTarget) (files : List (PathBuf × Metadata))
    → (t.path == p) ≡ false
    → symlink_metadata p (remove_synthetic_mount_target files t) ≡ symlink_metadata p files
unfolding remove_synthetic_mount_target remove_dir
remove_synthetic-other p t files e = by_found (symlink_metadata t.path files)
  where
    Same : List (PathBuf × Metadata) → Type 0
    Same after = symlink_metadata p after ≡ symlink_metadata p files

    by_kind :
        (k : SyntheticMountTargetKind)
        → Same (elim k [
          | empty_file ↦ remove_file t.path files
          | empty_directory ↦ if has_entries t.path files then files else remove_file t.path files
        ])
    by_kind empty_file = symlink_metadata-remove_file p t.path files e
    by_kind empty_directory =
        if_intro Same (has_entries t.path files) (λ _. refl)
          (λ _. symlink_metadata-remove_file p t.path files e)

    by_found :
        (o : Option Metadata)
        → Same (elim o [
          | none ↦ files
          | some m ↦
              if should_remove_after_bwrap t m
              then elim t.kind [
                | empty_file ↦ remove_file t.path files
                | empty_directory ↦
                    if has_entries t.path files then files else remove_file t.path files
              ]
              else files
        ])
    by_found none = refl
    by_found (some m) =
        if_intro Same (should_remove_after_bwrap t m) (λ _. by_kind t.kind) (λ _. refl)

-- A target that remembers what is there is not removed.
should_remove-remembered :
    (t : SyntheticMountTarget) (m : Metadata)
    → t.pre_existing_path ≡ some (identity_from_metadata m)
    → should_remove_after_bwrap t m ≡ false
unfolding should_remove_after_bwrap
should_remove-remembered t m known =
    if_intro (λ (b : Bool). b ≡ false) (is_of_kind t.kind m)
      (λ _. ap (λ (o : Option FileIdentity). differs_from o m) known ∙ ground arith) (λ _. refl)

pub remove_synthetic-remembered :
    (t : SyntheticMountTarget) (files : List (PathBuf × Metadata)) (m : Metadata)
    → symlink_metadata t.path files ≡ some m
    → t.pre_existing_path ≡ some (identity_from_metadata m)
    → remove_synthetic_mount_target files t ≡ files
unfolding remove_synthetic_mount_target
remove_synthetic-remembered t files m there known =
    subst
      (λ (o : Option Metadata).
        (elim o [
          | none ↦ files
          | some n ↦
              if should_remove_after_bwrap t n
              then elim t.kind [
                | empty_file ↦ remove_file t.path files
                | empty_directory ↦ remove_dir t.path files
              ]
              else files
        ])
        ≡ files)
      (sym there) (rw (should_remove-remembered t m known) refl)

-- No marker in this directory says that its owner made the path.
abbrev pub NoOwner : ℕ → List MarkerFile → Type 0
NoOwner dir markers =
    (m : MarkerFile) → Memᴰ m markers → eqb m.dir dir ≡ true → is_synthetic m.contents ≡ false

module _ (active : ℕ → Bool) (path_bytes : PathBuf → List ℕ) where
  -- Looking for an active process only removes markers.
  pub mem_of_matching :
      (matches : MarkerFile → Bool) (dir : ℕ) (markers : List MarkerFile) (m : MarkerFile)
      → Memᴰ m (has_active_process_matching active path_bytes matches dir markers).0
      → Memᴰ m markers
  unfolding has_active_process_matching
  mem_of_matching matches dir [] m = λ k. k
  mem_of_matching matches dir (x ∷ markers) m = by_test (mem_of_matching matches dir markers m)
    where
      Kept : List MarkerFile × Bool → Type 0
      Kept r = Memᴰ m r.0 → Memᴰ m (x ∷ markers)

      kept :
          (rest : List MarkerFile)
          → (Memᴰ m rest → Memᴰ m markers)
          → Memᴰ m (x ∷ rest)
          → Memᴰ m (x ∷ markers)
      kept rest before (Memᴰ.head e) = Memᴰ.head e
      kept rest before (Memᴰ.tail k) = Memᴰ.tail (before k)

      by_test :
          (Memᴰ m (has_active_process_matching active path_bytes matches dir markers).0
            → Memᴰ m markers)
          → Memᴰ m (has_active_process_matching active path_bytes matches dir (x ∷ markers)).0
          → Memᴰ m (x ∷ markers)
      by_test before =
          if_intro Kept (not (eqb x.dir dir)) (λ _. kept _ before)
            (λ _.
              if_intro Kept (not (active x.pid)) (λ _. λ k. Memᴰ.tail (before k))
                (λ _. if_intro Kept (matches x) (λ _. λ k. k) (λ _. kept _ before)))

  NoOwner-found :
      (dir : ℕ) (markers : List MarkerFile)
      → NoOwner dir markers
      → (has_active_synthetic_owner active path_bytes dir markers).1 ≡ false
  unfolding has_active_synthetic_owner has_active_process_matching
  NoOwner-found dir [] h = refl
  NoOwner-found dir (x ∷ markers) h = by_rest (NoOwner-found dir markers (λ m k. h m (Memᴰ.tail k)))
    where
      None : List MarkerFile × Bool → Type 0
      None r = r.1 ≡ false

      by_rest :
          (has_active_synthetic_owner active path_bytes dir markers).1 ≡ false
          → (has_active_synthetic_owner active path_bytes dir (x ∷ markers)).1 ≡ false
      by_rest rest =
          if_intro None (not (eqb x.dir dir)) (λ _. rest)
            (λ e.
              if_intro None (not (active x.pid)) (λ _. rest)
                (λ _.
                  if_intro None (is_synthetic x.contents)
                    (λ s. absurd (cc (s, h x (Memᴰ.head refl) (ground (arith, e))))) (λ _. rest)))

  pub mem_of_registered :
      (t : SyntheticMountTarget) (markers : List MarkerFile) (m : MarkerFile)
      → Memᴰ m (registered_target active path_bytes t markers).0
      → Memᴰ m markers
  unfolding registered_target has_active_synthetic_owner
  mem_of_registered t markers m =
      if_intro (λ (r : List MarkerFile × SyntheticMountTarget). Memᴰ m r.0 → Memᴰ m markers)
        (preserves_pre_existing_path t) (λ _. mem_of_matching _ _ markers m) (λ _. λ k. k)

  pub registered-path :
      (t : SyntheticMountTarget) (markers : List MarkerFile)
      → (registered_target active path_bytes t markers).1.path ≡ t.path
  unfolding registered_target
  registered-path t markers =
      if_intro (λ (r : List MarkerFile × SyntheticMountTarget). r.1.path ≡ t.path)
        (preserves_pre_existing_path t)
        (λ _.
          if_intro (λ (c : SyntheticMountTarget). c.path ≡ t.path)
            (has_active_synthetic_owner active path_bytes
              (synthetic_mount_marker_dir path_bytes t.path) markers).1
            (λ _. by_kind t.kind) (λ _. refl))
        (λ _. refl)
    where
      by_kind : (k : SyntheticMountTargetKind) → (missing_of_kind k t.path).path ≡ t.path
      by_kind empty_file = refl
      by_kind empty_directory = refl

  -- With no owner in its directory a target that remembers what is there stays as it is.
  pub registered-remembered :
      (t : SyntheticMountTarget) (markers : List MarkerFile) {i : FileIdentity}
      → t.pre_existing_path ≡ some i
      → NoOwner (synthetic_mount_marker_dir path_bytes t.path) markers
      → (registered_target active path_bytes t markers).1 ≡ t
  unfolding registered_target
  registered-remembered t markers known h =
      if_intro (λ (r : List MarkerFile × SyntheticMountTarget). r.1 ≡ t)
        (preserves_pre_existing_path t)
        (λ _. rw (NoOwner-found (synthetic_mount_marker_dir path_bytes t.path) markers h) refl)
        (λ _. refl)

  -- Whether a process that runs has said in this directory that it made the path.
  abbrev pub has_owner : ℕ → List MarkerFile → Bool
  has_owner dir markers =
      any (λ m. eqb m.dir dir && (active m.pid && is_synthetic m.contents)) markers

  owner-found :
      (dir : ℕ) (markers : List MarkerFile)
      → (has_active_synthetic_owner active path_bytes dir markers).1 ≡ has_owner dir markers
  unfolding has_active_synthetic_owner has_active_process_matching
  owner-found dir [] = refl
  owner-found dir (x ∷ markers) = by_rest (owner-found dir markers)
    where
      rest : Bool
      rest = has_owner dir markers

      Found : List MarkerFile × Bool → Type 0
      Found r = r.1 ≡ has_owner dir (x ∷ markers)

      by_rest :
          (has_active_synthetic_owner active path_bytes dir markers).1 ≡ rest
          → (has_active_synthetic_owner active path_bytes dir (x ∷ markers)).1
            ≡ has_owner dir (x ∷ markers)
      by_rest e =
          if_intro Found (not (eqb x.dir dir)) (λ d. e ∙ ground (arith, d))
            (λ d.
              if_intro Found (not (active x.pid)) (λ a. e ∙ ground (arith, a))
                (λ a.
                  if_intro Found (is_synthetic x.contents) (λ s. ground (arith, d, a, s))
                    (λ s. e ∙ ground (arith, s))))

  -- A target that was there when it was planned is registered as missing exactly if a process that
  -- runs has marked it as its own; any other target is registered as it is.
  pub registered_target_lem :
      (t : SyntheticMountTarget) (markers : List MarkerFile)
      → (registered_target active path_bytes t markers).1 ≡ (
          if preserves_pre_existing_path t
            && has_owner (synthetic_mount_marker_dir path_bytes t.path) markers
          then missing_of_kind t.kind t.path
          else t)
  unfolding registered_target
  registered_target_lem t markers =
      if_intro
        (λ (r : List MarkerFile × SyntheticMountTarget). r.1 ≡ (
          if preserves_pre_existing_path t
            && has_owner (synthetic_mount_marker_dir path_bytes t.path) markers
          then missing_of_kind t.kind t.path
          else t))
        (preserves_pre_existing_path t)
        (λ k. rw (owner-found (synthetic_mount_marker_dir path_bytes t.path) markers, k) refl)
        (λ k. rw k refl)
