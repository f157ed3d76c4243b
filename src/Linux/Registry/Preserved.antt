-- ===== src/Linux/Registry/Preserved.antt =====
-- A file that was there before is never removed by the helpers of run_main.rs.
use mathlib.Core.List.{Memᴰ, reverse}
use mathlib.Core.Path.{subst}
use rattler_sandbox.Prelude.{
  ℕ, Bool, true, false, ◌≡◌, ◌∙◌, refl, sym, ap, Option, some, List, [], ◌∷◌, not, eqb, map_option,
  if_intro, Bool-cases, inl, inr, ◌==◌, mem_of_filter, foldl-keeps, foldl-keeps_mem, mem_of_reverse,
  ==-eq,
}
use rattler_sandbox.Paths.Std.{PathBuf, path_eq}
use rattler_sandbox.Linux.Host.{Metadata}
use rattler_sandbox.Linux.Types.{SyntheticMountTarget, identity_from_metadata}
use rattler_sandbox.Linux.Registry.{
  Store, MarkerFile, Marker, SyntheticMountTargetRegistration, is_synthetic, symlink_metadata,
  remove_marker, write_marker, is_marker_of, remove_synthetic_mount_target,
  synthetic_mount_marker_dir, has_active_process, has_active_process_matching,
  register_synthetic_mount_target, register_synthetic_mount_targets, remove_own_markers,
  cleanup_target, cleanup_synthetic_mount_targets,
}
use rattler_sandbox.Linux.Registry.Steps.{
  Helper, System, is_running, IsPlanned, start, Step, starts, mounts, finishes, Reach, here, next,
}
use rattler_sandbox.Linux.Registry.Remembered.{
  remove_synthetic-other, remove_synthetic-remembered, mem_of_matching, mem_of_registered,
  registered-path, registered-remembered, NoOwner,
}

module _ (path_bytes : PathBuf → List ℕ) (used : PathBuf → Bool) (p : PathBuf)
    (before : Metadata) where
  abbrev dir_of : PathBuf → ℕ
  dir_of path = synthetic_mount_marker_dir path_bytes path

  -- No other path that occurs has the same marker directory.
  abbrev pub HasOwnDir : Type 0
  HasOwnDir = (q : PathBuf) → used q ≡ true → (q == p) ≡ false → eqb (dir_of q) (dir_of p) ≡ false

  -- A target for the path remembers what was there.
  abbrev Remembers : SyntheticMountTarget → Type 0
  Remembers t = (t.path == p) ≡ true → t.pre_existing_path ≡ some (identity_from_metadata before)

  -- The file is there, its directory of markers names no owner, and what runs remembers it.
  record IsPreserved (s : System) : Type 0 where
    there : symlink_metadata p s.store.files ≡ some before
    unowned : NoOwner (dir_of p) s.store.markers
    remembered :
        (h : Helper) (r : SyntheticMountTargetRegistration)
        → Memᴰ h s.running
        → Memᴰ r h.registrations
        → Remembers r.target

  NoOwner-write :
      (dir pid : ℕ) (contents : Marker) (markers : List MarkerFile)
      → NoOwner (dir_of p) markers
      → (eqb dir (dir_of p) ≡ true → is_synthetic contents ≡ false)
      → NoOwner (dir_of p) (write_marker dir pid contents markers)
  unfolding write_marker remove_marker
  NoOwner-write dir pid contents markers h new m (Memᴰ.head e) d =
      ap (λ (x : MarkerFile). is_synthetic x.contents) e
      ∙ new (ap (λ (x : MarkerFile). eqb x.dir (dir_of p)) (sym e) ∙ d)
  NoOwner-write dir pid contents markers h new m (Memᴰ.tail k) d =
      h m (mem_of_filter (λ x. not (is_marker_of dir pid x)) m markers k).0 d

  module _ (own : HasOwnDir) (active : ℕ → Bool) (pid : ℕ) where
    -- Registering a target: the markers still name no owner, and the target is remembered.
    register_one :
        (markers : List MarkerFile) (t : SyntheticMountTarget)
        → NoOwner (dir_of p) markers
        → used t.path ≡ true
        → Remembers t
        → NoOwner (dir_of p) (register_synthetic_mount_target active path_bytes pid markers t).0
          × Remembers (register_synthetic_mount_target active path_bytes pid markers t).1.target
    unfolding register_synthetic_mount_target
    register_one markers t h u known = elim (Bool-cases (t.path == p)) [
      | inl e ↦
          let same : t.path ≡ p = ==-eq t.path p e in
          let kept =
            registered-remembered active path_bytes t markers (known e)
              (subst (λ q. NoOwner (dir_of q) markers) (sym same) h) in
          (
            NoOwner-write _ pid _ _ (λ m k. h m (mem_of_registered active path_bytes t markers m k))
                (λ _. rw kept (rw (known e) refl)),
            λ _. ap (λ (x : SyntheticMountTarget). x.pre_existing_path) kept ∙ known e,
          )
      | inr e ↦ (
        NoOwner-write _ pid _ _ (λ m k. h m (mem_of_registered active path_bytes t markers m k))
            (λ d. absurd (cc (d, own t.path u e))),
        λ d.
            absurd (
              cc
                (d, ap (λ (q : PathBuf). q == p) (registered-path active path_bytes t markers), e)),
      )
    ]

    register_all :
        (targets : List SyntheticMountTarget) (markers : List MarkerFile)
        → NoOwner (dir_of p) markers
        → ((t : SyntheticMountTarget) → Memᴰ t targets → (used t.path ≡ true) × Remembers t)
        → NoOwner
            (dir_of p)
            (register_synthetic_mount_targets active path_bytes pid markers targets).0
          × ((r : SyntheticMountTargetRegistration)
              → Memᴰ r (register_synthetic_mount_targets active path_bytes pid markers targets).1
              → Remembers r.target)
    unfolding register_synthetic_mount_targets
    register_all [] markers h known = (h, λ r k. elim k [ ])
    register_all (t ∷ targets) markers h known =
        let (u, mine) = known t (Memᴰ.head refl) in
        let (g, first) = register_one markers t h u mine in
        let (f, rest) =
          register_all targets (register_synthetic_mount_target active path_bytes pid markers t).0 g
            (λ x k. known x (Memᴰ.tail k)) in
        (f, λ r k. by_place first rest r k)
      where
        by_place :
            {first : SyntheticMountTargetRegistration} {rs : List SyntheticMountTargetRegistration}
            → Remembers first.target
            → ((r : SyntheticMountTargetRegistration) → Memᴰ r rs → Remembers r.target)
            → (r : SyntheticMountTargetRegistration) → Memᴰ r (first ∷ rs)
            → Remembers r.target
        by_place a b r (Memᴰ.head e) =
            subst (λ (x : SyntheticMountTargetRegistration). Remembers x.target) (sym e) a
        by_place a b r (Memᴰ.tail k) = b r k

  -- Cleaning up targets that remember the file, on markers that name no owner.
  abbrev Kept : Store → Type 0
  Kept s = (symlink_metadata p s.files ≡ some before) × NoOwner (dir_of p) s.markers

  cleanup_one :
      (active : ℕ → Bool) (s : Store) (r : SyntheticMountTargetRegistration)
      → Remembers r.target
      → Kept s
      → Kept (cleanup_target active path_bytes s r)
  unfolding cleanup_target has_active_process
  cleanup_one active s r known (there, h) = (
    if_intro (λ (f : List (PathBuf × Metadata)). symlink_metadata p f ≡ some before)
        (has_active_process_matching active path_bytes (λ m. true) r.marker_dir s.markers).1
        (λ _. there) (λ _. removed),
    λ m k. h m (mem_of_matching active path_bytes (λ m. true) r.marker_dir s.markers m k),
  )
    where
      removed : symlink_metadata p (remove_synthetic_mount_target s.files r.target) ≡ some before
      removed = elim (Bool-cases (r.target.path == p)) [
        | inl e ↦
            ap (λ (f : List (PathBuf × Metadata)). symlink_metadata p f)
              (remove_synthetic-remembered r.target s.files before
                (ap (λ (q : PathBuf). symlink_metadata q s.files) (==-eq r.target.path p e) ∙ there)
                (known e))
            ∙ there
        | inr e ↦ remove_synthetic-other p r.target s.files e ∙ there
      ]

  cleanup_all :
      (active : ℕ → Bool) (s : Store) (rs : List SyntheticMountTargetRegistration)
      → ((r : SyntheticMountTargetRegistration) → Memᴰ r rs → Remembers r.target)
      → Kept s
      → Kept (cleanup_synthetic_mount_targets active path_bytes s rs)
  unfolding cleanup_synthetic_mount_targets remove_own_markers remove_marker
  cleanup_all active s rs known (there, h) =
      foldl-keeps_mem (cleanup_target active path_bytes) Kept (reverse rs)
        (λ t r k g. cleanup_one active t r (known r (mem_of_reverse r rs k)) g) _
        (
          there,
          foldl-keeps _ (NoOwner (dir_of p))
              (λ ms r g m k.
                g m (mem_of_filter (λ x. not (is_marker_of r.marker_dir r.pid x)) m ms k).0)
              s.markers (reverse rs) h,
        )

  Step-IsPreserved :
      HasOwnDir → {s t : System} → Step path_bytes used s t → IsPreserved s → IsPreserved t
  Step-IsPreserved own (starts s pid targets free planned) i =
      let (f, rest) =
        register_all own (is_running s.running) pid targets s.store.markers i.unowned
          (λ t k. ((planned t k).0, remembers t (planned t k).1)) in
      record { there = i.there; unowned = f; remembered = by_helper rest }
    where
      remembers : (t : SyntheticMountTarget) → IsPlanned s.store t → Remembers t
      remembers t plan e =
          plan
          ∙ ap
              (λ (q : PathBuf).
                map_option identity_from_metadata (symlink_metadata q s.store.files))
              (==-eq t.path p e)
          ∙ ap (λ (o : Option Metadata). map_option identity_from_metadata o) i.there

      by_helper :
          ((r : SyntheticMountTargetRegistration)
            → Memᴰ r
                (register_synthetic_mount_targets
                  (is_running s.running)
                  path_bytes
                  pid
                  s.store.markers
                  targets).1
            → Remembers r.target)
          → (h : Helper) (r : SyntheticMountTargetRegistration)
          → Memᴰ h (start path_bytes used s pid targets).running
          → Memᴰ r h.registrations
          → Remembers r.target
      by_helper rest h r (Memᴰ.head e) k =
          rest r (subst (λ (x : Helper). Memᴰ r x.registrations) e k)
      by_helper rest h r (Memᴰ.tail m) k = i.remembered h r m k
  Step-IsPreserved own (mounts s h r m k l absent) i = record {
    there = still;
    unowned = i.unowned;
    remembered = i.remembered;
  }
    where
      still : symlink_metadata p ((r.target.path, m) ∷ s.store.files) ≡ some before
      still =
          unfold symlink_metadata in
          elim (Bool-cases (r.target.path == p)) [
            | inl e ↦ absurd (
                cc (
                  i.there,
                  absent,
                  ap (λ (q : PathBuf). symlink_metadata q s.store.files) (==-eq r.target.path p e),
                ))
            | inr e ↦ rw e i.there
          ]
  Step-IsPreserved own (finishes s h m) i =
      let (there, unowned) =
        cleanup_all (is_running s.running) s.store h.registrations (λ r k. i.remembered h r m k)
          (i.there, i.unowned) in
      record {
        there = there;
        unowned = unowned;
        remembered = λ x r k.
            i.remembered x r (mem_of_filter (λ other. not (eqb other.pid h.pid)) x s.running k).0;
      }

  Reach-IsPreserved :
      HasOwnDir → {s t : System} → IsPreserved s → Reach path_bytes used s t → IsPreserved t
  Reach-IsPreserved own i here = i
  Reach-IsPreserved own i (next r step) = Step-IsPreserved own step (Reach-IsPreserved own i r)

  -- A file that is there while no helper runs and no marker is left stays as it is through whatever
  -- helpers start, mount and finish, in any order, if no other path of theirs has the same marker
  -- directory. The steps have the synthetic mount targets only, not the protected create targets.
  pub preserved :
      (s t : System)
      → HasOwnDir
      → s.running ≡ []
      → s.store.markers ≡ []
      → symlink_metadata p s.store.files ≡ some before
      → Reach path_bytes used s t
      → symlink_metadata p t.store.files ≡ some before
  preserved s t own idle unmarked there r =
      (Reach-IsPreserved own
        (record {
          there = there;
          unowned = λ m k. elim (subst (λ (l : List MarkerFile). Memᴰ m l) unmarked k) [ ];
          remembered = λ h x k _. elim (subst (λ (l : List Helper). Memᴰ h l) idle k) [ ];
        })
        r).there
