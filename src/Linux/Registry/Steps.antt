-- ===== src/Linux/Registry/Steps.antt =====
-- The helpers of one user as a system of steps: run_main.rs holds a lock around each registration
-- and each cleanup, so these are whole steps, and bubblewrap makes its mount targets between them.
-- The look at the paths, before the lock, is taken to be one step with the registration.
use mathlib.Core.List.{Memᴰ}
use rattler_sandbox.Prelude.{
  ℕ, Bool, true, false, ◌≡◌, none, List, ◌∷◌, any, filter, not, eqb, map_option,
}
use rattler_sandbox.Paths.Std.{PathBuf}
use rattler_sandbox.Linux.Host.{Metadata}
use rattler_sandbox.Linux.Types.{SyntheticMountTarget, identity_from_metadata}
use rattler_sandbox.Linux.Registry.{
  Store, SyntheticMountTargetRegistration, register_synthetic_mount_targets,
  cleanup_synthetic_mount_targets, symlink_metadata, set_markers,
}

-- A helper that runs: its process and what it has registered.
pub record Helper : Type 0 where
  pub pid : ℕ
  pub registrations : List SyntheticMountTargetRegistration

pub record System : Type 0 where
  pub store : Store
  pub running : List Helper

abbrev pub is_running : List Helper → ℕ → Bool
is_running running pid = any (λ h. eqb h.pid pid) running

-- What bwrap_runner.rs notes of a path that it looks at: the identity of what is there.
abbrev pub IsPlanned : Store → SyntheticMountTarget → Type 0
IsPlanned s target =
    target.pre_existing_path
    ≡ map_option identity_from_metadata (symlink_metadata target.path s.files)

-- The bytes of a path, and the paths of the targets that occur.
module _ (path_bytes : PathBuf → List ℕ) (used : PathBuf → Bool) where
  abbrev pub start : System → ℕ → List SyntheticMountTarget → System
  start s pid targets =
      let (markers, registrations) =
        register_synthetic_mount_targets (is_running s.running) path_bytes pid s.store.markers
          targets in
      record {
        store = set_markers s.store markers;
        running = record { pid = pid; registrations = registrations } ∷ s.running;
      }

  abbrev pub finish : System → Helper → System
  finish s h = record {
    store =
        cleanup_synthetic_mount_targets (is_running s.running) path_bytes s.store h.registrations;
    running = filter (λ other. not (eqb other.pid h.pid)) s.running;
  }

  -- Bubblewrap makes a mount target that is missing.
  abbrev pub mounted : System → PathBuf → Metadata → System
  mounted s path m = record s { store = record s.store { files = (path, m) ∷ s.store.files } }

  pub data Step : System → System → Type 0 where
    starts :
        (s : System) (pid : ℕ) (targets : List SyntheticMountTarget)
        → is_running s.running pid ≡ false
        → ((t : SyntheticMountTarget) → Memᴰ t targets → (used t.path ≡ true) × IsPlanned s.store t)
        → Step s (start s pid targets)
    mounts :
        (s : System) (h : Helper) (r : SyntheticMountTargetRegistration) (m : Metadata)
        → Memᴰ h s.running
        → Memᴰ r h.registrations
        → symlink_metadata r.target.path s.store.files ≡ none
        → Step s (mounted s r.target.path m)
    finishes : (s : System) (h : Helper) → Memᴰ h s.running → Step s (finish s h)

  pub data Reach (s : System) : System → Type 0 where
    here : Reach s s
    next : {t u : System} → Reach s t → Step t u → Reach s u
