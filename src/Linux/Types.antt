-- ===== src/Linux/Types.antt =====
-- bwrap_runner.rs: the options, the mount targets that a run leaves on the host, and the result.
use rattler_sandbox.Prelude.{
  String, Bool, true, false, not, ◌&&◌, Option, none, some, List, [], ◌∷◌, ◌++◌, ℕ, eqb,
  if◌then◌else◌, is_some,
}
use rattler_sandbox.Paths.Std.{PathBuf}
use rattler_sandbox.Linux.Host.{Metadata, is_file_type, is_directory_type}

pub data BwrapNetworkMode : Type 0 where
  full_access isolated proxy_only : BwrapNetworkMode

pub record BwrapOptions : Type 0 where
  pub mount_proc : Bool
  pub network_mode : BwrapNetworkMode
  pub glob_scan_max_depth : Option ℕ

abbrev pub default_options : BwrapOptions
default_options = record {
  mount_proc = true;
  network_mode = full_access;
  glob_scan_max_depth = none;
}

abbrev pub should_unshare_network : BwrapNetworkMode → Bool
should_unshare_network full_access = false
should_unshare_network _ = true

pub record FileIdentity : Type 0 where
  pub dev : ℕ
  pub ino : ℕ

abbrev pub identity_from_metadata : Metadata → FileIdentity
identity_from_metadata m = record { dev = m.dev; ino = m.ino }

pub data SyntheticMountTargetKind : Type 0 where
  empty_file empty_directory : SyntheticMountTargetKind

pub record SyntheticMountTarget : Type 0 where
  pub path : PathBuf
  pub kind : SyntheticMountTargetKind
  pub pre_existing_path : Option FileIdentity

pub record ProtectedCreateTarget : Type 0 where
  pub path : PathBuf

abbrev pub protected_missing : PathBuf → ProtectedCreateTarget
protected_missing path = record { path = path }

abbrev pub missing : PathBuf → SyntheticMountTarget
missing path = record { path = path; kind = empty_file; pre_existing_path = none }

abbrev pub missing_empty_directory : PathBuf → SyntheticMountTarget
missing_empty_directory path = record {
  path = path;
  kind = empty_directory;
  pre_existing_path = none;
}

abbrev pub existing_empty_file : PathBuf → Metadata → SyntheticMountTarget
existing_empty_file path metadata = record {
  path = path;
  kind = empty_file;
  pre_existing_path = some (identity_from_metadata metadata);
}

abbrev pub existing_empty_directory : PathBuf → Metadata → SyntheticMountTarget
existing_empty_directory path metadata = record {
  path = path;
  kind = empty_directory;
  pre_existing_path = some (identity_from_metadata metadata);
}

abbrev pub preserves_pre_existing_path : SyntheticMountTarget → Bool
preserves_pre_existing_path target = is_some target.pre_existing_path

-- `PartialEq for FileIdentity`
abbrev pub same_identity : FileIdentity → FileIdentity → Bool
same_identity a b = eqb a.dev b.dev && eqb a.ino b.ino

-- What a path must be for `should_remove_after_bwrap` to look further.
abbrev pub is_of_kind : SyntheticMountTargetKind → Metadata → Bool
is_of_kind empty_file m = is_file_type m.file_type && eqb m.len 0
is_of_kind empty_directory m = is_directory_type m.file_type

abbrev pub differs_from : Option FileIdentity → Metadata → Bool
differs_from none m = true
differs_from (some before) m = not (same_identity before (identity_from_metadata m))

unfoldable pub should_remove_after_bwrap : SyntheticMountTarget → Metadata → Bool
should_remove_after_bwrap target m =
    if is_of_kind target.kind m then differs_from target.pre_existing_path m else false

-- Open files are the texts of their descriptors.
pub record BwrapArgs : Type 0 where
  pub args : List String
  pub preserved_files : List String
  pub synthetic_mount_targets : List SyntheticMountTarget
  pub protected_create_targets : List ProtectedCreateTarget

-- `vec![…]` of arguments and nothing else
abbrev pub only_args : List String → BwrapArgs
only_args args = record {
  args = args;
  preserved_files = [];
  synthetic_mount_targets = [];
  protected_create_targets = [];
}

abbrev pub push_args : BwrapArgs → List String → BwrapArgs
push_args b args = record b { args = b.args ++ args }

-- error.rs: a message, or an error of `std::io`. `out_of_fuel` is the model's own.
pub data CodexErr : Type 0 where
  fatal : String → CodexErr
  io out_of_fuel : CodexErr

pub data Result {ℓ} (A : Type ℓ) : Type ℓ where
  ok : A → Result A
  err : CodexErr → Result A

infixl 5 ◌>>=◌
abbrev pub ◌>>=◌ {ℓ κ} : {A : Type ℓ} {B : Type κ} → Result A → (A → Result B) → Result B
ok a >>= f = f a
err e >>= f = err e

-- The `?` of an `io::Result`
abbrev pub or_io {ℓ} : {A : Type ℓ} → Option A → Result A
or_io none = err io
or_io (some a) = ok a

-- A loop whose body ends with `?`
unfoldable pub for_each {ℓ κ} :
    {S : Type ℓ} {A : Type κ} → (S → A → Result S) → S → List A → Result S
for_each step s [] = ok s
for_each step s (a ∷ rest) = step s a >>= λ t. for_each step t rest
