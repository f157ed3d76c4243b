-- ===== src/Policy/Types.antt =====
-- policy.rs: the policy types.
use rattler_sandbox.Prelude.{ℕ, String, Bool, Option, List, Eq, string_discrete}
use rattler_sandbox.Paths.Std.{PathBuf, Component-discrete}
use rattler_sandbox.Paths.Absolute.{AbsolutePathBuf}

pub data NetworkAccess : Type 0 where
  restricted enabled : NetworkAccess

pub data NetworkSandboxPolicy : Type 0 where
  restricted enabled : NetworkSandboxPolicy

pub data FileSystemAccessMode : Type 0 where
  read write none : FileSystemAccessMode

pub data FileSystemSpecialPath : Type 0 where
  root minimal : FileSystemSpecialPath
  project_roots : Option PathBuf → FileSystemSpecialPath
  tmpdir slash_tmp : FileSystemSpecialPath
  unknown : String → Option PathBuf → FileSystemSpecialPath

pub data FileSystemPath : Type 0 where
  path : AbsolutePathBuf → FileSystemPath
  glob_pattern : String → FileSystemPath
  special : FileSystemSpecialPath → FileSystemPath

pub data FileSystemSandboxKind : Type 0 where
  restricted unrestricted external_sandbox : FileSystemSandboxKind

pub record FileSystemSandboxEntry : Type 0 where
  pub path : FileSystemPath
  pub access : FileSystemAccessMode

pub record FileSystemSandboxPolicy : Type 0 where
  pub kind : FileSystemSandboxKind
  pub glob_scan_max_depth : Option ℕ
  pub entries : List FileSystemSandboxEntry

pub record ResolvedFileSystemEntry : Type 0 where
  pub path : AbsolutePathBuf
  pub access : FileSystemAccessMode

pub record WritableRoot : Type 0 where
  pub root : AbsolutePathBuf
  pub read_only_subpaths : List AbsolutePathBuf
  pub protected_metadata_names : List String

pub data SandboxPolicy : Type 0 where
  danger_full_access : SandboxPolicy
  read_only : Bool → SandboxPolicy
  external_sandbox : NetworkAccess → SandboxPolicy
  -- the writable roots, the network access, and the exclusions of `TMPDIR` and of `/tmp`
  workspace_write : List AbsolutePathBuf → Bool → Bool → Bool → SandboxPolicy

pub record FileSystemSemanticSignature : Type 0 where
  pub has_full_disk_read_access : Bool
  pub has_full_disk_write_access : Bool
  pub include_platform_defaults : Bool
  pub readable_roots : List AbsolutePathBuf
  pub writable_roots : List WritableRoot
  pub unreadable_roots : List AbsolutePathBuf
  pub unreadable_globs : List String

pub record PermissionProfile : Type 0 where
  pub file_system : FileSystemSandboxPolicy
  pub network : NetworkSandboxPolicy

pub record AdditionalPermissionProfile : Type 0 where
  pub file_system : Option FileSystemSandboxPolicy
  pub network : Option NetworkSandboxPolicy

pub data WindowsSandboxLevel : Type 0 where
  disabled restricted_token elevated : WindowsSandboxLevel

unfoldable pub FileSystemAccessMode-discrete : Discrete FileSystemAccessMode
FileSystemAccessMode-discrete = hlevel

unfoldable pub FileSystemSpecialPath-discrete : Discrete FileSystemSpecialPath
unfolding Component-discrete string_discrete
FileSystemSpecialPath-discrete = hlevel (Component-discrete, string_discrete)

unfoldable pub FileSystemPath-discrete : Discrete FileSystemPath
unfolding Component-discrete string_discrete FileSystemSpecialPath-discrete
FileSystemPath-discrete =
    hlevel (Component-discrete, string_discrete, FileSystemSpecialPath-discrete)

unfoldable pub FileSystemSandboxEntry-discrete : Discrete FileSystemSandboxEntry
unfolding FileSystemPath-discrete FileSystemAccessMode-discrete
FileSystemSandboxEntry-discrete = hlevel (FileSystemPath-discrete, FileSystemAccessMode-discrete)

unfoldable pub WritableRoot-discrete : Discrete WritableRoot
unfolding Component-discrete string_discrete
WritableRoot-discrete = hlevel (Component-discrete, string_discrete)

unfoldable pub FileSystemSemanticSignature-discrete : Discrete FileSystemSemanticSignature
unfolding Component-discrete string_discrete WritableRoot-discrete
FileSystemSemanticSignature-discrete =
    hlevel (Component-discrete, string_discrete, WritableRoot-discrete)

unfoldable pub subpath_discrete : Discrete (Option PathBuf)
unfolding Component-discrete
subpath_discrete = hlevel Component-discrete

instance unfoldable pub access_eq : Eq FileSystemAccessMode
unfolding FileSystemAccessMode-discrete
access_eq = record { dec = FileSystemAccessMode-discrete }

instance unfoldable pub subpath_eq : Eq (Option PathBuf)
unfolding subpath_discrete
subpath_eq = record { dec = subpath_discrete }

instance unfoldable pub entry_eq : Eq FileSystemSandboxEntry
unfolding FileSystemSandboxEntry-discrete
entry_eq = record { dec = FileSystemSandboxEntry-discrete }

instance unfoldable pub writable_root_eq : Eq WritableRoot
unfolding WritableRoot-discrete
writable_root_eq = record { dec = WritableRoot-discrete }

instance unfoldable pub signature_eq : Eq FileSystemSemanticSignature
unfolding FileSystemSemanticSignature-discrete
signature_eq = record { dec = FileSystemSemanticSignature-discrete }
