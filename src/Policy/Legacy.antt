-- ===== src/Policy/Legacy.antt =====
-- policy.rs: the methods of the legacy `SandboxPolicy`.
use rattler_sandbox.Prelude.{
  Bool, true, false, Option, none, some, List, [], ◌∷◌, ◌++◌, if◌then◌else◌, ◌==◌, map, ◌>>=◌,
  is_some_and,
}
use rattler_sandbox.World.{World}
use rattler_sandbox.Paths.Std.{PathBuf, path_eq}
use rattler_sandbox.Paths.Absolute.{AbsolutePathBuf, from_absolute_path}
use rattler_sandbox.Policy.Types.{
  WritableRoot, SandboxPolicy, danger_full_access, read_only, external_sandbox, workspace_write,
}
use rattler_sandbox.Policy.Grants.{is_access_enabled}
use rattler_sandbox.Policy.Resolve.{slash_tmp_path, resolve_tmpdir}
use rattler_sandbox.Policy.Defaults.{default_read_only_subpaths_for_writable_root}

abbrev pub new_read_only_policy : SandboxPolicy
new_read_only_policy = read_only false

abbrev pub new_workspace_write_policy : SandboxPolicy
new_workspace_write_policy = workspace_write [] false false false

unfoldable pub has_full_disk_read_access : SandboxPolicy → Bool
has_full_disk_read_access policy = true

unfoldable pub has_full_disk_write_access : SandboxPolicy → Bool
has_full_disk_write_access danger_full_access = true
has_full_disk_write_access (external_sandbox _) = true
has_full_disk_write_access _ = false

unfoldable pub has_full_network_access : SandboxPolicy → Bool
has_full_network_access danger_full_access = true
has_full_network_access (external_sandbox access) = is_access_enabled access
has_full_network_access (read_only access) = access
has_full_network_access (workspace_write _ access _ _) = access

abbrev pub option_list : Option AbsolutePathBuf → List AbsolutePathBuf
option_list none = []
option_list (some p) = p ∷ []

module _ (w : World) where
  -- `/tmp`, if it is a directory
  unfoldable pub slash_tmp_root : Option AbsolutePathBuf
  slash_tmp_root =
      from_absolute_path w slash_tmp_path >>= λ dir. if w.is_dir dir then some dir else none

  unfoldable pub legacy_root : Option AbsolutePathBuf → AbsolutePathBuf → WritableRoot
  legacy_root cwd_root writable_root = record {
    root = writable_root;
    read_only_subpaths =
        default_read_only_subpaths_for_writable_root w writable_root
          (is_some_and (λ c. c == writable_root) cwd_root);
    protected_metadata_names = [];
  }

  unfoldable pub get_writable_roots_with_cwd : SandboxPolicy → PathBuf → List WritableRoot
  get_writable_roots_with_cwd (workspace_write writable_roots _ exclude_tmpdir exclude_tmp) cwd =
      map (legacy_root (from_absolute_path w cwd)) (
        writable_roots
        ++ (option_list (from_absolute_path w cwd)
            ++ ((if exclude_tmp then [] else option_list slash_tmp_root)
                ++ (if exclude_tmpdir then [] else option_list (resolve_tmpdir w)))))
  get_writable_roots_with_cwd _ cwd = []
