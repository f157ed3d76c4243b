-- ===== src/Manager/Compatibility.antt =====
-- The legacy policy that manager.rs derives from a permission profile.
use mathlib.Core.List.{Memᴰ}
use rattler_sandbox.Prelude.{
  ◌≡◌, refl, Bool, true, false, List, ◌==◌, ==_refl, map, any, is_empty, any_of_mem,
  mem-append_left, mem-append_right, mem-map,
}
use rattler_sandbox.World.{World}
use rattler_sandbox.Paths.Std.{PathBuf, path_eq}
use rattler_sandbox.Paths.Absolute.{AbsolutePathBuf, from_absolute_path}
use rattler_sandbox.Paths.Guarantees.{from_absolute_path_fixed}
use rattler_sandbox.Policy.Types.{
  NetworkSandboxPolicy, FileSystemSandboxPolicy, workspace_write, PermissionProfile, WritableRoot,
}
use rattler_sandbox.Policy.Grants.{is_enabled, has_full_disk_write_access}
use rattler_sandbox.Policy.Resolve.{slash_tmp_path}
use rattler_sandbox.Policy.Legacy
use rattler_sandbox.Policy.Legacy.{option_list, slash_tmp_root, legacy_root}
use rattler_sandbox.Policy.Roots.{get_writable_roots_with_cwd}
use rattler_sandbox.Permissions.{permission_profile_to_legacy_sandbox_policy}
use rattler_sandbox.Manager.{compatibility_sandbox_policy_for_permission_profile}

module _ (w : World) (p : PermissionProfile) (fs : FileSystemSandboxPolicy)
    (net : NetworkSandboxPolicy) (cwd : PathBuf) where
  derived :
      has_full_disk_write_access p.file_system ≡ false
      → is_empty (get_writable_roots_with_cwd w p.file_system cwd) ≡ false
      → compatibility_sandbox_policy_for_permission_profile w p fs net cwd
        ≡ workspace_write
            (map (λ r. r.root) (get_writable_roots_with_cwd w p.file_system cwd))
            (is_enabled p.network)
            false
            false
  unfolding compatibility_sandbox_policy_for_permission_profile
      permission_profile_to_legacy_sandbox_policy
  derived h k = rw (h, k) refl

  tmp_listed :
      (roots : List AbsolutePathBuf) (access : Bool)
      → w.is_dir slash_tmp_path ≡ true
      → Memᴰ
          (legacy_root w (from_absolute_path w cwd) slash_tmp_path)
          (Legacy.get_writable_roots_with_cwd w (workspace_write roots access false false) cwd)
  unfolding Legacy.get_writable_roots_with_cwd slash_tmp_root
  tmp_listed roots access t = mem-map (legacy_root w (from_absolute_path w cwd)) slash_tmp_path _ (
      mem-append_right slash_tmp_path roots _ (
        mem-append_right slash_tmp_path (option_list (from_absolute_path w cwd)) _ (
          mem-append_left slash_tmp_path (option_list (slash_tmp_root w)) _
            (rw (from_absolute_path_fixed w slash_tmp_path refl) (rw t (Memᴰ.head refl))))))

  -- The policy derived from a profile with some writable root, but not the whole disk, has
  -- `/tmp` among its writable roots wherever that is a directory, whether the profile does or not.
  pub compatibility-tmp :
      has_full_disk_write_access p.file_system ≡ false
      → is_empty (get_writable_roots_with_cwd w p.file_system cwd) ≡ false
      → w.is_dir slash_tmp_path ≡ true
      → any
          (λ r. r.root == slash_tmp_path)
          (Legacy.get_writable_roots_with_cwd w
            (compatibility_sandbox_policy_for_permission_profile w p fs net cwd)
            cwd)
        ≡ true
  unfolding legacy_root
  compatibility-tmp h k t = rw (derived h k) (
      any_of_mem (λ (r : WritableRoot). r.root == slash_tmp_path) _ _
        (tmp_listed (map (λ r. r.root) (get_writable_roots_with_cwd w p.file_system cwd))
          (is_enabled p.network) t)
        (==_refl slash_tmp_path))
