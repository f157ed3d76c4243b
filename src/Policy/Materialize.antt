-- ===== src/Policy/Materialize.antt =====
-- `materialize_project_roots_with_cwd` fixes the authority of the project roots.
use rattler_sandbox.Prelude.{
  any, ◌≡◌, refl, sym, ap, ◌∙◌, Bool, true, false, none, some, List, [], ◌∷◌, map, arith,
  filter_map, if◌then◌else◌,
}
use rattler_sandbox.World.{World}
use rattler_sandbox.Paths.Std.{PathBuf}
use rattler_sandbox.Paths.Absolute.{AbsolutePathBuf, from_absolute_path}
use rattler_sandbox.Paths.Normal.{is_normalized}
use rattler_sandbox.Policy.Types.{
  write, root, minimal, project_roots, tmpdir, slash_tmp, unknown, FileSystemPath, path,
  glob_pattern, special, FileSystemSandboxEntry, FileSystemSandboxPolicy,
}
use rattler_sandbox.Policy.Grants.{is_restricted}
use rattler_sandbox.Policy.Resolve.{
  resolve_file_system_special_path, resolve_file_system_path, resolve_entry_path, resolve_entry,
  resolved_entries_with_cwd, access_among, resolve_access_with_cwd,
}
use rattler_sandbox.Policy.Build.{
  materialize_path, materialize_entry, materialize_project_roots_with_cwd,
}
use rattler_sandbox.Policy.Deny.{resolve_candidate_path_fixed}
use rattler_sandbox.Policy.WellFormed.{absolute_root_path_for_cwd_lem}

abbrev pub is_project_roots : FileSystemPath → Bool
is_project_roots (special (project_roots _)) = true
is_project_roots _ = false

module _ (w : World) (c d : AbsolutePathBuf) (hc : is_normalized c ≡ true)
    (hd : is_normalized d ≡ true) where
  -- A path that was materialized for one directory resolves for another as it did for the first.
  materialize_path-resolves :
      (p : FileSystemPath)
      → resolve_entry_path w (materialize_path w (some c) p) (some d)
        ≡ resolve_entry_path w p (some c)
  unfolding materialize_path resolve_entry_path resolve_file_system_path
      resolve_file_system_special_path
  materialize_path-resolves (path p) = refl
  materialize_path-resolves (glob_pattern _) = refl
  materialize_path-resolves (special root) =
      absolute_root_path_for_cwd_lem w d hd ∙ sym (absolute_root_path_for_cwd_lem w c hc)
  materialize_path-resolves (special minimal) = refl
  materialize_path-resolves (special (project_roots none)) = refl
  materialize_path-resolves (special (project_roots (some s))) = refl
  materialize_path-resolves (special tmpdir) = refl
  materialize_path-resolves (special slash_tmp) = refl
  materialize_path-resolves (special (unknown _ _)) = refl

  filter_map-materialize :
      (es : List FileSystemSandboxEntry)
      → filter_map (resolve_entry w (some d)) (map (materialize_entry w (some c)) es)
        ≡ filter_map (resolve_entry w (some c)) es
  filter_map-materialize [] = refl
  filter_map-materialize (e ∷ es) =
      ground (arith, materialize_path-resolves e.path, filter_map-materialize es)

module _ (w : World) (policy : FileSystemSandboxPolicy) (cwd other : PathBuf)
    {c d : AbsolutePathBuf} (hc : from_absolute_path w cwd ≡ some c)
    (hd : from_absolute_path w other ≡ some d) (nc : is_normalized c ≡ true)
    (nd : is_normalized d ≡ true) where
  resolved-materialize :
      resolved_entries_with_cwd w (materialize_project_roots_with_cwd w policy cwd) other
      ≡ resolved_entries_with_cwd w policy cwd
  unfolding resolved_entries_with_cwd materialize_project_roots_with_cwd
  resolved-materialize = rw (hc, hd) (filter_map-materialize w c d nc nd policy.entries)

  resolve_access-materialize :
      (t : AbsolutePathBuf)
      → is_normalized t ≡ true
      → resolve_access_with_cwd w (materialize_project_roots_with_cwd w policy cwd) t other
        ≡ resolve_access_with_cwd w policy t cwd
  unfolding resolve_access_with_cwd materialize_project_roots_with_cwd
  resolve_access-materialize t h =
      rw (resolve_candidate_path_fixed w t other h, resolve_candidate_path_fixed w t cwd h)
        (ap (λ l. if is_restricted policy.kind then access_among w l t else write)
          resolved-materialize)

-- No entry is left that a later working directory could rebind.
materialize_path-fixed :
    (w : World) (c : AbsolutePathBuf) (p : FileSystemPath)
    → is_project_roots (materialize_path w (some c) p) ≡ false
unfolding materialize_path resolve_file_system_path resolve_file_system_special_path
materialize_path-fixed w c (path p) = refl
materialize_path-fixed w c (glob_pattern _) = refl
materialize_path-fixed w c (special (project_roots none)) = refl
materialize_path-fixed w c (special (project_roots (some s))) = refl
materialize_path-fixed w c (special root) = refl
materialize_path-fixed w c (special minimal) = refl
materialize_path-fixed w c (special tmpdir) = refl
materialize_path-fixed w c (special slash_tmp) = refl
materialize_path-fixed w c (special (unknown _ _)) = refl

materialize-fixed :
    (w : World) (c : AbsolutePathBuf) (es : List FileSystemSandboxEntry)
    → any (λ e. is_project_roots e.path) (map (materialize_entry w (some c)) es) ≡ false
materialize-fixed w c [] = refl
materialize-fixed w c (e ∷ es) = rw materialize_path-fixed (materialize-fixed w c es)

-- Once the project roots are fixed to one directory, no entry for project roots is left, and every
-- absolute, normalized path has, from any other directory, the access that it had from
-- the first. Both directories have absolute, normalized forms.
pub materialize_project_roots_with_cwd_lem :
    (w : World) (policy : FileSystemSandboxPolicy) (cwd other : PathBuf) {c d : AbsolutePathBuf}
    (t : AbsolutePathBuf)
    → from_absolute_path w cwd ≡ some c
    → from_absolute_path w other ≡ some d
    → is_normalized c ≡ true
    → is_normalized d ≡ true
    → is_normalized t ≡ true
    → (any (λ e. is_project_roots e.path) (materialize_project_roots_with_cwd w policy cwd).entries
        ≡ false)
      × (resolve_access_with_cwd w (materialize_project_roots_with_cwd w policy cwd) t other
          ≡ resolve_access_with_cwd w policy t cwd)
unfolding materialize_project_roots_with_cwd
materialize_project_roots_with_cwd_lem w policy cwd other {c} t hc hd nc nd h = (
  rw hc (materialize-fixed w c policy.entries),
  resolve_access-materialize w policy cwd other hc hd nc nd t h,
)
