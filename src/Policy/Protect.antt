-- ===== src/Policy/Protect.antt =====
-- Protected metadata: what `forbidden_agent_metadata_write` reports is never writable.
use rattler_sandbox.Prelude.{
  String, ◌≡◌, refl, sym, ◌∙◌, true, false, Option, none, some, arith, Bool-cases, inl, inr,
  if◌then◌else◌, map_option, ◌>>=◌,
}
use mathlib.Core.Path.{subst}
use mathlib.Core.Option.{some-injective}
use rattler_sandbox.World.{World}
use rattler_sandbox.Paths.Std.{PathBuf, is_absolute}
use rattler_sandbox.Paths.Absolute.{AbsolutePathBuf, from_absolute_path, join}
use rattler_sandbox.Paths.Normal.{is_normalized, absolute_of_normalized}
use rattler_sandbox.Paths.Guarantees.{
  HasAbsoluteDir, from_absolute_path-normalized, resolve_path_against_base-normalized,
}
use rattler_sandbox.Policy.Types.{FileSystemSandboxPolicy}
use rattler_sandbox.Policy.Grants.{is_restricted, has_full_disk_write_access}
use rattler_sandbox.Policy.Resolve.{resolve_candidate_path, resolve_access_with_cwd}
use rattler_sandbox.Policy.Metadata.{
  metadata_child_of_writable_root, has_explicit_write_entry_for_metadata_path,
  is_target_write_denied, is_metadata_write_denied, can_write_path_with_cwd, forbidden_in_target,
  forbidden_agent_metadata_write,
}
use rattler_sandbox.Policy.Deny.{resolve_candidate_path_fixed}

-- A candidate is absolute and normalized.
pub resolve_candidate_path-normalized :
    (w : World) (target cwd : PathBuf) (t : AbsolutePathBuf)
    → HasAbsoluteDir w
    → resolve_candidate_path w target cwd ≡ some t
    → is_normalized t ≡ true
unfolding resolve_candidate_path join
resolve_candidate_path-normalized w target cwd t d h = elim (Bool-cases (is_absolute target)) [
  | inl k ↦ from_absolute_path-normalized w target t d (rw k at h)
  | inr k ↦ by_dir (from_absolute_path w cwd) refl (rw k at h)
]
  where
    by_dir :
        (o : Option AbsolutePathBuf)
        → from_absolute_path w cwd ≡ o
        → map_option (λ dir. join dir target) o ≡ some t
        → is_normalized t ≡ true
    by_dir none e k = absurd (ground arith)
    by_dir (some c) e k =
        subst (λ p. is_normalized p ≡ true) (some-injective _ _ k)
          (resolve_path_against_base-normalized target c
            (absolute_of_normalized c (from_absolute_path-normalized w cwd c d e)))

module _ (w : World) (policy : FileSystemSandboxPolicy) (target cwd : PathBuf) where
  -- Writing a target is writing its candidate.
  can_write_path_resolved :
      (t : AbsolutePathBuf)
      → resolve_candidate_path w target cwd ≡ some t
      → is_normalized t ≡ true
      → can_write_path_with_cwd w policy t cwd ≡ can_write_path_with_cwd w policy target cwd
  unfolding can_write_path_with_cwd resolve_access_with_cwd is_metadata_write_denied
  can_write_path_resolved t h k = rw (h, resolve_candidate_path_fixed w t cwd k) refl

  forbidden_in_target-denied :
      (t : AbsolutePathBuf) (name : String)
      → forbidden_in_target w policy t cwd ≡ some name
      → can_write_path_with_cwd w policy t cwd ≡ false
  unfolding forbidden_in_target
  forbidden_in_target-denied t name h = ground arith

  -- A write that is reported as forbidden is one that the policy denies, whatever the policy is, in
  -- a process whose directory is absolute.
  pub forbidden_agent_metadata_write-denied :
      (name : String)
      → HasAbsoluteDir w
      → forbidden_agent_metadata_write w target cwd policy ≡ some name
      → can_write_path_with_cwd w policy target cwd ≡ false
  unfolding forbidden_agent_metadata_write
  forbidden_agent_metadata_write-denied name d h =
      by_target (resolve_candidate_path w target cwd) refl (ground arith)
    where
      by_target :
          (o : Option AbsolutePathBuf)
          → resolve_candidate_path w target cwd ≡ o
          → (o >>= λ t. forbidden_in_target w policy t cwd) ≡ some name
          → can_write_path_with_cwd w policy target cwd ≡ false
      by_target none e k = absurd (ground arith)
      by_target (some t) e k =
          sym (can_write_path_resolved t e (resolve_candidate_path-normalized w target cwd t d e))
          ∙ forbidden_in_target-denied t name k

  -- The metadata that a target lies in, if no write entry inside it is over the target.
  abbrev pub unopened_metadata : AbsolutePathBuf → Option String
  unopened_metadata t = metadata_child_of_writable_root w policy t cwd >>= λ (p, name).
      if has_explicit_write_entry_for_metadata_path w policy p t cwd then none else some name

  forbidden_in_target_lem :
      (t : AbsolutePathBuf)
      → is_normalized t ≡ true
      → is_restricted policy.kind ≡ true
      → has_full_disk_write_access policy ≡ false
      → forbidden_in_target w policy t cwd ≡ unopened_metadata t
  unfolding forbidden_in_target can_write_path_with_cwd is_metadata_write_denied
      is_target_write_denied
  forbidden_in_target_lem t n r f = ground (arith, resolve_candidate_path_fixed w t cwd n)

  -- In a restricted policy that does not write the whole disk, the write to a target is reported
  -- exactly where the target lies in the metadata of a writable root and no write entry inside
  -- that metadata is over it. The report names the metadata. The directory of the process is absolute.
  pub forbidden_agent_metadata_write-unopened :
      HasAbsoluteDir w
      → is_restricted policy.kind ≡ true
      → has_full_disk_write_access policy ≡ false
      → forbidden_agent_metadata_write w target cwd policy
        ≡ (resolve_candidate_path w target cwd >>= unopened_metadata)
  unfolding forbidden_agent_metadata_write
  forbidden_agent_metadata_write-unopened d r f =
      rw r (by_target (resolve_candidate_path w target cwd) refl)
    where
      by_target :
          (o : Option AbsolutePathBuf)
          → resolve_candidate_path w target cwd ≡ o
          → (o >>= λ t. forbidden_in_target w policy t cwd) ≡ (o >>= unopened_metadata)
      by_target none e = refl
      by_target (some t) e =
          forbidden_in_target_lem t (resolve_candidate_path-normalized w target cwd t d e) r f
