-- ===== src/Policy/Deny.antt =====
-- Deny entries: the rules by which `none` wins, and how they survive a replaced allow side.
use rattler_sandbox.Prelude.{
  ◌≤◌, ◌≡◌, ◌≢◌, refl, ◌∙◌, inl, inr, true, false, some, List, [], ◌∷◌, arith, filter, contains,
  length, Bool-cases, any_of_mem, mem-filter, mem-append_left, mem-append_right, mem-filter_map,
  mem_of_contains, foldl-keeps, foldl-adds,
}
use mathlib.Core.List.{Memᴰ}
use rattler_sandbox.World.{World}
use rattler_sandbox.Paths.Std.{PathBuf, starts_with}
use rattler_sandbox.Paths.Absolute.{AbsolutePathBuf, from_absolute_path}
use rattler_sandbox.Paths.Prefix.{starts_with_refl, length_le_of_starts_with}
use rattler_sandbox.Paths.Normal.{is_normalized, absolute_of_normalized}
use rattler_sandbox.Paths.Guarantees.{from_absolute_path_fixed}
use rattler_sandbox.Policy.Types.{
  FileSystemAccessMode, path, FileSystemSandboxKind, FileSystemSandboxEntry,
  FileSystemSandboxPolicy, ResolvedFileSystemEntry, SandboxPolicy, entry_eq,
}
use rattler_sandbox.Policy.Grants.{is_restricted, is_none}
use rattler_sandbox.Policy.Resolve.{
  precedence_lt, resolve_entry_path, resolve_file_system_path, resolve_entry,
  resolved_entries_with_cwd, resolve_candidate_path, resolve_access_with_cwd,
  can_read_path_with_cwd,
}
use rattler_sandbox.Policy.Build.{
  push_missing, push_deny_entries, enforceable, with_deny_entries,
  preserve_deny_read_restrictions_from, from_legacy_sandbox_policy_for_cwd,
  from_legacy_sandbox_policy_preserving_deny_entries,
}
use rattler_sandbox.Policy.Access.{resolve_access_with_cwd-Governs}

none_of_precedence :
    (e d : ResolvedFileSystemEntry)
    → d.access ≡ FileSystemAccessMode.none
    → length e.path ≤ length d.path
    → precedence_lt e d ≡ false
    → e.access ≡ FileSystemAccessMode.none
unfolding precedence_lt
none_of_precedence e d h k l = ground arith

module _ (w : World) (policy : FileSystemSandboxPolicy) (target cwd : PathBuf) where
  -- In a restricted policy a deny entry over the target wins where no entry over the target is more specific, whatever
  -- the other entries and their order are.
  pub deny_wins :
      (t : AbsolutePathBuf) (d : ResolvedFileSystemEntry)
      → is_restricted policy.kind ≡ true
      → resolve_candidate_path w target cwd ≡ some t
      → Memᴰ d (resolved_entries_with_cwd w policy cwd)
      → d.access ≡ FileSystemAccessMode.none
      → starts_with t d.path ≡ true
      → ((f : ResolvedFileSystemEntry)
          → Memᴰ f (resolved_entries_with_cwd w policy cwd)
          → starts_with t f.path ≡ true
          → length f.path ≤ length d.path)
      → resolve_access_with_cwd w policy target cwd ≡ FileSystemAccessMode.none
  deny_wins t d r k m h c most = elim (resolve_access_with_cwd-Governs w policy target cwd r k) [
    | inl (e, g, a) ↦ a ∙ none_of_precedence e d h (most e g.listed g.covers) (g.dominates d m c)
    | inr (a, out) ↦ a
  ]

-- A target that is absolute and normalized is its own candidate.
pub resolve_candidate_path_fixed :
    (w : World) (p cwd : PathBuf) → is_normalized p ≡ true → resolve_candidate_path w p cwd ≡ some p
unfolding resolve_candidate_path
resolve_candidate_path_fixed w p cwd h =
    rw (absolute_of_normalized p h) (from_absolute_path_fixed w p h)

-- A path with a deny entry of its own is never readable.
pub deny_exact :
    (w : World) (policy : FileSystemSandboxPolicy) (p cwd : PathBuf)
    → is_restricted policy.kind ≡ true
    → is_normalized p ≡ true
    → Memᴰ (record { path = path p; access = FileSystemAccessMode.none }) policy.entries
    → can_read_path_with_cwd w policy p cwd ≡ false
unfolding can_read_path_with_cwd resolve_entry_path resolve_file_system_path
    resolved_entries_with_cwd
deny_exact w policy p cwd r h m =
    rw
      (deny_wins w policy p cwd p (record { path = p; access = FileSystemAccessMode.none }) r
        (resolve_candidate_path_fixed w p cwd h) listed refl (starts_with_refl p)
        (λ f n c. length_le_of_starts_with p f.path c))
      refl
  where
    listed :
        Memᴰ
          (record { path = p; access = FileSystemAccessMode.none })
          (resolved_entries_with_cwd w policy cwd)
    listed = mem-filter_map (resolve_entry w (from_absolute_path w cwd)) _ _ policy.entries m refl

push_missing-keeps :
    (es : List FileSystemSandboxEntry) (a b : FileSystemSandboxEntry)
    → Memᴰ b es
    → Memᴰ b (push_missing es a)
unfolding push_missing
push_missing-keeps es a b m = elim (Bool-cases (contains a es)) [
  | inl h ↦ rw h m
  | inr h ↦ rw h (mem-append_left b es (a ∷ []) m)
]

push_missing-adds :
    (es : List FileSystemSandboxEntry) (a : FileSystemSandboxEntry) → Memᴰ a (push_missing es a)
unfolding push_missing
push_missing-adds es a = elim (Bool-cases (contains a es)) [
  | inl h ↦ rw h (mem_of_contains a es h)
  | inr h ↦ rw h (mem-append_right a es (a ∷ []) (Memᴰ.head refl))
]

-- Every entry stays, and every deny entry of the other policy is there.
pub push_deny_entries-keeps :
    (es existing : List FileSystemSandboxEntry) (b : FileSystemSandboxEntry)
    → Memᴰ b es
    → Memᴰ b (push_deny_entries es existing)
unfolding push_deny_entries
push_deny_entries-keeps es existing b m =
    foldl-keeps push_missing (λ l. Memᴰ b l) (λ l a. push_missing-keeps l a b) es
      (filter (λ entry. is_none entry.access) existing) m

pub push_deny_entries-adds :
    (es existing : List FileSystemSandboxEntry) (d : FileSystemSandboxEntry)
    → Memᴰ d existing
    → d.access ≡ FileSystemAccessMode.none
    → Memᴰ d (push_deny_entries es existing)
unfolding push_deny_entries
push_deny_entries-adds es existing d m h =
    foldl-adds push_missing (λ b l. Memᴰ b l) push_missing-adds push_missing-keeps es
      (filter (λ entry. is_none entry.access) existing) d
      (mem-filter (λ entry. is_none entry.access) d existing m (rw h refl))

-- A policy that is not external ends up restricted where there is something to deny.
enforceable-restricted :
    (policy existing : FileSystemSandboxPolicy) (d : FileSystemSandboxEntry)
    → policy.kind ≢ FileSystemSandboxKind.external_sandbox
    → Memᴰ d existing.entries
    → d.access ≡ FileSystemAccessMode.none
    → is_restricted (enforceable policy existing).kind ≡ true
unfolding enforceable
enforceable-restricted policy existing d k m h =
    ground (arith, any_of_mem (λ entry. is_none entry.access) d existing.entries m (rw h refl))

-- Whatever replaced the allow side, an absolute, normalized path that the old policy denied by an
-- entry of its own cannot be read, unless the new policy leaves enforcement to an external sandbox.
pub preserve_deny_read_restrictions_from-denies :
    (w : World) (policy existing : FileSystemSandboxPolicy) (p cwd : PathBuf)
    → policy.kind ≢ FileSystemSandboxKind.external_sandbox
    → Memᴰ (record { path = path p; access = FileSystemAccessMode.none }) existing.entries
    → is_normalized p ≡ true
    → can_read_path_with_cwd w (preserve_deny_read_restrictions_from policy existing) p cwd ≡ false
preserve_deny_read_restrictions_from-denies w policy existing p cwd k m h =
    deny_exact w (preserve_deny_read_restrictions_from policy existing) p cwd kind h listed
  where
    d : FileSystemSandboxEntry
    d = record { path = path p; access = FileSystemAccessMode.none }

    r : is_restricted (enforceable policy existing).kind ≡ true
    r = enforceable-restricted policy existing d k m refl

    kind : is_restricted (preserve_deny_read_restrictions_from policy existing).kind ≡ true
    kind = unfold preserve_deny_read_restrictions_from with_deny_entries in rw r r

    listed : Memᴰ d (preserve_deny_read_restrictions_from policy existing).entries
    listed =
        unfold preserve_deny_read_restrictions_from with_deny_entries in
        rw r
          (push_deny_entries-adds (enforceable policy existing).entries existing.entries d m refl)

-- A policy rebuilt from a legacy one denies the absolute, normalized paths that the old policy
-- denied by an entry of their own, where the rebuilt policy is restricted.
pub from_legacy_preserving-denies :
    (w : World) (sandbox_policy : SandboxPolicy) (existing : FileSystemSandboxPolicy)
    (p cwd : PathBuf)
    → is_restricted (from_legacy_sandbox_policy_for_cwd w sandbox_policy cwd).kind ≡ true
    → Memᴰ (record { path = path p; access = FileSystemAccessMode.none }) existing.entries
    → is_normalized p ≡ true
    → can_read_path_with_cwd w
        (from_legacy_sandbox_policy_preserving_deny_entries w sandbox_policy cwd existing)
        p
        cwd
      ≡ false
from_legacy_preserving-denies w sandbox_policy existing p cwd r m h =
    deny_exact w (from_legacy_sandbox_policy_preserving_deny_entries w sandbox_policy cwd existing)
      p cwd kind h listed
  where
    d : FileSystemSandboxEntry
    d = record { path = path p; access = FileSystemAccessMode.none }

    kind :
        is_restricted
          (from_legacy_sandbox_policy_preserving_deny_entries w sandbox_policy cwd existing).kind
        ≡ true
    kind = unfold from_legacy_sandbox_policy_preserving_deny_entries in rw r r

    listed :
        Memᴰ d
          (from_legacy_sandbox_policy_preserving_deny_entries w sandbox_policy cwd existing).entries
    listed =
        unfold from_legacy_sandbox_policy_preserving_deny_entries in
        rw r (
          push_deny_entries-adds (from_legacy_sandbox_policy_for_cwd w sandbox_policy cwd).entries
            existing.entries d m refl)
