-- ===== src/Policy/Reported.antt =====
-- policy.rs: which writes `forbidden_agent_metadata_write` reports.
use mathlib.Core.List.{Memᴰ}
use mathlib.Core.Path.{subst}
use rattler_sandbox.Prelude.{
  String, not, is_some, ◌≡◌, refl, sym, ap, ◌∙◌, ◌⊎◌, inl, inr, Bool, true, false, ◌&&◌, Option,
  none, some, List, [], ◌∷◌, ◌++◌, arith, if◌then◌else◌, ◌>>=◌, mem_of_any, any_of_mem,
}
use rattler_sandbox.World.{World}
use rattler_sandbox.Paths.Std.{PathBuf, normal, starts_with}
use rattler_sandbox.Paths.Absolute.{AbsolutePathBuf, join}
use rattler_sandbox.Paths.Guarantees.{HasAbsoluteDir}
use rattler_sandbox.Policy.Types.{write, FileSystemSandboxPolicy, ResolvedFileSystemEntry}
use rattler_sandbox.Policy.Grants.{is_restricted, can_write, has_full_disk_write_access}
use rattler_sandbox.Policy.Resolve.{
  resolve_candidate_path, resolved_entries_with_cwd, resolve_access_with_cwd,
}
use rattler_sandbox.Policy.Metadata.{
  metadata_child_of_entry, metadata_child_of_writable_root,
  has_explicit_write_entry_for_metadata_path, forbidden_agent_metadata_write,
  can_write_path_with_cwd, is_metadata_write_denied, is_target_write_denied,
}
use rattler_sandbox.Policy.Protect.{unopened_metadata, forbidden_agent_metadata_write-unopened}
use rattler_sandbox.Policy.First.{First, First-head, none_of_head}
use rattler_sandbox.Policy.Child.{
  IsMetadata, write_of_can_write, metadata_child_of_entry-IsMetadata, metadata_child_of_entry-none,
}

-- The first entry that has the target in its protected metadata, and the name of that metadata.
pub record FirstMetadata (entries : List ResolvedFileSystemEntry) (target : PathBuf) (name : String)
    : Type 0 where
  pub before : List ResolvedFileSystemEntry
  pub owner : ResolvedFileSystemEntry
  pub after : List ResolvedFileSystemEntry
  pub parts : entries ≡ before ++ (owner ∷ after)
  pub inside : IsMetadata target owner name
  pub others :
      (e : ResolvedFileSystemEntry) (other : String) → Memᴰ e before → ¬ IsMetadata target e other

-- A write entry at or below the metadata path is over the target.
abbrev pub Opens : List ResolvedFileSystemEntry → AbsolutePathBuf → PathBuf → Type 0
Opens entries metadata target =
    (f : ResolvedFileSystemEntry) × Memᴰ f entries
    × (f.access ≡ write)
    × (starts_with target f.path ≡ true)
    × (starts_with f.path metadata ≡ true)

no-IsMetadata :
    (t : PathBuf) (e : ResolvedFileSystemEntry) (name : String)
    → (can_write e.access ≡ true → metadata_child_of_entry t e ≡ none)
    → ¬ IsMetadata t e name
no-IsMetadata t e name h m = metadata_child_of_entry-none t e name (h (ap can_write m.writable)) m

module _ (w : World) (policy : FileSystemSandboxPolicy) (target cwd : PathBuf) where
  abbrev entries : List ResolvedFileSystemEntry
  entries = resolved_entries_with_cwd w policy cwd

  opened :
      (t metadata : AbsolutePathBuf)
      → has_explicit_write_entry_for_metadata_path w policy metadata t cwd ≡ true
      → Opens entries metadata t
  unfolding has_explicit_write_entry_for_metadata_path
  opened t metadata h =
      let (f, m, k) = mem_of_any _ entries h in
      (f, m, write_of_can_write f.access (ground (arith, k)), ground (arith, k), ground (arith, k))

  not_opened :
      (t metadata : AbsolutePathBuf)
      → has_explicit_write_entry_for_metadata_path w policy metadata t cwd ≡ false
      → ¬ Opens entries metadata t
  unfolding has_explicit_write_entry_for_metadata_path
  not_opened t metadata h (f, m, a, over, below) =
      let present =
        any_of_mem (λ e. can_write e.access && starts_with t e.path && starts_with e.path metadata)
          f entries m (rw (a, over, below) refl) in
      absurd (cc (h, present))

  -- What is reported for the resolved target: nothing, as no entry has it in its metadata; or the
  -- metadata of the first entry that has, unless a write entry opens it.
  abbrev pub Reports : AbsolutePathBuf → Type 0
  Reports t =
      ((forbidden_agent_metadata_write w target cwd policy ≡ none)
        × ((e : ResolvedFileSystemEntry) (name : String) → Memᴰ e entries → ¬ IsMetadata t e name))
      ⊎ ((name : String) × (first : FirstMetadata entries t name)
          × (((forbidden_agent_metadata_write w target cwd policy ≡ some name)
                × (¬ Opens entries (join first.owner.path (normal name ∷ [])) t))
              ⊎ ((forbidden_agent_metadata_write w target cwd policy ≡ none)
                  × Opens entries (join first.owner.path (normal name ∷ [])) t)))

  by_opened :
      (t metadata : AbsolutePathBuf) (name : String)
      → First (λ e. can_write e.access) (metadata_child_of_entry t) entries (metadata, name)
      → (b : Bool) → has_explicit_write_entry_for_metadata_path w policy metadata t cwd ≡ b
      → forbidden_agent_metadata_write w target cwd policy ≡ (if b then none else some name)
      → Reports t
  by_opened t metadata name first b e k = inr (name, owned, by_test b e k)
    where
      child : IsMetadata t first.found name × (join first.found.path (normal name ∷ []) ≡ metadata)
      child =
          metadata_child_of_entry-IsMetadata t first.found metadata name first.passes first.image

      owned : FirstMetadata entries t name
      owned = record {
        before = first.before;
        owner = first.found;
        after = first.after;
        parts = first.parts;
        inside = child.0;
        others = λ e other m. no-IsMetadata t e other (first.others e m);
      }

      by_test :
          (b : Bool)
          → has_explicit_write_entry_for_metadata_path w policy metadata t cwd ≡ b
          → forbidden_agent_metadata_write w target cwd policy ≡ (if b then none else some name)
          → ((forbidden_agent_metadata_write w target cwd policy ≡ some name)
              × (¬ Opens entries (join first.found.path (normal name ∷ [])) t))
            ⊎ ((forbidden_agent_metadata_write w target cwd policy ≡ none)
                × Opens entries (join first.found.path (normal name ∷ [])) t)
      by_test true e k = inr (k, subst (λ p. Opens entries p t) (sym child.1) (opened t metadata e))
      by_test false e k =
          inl (k, subst (λ p. ¬ Opens entries p t) (sym child.1) (not_opened t metadata e))

  -- In a restricted policy that does not write the whole disk, in a process whose directory is
  -- absolute, for a target that can be resolved: if no write entry has the target in protected
  -- metadata directly in it (in .git, .agents or .codex), nothing is reported. Else the first such
  -- entry counts: the name of its metadata is reported if no write entry at or below the path of that
  -- metadata is over the target, and nothing is reported if there is one.
  pub forbidden_agent_metadata_write_lem :
      {t : AbsolutePathBuf}
      → HasAbsoluteDir w
      → is_restricted policy.kind ≡ true
      → has_full_disk_write_access policy ≡ false
      → resolve_candidate_path w target cwd ≡ some t
      → Reports t
  unfolding metadata_child_of_writable_root
  forbidden_agent_metadata_write_lem {t} d r f h =
      by_child (metadata_child_of_writable_root w policy t cwd) refl (
        forbidden_agent_metadata_write-unopened w policy target cwd d r f
        ∙ ap (λ o. o >>= unopened_metadata w policy target cwd) h)
    where
      by_child :
          (o : Option (AbsolutePathBuf × String))
          → metadata_child_of_writable_root w policy t cwd ≡ o
          → forbidden_agent_metadata_write w target cwd policy ≡ (
              o >>= λ (p, name).
              if has_explicit_write_entry_for_metadata_path w policy p t cwd
              then none
              else some name)
          → Reports t
      by_child none e k = inl (
        k,
        λ x name m.
            no-IsMetadata t x name
              (none_of_head (λ e. can_write e.access) (metadata_child_of_entry t) entries e x m),
      )
      by_child (some (metadata, name)) e k =
          by_opened t metadata name
            (First-head (λ e. can_write e.access) (metadata_child_of_entry t) entries
              (metadata, name) e)
            (has_explicit_write_entry_for_metadata_path w policy metadata t cwd) refl k

  -- In a restricted policy that does not write the whole disk, in a process whose directory is
  -- absolute, a write to a target that can be resolved and whose entry grants writing is reported
  -- exactly where the policy does not let it be written.
  pub forbidden_agent_metadata_write-can_write :
      {t : AbsolutePathBuf}
      → HasAbsoluteDir w
      → is_restricted policy.kind ≡ true
      → has_full_disk_write_access policy ≡ false
      → resolve_candidate_path w target cwd ≡ some t
      → resolve_access_with_cwd w policy target cwd ≡ write
      → is_some (forbidden_agent_metadata_write w target cwd policy)
        ≡ not (can_write_path_with_cwd w policy target cwd)
  unfolding can_write_path_with_cwd is_metadata_write_denied is_target_write_denied
  forbidden_agent_metadata_write-can_write {t} d r f h a =
      rw (forbidden_agent_metadata_write-unopened w policy target cwd d r f, h, a, f, r)
        (by_child (metadata_child_of_writable_root w policy t cwd))
    where
      by_child :
          (o : Option (AbsolutePathBuf × String))
          → is_some (
              o >>= λ (p, name).
              if has_explicit_write_entry_for_metadata_path w policy p t cwd
              then none
              else some name)
            ≡ not (
                not (elim o [
                  | none ↦ false
                  | some (p, name) ↦
                      not (has_explicit_write_entry_for_metadata_path w policy p t cwd)
                ]))
      by_child none = refl
      by_child (some (p, name)) = ground arith
