-- ===== src/Linux/Walk/Prefixes.antt =====
-- The walks of bwrap_runner.rs against the prefixes of a path.
use rattler_sandbox.Prelude.{
  ◌≡◌, ◌⊎◌, ◌∙◌, refl, sym, ap, Bool, true, false, not, ◌&&◌, Option, none, some, List, [], ◌∷◌,
  ◌++◌, arith, find, if◌then◌else◌, inl, inr,
}
use rattler_sandbox.Paths.Std.{PathBuf, Component, root_dir, cur_dir, parent_dir, normal, push}
use rattler_sandbox.Paths.Normal.{is_normalized, all_normal}
use rattler_sandbox.Linux.Host.{
  Host, IoResult, found, not_found, other_error, is_symlink_type, Metadata,
}
use rattler_sandbox.Linux.Walk.{
  walk, missing_at, find_first_non_existent_component, writable_symlink_at,
  first_writable_symlink_component_in_path, is_within_allowed_write_paths,
}

-- `done` with one more of the components, with two more, and so on.
abbrev pub longer_prefixes : PathBuf → PathBuf → List PathBuf
longer_prefixes done [] = []
longer_prefixes done (c ∷ rest) = (done ++ (c ∷ [])) ∷ longer_prefixes (done ++ (c ∷ [])) rest

-- The paths that lead to a path, below the root, the path itself the last.
abbrev pub prefixes : PathBuf → List PathBuf
prefixes (root_dir ∷ names) = longer_prefixes (root_dir ∷ []) names
prefixes _ = []

-- The first answer that is one.
abbrev first_answer {ℓ} : {A : Type ℓ} → (PathBuf → Option A) → A → List PathBuf → A
first_answer visit missing [] = missing
first_answer visit missing (p ∷ ps) = elim (visit p) [
  | none ↦ first_answer visit missing ps
  | some a ↦ a
]

walk-names {ℓ} :
    {A : Type ℓ} (visit : PathBuf → Option A) (missing : A) (d : Component) (done names : PathBuf)
    → all_normal names ≡ true
    → walk visit missing (d ∷ done) names
      ≡ first_answer visit missing (longer_prefixes (d ∷ done) names)
unfolding walk push
walk-names visit missing d done [] h = refl
walk-names visit missing d done (root_dir ∷ names) h = absurd (ground arith)
walk-names visit missing d done (cur_dir ∷ names) h = absurd (ground arith)
walk-names visit missing d done (parent_dir ∷ names) h = absurd (ground arith)
walk-names visit missing d done (normal n ∷ names) h =
    ap (λ rest. elim (visit (d ∷ (done ++ (normal n ∷ [])))) [ none ↦ rest | some a ↦ a ])
      (walk-names visit missing d (done ++ (normal n ∷ [])) names h)

walk-normalized {ℓ} :
    {A : Type ℓ} (visit : PathBuf → Option A) (missing : A) (p : PathBuf)
    → is_normalized p ≡ true
    → walk visit missing [] p ≡ first_answer visit missing (prefixes p)
unfolding walk push
walk-normalized visit missing [] h = absurd (ground arith)
walk-normalized visit missing (root_dir ∷ names) h = walk-names visit missing root_dir [] names h
walk-normalized visit missing (cur_dir ∷ names) h = absurd (ground arith)
walk-normalized visit missing (parent_dir ∷ names) h = absurd (ground arith)
walk-normalized visit missing (normal _ ∷ names) h = absurd (ground arith)

module _ (h : Host) where
  first_missing :
      (ps : List PathBuf)
      → first_answer (missing_at h) none ps ≡ find (λ q. not (h.world.exists q)) ps
  unfolding missing_at
  first_missing [] = refl
  first_missing (p ∷ ps) = ground (arith, first_missing ps)

  -- For an absolute, normalized path the walk finds the first of the paths that lead to it that does
  -- not exist, if there is one.
  pub find_first_non_existent_component_lem :
      (p : PathBuf)
      → is_normalized p ≡ true
      → find_first_non_existent_component h p ≡ find (λ q. not (h.world.exists q)) (prefixes p)
  unfolding find_first_non_existent_component
  find_first_non_existent_component_lem p n =
      walk-normalized (missing_at h) none p n ∙ first_missing (prefixes p)

  -- The path is one of these, and those before it can be looked at.
  abbrev pub IsReached : PathBuf → List PathBuf → Type 0
  IsReached q [] = ⊥
  IsReached q (p ∷ ps) =
      (q ≡ p) ⊎ (((m : Metadata) × (h.symlink_metadata p ≡ found m)) × IsReached q ps)

  -- What is there is a link that can be replaced from inside.
  abbrev pub is_writable_link : List PathBuf → PathBuf → Metadata → Bool
  is_writable_link allowed q m =
      is_symlink_type m.file_type && is_within_allowed_write_paths q allowed

  abbrev link_answer : List PathBuf → PathBuf → IoResult Metadata → Option (Option PathBuf)
  link_answer allowed p o = elim o [
    | found n ↦
        if is_symlink_type n.file_type && is_within_allowed_write_paths p allowed
        then some (some p)
        else none
    | not_found ↦ some none
    | other_error ↦ some none
  ]

  abbrev or_later : Option (Option PathBuf) → Option PathBuf → Option PathBuf
  or_later none later = later
  or_later (some a) later = a

  links_none :
      (allowed : List PathBuf) (ps : List PathBuf)
      → first_answer (writable_symlink_at h allowed) none ps ≡ none
      → (q : PathBuf) (m : Metadata) → IsReached q ps
      → h.symlink_metadata q ≡ found m
      → is_writable_link allowed q m ≡ false
  unfolding writable_symlink_at
  links_none allowed [] e q m r f = absurd r
  links_none allowed (p ∷ ps) e q m (inl s) f = by_link (is_writable_link allowed q m) (
      ap (λ (o : IoResult Metadata). or_later (link_answer allowed q o) later) (sym f)
      ∙ ap (λ x. or_later (link_answer allowed x (h.symlink_metadata x)) later) s
      ∙ same (link_answer allowed p (h.symlink_metadata p))
      ∙ e)
    where
      later : Option PathBuf
      later = first_answer (writable_symlink_at h allowed) none ps

      same : (o : Option (Option PathBuf)) → or_later o later ≡ elim o [ none ↦ later | some a ↦ a ]
      same none = refl
      same (some a) = refl

      by_link : (b : Bool) → or_later (if b then some (some q) else none) later ≡ none → b ≡ false
      by_link false e = refl
      by_link true e = absurd (cc e)
  links_none allowed (p ∷ ps) e q m (inr ((n, k), r)) f =
      links_none allowed ps
        (passed (is_writable_link allowed p n) (
          ap (λ (o : IoResult Metadata). or_later (link_answer allowed p o) later) (sym k)
          ∙ same (link_answer allowed p (h.symlink_metadata p))
          ∙ e))
        q m r f
    where
      later : Option PathBuf
      later = first_answer (writable_symlink_at h allowed) none ps

      same : (o : Option (Option PathBuf)) → or_later o later ≡ elim o [ none ↦ later | some a ↦ a ]
      same none = refl
      same (some a) = refl

      passed : (b : Bool) → or_later (if b then some (some p) else none) later ≡ none → later ≡ none
      passed false e = e
      passed true e = absurd (cc e)

  -- If the walk finds no link then, for an absolute, normalized path, none of the paths that lead to
  -- it, which can be looked at up to there, is a symbolic link below a writable path.
  pub first_writable_symlink_component-none :
      (p : PathBuf) (allowed : List PathBuf)
      → is_normalized p ≡ true
      → first_writable_symlink_component_in_path h p allowed ≡ none
      → (q : PathBuf) (m : Metadata) → IsReached q (prefixes p)
      → h.symlink_metadata q ≡ found m
      → is_writable_link allowed q m ≡ false
  unfolding first_writable_symlink_component_in_path
  first_writable_symlink_component-none p allowed n e =
      links_none allowed (prefixes p)
        (sym (walk-normalized (writable_symlink_at h allowed) none p n) ∙ e)
