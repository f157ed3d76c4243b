-- ===== src/Linux/Plan/Order.antt =====
-- The order of the mounts of bwrap_runner.rs: a denied path is hidden behind the bind that covers it.
use mathlib.Core.List.{Memᴰ}
use mathlib.Core.Path.{subst}
use rattler_sandbox.Prelude.{
  String, ◌≡◌, ◌∙◌, refl, sym, true, ◌||◌, Option, none, some, List, [], ◌∷◌, ◌++◌, if_intro,
  filter, contains, unwrap_or, foldl-keeps,
}
use rattler_sandbox.Paths.Std.{PathBuf, path_eq, path_text, starts_with}
use rattler_sandbox.Policy.Types.{WritableRoot}
use rattler_sandbox.Linux.Host.{Host}
use rattler_sandbox.Linux.Types.{BwrapArgs, Result, ok, err, for_each}
use rattler_sandbox.Linux.Returns.{Returns, Returns-bind, Returns-imp, for_each-keeps}
use rattler_sandbox.Linux.Walk.{
  canonical_target_if_symlinked_path, first_writable_symlink_component_in_path,
}
use rattler_sandbox.Linux.Masks.{append_mount_target_parent_dir_args, sort_by_depth}
use rattler_sandbox.Linux.Masks.Grows.{
  Extends, Extends-trans, Extends-refl, read_only_subpath-Extends, dirs-Extends,
}
use rattler_sandbox.Linux.Masks.Denied.{
  IsMaskedAfter, IsMaskedAfter-Extends, IsMaskedAfter-first, IsDenied,
  append_unreadable_root_args-IsDenied,
}
use rattler_sandbox.Linux.Plan.{
  deepest, bind_writable_root, metadata_path_in_root, nested_unreadable_roots,
  append_protected_create_targets_for_writable_root, read_only_subpaths_to_mount, append_unreadable,
  mount_writable_root,
}

pub for_both :
    (P Q R : BwrapArgs → Type 0) (m : Result BwrapArgs)
    → Returns P m
    → Returns Q m
    → ((b : BwrapArgs) → P b → Q b → R b)
    → Returns R m
for_both P Q R (ok b) p q k = k b p q
for_both P Q R (err e) p q k = tt

module _ (h : Host) where
  -- What a loop over denied paths gives: each of them, and nothing lost.
  pub denied_loop-Extends :
      (allowed : List PathBuf) (b : BwrapArgs) (ps : List PathBuf)
      → Returns (λ c. Extends b.args c.args) (for_each (append_unreadable h allowed) b ps)
  denied_loop-Extends allowed b ps =
      for_each-keeps (append_unreadable h allowed) (λ c. Extends b.args c.args)
        (λ s p e.
          Returns-imp (λ c. IsDenied h allowed p s.args c.args) (λ c. Extends b.args c.args) _
            (λ c d. Extends-trans b.args s.args c.args e d.extends)
            (append_unreadable_root_args-IsDenied h s p allowed))
        b ps (Extends-refl b.args)

  -- Hidden behind `args`, where it exists, and reached through no writable symbolic link.
  abbrev pub IsHidden : List PathBuf → List String → PathBuf → List String → Type 0
  IsHidden allowed args p longer =
      (first_writable_symlink_component_in_path h p allowed ≡ none)
      × (h.world.exists p ≡ true → IsMaskedAfter h args p longer)

  pub IsHidden-Extends :
      (allowed : List PathBuf) (args : List String) (p : PathBuf) (l m : List String)
      → IsHidden allowed args p l
      → Extends l m
      → IsHidden allowed args p m
  IsHidden-Extends allowed args p l m (q, k) e =
      (q, λ x. IsMaskedAfter-Extends h args p l m (k x) e)

  pub denied_loop-hides :
      (allowed : List PathBuf) (ps : List PathBuf) (p : PathBuf)
      → Memᴰ p ps
      → (b : BwrapArgs)
      → Returns
          (λ c. IsHidden allowed b.args p c.args)
          (for_each (append_unreadable h allowed) b ps)
  unfolding for_each
  denied_loop-hides allowed [] p m b = elim m [ ]
  denied_loop-hides allowed (x ∷ ps) p (Memᴰ.head e) b =
      Returns-bind (λ c. IsDenied h allowed x b.args c.args) (λ d. IsHidden allowed b.args p d.args)
        _ _ (append_unreadable_root_args-IsDenied h b x allowed)
        (λ c k.
          Returns-imp (λ d. Extends c.args d.args) (λ d. IsHidden allowed b.args p d.args) _
            (λ d more.
              IsHidden-Extends allowed b.args p c.args d.args
                (subst (λ q. IsHidden allowed b.args q c.args) (sym e) (k.no_link, k.masked)) more)
            (denied_loop-Extends allowed c ps))
  denied_loop-hides allowed (x ∷ ps) p (Memᴰ.tail m) b =
      Returns-bind (λ c. IsDenied h allowed x b.args c.args) (λ d. IsHidden allowed b.args p d.args)
        _ _ (append_unreadable_root_args-IsDenied h b x allowed)
        (λ c k.
          Returns-imp (λ d. IsHidden allowed c.args p d.args)
            (λ d. IsHidden allowed b.args p d.args) _
            (λ d (q, f).
              (q, λ there. IsMaskedAfter-first h b.args c.args p d.args k.extends (f there)))
            (denied_loop-hides allowed ps p m c))

  -- The arguments up to the bind of a root, and what the bind adds.
  abbrev pub bind_args : PathBuf → List String
  bind_args target = "--bind" ∷ path_text target ∷ path_text target ∷ []

  bind_writable_root-binds :
      (b : BwrapArgs) (us : List PathBuf) (root target : PathBuf)
      → (upto : List String) × Extends b.args upto
        × ((bind_writable_root h b us root target).args ≡ upto ++ bind_args target)
  unfolding bind_writable_root
  bind_writable_root-binds b us root target =
      by_mask (deepest (filter (λ u. starts_with root u) us))
    where
      by_mask :
          (o : Option PathBuf)
          → let opened : List String = elim o [
            | none ↦ b.args
            | some masking_root ↦ append_mount_target_parent_dir_args h b.args root masking_root
          ] in
            (upto : List String) × Extends b.args upto
            × ((opened ++ bind_args target) ≡ upto ++ bind_args target)
      by_mask none = (b.args, Extends-refl b.args, refl)
      by_mask (some m) = (_, dirs-Extends h b.args root m, refl)

  protected-args :
      (b : BwrapArgs) (names : List String) (root : PathBuf) (link : Option PathBuf)
      → (subpaths : List PathBuf)
      → (append_protected_create_targets_for_writable_root h b names root link subpaths).args
        ≡ b.args
  unfolding append_protected_create_targets_for_writable_root
  protected-args b names root link subpaths =
      foldl-keeps _ (λ c. c.args ≡ b.args)
        (λ c name e.
          if_intro (λ (d : BwrapArgs). d.args ≡ b.args)
            (contains (metadata_path_in_root h root link name) subpaths
              || h.world.exists (metadata_path_in_root h root link name))
            (λ _. e) (λ _. e))
        b names refl

  abbrev pub link_of : WritableRoot → Option PathBuf
  link_of r = canonical_target_if_symlinked_path h r.root

  abbrev pub bind_target : WritableRoot → PathBuf
  bind_target r = unwrap_or (link_of r) r.root

  -- Behind the bind of the root, which stands behind `args`.
  pub record IsHiddenInRoot (allowed : List PathBuf) (r : WritableRoot) (p : PathBuf)
      (args longer : List String) : Type 0 where
    pub upto : List String
    pub later : Extends args upto
    pub bound : Extends (upto ++ bind_args (bind_target r)) longer
    pub hidden : IsHidden allowed (upto ++ bind_args (bind_target r)) p longer

  module _ (us auto allowed : List PathBuf) (r : WritableRoot) where
    mount_writable_root-step :
        (Q : BwrapArgs → Type 0)
        → (b : BwrapArgs)
        → ((c : BwrapArgs)
            → (upto : List String) → Extends b.args upto
            → Extends (upto ++ bind_args (bind_target r)) c.args
            → Returns Q (
                for_each
                  (append_unreadable h allowed)
                  c
                  (nested_unreadable_roots h us r.root (link_of r))))
        → Returns Q (mount_writable_root h us auto allowed b r)
    unfolding mount_writable_root
    mount_writable_root-step Q b k =
        let (upto, later, bound) = bind_writable_root-binds b us r.root (bind_target r) in
        let subpaths : List PathBuf = read_only_subpaths_to_mount h r us auto (link_of r) in
        let protected : BwrapArgs =
          append_protected_create_targets_for_writable_root h
            (bind_writable_root h b us r.root (bind_target r)) r.protected_metadata_names r.root
            (link_of r) subpaths in
        Returns-bind (λ c. Extends protected.args c.args) Q _ _
          (for_each-keeps _ (λ c. Extends protected.args c.args)
            (λ s p e.
              Returns-imp (λ c. Extends s.args c.args) (λ c. Extends protected.args c.args) _
                (λ c d. Extends-trans protected.args s.args c.args e d)
                (read_only_subpath-Extends h s p allowed))
            protected (sort_by_depth subpaths) (Extends-refl protected.args))
          (λ c e. k c upto later (
            subst (λ (x : List String). Extends x c.args)
              (protected-args _ r.protected_metadata_names r.root (link_of r) subpaths ∙ bound) e))

    pub mount_writable_root-Extends :
        (b : BwrapArgs)
        → Returns (λ c. Extends b.args c.args) (mount_writable_root h us auto allowed b r)
    mount_writable_root-Extends b =
        mount_writable_root-step (λ c. Extends b.args c.args) b
          (λ c upto later bound.
            Returns-imp (λ d. Extends c.args d.args) (λ d. Extends b.args d.args) _
              (λ d e. Extends-trans b.args upto d.args later (
                Extends-trans upto _ d.args (_, refl)
                  (Extends-trans (upto ++ bind_args (bind_target r)) c.args d.args bound e)))
              (denied_loop-Extends allowed c _))

    pub mount_writable_root-hides :
        (p : PathBuf)
        → Memᴰ p (nested_unreadable_roots h us r.root (link_of r))
        → (b : BwrapArgs)
        → Returns
            (λ c. IsHiddenInRoot allowed r p b.args c.args)
            (mount_writable_root h us auto allowed b r)
    mount_writable_root-hides p m b =
        mount_writable_root-step (λ c. IsHiddenInRoot allowed r p b.args c.args) b
          (λ c upto later bound.
            for_both (λ d. Extends c.args d.args) (λ d. IsHidden allowed c.args p d.args)
              (λ d. IsHiddenInRoot allowed r p b.args d.args) _ (denied_loop-Extends allowed c _)
              (denied_loop-hides allowed _ p m c)
              (λ d e (q, f). record {
                upto = upto;
                later = later;
                bound = Extends-trans (upto ++ bind_args (bind_target r)) c.args d.args bound e;
                hidden = (q, λ there. IsMaskedAfter-first h _ c.args p d.args bound (f there));
              }))
