-- ===== src/Linux/Masks/Denied.antt =====
-- A denied path gets its mask in bwrap_runner.rs, behind the arguments that are there.
use mathlib.Core.List.{append_assoc, append-nil}
use rattler_sandbox.Prelude.{
  ◌⊎◌, inl, inr, Bool, String, ◌≡◌, ◌∙◌, refl, sym, ap, true, false, Option, none, some, List, [],
  ◌∷◌, ◌++◌, if_intro, if◌then◌else◌, is_empty,
}
use rattler_sandbox.Paths.Std.{PathBuf, path_text}
use rattler_sandbox.Linux.Host.{Host}
use rattler_sandbox.Linux.Types.{CodexErr, fatal, BwrapArgs, push_args, err}
use rattler_sandbox.Linux.Returns.{Returns, Returns-imp}
use rattler_sandbox.Linux.Walk.{first_writable_symlink_component_in_path}
use rattler_sandbox.Linux.Masks.{
  append_empty_file_bind_data_args, append_missing_empty_file_bind_data_args,
  append_missing_component, append_unreadable_root_args, append_existing_unreadable_path_args,
  sort_by_depth, writable_descendants_of,
}
use rattler_sandbox.Linux.Masks.Grows.{
  all_dirs-Extends, empty_file-masks, missing_file-Extends, missing_component-Extends, Extends,
}

module _ (h : Host) where
  abbrev pub mask_of : PathBuf → String → List String
  mask_of p detail =
      if h.world.is_dir p
      then "--perms" ∷ detail ∷ "--tmpfs" ∷ path_text p ∷ []
      else "--perms" ∷ "000" ∷ "--ro-bind-data" ∷ detail ∷ path_text p ∷ []

  -- The path is hidden by an argument behind all of `args`, a directory by an empty one that cannot
  -- be listed.
  pub record IsMaskedAfter (args : List String) (p : PathBuf) (longer : List String) : Type 0 where
    pub detail : String
    pub before : List String
    pub behind : List String
    pub parts : longer ≡ args ++ (before ++ (mask_of p detail ++ behind))
    pub unlisted : h.world.is_dir p ≡ true → (detail ≡ "000") ⊎ (detail ≡ "111")

  mask_of-dir :
      (p : PathBuf) (detail : String)
      → h.world.is_dir p ≡ true
      → ("--perms" ∷ detail ∷ "--tmpfs" ∷ path_text p ∷ []) ≡ mask_of p detail
  mask_of-dir p detail d = rw d refl

  mask_of-file :
      (p : PathBuf) (detail : String)
      → h.world.is_dir p ≡ false
      → ("--perms" ∷ "000" ∷ "--ro-bind-data" ∷ detail ∷ path_text p ∷ []) ≡ mask_of p detail
  mask_of-file p detail d = rw d refl

  pub existing_unreadable-masks :
      (b : BwrapArgs) (p : PathBuf) (allowed : List PathBuf)
      → Returns
          (λ c. IsMaskedAfter b.args p c.args)
          (append_existing_unreadable_path_args h b p allowed)
  unfolding append_existing_unreadable_path_args
  existing_unreadable-masks b p allowed =
      if_intro (Returns (λ c. IsMaskedAfter b.args p c.args)) (h.world.is_dir p)
        (λ d.
          let (dirs, e) =
            all_dirs-Extends h p (b.args ++ ("--perms" ∷ perms ∷ "--tmpfs" ∷ path_text p ∷ []))
              (sort_by_depth (writable_descendants_of h p allowed)) in
          let frozen : List String = "--remount-ro" ∷ path_text p ∷ [] in
          record {
            detail = perms;
            before = [];
            behind = dirs ++ frozen;
            parts =
                ap (λ (l : List String). l ++ frozen) e
                ∙ append_assoc (b.args ++ ("--perms" ∷ perms ∷ "--tmpfs" ∷ path_text p ∷ [])) dirs
                    frozen
                ∙ append_assoc b.args ("--perms" ∷ perms ∷ "--tmpfs" ∷ path_text p ∷ [])
                    (dirs ++ frozen)
                ∙ ap (λ (m : List String). b.args ++ (m ++ (dirs ++ frozen)))
                    (mask_of-dir p perms d);
            unlisted = λ _. unlisted_perms (is_empty (writable_descendants_of h p allowed));
          })
        (λ d.
          Returns-imp (FileMasked (push_args b ("--perms" ∷ "000" ∷ [])))
            (λ c. IsMaskedAfter b.args p c.args)
            (append_empty_file_bind_data_args h (push_args b ("--perms" ∷ "000" ∷ [])) p)
            (λ c (fd, e). record {
              detail = fd;
              before = [];
              behind = [];
              parts =
                  e
                  ∙ append_assoc b.args ("--perms" ∷ "000" ∷ [])
                      ("--ro-bind-data" ∷ fd ∷ path_text p ∷ [])
                  ∙ ap (λ (m : List String). b.args ++ m)
                      (mask_of-file p fd d ∙ sym (append-nil (mask_of p fd)));
              unlisted = λ i. absurd (cc (i, d));
            })
            (empty_file-masks h (push_args b ("--perms" ∷ "000" ∷ [])) p))
    where
      perms : String
      perms = if is_empty (writable_descendants_of h p allowed) then "000" else "111"

      unlisted_perms :
          (b : Bool) → let s : String = if b then "000" else "111" in (s ≡ "000") ⊎ (s ≡ "111")
      unlisted_perms true = inl refl
      unlisted_perms false = inr refl

      FileMasked : BwrapArgs → BwrapArgs → Type 0
      FileMasked b c =
          (fd : String) × (c.args ≡ b.args ++ ("--ro-bind-data" ∷ fd ∷ path_text p ∷ []))

  -- What a masked path keeps when arguments are added.
  pub IsMaskedAfter-Extends :
      (args : List String) (p : PathBuf) (l m : List String)
      → IsMaskedAfter args p l
      → Extends l m
      → IsMaskedAfter args p m
  IsMaskedAfter-Extends args p l m k (new, e) = record {
    detail = k.detail;
    before = k.before;
    behind = k.behind ++ new;
    parts =
        e
        ∙ ap (λ (x : List String). x ++ new) k.parts
        ∙ append_assoc args (k.before ++ (mask_of p k.detail ++ k.behind)) new
        ∙ ap (λ (x : List String). args ++ x)
            (append_assoc k.before (mask_of p k.detail ++ k.behind) new
              ∙ ap (λ (x : List String). k.before ++ x)
                  (append_assoc (mask_of p k.detail) k.behind new));
    unlisted = k.unlisted;
  }

  pub IsMaskedAfter-first :
      (args more : List String) (p : PathBuf) (l : List String)
      → Extends args more
      → IsMaskedAfter more p l
      → IsMaskedAfter args p l
  IsMaskedAfter-first args more p l (new, e) k = record {
    detail = k.detail;
    before = new ++ k.before;
    behind = k.behind;
    parts =
        k.parts
        ∙ ap (λ (x : List String). x ++ (k.before ++ (mask_of p k.detail ++ k.behind))) e
        ∙ append_assoc args new _
        ∙ ap (λ (x : List String). args ++ x) (sym (append_assoc new k.before _));
    unlisted = k.unlisted;
  }

  pub Extends-of_masked :
      (args : List String) (p : PathBuf) (l : List String) → IsMaskedAfter args p l → Extends args l
  Extends-of_masked args p l k = (_, k.parts)

  -- A denied path that is appended crosses no writable symbolic link, is masked if it exists, and
  -- only adds arguments.
  pub record IsDenied (allowed : List PathBuf) (p : PathBuf) (args longer : List String)
      : Type 0 where
    pub no_link : first_writable_symlink_component_in_path h p allowed ≡ none
    pub masked : h.world.exists p ≡ true → IsMaskedAfter args p longer
    pub extends : Extends args longer

  pub append_unreadable_root_args-IsDenied :
      (b : BwrapArgs) (p : PathBuf) (allowed : List PathBuf)
      → Returns (λ c. IsDenied allowed p b.args c.args) (append_unreadable_root_args h b p allowed)
  unfolding append_unreadable_root_args
  append_unreadable_root_args-IsDenied b p allowed =
      by_link (λ l. fatal _) (first_writable_symlink_component_in_path h p allowed) refl
    where
      by_link :
          (e : PathBuf → CodexErr)
          → (link : Option PathBuf) → first_writable_symlink_component_in_path h p allowed ≡ link
          → Returns
              (λ c. IsDenied allowed p b.args c.args)
              (elim link [
                | some l ↦ err (e l)
                | none ↦
                    if h.world.exists p
                    then append_existing_unreadable_path_args h b p allowed
                    else append_missing_component h
                        (append_missing_empty_file_bind_data_args h)
                        b
                        p
                        allowed
              ])
      by_link e (some l) q = tt
      by_link e none q =
          if_intro (Returns (λ c. IsDenied allowed p b.args c.args)) (h.world.exists p)
            (λ _.
              Returns-imp (λ c. IsMaskedAfter b.args p c.args)
                (λ c. IsDenied allowed p b.args c.args) _
                (λ c m. record {
                  no_link = q;
                  masked = λ _. m;
                  extends = Extends-of_masked b.args p c.args m;
                })
                (existing_unreadable-masks b p allowed))
            (λ x.
              Returns-imp (λ c. Extends b.args c.args) (λ c. IsDenied allowed p b.args c.args) _
                (λ c m. record { no_link = q; masked = λ y. absurd (cc (x, y)); extends = m })
                (missing_component-Extends h (append_missing_empty_file_bind_data_args h)
                  (missing_file-Extends h) b p allowed))
