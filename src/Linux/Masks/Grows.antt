-- ===== src/Linux/Masks/Grows.antt =====
-- Every step of bwrap_runner.rs only adds arguments behind those that are there.
use mathlib.Core.List.{foldl, append_assoc, append-nil}
use rattler_sandbox.Prelude.{
  String, ◌≡◌, ◌∙◌, refl, sym, ap, Option, none, some, List, [], ◌∷◌, ◌++◌, if_intro, if◌then◌else◌,
  is_some_and,
}
use rattler_sandbox.Paths.Std.{PathBuf, parent, file_name, path_text}
use rattler_sandbox.Policy.Metadata.{is_protected_metadata_name}
use rattler_sandbox.Linux.Host.{Host, Metadata}
use rattler_sandbox.Linux.Types.{CodexErr, fatal, BwrapArgs, Result, ok, err, or_io, ◌>>=◌}
use rattler_sandbox.Linux.Returns.{Returns, Returns-bind, Returns-imp}
use rattler_sandbox.Linux.Walk.{
  is_within_allowed_write_paths, first_writable_symlink_component_in_path,
  find_first_non_existent_component,
}
use rattler_sandbox.Linux.Masks.{
  append_empty_file_bind_data_args, with_null_file, append_missing_empty_file_bind_data_args,
  append_existing_empty_file_bind_data_args, append_missing_read_only_subpath_args,
  append_empty_directory_args, append_existing_empty_directory_args, append_missing_component,
  append_transient, append_stable_read_only, append_read_only_subpath_args,
  append_mount_target_parent_dir_args, dir_args, mount_target_dirs, EmptyProtectedMetadataPath,
  empty_file, empty_directory, transient_empty_metadata_path,
}

-- The second arguments are the first ones and more.
abbrev pub Extends : List String → List String → Type 0
Extends args longer = (new : List String) × (longer ≡ args ++ new)

pub Extends-trans : (a b c : List String) → Extends a b → Extends b c → Extends a c
Extends-trans a b c (m, p) (n, q) =
    (m ++ n, q ∙ ap (λ (l : List String). l ++ n) p ∙ append_assoc a m n)

pub Extends-refl : (a : List String) → Extends a a
Extends-refl a = ([], sym (append-nil a))

module _ (h : Host) where
  pub dirs-Extends :
      (args : List String) (target anchor : PathBuf)
      → Extends args (append_mount_target_parent_dir_args h args target anchor)
  unfolding append_mount_target_parent_dir_args
  dirs-Extends args target anchor =
      if_intro (Extends args) (h.world.is_dir target) (λ _. (_, refl))
        (λ _. by_parent (parent target))
    where
      by_parent :
          (o : Option PathBuf)
          → Extends args
              (elim o [ none ↦ args | some dir ↦ args ++ dir_args (mount_target_dirs dir anchor) ])
      by_parent none = Extends-refl args
      by_parent (some dir) = (_, refl)

  pub all_dirs-Extends :
      (anchor : PathBuf) (args : List String) (targets : List PathBuf)
      → Extends args
          (foldl (λ l path. append_mount_target_parent_dir_args h l path anchor) args targets)
  all_dirs-Extends anchor args [] = Extends-refl args
  all_dirs-Extends anchor args (t ∷ targets) =
      Extends-trans args _ _ (dirs-Extends args t anchor)
        (all_dirs-Extends anchor (append_mount_target_parent_dir_args h args t anchor) targets)

  abbrev SameArgs : BwrapArgs → BwrapArgs × String → Type 0
  SameArgs b (c, fd) = c.args ≡ b.args

  -- The descriptor that is used, and the arguments with the mask behind.
  null_file-Extends :
      (b : BwrapArgs) (fds : List String) → Returns (SameArgs b) (with_null_file h b fds)
  unfolding with_null_file
  null_file-Extends b (fd ∷ fds) = refl
  null_file-Extends b [] = by_open h.open_dev_null
    where
      by_open :
          (o : Option String)
          → Returns (SameArgs b) (or_io o >>= λ fd. ok (record b { preserved_files = fd ∷ [] }, fd))
      by_open none = tt
      by_open (some fd) = refl

  pub empty_file-masks :
      (b : BwrapArgs) (path : PathBuf)
      → Returns
          (λ c. (fd : String) × (c.args ≡ b.args ++ ("--ro-bind-data" ∷ fd ∷ path_text path ∷ [])))
          (append_empty_file_bind_data_args h b path)
  unfolding append_empty_file_bind_data_args
  empty_file-masks b path =
      Returns-bind (SameArgs b) _ (with_null_file h b b.preserved_files) _
        (null_file-Extends b b.preserved_files)
        (λ (c, fd) p.
          (fd, ap (λ (l : List String). l ++ ("--ro-bind-data" ∷ fd ∷ path_text path ∷ [])) p))

  pub empty_file-Extends :
      (b : BwrapArgs) (path : PathBuf)
      → Returns (λ c. Extends b.args c.args) (append_empty_file_bind_data_args h b path)
  empty_file-Extends b path =
      Returns-imp _ (λ c. Extends b.args c.args) _ (λ c (fd, p). (_, p)) (empty_file-masks b path)

  pub missing_file-Extends :
      (b : BwrapArgs) (path : PathBuf)
      → Returns (λ c. Extends b.args c.args) (append_missing_empty_file_bind_data_args h b path)
  unfolding append_missing_empty_file_bind_data_args
  missing_file-Extends b path =
      Returns-bind (λ c. Extends b.args c.args) (λ c. Extends b.args c.args) _ _
        (empty_file-Extends b path) (λ c e. e)

  existing_file-Extends :
      (b : BwrapArgs) (path : PathBuf) (m : Metadata)
      → Returns (λ c. Extends b.args c.args) (append_existing_empty_file_bind_data_args h b path m)
  unfolding append_existing_empty_file_bind_data_args
  existing_file-Extends b path m =
      Returns-bind (λ c. Extends b.args c.args) (λ c. Extends b.args c.args) _ _
        (empty_file-Extends b path) (λ c e. e)

  missing_subpath-Extends :
      (b : BwrapArgs) (path : PathBuf)
      → Returns (λ c. Extends b.args c.args) (append_missing_read_only_subpath_args h b path)
  unfolding append_missing_read_only_subpath_args append_empty_directory_args
  missing_subpath-Extends b path =
      if_intro (Returns (λ c. Extends b.args c.args))
        (is_some_and is_protected_metadata_name (file_name path)) (λ _. (_, refl))
        (λ _. missing_file-Extends b path)

  pub missing_component-Extends :
      (append : BwrapArgs → PathBuf → Result BwrapArgs)
      → ((b : BwrapArgs) (p : PathBuf) → Returns (λ c. Extends b.args c.args) (append b p))
      → (b : BwrapArgs) (path : PathBuf) (allowed : List PathBuf)
      → Returns (λ c. Extends b.args c.args) (append_missing_component h append b path allowed)
  unfolding append_missing_component
  missing_component-Extends append grows b path allowed =
      by_first (find_first_non_existent_component h path)
    where
      by_first :
          (o : Option PathBuf)
          → Returns
              (λ c. Extends b.args c.args)
              (elim o [
                | none ↦ ok b
                | some first ↦
                    if is_within_allowed_write_paths first allowed then append b first else ok b
              ])
      by_first none = Extends-refl b.args
      by_first (some first) =
          if_intro (Returns (λ c. Extends b.args c.args))
            (is_within_allowed_write_paths first allowed) (λ _. grows b first)
            (λ _. Extends-refl b.args)

  stable_read_only-Extends :
      (b : BwrapArgs) (p : PathBuf) (allowed : List PathBuf)
      → Returns (λ c. Extends b.args c.args) (append_stable_read_only h b p allowed)
  unfolding append_stable_read_only
  stable_read_only-Extends b p allowed =
      if_intro (Returns (λ c. Extends b.args c.args)) (h.world.exists p)
        (λ _.
          if_intro (Returns (λ c. Extends b.args c.args)) (is_within_allowed_write_paths p allowed)
            (λ _. (_, refl)) (λ _. Extends-refl b.args))
        (λ _.
          missing_component-Extends (append_missing_read_only_subpath_args h)
            missing_subpath-Extends b p allowed)

  transient-Extends :
      (b : BwrapArgs) (p : PathBuf) (m : EmptyProtectedMetadataPath)
      → Returns (λ c. Extends b.args c.args) (append_transient h b p m)
  unfolding append_transient append_existing_empty_directory_args append_empty_directory_args
  transient-Extends b p (empty_file m) = existing_file-Extends b p m
  transient-Extends b p (empty_directory m) = (_, refl)

  pub read_only_subpath-Extends :
      (b : BwrapArgs) (p : PathBuf) (allowed : List PathBuf)
      → Returns (λ c. Extends b.args c.args) (append_read_only_subpath_args h b p allowed)
  unfolding append_read_only_subpath_args
  read_only_subpath-Extends b p allowed =
      by_link (λ l. fatal _) (first_writable_symlink_component_in_path h p allowed)
        (transient_empty_metadata_path h p)
    where
      by_link :
          (e : PathBuf → CodexErr)
          → (link : Option PathBuf) (transient : Option EmptyProtectedMetadataPath)
          → Returns
              (λ c. Extends b.args c.args)
              (elim link [
                | some l ↦ err (e l)
                | none ↦ elim transient [
                  | some m ↦
                      if is_within_allowed_write_paths p allowed
                      then append_transient h b p m
                      else append_stable_read_only h b p allowed
                  | none ↦ append_stable_read_only h b p allowed
                ]
              ])
      by_link e (some l) m = tt
      by_link e none none = stable_read_only-Extends b p allowed
      by_link e none (some m) =
          if_intro (Returns (λ c. Extends b.args c.args)) (is_within_allowed_write_paths p allowed)
            (λ _. transient-Extends b p m) (λ _. stable_read_only-Extends b p allowed)
      -- What hides a denied path: an empty directory over a directory, with these permissions, or the
      -- null file over a file, from this descriptor.
