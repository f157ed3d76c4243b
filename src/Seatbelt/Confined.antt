-- ===== src/Seatbelt/Confined.antt =====
-- seatbelt.rs: what the file rules of the whole profile open, with the parameters of the command line.
use rattler_sandbox.Prelude.{
  String, Bool, true, false, not, ◌&&◌, List, [], ◌∷◌, map, ◌≡◌, refl, sym, ap, ◌∙◌, any,
  if◌then◌else◌, string_eq, is_empty_text, filter, mem_of_any, mem_of_map,
}
use Prim.Native.String.append.{cons}
use mathlib.Core.List.{Memᴰ}
use mathlib.Core.Path.{subst}
use rattler_sandbox.World.{World}
use rattler_sandbox.Url.{UrlCrate}
use rattler_sandbox.Paths.Std.{PathBuf, starts_with}
use rattler_sandbox.Paths.Absolute.{AbsolutePathBuf}
use rattler_sandbox.Policy.Types.{WritableRoot}
use rattler_sandbox.Policy.Grants.{has_full_disk_read_access, has_full_disk_write_access}
use rattler_sandbox.Policy.Roots.{
  get_readable_roots_with_cwd, get_writable_roots_with_cwd, get_unreadable_roots_with_cwd,
}
use rattler_sandbox.Seatbelt.Texts.{Profile, concat_texts}
use rattler_sandbox.Seatbelt.Access.{
  SeatbeltAccessRoot, Params, sandbox_path, build_seatbelt_access_policy,
  protected_metadata_names_for_writable_root,
}
use rattler_sandbox.Seatbelt.Filters.{Rule, allow_text, applies, opens, is_protected}
use rattler_sandbox.Seatbelt.Rules.{rules_of}
use rattler_sandbox.Seatbelt.Meaning.{IsWithin, build_seatbelt_access_policy_lem}
use rattler_sandbox.Seatbelt.Command.{
  CreateSeatbeltCommandArgsParams, read_operations, writable_access_root, readable_access_root,
  file_write_policy, file_read_policy, dir_params,
}
use rattler_sandbox.Seatbelt.Files.{file_read_policy-IsWithin, file_write_policy-IsWithin}

abbrev writable_access_roots :
    World → Profile → CreateSeatbeltCommandArgsParams → List SeatbeltAccessRoot
writable_access_roots w profile args =
    map (writable_access_root w profile args.file_system_sandbox_policy args.sandbox_policy_cwd)
      (get_writable_roots_with_cwd w args.file_system_sandbox_policy args.sandbox_policy_cwd)

abbrev readable_access_roots :
    World → Profile → CreateSeatbeltCommandArgsParams → List SeatbeltAccessRoot
readable_access_roots w profile args =
    map
      (readable_access_root w profile
        (get_unreadable_roots_with_cwd w args.file_system_sandbox_policy args.sandbox_policy_cwd))
      (get_readable_roots_with_cwd w args.file_system_sandbox_policy args.sandbox_policy_cwd)

-- The rules of the profile that these roots stand for.
abbrev pub read_rules : World → Profile → CreateSeatbeltCommandArgsParams → List Rule
read_rules w profile args =
    rules_of w profile "READABLE_ROOT" 0 (readable_access_roots w profile args)

abbrev pub write_rules : World → Profile → CreateSeatbeltCommandArgsParams → List Rule
write_rules w profile args =
    rules_of w profile "WRITABLE_ROOT" 0 (writable_access_roots w profile args)

opens-parts :
    (a b c : Bool) → (a && (not b && not c)) ≡ true → (a ≡ true) × (b ≡ false) × (c ≡ false)
opens-parts true false false h = (refl, refl, refl)
opens-parts true false true h = absurd (cc h)
opens-parts true true c h = absurd (cc h)
opens-parts false b c h = absurd (cc h)

allow_text-nonempty :
    (action : String) (f : Rule → Bool) (rules : List Rule)
    → any f rules ≡ true
    → is_empty_text (allow_text action rules) ≡ false
unfolding concat_texts
allow_text-nonempty action f [] h = absurd (cc h)
allow_text-nonempty action f (rule ∷ rules) h = ap is_empty_text (cons "(" "allow " _)

module _ (w : World) (u : UrlCrate) (profile : Profile)
    (args : CreateSeatbeltCommandArgsParams) where
  abbrev built_reads : String × Params
  built_reads =
      build_seatbelt_access_policy w profile "file-read*" "READABLE_ROOT"
        (readable_access_roots w profile args)

  file_read_policy-part :
      has_full_disk_read_access args.file_system_sandbox_policy ≡ false
      → file_read_policy w profile args.file_system_sandbox_policy args.sandbox_policy_cwd
        ≡ (if is_empty_text built_reads.0 then "" else read_operations built_reads.0, built_reads.1)
  unfolding file_read_policy
  file_read_policy-part part = rw part refl

  -- Where the policy does not let the whole disk be read and the read rules allow a path, with the
  -- parameters of the command line and whatever engine matches the regexes, their text is the print
  -- of these rules, and the path lies under one of the readable roots of the policy, but neither at
  -- nor under an unreadable root of the policy that lies under that root.
  pub file_read_policy-confined :
      (regex_match : String → String → Bool) (path : PathBuf)
      → has_full_disk_read_access args.file_system_sandbox_policy ≡ false
      → any (applies regex_match (dir_params w u profile args) path) (read_rules w profile args)
        ≡ true
      → ((file_read_policy w profile args.file_system_sandbox_policy args.sandbox_policy_cwd).0
          ≡ read_operations (allow_text "file-read*" (read_rules w profile args)))
        × ((root : AbsolutePathBuf) × Memᴰ root (
              get_readable_roots_with_cwd w args.file_system_sandbox_policy args.sandbox_policy_cwd)
            × (starts_with path (sandbox_path w profile root) ≡ true)
            × (any
                  (λ e. starts_with path (sandbox_path w profile e))
                  (filter
                    (λ e. starts_with e root)
                    (get_unreadable_roots_with_cwd w args.file_system_sandbox_policy
                      args.sandbox_policy_cwd))
                ≡ false))
  unfolding opens readable_access_root
  file_read_policy-confined regex_match path part h =
      let (text, meaning) =
        build_seatbelt_access_policy_lem w profile "file-read*" "READABLE_ROOT"
          (readable_access_roots w profile args) (dir_params w u profile args) regex_match path
          (subst (λ (p : String × Params). IsWithin p.1 (dir_params w u profile args))
            (file_read_policy-part part) (file_read_policy-IsWithin w u profile args)) in
      let full =
        ap is_empty_text text ∙ allow_text-nonempty "file-read*" _ (read_rules w profile args) h in
      let (r, m, o) =
        mem_of_any (opens w profile regex_match path) (readable_access_roots w profile args)
          (sym meaning ∙ h) in
      let (root, n, e) =
        mem_of_map
          (readable_access_root w profile (
            get_unreadable_roots_with_cwd w args.file_system_sandbox_policy
              args.sandbox_policy_cwd))
          r _ m in
      let (a, b, _) = opens-parts _ _ false (ap (opens w profile regex_match path) e ∙ o) in
      (
        ap (λ (p : String × Params). p.0) (file_read_policy-part part)
            ∙ rw full (ap read_operations text),
        (root, n, a, b),
      )

  file_write_policy-part :
      has_full_disk_write_access args.file_system_sandbox_policy ≡ false
      → file_write_policy w profile args.file_system_sandbox_policy args.sandbox_policy_cwd
        ≡ build_seatbelt_access_policy w profile "file-write*" "WRITABLE_ROOT"
            (writable_access_roots w profile args)
  unfolding file_write_policy
  file_write_policy-part part = rw part refl

  -- Where the policy does not let the whole disk be written and the write rules allow a path, with
  -- the parameters of the command line and whatever engine matches the regexes, their text is the
  -- print of these rules, and the path lies under one of the writable roots of the policy, but
  -- neither at nor under a read-only path of that root nor where the regex of a name that is
  -- protected there matches it.
  pub file_write_policy-confined :
      (regex_match : String → String → Bool) (path : PathBuf)
      → has_full_disk_write_access args.file_system_sandbox_policy ≡ false
      → any (applies regex_match (dir_params w u profile args) path) (write_rules w profile args)
        ≡ true
      → ((file_write_policy w profile args.file_system_sandbox_policy args.sandbox_policy_cwd).0
          ≡ allow_text "file-write*" (write_rules w profile args))
        × ((root : WritableRoot) × Memᴰ root (
              get_writable_roots_with_cwd w args.file_system_sandbox_policy args.sandbox_policy_cwd)
            × (starts_with path (sandbox_path w profile root.root) ≡ true)
            × (any (λ e. starts_with path (sandbox_path w profile e)) root.read_only_subpaths
                ≡ false)
            × (any
                  (is_protected w profile regex_match path (
                    writable_access_root w profile args.file_system_sandbox_policy
                      args.sandbox_policy_cwd root))
                  (protected_metadata_names_for_writable_root w profile
                    args.file_system_sandbox_policy root args.sandbox_policy_cwd)
                ≡ false))
  unfolding opens writable_access_root
  file_write_policy-confined regex_match path part h =
      let (text, meaning) =
        build_seatbelt_access_policy_lem w profile "file-write*" "WRITABLE_ROOT"
          (writable_access_roots w profile args) (dir_params w u profile args) regex_match path
          (subst (λ (p : String × Params). IsWithin p.1 (dir_params w u profile args))
            (file_write_policy-part part) (file_write_policy-IsWithin w u profile args)) in
      let (r, m, o) =
        mem_of_any (opens w profile regex_match path) (writable_access_roots w profile args)
          (sym meaning ∙ h) in
      let (root, n, e) =
        mem_of_map
          (writable_access_root w profile args.file_system_sandbox_policy args.sandbox_policy_cwd) r
          _ m in
      let (a, b, c) = opens-parts _ _ _ (ap (opens w profile regex_match path) e ∙ o) in
      (ap (λ (p : String × Params). p.0) (file_write_policy-part part) ∙ text, (root, n, a, b, c))
