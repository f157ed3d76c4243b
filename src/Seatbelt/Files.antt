-- ===== src/Seatbelt/Files.antt =====
-- seatbelt.rs: the parameters of the file rules keep their values on the command line.
use Prim.Native.Char.{Char, code}
use Prim.Native.String.append.{cons}
use rattler_sandbox.Prelude.{
  String, ◌<>◌, ℕ, ◌+◌, Bool, true, false, Option, some, List, [], ◌∷◌, ◌++◌, ◌≡◌, refl, sym, ap,
  ◌∙◌, all, if_intro, ◌==◌, string_eq, ==-eq, is_empty, eqb, arith, Bool-cases, inl, inr,
  number_text,
}
use rattler_sandbox.World.{World}
use rattler_sandbox.Url.{UrlCrate}
use rattler_sandbox.Paths.Std.{PathBuf}
use rattler_sandbox.Paths.Absolute.{AbsolutePathBuf}
use rattler_sandbox.Policy.Types.{FileSystemSandboxPolicy}
use rattler_sandbox.Policy.Grants.{has_full_disk_read_access, has_full_disk_write_access}
use rattler_sandbox.Policy.Roots.{get_unreadable_roots_with_cwd}
use rattler_sandbox.Seatbelt.Texts.{Profile}
use rattler_sandbox.Seatbelt.Access.{
  SeatbeltAccessRoot, Params, excluded_params, access_params, policy_components,
  build_seatbelt_access_policy,
}
use rattler_sandbox.Seatbelt.Filters.{param_value}
use rattler_sandbox.Seatbelt.Meaning.{IsWithin}
use rattler_sandbox.Seatbelt.Command.{
  CreateSeatbeltCommandArgsParams, file_write_policy, file_read_policy, dir_params,
}

IsWithin-append_left : (xs ys : Params) → IsWithin xs (xs ++ ys)
unfolding param_value
IsWithin-append_left [] ys key v h = absurd (cc h)
IsWithin-append_left ((k, u) ∷ xs) ys key v h = elim (Bool-cases (k == key)) [
  | inl e ↦ rw e (rw e at h)
  | inr e ↦ rw e (IsWithin-append_left xs ys key v (rw e at h))
]

-- The first character of a text is this one.
unfoldable starts_with_char : Char → String → Bool
starts_with_char c String.[] = false
starts_with_char c (String.◌∷◌ d s) = eqb (code d) (code c)

abbrev all_start : Char → Params → Bool
all_start c params = all (λ (name, _). starts_with_char c name) params

all_start-append :
    (c : Char) (xs ys : Params)
    → all_start c xs ≡ true
    → all_start c ys ≡ true
    → all_start c (xs ++ ys) ≡ true
all_start-append c [] ys h k = k
all_start-append c (x ∷ xs) ys h k = ground (arith, all_start-append c xs ys (ground arith) k)

one_start :
    (c d : Char) (key : String)
    → starts_with_char c key ≡ true
    → starts_with_char d key ≡ true
    → eqb (code c) (code d) ≡ true
unfolding starts_with_char
one_start c d String.[] h k = absurd (cc h)
one_start c d (String.◌∷◌ e key) h k = ground arith

start_of_value :
    (d : Char) (params : Params) (key : String) (v : PathBuf)
    → all_start d params ≡ true
    → param_value key params ≡ some v
    → starts_with_char d key ≡ true
unfolding param_value
start_of_value d [] key v h e = absurd (cc e)
start_of_value d ((l, u) ∷ params) key v h e = elim (Bool-cases (l == key)) [
  | inl same ↦
      let start : starts_with_char d l ≡ true = ground arith in
      ap (starts_with_char d) (sym (==-eq l key same)) ∙ start
  | inr differ ↦ start_of_value d params key v (ground arith) (rw differ at e)
]

param_value-all_start :
    (c d : Char) (few params : Params) (key : String) (v : PathBuf)
    → eqb (code c) (code d) ≡ false
    → all_start c few ≡ true
    → starts_with_char d key ≡ true
    → param_value key params ≡ some v
    → param_value key (few ++ params) ≡ some v
unfolding param_value
param_value-all_start c d [] params key v n h k e = e
param_value-all_start c d ((l, u) ∷ few) params key v n h k e =
    if_intro (λ (o : Option PathBuf). o ≡ some v) (l == key)
      (λ same. absurd (clash (==-eq l key same)))
      (λ _. param_value-all_start c d few params key v n (ground arith) k e)
  where
    clash : l ≡ key → ⊥
    clash same =
        let first : starts_with_char c l ≡ true = ground arith in
        cc (n, one_start c d key (ap (starts_with_char c) (sym same) ∙ first) k)

module _ (w : World) (profile : Profile) where
  excluded_params-start :
      (c : Char) (rest : String) (i j : ℕ) (es : List AbsolutePathBuf)
      → all_start c (excluded_params w profile (String.◌∷◌ c rest) i j es) ≡ true
  unfolding excluded_params starts_with_char
  excluded_params-start c rest i j [] = refl
  excluded_params-start c rest i j (e ∷ es) =
      rw (cons c rest ("_" <> (number_text i <> ("_EXCLUDED_" <> number_text j))))
        (ground (arith, excluded_params-start c rest i (j + 1) es))

  access_params-start :
      (c : Char) (rest : String) (i : ℕ) (roots : List SeatbeltAccessRoot)
      → all_start c (access_params w profile (String.◌∷◌ c rest) i roots) ≡ true
  unfolding access_params starts_with_char
  access_params-start c rest i [] = refl
  access_params-start c rest i (r ∷ roots) = rw (cons c rest ("_" <> number_text i)) (
      rw
        (all_start-append c (excluded_params w profile (String.◌∷◌ c rest) i 0 r.excluded_subpaths)
          _ (excluded_params-start c rest i 0 r.excluded_subpaths)
          (access_params-start c rest (i + 1) roots))
        (ground arith))

  build_seatbelt_access_policy-start :
      (c : Char) (rest action : String) (roots : List SeatbeltAccessRoot)
      → all_start c (build_seatbelt_access_policy w profile action (String.◌∷◌ c rest) roots).1
        ≡ true
  unfolding build_seatbelt_access_policy
  build_seatbelt_access_policy-start c rest action roots =
      if_intro (λ (p : String × Params). all_start c p.1 ≡ true)
        (is_empty (policy_components w profile (String.◌∷◌ c rest) 0 roots)) (λ _. refl)
        (λ _. access_params-start c rest 0 roots)

  file_read_policy-start :
      (policy : FileSystemSandboxPolicy) (cwd : PathBuf)
      → all_start "R" (file_read_policy w profile policy cwd).1 ≡ true
  unfolding file_read_policy
  file_read_policy-start policy cwd =
      if_intro At (has_full_disk_read_access policy)
        (λ _.
          if_intro At (is_empty (get_unreadable_roots_with_cwd w policy cwd)) (λ _. refl)
            (λ _. build_seatbelt_access_policy-start "R" "EADABLE_ROOT" "file-read*" _))
        (λ _. build_seatbelt_access_policy-start "R" "EADABLE_ROOT" "file-read*" _)
    where
      At : String × Params → Type 0
      At p = all_start "R" p.1 ≡ true

  file_write_policy-start :
      (policy : FileSystemSandboxPolicy) (cwd : PathBuf)
      → all_start "W" (file_write_policy w profile policy cwd).1 ≡ true
  unfolding file_write_policy
  file_write_policy-start policy cwd =
      if_intro At (has_full_disk_write_access policy)
        (λ _.
          if_intro At (is_empty (get_unreadable_roots_with_cwd w policy cwd)) (λ _. refl)
            (λ _. build_seatbelt_access_policy-start "W" "RITABLE_ROOT" "file-write*" _))
        (λ _. build_seatbelt_access_policy-start "W" "RITABLE_ROOT" "file-write*" _)
    where
      At : String × Params → Type 0
      At p = all_start "W" p.1 ≡ true

module _ (w : World) (u : UrlCrate) (profile : Profile)
    (args : CreateSeatbeltCommandArgsParams) where
  pub file_read_policy-IsWithin :
      IsWithin
        (file_read_policy w profile args.file_system_sandbox_policy args.sandbox_policy_cwd).1
        (dir_params w u profile args)
  unfolding dir_params
  file_read_policy-IsWithin = IsWithin-append_left _ _

  pub file_write_policy-IsWithin :
      IsWithin
        (file_write_policy w profile args.file_system_sandbox_policy args.sandbox_policy_cwd).1
        (dir_params w u profile args)
  unfolding dir_params
  file_write_policy-IsWithin key v h =
      let policy = args.file_system_sandbox_policy in
      let cwd = args.sandbox_policy_cwd in
      param_value-all_start "R" "W" (file_read_policy w profile policy cwd).1 _ key v refl
        (file_read_policy-start w profile policy cwd)
        (start_of_value "W" (file_write_policy w profile policy cwd).1 key v
          (file_write_policy-start w profile policy cwd) h)
        (IsWithin-append_left (file_write_policy w profile policy cwd).1 _ key v h)
