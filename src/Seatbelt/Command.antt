-- ===== src/Seatbelt/Command.antt =====
-- seatbelt.rs: the whole profile, and the command line that carries it.
use rattler_sandbox.Prelude.{
  String, ◌<>◌, Bool, Option, none, some, List, [], ◌∷◌, ◌++◌, map, filter, if◌then◌else◌, is_empty,
  is_empty_text, ◌>>=◌,
}
use rattler_sandbox.World.{World}
use rattler_sandbox.Url.{UrlCrate}
use rattler_sandbox.Paths.Std.{PathBuf, root_dir, starts_with, components, path_text}
use rattler_sandbox.Paths.Absolute.{AbsolutePathBuf}
use rattler_sandbox.Network.{NetworkProxy}
use rattler_sandbox.Policy.Types.{
  FileSystemSandboxPolicy, NetworkSandboxPolicy, SandboxPolicy, WritableRoot,
}
use rattler_sandbox.Policy.Grants.{
  has_full_disk_read_access, has_full_disk_write_access, include_platform_defaults,
}
use rattler_sandbox.Policy.Build.{network_policy_from, from_legacy_sandbox_policy_for_cwd}
use rattler_sandbox.Policy.Roots.{
  get_readable_roots_with_cwd, get_writable_roots_with_cwd, get_unreadable_roots_with_cwd,
}
use rattler_sandbox.Seatbelt.Texts.{Profile, join_texts}
use rattler_sandbox.Seatbelt.Inputs.{proxy_policy_inputs, unix_socket_dir_params}
use rattler_sandbox.Seatbelt.Network.{dynamic_network_policy_for_network}
use rattler_sandbox.Seatbelt.Access.{
  SeatbeltAccessRoot, Params, build_seatbelt_access_policy,
  protected_metadata_names_for_writable_root,
}
use rattler_sandbox.Seatbelt.Globs.{build_seatbelt_unreadable_glob_policy}

pub record CreateSeatbeltCommandArgsParams : Type 0 where
  pub command : List String
  pub file_system_sandbox_policy : FileSystemSandboxPolicy
  pub network_sandbox_policy : NetworkSandboxPolicy
  pub sandbox_policy_cwd : PathBuf
  pub enforce_managed_network : Bool
  pub network : Option NetworkProxy
  pub extra_allow_unix_sockets : List AbsolutePathBuf

-- `root_absolute_path`, all but the given paths.
abbrev pub whole_disk_without : List AbsolutePathBuf → SeatbeltAccessRoot
whole_disk_without excluded = record {
  root = root_dir ∷ [];
  excluded_subpaths = excluded;
  protected_metadata_names = [];
}

abbrev pub read_operations : String → String
read_operations policy = "; allow read-only file operations\n" <> policy

abbrev pub definition_arg : String × PathBuf → String
definition_arg (key, value) = "-D" <> (key <> ("=" <> path_text value))

module _ (w : World) (profile : Profile) where
  unfoldable pub writable_access_root :
      FileSystemSandboxPolicy → PathBuf → WritableRoot → SeatbeltAccessRoot
  writable_access_root policy cwd writable_root = record {
    root = writable_root.root;
    excluded_subpaths = writable_root.read_only_subpaths;
    protected_metadata_names =
        protected_metadata_names_for_writable_root w profile policy writable_root cwd;
  }

  unfoldable pub readable_access_root : List AbsolutePathBuf → AbsolutePathBuf → SeatbeltAccessRoot
  readable_access_root unreadable_roots readable_root = record {
    root = readable_root;
    excluded_subpaths = filter (λ path. starts_with path readable_root) unreadable_roots;
    protected_metadata_names = [];
  }

  unfoldable pub file_write_policy : FileSystemSandboxPolicy → PathBuf → String × Params
  file_write_policy policy cwd =
      let unreadable_roots = get_unreadable_roots_with_cwd w policy cwd in
      if has_full_disk_write_access policy
      then (if is_empty unreadable_roots
          then ("(allow file-write* (regex #\"^/\"))", [])
          else build_seatbelt_access_policy w profile "file-write*" "WRITABLE_ROOT"
              (whole_disk_without unreadable_roots ∷ []))
      else build_seatbelt_access_policy w profile "file-write*" "WRITABLE_ROOT"
          (map (writable_access_root policy cwd) (get_writable_roots_with_cwd w policy cwd))

  unfoldable pub file_read_policy : FileSystemSandboxPolicy → PathBuf → String × Params
  file_read_policy policy cwd =
      let unreadable_roots = get_unreadable_roots_with_cwd w policy cwd in
      if has_full_disk_read_access policy
      then (if is_empty unreadable_roots
          then (read_operations "(allow file-read*)", [])
          else (let (text, params) =
                build_seatbelt_access_policy w profile "file-read*" "READABLE_ROOT"
                  (whole_disk_without unreadable_roots ∷ []) in
              (read_operations text, params)))
      else (let (text, params) =
            build_seatbelt_access_policy w profile "file-read*" "READABLE_ROOT" (
              map (readable_access_root unreadable_roots)
                (get_readable_roots_with_cwd w policy cwd)) in
          (if is_empty_text text then "" else read_operations text, params))

  -- `confstr_path`
  unfoldable pub confstr_path : Option PathBuf
  confstr_path = profile.confstr >>= λ s. elim (w.canonicalize (components s)) [
    | none ↦ some (components s)
    | some path ↦ some path
  ]

  unfoldable pub macos_dir_params : Params
  macos_dir_params = elim confstr_path [ none ↦ [] | some p ↦ ("DARWIN_USER_CACHE_DIR", p) ∷ [] ]

module _ (w : World) (u : UrlCrate) (profile : Profile) where
  unfoldable pub full_policy : CreateSeatbeltCommandArgsParams → String
  full_policy args =
      let policy = args.file_system_sandbox_policy in
      let cwd = args.sandbox_policy_cwd in
      let proxy = proxy_policy_inputs w u args.network args.extra_allow_unix_sockets in
      join_texts "\n" (
        profile.base_policy
        ∷ (file_read_policy w profile policy cwd).0
        ∷ (file_write_policy w profile policy cwd).0
        ∷ build_seatbelt_unreadable_glob_policy w profile policy cwd
        ∷ dynamic_network_policy_for_network profile args.network_sandbox_policy
            args.enforce_managed_network proxy
        ∷ (if include_platform_defaults policy then profile.platform_defaults ∷ [] else []))

  unfoldable pub dir_params : CreateSeatbeltCommandArgsParams → Params
  dir_params args =
      let policy = args.file_system_sandbox_policy in
      let cwd = args.sandbox_policy_cwd in
      let proxy = proxy_policy_inputs w u args.network args.extra_allow_unix_sockets in
      (file_read_policy w profile policy cwd).1
      ++ ((file_write_policy w profile policy cwd).1
          ++ (macos_dir_params w profile ++ unix_socket_dir_params proxy))

  unfoldable pub create_seatbelt_command_args : CreateSeatbeltCommandArgsParams → List String
  create_seatbelt_command_args args =
      "-p" ∷ full_policy args ∷ (map definition_arg (dir_params args) ++ ("--" ∷ args.command))

  unfoldable pub create_seatbelt_command_args_for_legacy_policy :
      List String → SandboxPolicy → PathBuf → Bool → Option NetworkProxy → List String
  create_seatbelt_command_args_for_legacy_policy command policy cwd enforce_managed_network
        network =
      create_seatbelt_command_args (record {
        command = command;
        file_system_sandbox_policy = from_legacy_sandbox_policy_for_cwd w policy cwd;
        network_sandbox_policy = network_policy_from policy;
        sandbox_policy_cwd = cwd;
        enforce_managed_network = enforce_managed_network;
        network = network;
        extra_allow_unix_sockets = [];
      })
