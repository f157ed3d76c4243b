-- ===== src/Tests/Seatbelt.antt =====
-- A profile of the macOS sandbox for the guarded policy.
use rattler_sandbox.Prelude.{
  String, Bool, true, false, none, some, [], ◌∷◌, ◌≡◌, refl, any, arith, if◌then◌else◌, filter,
  number_text, string_discrete, string_eq, sort, dedup,
}
use mathlib.Core.List.{Memᴰ}
use rattler_sandbox.Url.{UrlCrate}
use rattler_sandbox.Paths.Std.{
  PathBuf, normal, root_dir, starts_with, component_eq, path_eq, strip_prefix, push, parent,
  ancestors, ancestors_within, PathBuf-discrete, Component-discrete, path_text, joined,
}
use rattler_sandbox.Paths.Absolute.{
  AbsolutePathBuf, from_absolute_path, absolutize, normalize_path, normalize_step, join,
  resolve_path_against_base, absolutize_from, path_with_base,
}
use rattler_sandbox.Policy.Types.{NetworkSandboxPolicy, WritableRoot}
use rattler_sandbox.Policy.Grants.{
  has_full_disk_read_access, has_full_disk_write_access, is_enabled, has_root_access,
  has_write_narrowing_entries, has_denied_read_restrictions, has_same_target_write_override,
}
use rattler_sandbox.Policy.Roots.{
  get_readable_roots_with_cwd, get_writable_roots_with_cwd, get_unreadable_roots_with_cwd,
  writable_entries_with_cwd, writable_root_for, read_only_subpaths_of, raw_writable_roots_of,
  carveout_under, raw_carveout_path, moved_carveout, has_explicit_resolved_path_entry, is_root_of,
}
use rattler_sandbox.Seatbelt.Texts.{Profile}
use rattler_sandbox.Seatbelt.Inputs.{
  ProxyPolicyInputs, restricted, unix_socket_dir_params, unix_socket_path_params,
  normalize_path_for_sandbox, proxy_policy_inputs,
}
use rattler_sandbox.Seatbelt.Network.{
  dynamic_network_policy_for_network, restricted_network_policy, full_network_policy,
  has_some_unix_socket_access,
}
use rattler_sandbox.Seatbelt.Closed.{has_proxy_demand, dynamic_network_policy_for_network_lem}
use rattler_sandbox.Seatbelt.Access.{
  SeatbeltAccessRoot, build_seatbelt_access_policy, sandbox_path,
  protected_metadata_names_for_writable_root, policy_components, policy_component, access_params,
  excluded_params, all_excluded_parts, push_protected_name,
}
use rattler_sandbox.Seatbelt.Filters.{applies, opens, allow_text, is_protected, param_value}
use rattler_sandbox.Seatbelt.Rules.{
  rules_of, rule_of, all_filters, excluded_filters, metadata_filter,
}
use rattler_sandbox.Seatbelt.Meaning.{build_seatbelt_access_policy_lem}
use rattler_sandbox.Seatbelt.Command.{
  CreateSeatbeltCommandArgsParams, dir_params, file_write_policy, file_read_policy, read_operations,
  writable_access_root, readable_access_root, macos_dir_params, confstr_path,
}
use rattler_sandbox.Seatbelt.Confined.{
  read_rules, write_rules, file_read_policy-confined, file_write_policy-confined,
}
use rattler_sandbox.Seatbelt.Globs.{glob_rounds}
use rattler_sandbox.Seatbelt.Regexes.{glob_rounds-enough}
use rattler_sandbox.Policy.Dedup.{
  dedup_absolute_paths, dedup_seen, normalize_effective_absolute_path, first_normalized,
  normalized_by_ancestor,
}
use rattler_sandbox.Policy.Resolve.{
  resolved_entries_with_cwd, resolve_entry_path, resolve_file_system_path, resolve_access_with_cwd,
  resolve_candidate_path, can_read_path_with_cwd, access_among, max_by_precedence, max_from,
  precedence_lt, absolute_root_path_for_cwd,
}
use rattler_sandbox.Policy.Defaults.{default_read_only_subpaths_for_writable_root}
use rattler_sandbox.Policy.Metadata.{
  metadata_path_name, has_explicit_write_entry_for_metadata_path, can_write_path_with_cwd,
  is_metadata_write_denied, is_target_write_denied, metadata_child_of_writable_root,
  metadata_child_of_entry,
}
use rattler_sandbox.Policy.Roots
use rattler_sandbox.Tests.{world, dir, guarded, secret}

abbrev profile : Profile
profile = record {
  base_policy = "(version 1)";
  network_policy = "(allow system-socket)";
  platform_defaults = "";
  escape = λ s. s;
  confstr = none;
}

-- An address is its text, and each leads to this host.
abbrev pub url_crate : UrlCrate
url_crate = record {
  Url = String;
  parse = λ s. some s;
  host_str = λ url. some "localhost";
  scheme = λ url. "http";
  port = λ url. some 8080;
  set_host = λ url host. some url;
  set_port = λ url port. some "http://127.0.0.1:3128";
  to_string = λ url. url;
}

abbrev args : CreateSeatbeltCommandArgsParams
args = record {
  command = "ls" ∷ [];
  file_system_sandbox_policy = guarded;
  network_sandbox_policy = NetworkSandboxPolicy.restricted;
  sandbox_policy_cwd = dir;
  enforce_managed_network = false;
  network = none;
  extra_allow_unix_sockets = [];
}

abbrev without_secret : SeatbeltAccessRoot
without_secret = record {
  root = dir;
  excluded_subpaths = secret ∷ [];
  protected_metadata_names = ".git" ∷ [];
}

abbrev notes : PathBuf
notes = root_dir ∷ normal "w" ∷ normal "notes" ∷ []

abbrev no_match : String → String → Bool
no_match regex text = false

abbrev proxied : ProxyPolicyInputs
proxied = record {
  ports = 8080 ∷ [];
  has_proxy_config = true;
  allow_local_binding = false;
  unix_domain_socket_policy = restricted [];
}

build_seatbelt_access_policy_lem_example :
    ((build_seatbelt_access_policy world profile "file-read*" "READABLE_ROOT"
        (without_secret ∷ [])).0
      ≡ allow_text "file-read*" (rules_of world profile "READABLE_ROOT" 0 (without_secret ∷ [])))
    × (any
          (applies no_match
            (build_seatbelt_access_policy world profile "file-read*" "READABLE_ROOT"
              (without_secret ∷ [])).1
            notes)
          (rules_of world profile "READABLE_ROOT" 0 (without_secret ∷ []))
        ≡ any (opens world profile no_match notes) (without_secret ∷ []))
build_seatbelt_access_policy_lem_example =
    build_seatbelt_access_policy_lem world profile "file-read*" "READABLE_ROOT"
      (without_secret ∷ [])
      (build_seatbelt_access_policy world profile "file-read*" "READABLE_ROOT"
        (without_secret ∷ [])).1
      no_match notes (λ key v h. h)

writes_partly : has_full_disk_write_access guarded ≡ false
unfolding has_root_access has_full_disk_write_access
writes_partly = refl

notes_written :
    any
      (applies no_match (dir_params world url_crate profile args) notes)
      (write_rules world profile args)
    ≡ true
unfolding has_root_access has_full_disk_write_access has_full_disk_read_access
    has_write_narrowing_entries has_denied_read_restrictions has_same_target_write_override
    dedup_absolute_paths dedup_seen normalize_effective_absolute_path first_normalized
    normalized_by_ancestor get_writable_roots_with_cwd get_readable_roots_with_cwd
    get_unreadable_roots_with_cwd writable_entries_with_cwd writable_root_for read_only_subpaths_of
    raw_writable_roots_of carveout_under raw_carveout_path moved_carveout
    has_explicit_resolved_path_entry Roots.protected_metadata_names_for_writable_root is_root_of
    resolved_entries_with_cwd resolve_entry_path resolve_file_system_path resolve_access_with_cwd
    resolve_candidate_path can_read_path_with_cwd access_among max_by_precedence max_from
    precedence_lt absolute_root_path_for_cwd can_write_path_with_cwd is_metadata_write_denied
    is_target_write_denied metadata_child_of_writable_root metadata_child_of_entry component_eq
    path_eq starts_with strip_prefix push parent ancestors ancestors_within PathBuf-discrete
    Component-discrete path_text joined from_absolute_path absolutize normalize_path normalize_step
    join resolve_path_against_base absolutize_from path_with_base build_seatbelt_access_policy
    policy_components policy_component access_params excluded_params all_excluded_parts
    protected_metadata_names_for_writable_root push_protected_name dir_params file_read_policy
    file_write_policy readable_access_root writable_access_root macos_dir_params confstr_path
    rules_of rule_of all_filters excluded_filters metadata_filter param_value unix_socket_dir_params
    unix_socket_path_params normalize_path_for_sandbox proxy_policy_inputs number_text
    string_discrete string_eq sort dedup default_read_only_subpaths_for_writable_root
    metadata_path_name has_explicit_write_entry_for_metadata_path
notes_written = refl

file_write_policy-confined_example :
    ((file_write_policy world profile guarded dir).0
      ≡ allow_text "file-write*" (write_rules world profile args))
    × ((root : WritableRoot) × Memᴰ root (get_writable_roots_with_cwd world guarded dir)
        × (starts_with notes (sandbox_path world profile root.root) ≡ true)
        × (any (λ e. starts_with notes (sandbox_path world profile e)) root.read_only_subpaths
            ≡ false)
        × (any
              (is_protected world profile no_match notes
                (writable_access_root world profile guarded dir root))
              (protected_metadata_names_for_writable_root world profile guarded root dir)
            ≡ false))
file_write_policy-confined_example =
    file_write_policy-confined world url_crate profile args no_match notes writes_partly
      notes_written

reads_partly : has_full_disk_read_access guarded ≡ false
unfolding has_full_disk_read_access has_root_access has_denied_read_restrictions
reads_partly = refl

notes_read :
    any
      (applies no_match (dir_params world url_crate profile args) notes)
      (read_rules world profile args)
    ≡ true
unfolding has_root_access has_full_disk_write_access has_full_disk_read_access
    has_write_narrowing_entries has_denied_read_restrictions has_same_target_write_override
    dedup_absolute_paths dedup_seen normalize_effective_absolute_path first_normalized
    normalized_by_ancestor get_writable_roots_with_cwd get_readable_roots_with_cwd
    get_unreadable_roots_with_cwd writable_entries_with_cwd writable_root_for read_only_subpaths_of
    raw_writable_roots_of carveout_under raw_carveout_path moved_carveout
    has_explicit_resolved_path_entry Roots.protected_metadata_names_for_writable_root is_root_of
    resolved_entries_with_cwd resolve_entry_path resolve_file_system_path resolve_access_with_cwd
    resolve_candidate_path can_read_path_with_cwd access_among max_by_precedence max_from
    precedence_lt absolute_root_path_for_cwd can_write_path_with_cwd is_metadata_write_denied
    is_target_write_denied metadata_child_of_writable_root metadata_child_of_entry component_eq
    path_eq starts_with strip_prefix push parent ancestors ancestors_within PathBuf-discrete
    Component-discrete path_text joined from_absolute_path absolutize normalize_path normalize_step
    join resolve_path_against_base absolutize_from path_with_base build_seatbelt_access_policy
    policy_components policy_component access_params excluded_params all_excluded_parts
    protected_metadata_names_for_writable_root push_protected_name dir_params file_read_policy
    file_write_policy readable_access_root writable_access_root macos_dir_params confstr_path
    rules_of rule_of all_filters excluded_filters metadata_filter param_value unix_socket_dir_params
    unix_socket_path_params normalize_path_for_sandbox proxy_policy_inputs number_text
    string_discrete string_eq sort dedup
notes_read = refl

file_read_policy-confined_example :
    ((file_read_policy world profile guarded dir).0
      ≡ read_operations (allow_text "file-read*" (read_rules world profile args)))
    × ((root : AbsolutePathBuf) × Memᴰ root (get_readable_roots_with_cwd world guarded dir)
        × (starts_with notes (sandbox_path world profile root) ≡ true)
        × (any
              (λ e. starts_with notes (sandbox_path world profile e))
              (filter (λ e. starts_with e root) (get_unreadable_roots_with_cwd world guarded dir))
            ≡ false))
file_read_policy-confined_example =
    file_read_policy-confined world url_crate profile args no_match notes reads_partly notes_read

dynamic_network_policy_for_network_lem_example :
    dynamic_network_policy_for_network profile NetworkSandboxPolicy.enabled false proxied ≡ (
      if has_proxy_demand false proxied
      then restricted_network_policy profile proxied
      else if is_enabled NetworkSandboxPolicy.enabled
      then full_network_policy profile proxied
      else if has_some_unix_socket_access proxied.unix_domain_socket_policy
      then restricted_network_policy profile proxied
      else "")
dynamic_network_policy_for_network_lem_example =
    dynamic_network_policy_for_network_lem profile NetworkSandboxPolicy.enabled false proxied

glob_rounds-enough_example : glob_rounds profile 5 false "/w/*" ≡ glob_rounds profile 9 false "/w/*"
glob_rounds-enough_example = glob_rounds-enough profile 5 9 false "/w/*" (omega arith) (omega arith)
