-- ===== src/Seatbelt/Inputs.antt =====
-- seatbelt.rs: what the network rules are made from.
use rattler_sandbox.Prelude.{
  String, ◌<>◌, ℕ, Bool, false, not, ◌||◌, Option, none, some, List, [], ◌∷◌, ◌++◌, map, filter_map,
  sort, dedup, contains, if◌then◌else◌, ◌==◌, Eq, string_eq, leb, unwrap_or, trim, is_empty_text,
  to_ascii_lowercase, ◌>>=◌, Env, number_text,
}
use native.Mathlib.Decide.{ℕ_discrete}
use rattler_sandbox.World.{World}
use rattler_sandbox.Url.{UrlCrate}
use rattler_sandbox.Paths.Std.{PathBuf, is_absolute, components, path_text}
use rattler_sandbox.Paths.Absolute.{AbsolutePathBuf, from_absolute_path}
use rattler_sandbox.Network.{
  NetworkProxy, proxy_url_env_keys, proxy_url_env_value, has_proxy_url_env_vars, apply_to_env,
}
use rattler_sandbox.Policy.Dedup.{text_le}
use rattler_sandbox.Linux.Routing.Plan.{with_scheme}
use rattler_sandbox.Seatbelt.Texts.{enumerate_from}

instance unfoldable pub port_eq : Eq ℕ
unfolding ℕ_discrete
port_eq = record { dec = ℕ_discrete }

-- `eq_ignore_ascii_case` with a text of small letters.
unfoldable pub is_loopback_host : String → Bool
is_loopback_host host =
    to_ascii_lowercase host == "localhost" || (host == "127.0.0.1" || host == "::1")

unfoldable pub proxy_scheme_default_port : String → ℕ
proxy_scheme_default_port scheme =
    if scheme == "https"
    then 443
    else if contains scheme ("socks5" ∷ "socks5h" ∷ "socks4" ∷ "socks4a" ∷ [])
    then 1080
    else 80

pub data UnixDomainSocketPolicy : Type 0 where
  allow_all : UnixDomainSocketPolicy
  restricted : List AbsolutePathBuf → UnixDomainSocketPolicy

pub record ProxyPolicyInputs : Type 0 where
  pub ports : List ℕ
  pub has_proxy_config : Bool
  pub allow_local_binding : Bool
  pub unix_domain_socket_policy : UnixDomainSocketPolicy

pub record UnixSocketPathParam : Type 0 where
  pub index : ℕ
  pub path : AbsolutePathBuf

module _ (u : UrlCrate) where
  -- The body of the loop; `none` is `continue`.
  unfoldable pub loopback_port : Env → String → Option ℕ
  loopback_port env key = proxy_url_env_value env key >>= λ proxy_url.
      let trimmed = trim proxy_url in
      if is_empty_text trimmed
      then none
      else (u.parse (with_scheme trimmed) >>= λ parsed. u.host_str parsed >>= λ host.
          if not (is_loopback_host host)
          then none
          else some (
              unwrap_or (u.port parsed)
                (proxy_scheme_default_port (to_ascii_lowercase (u.scheme parsed)))))

  -- A `BTreeSet` is in order, each number once.
  unfoldable pub proxy_loopback_ports_from_env : Env → List ℕ
  proxy_loopback_ports_from_env env =
      dedup (sort leb (filter_map (loopback_port env) proxy_url_env_keys))

module _ (w : World) where
  unfoldable pub normalize_path_for_sandbox : PathBuf → Option AbsolutePathBuf
  normalize_path_for_sandbox path =
      if not (is_absolute path)
      then none
      else (from_absolute_path w path >>= λ absolute_path.
          elim (w.canonicalize absolute_path >>= from_absolute_path w) [
            | none ↦ some absolute_path
            | some normalized_path ↦ some normalized_path
          ])

  unfoldable pub proxy_policy_inputs :
      UrlCrate → Option NetworkProxy → List AbsolutePathBuf → ProxyPolicyInputs
  proxy_policy_inputs u none extra_allow_unix_sockets = record {
    ports = [];
    has_proxy_config = false;
    allow_local_binding = false;
    unix_domain_socket_policy =
        restricted (filter_map normalize_path_for_sandbox extra_allow_unix_sockets);
  }
  proxy_policy_inputs u (some network) extra_allow_unix_sockets =
      let env = apply_to_env network [] in
      record {
        ports = proxy_loopback_ports_from_env u env;
        has_proxy_config = has_proxy_url_env_vars env;
        allow_local_binding = network.allow_local_binding;
        unix_domain_socket_policy =
            if network.dangerously_allow_all_unix_sockets
            then allow_all
            else restricted (
                filter_map (λ socket_path. normalize_path_for_sandbox (components socket_path))
                  network.allow_unix_sockets
                ++ filter_map normalize_path_for_sandbox extra_allow_unix_sockets);
      }

-- `BTreeMap::entry(key).or_insert_with`, in the order of the keys.
unfoldable pub or_insert :
    String → AbsolutePathBuf → List (String × AbsolutePathBuf) → List (String × AbsolutePathBuf)
or_insert key path [] = (key, path) ∷ []
or_insert key path ((k, p) ∷ deduped_paths) =
    let rest = or_insert key path deduped_paths in
    if k == key
    then (k, p) ∷ deduped_paths
    else if text_le key k
    then (key, path) ∷ (k, p) ∷ deduped_paths
    else (k, p) ∷ rest

unfoldable pub deduped_by_text :
    List (String × AbsolutePathBuf) → List AbsolutePathBuf → List (String × AbsolutePathBuf)
deduped_by_text deduped_paths [] = deduped_paths
deduped_by_text deduped_paths (path ∷ allowed) =
    deduped_by_text (or_insert (path_text path) path deduped_paths) allowed

unfoldable pub unix_socket_path_params : ProxyPolicyInputs → List UnixSocketPathParam
unix_socket_path_params proxy = elim proxy.unix_domain_socket_policy [
  | allow_all ↦ []
  | restricted allowed ↦
      map (λ (index, (_, path)). record { index = index; path = path })
        (enumerate_from 0 (deduped_by_text [] allowed))
]

unfoldable pub unix_socket_path_param_key : ℕ → String
unix_socket_path_param_key index = "UNIX_SOCKET_PATH_" <> number_text index

unfoldable pub unix_socket_dir_params : ProxyPolicyInputs → List (String × PathBuf)
unix_socket_dir_params proxy =
    map (λ (param : UnixSocketPathParam). (unix_socket_path_param_key param.index, param.path))
      (unix_socket_path_params proxy)
