-- ===== src/Linux/Routing/Plan.antt =====
-- proxy_routing.rs: `plan_proxy_routes`, which of the proxy variables lead to a proxy of this host.
use rattler_sandbox.Prelude.{
  String, ◌<>◌, ℕ, Bool, false, not, ◌&&◌, ◌||◌, Option, none, some, List, [], ◌∷◌, any, filter,
  filter_map, sort, contains, if◌then◌else◌, ◌==◌, Eq, string_eq, eqb, unwrap_or, trim,
  is_empty_text, to_ascii_lowercase, to_ascii_uppercase, has_text, strip_text, ends_with_char,
  pop_char, Env, ◌>>=◌,
}
use native.Mathlib.Decide.{ℕ_discrete}
use rattler_sandbox.Url.{UrlCrate}
use rattler_sandbox.Policy.Dedup.{text_le}

abbrev pub proxy_env_keys : List String
proxy_env_keys =
    "HTTP_PROXY" ∷ "HTTPS_PROXY" ∷ "ALL_PROXY" ∷ "FTP_PROXY" ∷ "YARN_HTTP_PROXY"
    ∷ "YARN_HTTPS_PROXY" ∷ "NPM_CONFIG_HTTP_PROXY" ∷ "NPM_CONFIG_HTTPS_PROXY" ∷ "NPM_CONFIG_PROXY"
    ∷ "BUNDLE_HTTP_PROXY" ∷ "BUNDLE_HTTPS_PROXY" ∷ "PIP_PROXY" ∷ "DOCKER_HTTP_PROXY"
    ∷ "DOCKER_HTTPS_PROXY" ∷ []

-- The bytes of an IPv4 address, or the segments of an IPv6 address.
pub data IpAddr : Type 0 where
  v4 : ℕ → ℕ → ℕ → ℕ → IpAddr
  v6 : List ℕ → IpAddr

unfoldable pub IpAddr-discrete : Discrete IpAddr
unfolding ℕ_discrete
IpAddr-discrete = hlevel ℕ_discrete

pub record SocketAddr : Type 0 where
  pub ip : IpAddr
  pub port : ℕ

unfoldable pub SocketAddr-discrete : Discrete SocketAddr
unfolding IpAddr-discrete
SocketAddr-discrete = hlevel (ℕ_discrete, IpAddr-discrete)

instance unfoldable pub socket_addr_eq : Eq SocketAddr
unfolding SocketAddr-discrete
socket_addr_eq = record { dec = SocketAddr-discrete }

abbrev pub localhost : IpAddr
localhost = v4 127 0 0 1

abbrev pub localhost_v6 : IpAddr
localhost_v6 = v6 (0 ∷ 0 ∷ 0 ∷ 0 ∷ 0 ∷ 0 ∷ 0 ∷ 1 ∷ [])

-- `IpAddr::is_loopback`
abbrev pub is_loopback_v6 : List ℕ → Bool
is_loopback_v6 [] = false
is_loopback_v6 (n ∷ []) = eqb n 1
is_loopback_v6 (n ∷ m ∷ segments) = eqb n 0 && is_loopback_v6 (m ∷ segments)

abbrev pub is_loopback : IpAddr → Bool
is_loopback (v4 a b c d) = eqb a 127
is_loopback (v6 segments) = is_loopback_v6 segments

pub record PlannedProxyRoute : Type 0 where
  pub env_key : String
  pub endpoint : SocketAddr

pub record ProxyRoutePlan : Type 0 where
  pub routes : List PlannedProxyRoute
  pub has_proxy_config : Bool

unfoldable pub is_proxy_env_key : String → Bool
is_proxy_env_key key = contains (to_ascii_uppercase key) proxy_env_keys

abbrev pub is_localhost : String → Bool
is_localhost host = to_ascii_lowercase host == "localhost"

unfoldable pub is_loopback_host : String → Bool
is_loopback_host host = is_localhost host || (host == "127.0.0.1" || host == "::1")

unfoldable pub default_proxy_port : String → ℕ
default_proxy_port scheme =
    if scheme == "https"
    then 443
    else if contains scheme ("socks5" ∷ "socks5h" ∷ "socks4" ∷ "socks4a" ∷ [])
    then 1080
    else 80

-- `str::parse::<IpAddr>`, at the two texts that `is_loopback_host` leaves for it.
abbrev pub parse_ip : String → Option IpAddr
parse_ip host =
    if host == "127.0.0.1"
    then some localhost
    else if host == "::1"
    then some localhost_v6
    else none

abbrev pub with_scheme : String → String
with_scheme proxy_url = if has_text "://" proxy_url then proxy_url else "http://" <> proxy_url

abbrev pub is_configured : String × String → Bool
is_configured (key, value) = is_proxy_env_key key && not (is_empty_text (trim value))

module _ (u : UrlCrate) where
  unfoldable pub loopback_endpoint : u.Url → String → Option SocketAddr
  loopback_endpoint parsed host =
      let port =
        unwrap_or (u.port parsed) (default_proxy_port (to_ascii_lowercase (u.scheme parsed))) in
      if not (is_loopback_host host)
      then none
      else if eqb port 0
      then none
      else ((if is_localhost host then some localhost else parse_ip host) >>= λ ip.
          if is_loopback ip then some (record { ip = ip; port = port }) else none)

  unfoldable pub parse_loopback_proxy_endpoint : String → Option SocketAddr
  parse_loopback_proxy_endpoint proxy_url = u.parse (with_scheme proxy_url) >>= λ parsed.
      u.host_str parsed >>= λ host. loopback_endpoint parsed host

  -- The body of the loop for a proxy variable that is set.
  unfoldable pub planned_route : String × String → Option PlannedProxyRoute
  planned_route (key, value) = parse_loopback_proxy_endpoint (trim value) >>= λ endpoint.
      some (record { env_key = key; endpoint = endpoint })

  -- `HashMap` gives the variables in any order.
  unfoldable pub plan_proxy_routes : Env → ProxyRoutePlan
  plan_proxy_routes env = record {
    routes =
        sort (λ left right. text_le left.env_key right.env_key)
          (filter_map planned_route (filter is_configured env));
    has_proxy_config = any is_configured env;
  }

-- `str::strip_prefix("http://")`, or the text itself.
abbrev pub without_http : String → Option String → String
without_http text none = text
without_http text (some rest) = rest

module _ (u : UrlCrate) where
  -- `rewrite_proxy_env_value`, after the host and the port were set.
  unfoldable pub rewritten_text : String → String → String
  rewritten_text proxy_url text =
      if not (ends_with_char b'/' proxy_url)
        && (not (has_text "?" proxy_url)
            && (not (has_text "#" proxy_url) && ends_with_char b'/' text))
      then pop_char text
      else text

  unfoldable pub rewrite_proxy_env_value : String → ℕ → Option String
  rewrite_proxy_env_value proxy_url local_port = u.parse (with_scheme proxy_url) >>= λ parsed.
      u.set_host parsed "127.0.0.1" >>= λ hosted. u.set_port hosted local_port >>= λ ported.
      let text = u.to_string ported in
      some (
        rewritten_text proxy_url (
          if has_text "://" proxy_url then text else without_http text (strip_text "http://" text)))
