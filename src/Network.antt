-- ===== src/Network.antt =====
-- network_proxy.rs: the proxy settings that a sandboxed child is given by its environment. A
-- `SocketAddr` is its text.
pub mod Laws
use rattler_sandbox.Prelude.{
  is_empty_text, trim, is_some_and, to_ascii_lowercase, not, any, String, ◌<>◌, Bool, true, false,
  ◌&&◌, ◌||◌, not, Option, none, some, List, [], ◌∷◌, any, if◌then◌else◌, is_some, is_some_and, Env,
  lookup, insert, trim, is_empty_text,
}

abbrev pub proxy_url_env_keys : List String
proxy_url_env_keys =
    "HTTP_PROXY" ∷ "HTTPS_PROXY" ∷ "WS_PROXY" ∷ "WSS_PROXY" ∷ "ALL_PROXY" ∷ "FTP_PROXY" ∷ []

abbrev pub proxy_active_env_key : String
proxy_active_env_key = "RATTLER_NETWORK_PROXY_ACTIVE"

abbrev pub allow_local_binding_env_key : String
allow_local_binding_env_key = "RATTLER_NETWORK_ALLOW_LOCAL_BINDING"

abbrev pub default_no_proxy_value : String
default_no_proxy_value = "localhost,127.0.0.1,::1,10.0.0.0/8,172.16.0.0/12,192.168.0.0/16"

pub record NetworkProxy : Type 0 where
  pub http_addr : String
  pub socks_addr : String
  pub socks_enabled : Bool
  pub allow_local_binding : Bool
  pub dangerously_allow_all_unix_sockets : Bool
  pub allow_unix_sockets : List String

abbrev pub http_url : NetworkProxy → String
http_url p = "http://" <> p.http_addr

abbrev pub all_proxy : NetworkProxy → String
all_proxy p = if p.socks_enabled then "socks5://" <> p.socks_addr else http_url p

-- The settings that are written whatever the environment holds, in their order.
unfoldable pub apply_urls : NetworkProxy → Env → Env
apply_urls p env = insert proxy_active_env_key "1" (
    insert "all_proxy" (all_proxy p) (
      insert "ALL_PROXY" (all_proxy p) (
        insert "https_proxy" (http_url p) (
          insert "http_proxy" (http_url p)
            (insert "HTTPS_PROXY" (http_url p) (insert "HTTP_PROXY" (http_url p) env))))))

unfoldable pub apply_local_binding : NetworkProxy → Env → Env
apply_local_binding p env =
    if p.allow_local_binding then insert allow_local_binding_env_key "1" env else env

unfoldable pub apply_no_proxy : Env → Env
apply_no_proxy env =
    if not (is_some (lookup "NO_PROXY" env)) && not (is_some (lookup "no_proxy" env))
    then insert "no_proxy" default_no_proxy_value (insert "NO_PROXY" default_no_proxy_value env)
    else env

unfoldable pub apply_to_env : NetworkProxy → Env → Env
apply_to_env p env = apply_no_proxy (apply_local_binding p (apply_urls p env))

unfoldable pub proxy_url_env_value : Env → String → Option String
proxy_url_env_value env canonical_key = elim (lookup canonical_key env) [
  | some value ↦ some value
  | none ↦ lookup (to_ascii_lowercase canonical_key) env
]

unfoldable pub has_proxy_url_env_vars : Env → Bool
has_proxy_url_env_vars env =
    any (λ key. is_some_and (λ v. not (is_empty_text (trim v))) (proxy_url_env_value env key))
      proxy_url_env_keys

-- `NetworkProxy::new`
abbrev pub new_proxy : String → String → NetworkProxy
new_proxy http_addr socks_addr = record {
  http_addr = http_addr;
  socks_addr = socks_addr;
  socks_enabled = true;
  allow_local_binding = false;
  dangerously_allow_all_unix_sockets = false;
  allow_unix_sockets = [];
}

abbrev pub with_socks_enabled : NetworkProxy → Bool → NetworkProxy
with_socks_enabled p enabled = record p { socks_enabled = enabled }

abbrev pub with_allow_local_binding : NetworkProxy → Bool → NetworkProxy
with_allow_local_binding p allow = record p { allow_local_binding = allow }

abbrev pub with_dangerously_allow_all_unix_sockets : NetworkProxy → Bool → NetworkProxy
with_dangerously_allow_all_unix_sockets p allow = record p {
  dangerously_allow_all_unix_sockets = allow;
}

abbrev pub with_allow_unix_sockets : NetworkProxy → List String → NetworkProxy
with_allow_unix_sockets p sockets = record p { allow_unix_sockets = sockets }
