-- ===== src/Seatbelt/Network.antt =====
-- seatbelt.rs: the network rules of the profile.
use rattler_sandbox.Prelude.{
  String, ◌<>◌, ℕ, Bool, true, false, not, ◌&&◌, ◌||◌, [], ◌∷◌, map, if◌then◌else◌, is_empty,
  is_empty_text, number_text,
}
use rattler_sandbox.Policy.Types.{NetworkSandboxPolicy, SandboxPolicy}
use rattler_sandbox.Policy.Grants.{is_enabled}
use rattler_sandbox.Policy.Build.{network_policy_from}
use rattler_sandbox.Seatbelt.Texts.{Profile, concat_texts}
use rattler_sandbox.Seatbelt.Inputs.{
  UnixDomainSocketPolicy, allow_all, restricted, ProxyPolicyInputs, UnixSocketPathParam,
  unix_socket_path_params, unix_socket_path_param_key,
}

abbrev pub is_allow_all : UnixDomainSocketPolicy → Bool
is_allow_all allow_all = true
is_allow_all (restricted allowed) = false

abbrev pub has_some_unix_socket_access : UnixDomainSocketPolicy → Bool
has_some_unix_socket_access allow_all = true
has_some_unix_socket_access (restricted allowed) = not (is_empty allowed)

unfoldable pub socket_rules : UnixSocketPathParam → String
socket_rules param =
    let key = unix_socket_path_param_key param.index in
    concat_texts (
      "(allow network-bind (local unix-socket (subpath (param \"" ∷ key ∷ "\"))))\n"
      ∷ "(allow network-outbound (remote unix-socket (subpath (param \"" ∷ key ∷ "\"))))\n" ∷ [])

unfoldable pub unix_socket_policy : ProxyPolicyInputs → String
unix_socket_policy proxy =
    let socket_params = unix_socket_path_params proxy in
    let all_sockets = is_allow_all proxy.unix_domain_socket_policy in
    if not (all_sockets || not (is_empty socket_params))
    then ""
    else "(allow system-socket (socket-domain AF_UNIX))\n"
      <> (if all_sockets
          then "(allow network-bind (local unix-socket))\n(allow network-outbound (remote unix-socket))\n"
          else concat_texts (map socket_rules socket_params))

abbrev pub with_unix_sockets : String → String
with_unix_sockets rules =
    if not (is_empty_text rules) then "; allow unix domain sockets for local IPC\n" <> rules else ""

abbrev pub local_binding_rules : Bool → String
local_binding_rules allow_local_binding =
    if allow_local_binding
    then "; allow local binding and loopback traffic\n(allow network-bind (local ip \"*:*\"))\n(allow network-inbound (local ip \"localhost:*\"))\n(allow network-outbound (remote ip \"localhost:*\"))\n"
    else ""

abbrev pub dns_rules : Bool → String
dns_rules allowed =
    if allowed
    then "; allow DNS lookups while application traffic remains proxy-routed\n(allow network-outbound (remote ip \"*:53\"))\n"
    else ""

abbrev pub port_rule : ℕ → String
port_rule port = "(allow network-outbound (remote ip \"localhost:" <> (number_text port <> "\"))\n")

unfoldable pub should_use_restricted_network_policy :
    NetworkSandboxPolicy → Bool → ProxyPolicyInputs → Bool
should_use_restricted_network_policy network_policy enforce_managed_network proxy =
    not (is_empty proxy.ports)
    || (proxy.has_proxy_config
        || (enforce_managed_network
            || (not (is_enabled network_policy)
                && has_some_unix_socket_access proxy.unix_domain_socket_policy)))

module _ (profile : Profile) where
  unfoldable pub restricted_network_policy : ProxyPolicyInputs → String
  restricted_network_policy proxy = concat_texts (
      local_binding_rules proxy.allow_local_binding
      ∷ dns_rules (proxy.allow_local_binding && not (is_empty proxy.ports))
      ∷ concat_texts (map port_rule proxy.ports)
      ∷ with_unix_sockets (unix_socket_policy proxy)
      ∷ profile.network_policy
      ∷ [])

  unfoldable pub full_network_policy : ProxyPolicyInputs → String
  full_network_policy proxy = concat_texts (
      "(allow network-outbound)\n(allow network-inbound)\n"
      ∷ with_unix_sockets (unix_socket_policy proxy)
      ∷ profile.network_policy
      ∷ [])

  unfoldable pub dynamic_network_policy_for_network :
      NetworkSandboxPolicy → Bool → ProxyPolicyInputs → String
  dynamic_network_policy_for_network network_policy enforce_managed_network proxy =
      if should_use_restricted_network_policy network_policy enforce_managed_network proxy
      then restricted_network_policy proxy
      else if proxy.has_proxy_config
      then ""
      else if enforce_managed_network
      then ""
      else if is_enabled network_policy
      then full_network_policy proxy
      else ""

  unfoldable pub dynamic_network_policy : SandboxPolicy → Bool → ProxyPolicyInputs → String
  dynamic_network_policy sandbox_policy enforce_managed_network proxy =
      dynamic_network_policy_for_network (network_policy_from sandbox_policy)
        enforce_managed_network proxy
