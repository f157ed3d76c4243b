-- ===== src/Seatbelt/Closed.antt =====
-- seatbelt.rs: when the network rules are the restricted ones, and the ports that they open.
use rattler_sandbox.Prelude.{Bool, not, ◌||◌, ◌≡◌, if◌then◌else◌, is_empty, arith}
use rattler_sandbox.Policy.Types.{NetworkSandboxPolicy}
use rattler_sandbox.Policy.Grants.{is_enabled}
use rattler_sandbox.Seatbelt.Texts.{Profile}
use rattler_sandbox.Seatbelt.Inputs.{ProxyPolicyInputs, port_eq}
use rattler_sandbox.Seatbelt.Network.{
  has_some_unix_socket_access, should_use_restricted_network_policy, restricted_network_policy,
  full_network_policy, dynamic_network_policy_for_network,
}

-- A proxy is configured, a port of one is known, or a managed network is enforced.
abbrev pub has_proxy_demand : Bool → ProxyPolicyInputs → Bool
has_proxy_demand enforce_managed_network proxy =
    not (is_empty proxy.ports) || (proxy.has_proxy_config || enforce_managed_network)

-- The network rules are the restricted ones where a proxy is configured, a port of one is known or
-- a managed network is enforced; otherwise the full ones where the policy enables the network, the
-- restricted ones where it does not but sockets are allowed, and none at all where they are not. So
-- the code's branches that are to fail closed with no rules are never taken.
pub dynamic_network_policy_for_network_lem :
    (profile : Profile) (network_policy : NetworkSandboxPolicy) (enforce_managed_network : Bool)
    (proxy : ProxyPolicyInputs)
    → dynamic_network_policy_for_network profile network_policy enforce_managed_network proxy ≡ (
        if has_proxy_demand enforce_managed_network proxy
        then restricted_network_policy profile proxy
        else if is_enabled network_policy
        then full_network_policy profile proxy
        else if has_some_unix_socket_access proxy.unix_domain_socket_policy
        then restricted_network_policy profile proxy
        else "")
unfolding dynamic_network_policy_for_network should_use_restricted_network_policy
dynamic_network_policy_for_network_lem profile network_policy enforce proxy = ground arith
