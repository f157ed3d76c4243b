-- ===== src/Linux/Routing/Host.antt =====
-- proxy_routing.rs: `prepare_host_proxy_route_spec`, which starts a bridge for each endpoint.
use rattler_sandbox.Prelude.{
  String, ◌<>◌, ℕ, ◌+◌, Bool, true, false, Option, none, some, List, [], ◌∷◌, ◌++◌, sort, any,
  if◌then◌else◌, ◌==◌, eqb, ltb, is_empty, number_text, Env,
}
use rattler_sandbox.Url.{UrlCrate}
use rattler_sandbox.Paths.Std.{PathBuf, push, components}
use rattler_sandbox.Linux.Routing.Plan.{
  IpAddr, v4, v6, SocketAddr, socket_addr_eq, PlannedProxyRoute, plan_proxy_routes,
}
use rattler_sandbox.Linux.Routing.Directories.{
  DirectoryHost, Fallible, ok, err, and_then, or_error, invalid_input, other, os_error,
  create_proxy_socket_dir,
}

pub record ProxyRouteEntry : Type 0 where
  pub env_key : String
  pub uds_path : PathBuf

pub record ProxyRouteSpec : Type 0 where
  pub routes : List ProxyRouteEntry

-- What the bridges take from the process: its variables, the start of a bridge, by its process, the
-- start of the worker that removes the directory, and `serde_json`.
pub record BridgeHost : Type 0 where
  pub vars : Env
  pub spawn_host_bridge : SocketAddr → PathBuf → Option ℕ
  pub spawn_proxy_socket_dir_cleanup_worker : PathBuf → List ℕ → Bool
  pub to_json : ProxyRouteSpec → Option String

abbrev pub Sockets : Type 0
Sockets = List (SocketAddr × PathBuf)

unfoldable pub socket_of : SocketAddr → Sockets → Option PathBuf
socket_of endpoint [] = none
socket_of endpoint ((other_endpoint, path) ∷ sockets) =
    if other_endpoint == endpoint then some path else socket_of endpoint sockets

unfoldable pub socket_path : PathBuf → ℕ → PathBuf
socket_path socket_dir index =
    push socket_dir (components ("proxy-route-" <> (number_text index <> ".sock")))

abbrev pub has_socket : SocketAddr → Sockets → Bool
has_socket endpoint sockets = any (λ (e, _). e == endpoint) sockets

-- The body of the first loop: the sockets, and the next index.
unfoldable pub assign_socket : PathBuf → Sockets × ℕ → PlannedProxyRoute → Sockets × ℕ
assign_socket socket_dir (sockets, next_index) route =
    if has_socket route.endpoint sockets
    then (sockets, next_index)
    else (sockets ++ ((route.endpoint, socket_path socket_dir next_index) ∷ []), next_index + 1)

unfoldable pub assign_sockets : PathBuf → Sockets × ℕ → List PlannedProxyRoute → Sockets
assign_sockets socket_dir (sockets, next_index) [] = sockets
assign_sockets socket_dir (sockets, next_index) (route ∷ routes) =
    assign_sockets socket_dir (assign_socket socket_dir (sockets, next_index) route) routes

-- `Ord for SocketAddr`, which the `BTreeMap` of the sockets goes by.
unfoldable pub numbers_le : List ℕ → List ℕ → Bool
numbers_le [] q = true
numbers_le (n ∷ p) [] = false
numbers_le (n ∷ p) (m ∷ q) =
    let rest = numbers_le p q in if ltb n m then true else if eqb n m then rest else false

abbrev pub address_numbers : IpAddr → List ℕ
address_numbers (v4 a b c d) = 4 ∷ a ∷ b ∷ c ∷ d ∷ []
address_numbers (v6 segments) = 6 ∷ segments

unfoldable pub endpoint_le : SocketAddr → SocketAddr → Bool
endpoint_le a b =
    numbers_le (address_numbers a.ip ++ (a.port ∷ [])) (address_numbers b.ip ++ (b.port ∷ []))

-- The message of the error leaves out the endpoint that it names.
unfoldable pub route_entries : Sockets → List PlannedProxyRoute → Fallible (List ProxyRouteEntry)
route_entries sockets [] = ok []
route_entries sockets (route ∷ routes) =
    and_then (or_error (other "missing UDS path for endpoint") (socket_of route.endpoint sockets))
      (λ uds_path.
        and_then (route_entries sockets routes)
          (λ entries. ok (record { env_key = route.env_key; uds_path = uds_path } ∷ entries)))

module _ (u : UrlCrate) (d : DirectoryHost) (h : BridgeHost) where
  unfoldable pub spawn_host_bridges : Sockets → Fallible (List ℕ)
  spawn_host_bridges [] = ok []
  spawn_host_bridges ((endpoint, path) ∷ sockets) =
      and_then (or_error os_error (h.spawn_host_bridge endpoint path))
        (λ pid. and_then (spawn_host_bridges sockets) (λ pids. ok (pid ∷ pids)))

  -- The spec for the routes of a plan, in a directory for their sockets.
  unfoldable pub prepare_in : PathBuf → List PlannedProxyRoute → Fallible ProxyRouteSpec
  prepare_in socket_dir routes =
      let sockets = assign_sockets socket_dir ([], 0) routes in
      and_then (spawn_host_bridges (sort (λ (a, _) (b, _). endpoint_le a b) sockets)) (λ pids.
        if h.spawn_proxy_socket_dir_cleanup_worker socket_dir pids
        then and_then (route_entries sockets routes) (λ entries. ok (record { routes = entries }))
        else err os_error)

  -- The removal of stale directories, whose error is passed over, gives nothing to the rest.
  unfoldable pub prepare_host_proxy_route_spec : Fallible String
  prepare_host_proxy_route_spec =
      let plan = plan_proxy_routes u h.vars in
      if is_empty plan.routes
      then (if plan.has_proxy_config
          then err (invalid_input "managed proxy mode requires parseable loopback proxy endpoints")
          else err (invalid_input "managed proxy mode requires proxy environment variables"))
      else and_then (create_proxy_socket_dir d) (λ socket_dir.
        and_then (prepare_in socket_dir plan.routes) (λ spec. or_error os_error (h.to_json spec)))
