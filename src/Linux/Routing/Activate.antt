-- ===== src/Linux/Routing/Activate.antt =====
-- proxy_routing.rs: `activate_proxy_routes_in_netns`, which starts a bridge for each socket inside
-- the namespace and rewrites the variables to it.
use rattler_sandbox.Prelude.{
  String, ◌<>◌, ℕ, Option, none, some, List, [], ◌∷◌, ◌++◌, if◌then◌else◌, ◌==◌, is_empty, lookup,
  insert, Env,
}
use rattler_sandbox.Url.{UrlCrate}
use rattler_sandbox.Paths.Std.{PathBuf, path_eq, path_text}
use rattler_sandbox.Linux.Routing.Plan.{rewrite_proxy_env_value}
use rattler_sandbox.Linux.Routing.Directories.{
  Fallible, ok, err, and_then, or_error, invalid_input, not_found, other, os_error,
}
use rattler_sandbox.Linux.Routing.Host.{ProxyRouteEntry, ProxyRouteSpec}

abbrev pub Ports : Type 0
Ports = List (PathBuf × ℕ)

unfoldable pub port_of : PathBuf → Ports → Option ℕ
port_of path [] = none
port_of path ((other_path, port) ∷ ports) =
    if other_path == path then some port else port_of path ports

-- `serde_json`, and the start of a bridge, by its port.
module _ (u : UrlCrate) (from_json : String → Option ProxyRouteSpec)
    (spawn_local_bridge : PathBuf → Option ℕ) where
  unfoldable pub spawn_local_bridges : Ports → List ProxyRouteEntry → Fallible Ports
  spawn_local_bridges ports [] = ok ports
  spawn_local_bridges ports (route ∷ routes) =
      and_then
        (elim (port_of route.uds_path ports) [
          | some port ↦ ok ports
          | none ↦
              and_then (or_error os_error (spawn_local_bridge route.uds_path))
                (λ port. ok (ports ++ ((route.uds_path, port) ∷ [])))
        ])
        (λ known. spawn_local_bridges known routes)

  -- The body of the second loop.
  unfoldable pub activate_route : Ports → Env → ProxyRouteEntry → Fallible Env
  activate_route ports env route =
      and_then
        (or_error (other ("missing local bridge port for UDS path " <> path_text route.uds_path))
          (port_of route.uds_path ports))
        (λ local_port.
          and_then
            (or_error (not_found ("missing proxy env key " <> route.env_key))
              (lookup route.env_key env))
            (λ original_value.
              and_then
                (or_error
                  (invalid_input ("could not rewrite proxy URL for env key " <> route.env_key))
                  (rewrite_proxy_env_value u original_value local_port))
                (λ rewritten. ok (insert route.env_key rewritten env))))

  unfoldable pub activate_routes : Ports → Env → List ProxyRouteEntry → Fallible Env
  activate_routes ports env [] = ok env
  activate_routes ports env (route ∷ routes) =
      and_then (activate_route ports env route) (λ changed. activate_routes ports changed routes)

  -- The environment after it, where nothing fails.
  unfoldable pub activate_proxy_routes_in_netns : String → Env → Fallible Env
  activate_proxy_routes_in_netns serialized_spec env =
      and_then (or_error os_error (from_json serialized_spec)) (λ spec.
        if is_empty spec.routes
        then err (invalid_input "proxy routing spec contained no routes")
        else and_then (spawn_local_bridges [] spec.routes)
            (λ ports. activate_routes ports env spec.routes))
