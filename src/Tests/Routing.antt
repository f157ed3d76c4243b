-- ===== src/Tests/Routing.antt =====
-- Routes to the proxies of this host, their sockets and the directories of these.
use mathlib.Core.List.{Memᴰ}
use rattler_sandbox.Prelude.{
  String, ℕ, true, false, Option, none, some, List, [], ◌∷◌, ◌≡◌, ◌⊎◌, ◌↔◌, refl, arith, Env,
  lookup, contains, string_eq, eqb, sort, insert_sorted, to_ascii_uppercase, to_ascii_lowercase,
  trim, trim_end, trim_start, is_whitespace, number_text, insert, ends_with_char, has_text,
  has_prefix,
}
use rattler_sandbox.Paths.Std.{PathBuf, root_dir, normal, file_name, path_eq}
use rattler_sandbox.Linux.Host.{DirEntry, directory}
use rattler_sandbox.Linux.Routing.Plan.{
  SocketAddr, localhost, is_loopback, PlannedProxyRoute, plan_proxy_routes, is_proxy_env_key,
  planned_route, parse_loopback_proxy_endpoint, loopback_endpoint, is_loopback_host,
  rewrite_proxy_env_value, rewritten_text,
}
use rattler_sandbox.Linux.Routing.Loopback.{
  AsksFor, plan_proxy_routes_lem, plan_proxy_routes-is_loopback,
}
use rattler_sandbox.Linux.Routing.Directories.{
  DirectoryHost, ok, err, os_error, made, socket_dir_name, is_pid_alive,
  cleanup_stale_proxy_socket_dirs_in,
}
use rattler_sandbox.Linux.Routing.Owner.{cleanup_stale_proxy_socket_dirs_in-is_pid_alive}
use rattler_sandbox.Linux.Routing.Host.{
  ProxyRouteEntry, ProxyRouteSpec, BridgeHost, socket_of, assign_sockets, prepare_in,
}
use rattler_sandbox.Linux.Routing.Prepared.{EntriesFor, Fails, Bridged, prepare_in_lem}
use rattler_sandbox.Linux.Routing.Activate.{
  activate_proxy_routes_in_netns, spawn_local_bridges, activate_routes, port_of, activate_route,
}
use rattler_sandbox.Linux.Routing.Rewritten.{
  Rewrites, env_keys, has_distinct_keys, activate_proxy_routes_in_netns_lem,
}
use rattler_sandbox.Tests.Seatbelt.{url_crate}

abbrev proxy_env : Env
proxy_env = ("PATH", "/bin") ∷ ("HTTP_PROXY", "http://localhost:8080") ∷ []

abbrev endpoint : SocketAddr
endpoint = record { ip = localhost; port = 8080 }

abbrev http_route : PlannedProxyRoute
http_route = record { env_key = "HTTP_PROXY"; endpoint = endpoint }

abbrev all_route : PlannedProxyRoute
all_route = record { env_key = "ALL_PROXY"; endpoint = record { ip = localhost; port = 1080 } }

plan_proxy_routes_lem_example :
    Memᴰ http_route (plan_proxy_routes url_crate proxy_env).routes
    ↔ AsksFor url_crate proxy_env "HTTP_PROXY" endpoint
plan_proxy_routes_lem_example = plan_proxy_routes_lem url_crate proxy_env http_route

http_route_planned : Memᴰ http_route (plan_proxy_routes url_crate proxy_env).routes
unfolding plan_proxy_routes sort is_proxy_env_key string_eq to_ascii_uppercase trim trim_end
    trim_start is_whitespace planned_route parse_loopback_proxy_endpoint loopback_endpoint
    is_loopback_host to_ascii_lowercase insert_sorted
http_route_planned = Memᴰ.head refl

plan_proxy_routes-is_loopback_example : (is_loopback localhost ≡ true) × (eqb 8080 0 ≡ false)
plan_proxy_routes-is_loopback_example =
    plan_proxy_routes-is_loopback url_crate proxy_env http_route http_route_planned

abbrev tmp : PathBuf
tmp = root_dir ∷ normal "tmp" ∷ []

abbrev left_dir : DirEntry
left_dir = record {
  path = root_dir ∷ normal "tmp" ∷ normal "codex-linux-sandbox-proxy-42-0" ∷ [];
  file_type = some directory;
}

-- Process 7 alone is alive.
abbrev directory_host : DirectoryHost
directory_host = record {
  id = 7;
  codex_home = none;
  temp_dir = tmp;
  create_dir = λ path. made;
  create_dir_all = λ path. made;
  set_permissions = λ path. true;
  read_dir = λ path. some (some left_dir ∷ none ∷ []);
  is_pid_alive_raw = λ pid. eqb pid 7;
}

left_dir_named : file_name left_dir.path ≡ some (socket_dir_name 42 0)
unfolding file_name socket_dir_name number_text
left_dir_named = refl

cleanup_stale_proxy_socket_dirs_in-is_pid_alive_example :
    (stale : List PathBuf) × (cleanup_stale_proxy_socket_dirs_in directory_host tmp ≡ some stale)
    × (Memᴰ left_dir.path stale ↔ (is_pid_alive directory_host 42 ≡ false))
cleanup_stale_proxy_socket_dirs_in-is_pid_alive_example =
    cleanup_stale_proxy_socket_dirs_in-is_pid_alive directory_host tmp (some left_dir ∷ none ∷ [])
      left_dir 42 0 refl (Memᴰ.head refl) refl left_dir_named (omega arith) (omega arith)

abbrev bridge_host : BridgeHost
bridge_host = record {
  vars = proxy_env;
  spawn_host_bridge = λ address path. some 100;
  spawn_proxy_socket_dir_cleanup_worker = λ path pids. true;
  to_json = λ spec. some "{}";
}

abbrev both_routes : List PlannedProxyRoute
both_routes = all_route ∷ http_route ∷ []

prepare_in_lem_example :
    ((prepare_in url_crate directory_host bridge_host tmp both_routes ≡ err os_error)
      × Fails url_crate directory_host bridge_host tmp (assign_sockets tmp ([], 0) both_routes))
    ⊎ ((spec : ProxyRouteSpec) × (prepare_in url_crate directory_host bridge_host tmp both_routes
          ≡ ok spec)
        × ((pids : List ℕ) × Bridged url_crate directory_host bridge_host
              (assign_sockets tmp ([], 0) both_routes)
              pids
            × (bridge_host.spawn_proxy_socket_dir_cleanup_worker tmp pids ≡ true))
        × EntriesFor
            (λ e. socket_of e (assign_sockets tmp ([], 0) both_routes))
            both_routes
            spec.routes
        × ((socket_of all_route.endpoint (assign_sockets tmp ([], 0) both_routes)
              ≡ socket_of http_route.endpoint (assign_sockets tmp ([], 0) both_routes))
            ↔ (all_route.endpoint ≡ http_route.endpoint)))
prepare_in_lem_example =
    prepare_in_lem url_crate directory_host bridge_host tmp both_routes all_route http_route
      (Memᴰ.head refl)

abbrev http_entry : ProxyRouteEntry
http_entry = record {
  env_key = "HTTP_PROXY";
  uds_path = root_dir ∷ normal "tmp" ∷ normal "proxy-route-0.sock" ∷ [];
}

abbrev spec : ProxyRouteSpec
spec = record { routes = http_entry ∷ [] }

abbrev read_spec : String → Option ProxyRouteSpec
read_spec text = some spec

abbrev bridge_port : PathBuf → Option ℕ
bridge_port path = some 3128

abbrev rewritten_env : Env
rewritten_env = ("PATH", "/bin") ∷ ("HTTP_PROXY", "http://127.0.0.1:3128") ∷ []

http_proxy_rewritten :
    activate_proxy_routes_in_netns url_crate read_spec bridge_port "{}" proxy_env ≡ ok rewritten_env
unfolding activate_proxy_routes_in_netns spawn_local_bridges port_of activate_routes activate_route
    path_eq lookup rewrite_proxy_env_value insert rewritten_text ends_with_char has_text has_prefix
http_proxy_rewritten = refl

one_key : has_distinct_keys spec.routes ≡ true
unfolding has_distinct_keys
one_key = refl

path_has_no_route : contains "PATH" (env_keys spec.routes) ≡ false
unfolding string_eq
path_has_no_route = refl

activate_proxy_routes_in_netns_lem_example :
    Rewrites url_crate read_spec bridge_port proxy_env rewritten_env http_entry
    × (lookup "PATH" rewritten_env ≡ lookup "PATH" proxy_env)
activate_proxy_routes_in_netns_lem_example =
    activate_proxy_routes_in_netns_lem url_crate read_spec bridge_port "{}" proxy_env rewritten_env
      spec http_entry "PATH" (Memᴰ.head refl) path_has_no_route refl one_key http_proxy_rewritten
