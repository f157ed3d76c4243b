-- ===== src/Linux/Routing/Rewritten.antt =====
-- proxy_routing.rs: the environment that `activate_proxy_routes_in_netns` leaves.
use rattler_sandbox.Prelude.{
  String, ℕ, Bool, true, false, not, ◌&&◌, Option, some, List, [], ◌∷◌, map, ◌≡◌, refl, sym, ap,
  ◌∙◌, if◌then◌else◌, ◌==◌, string_eq, ==-eq, ==_refl, contains, is_empty, lookup, insert, Env,
  arith, Bool-cases, inl, inr, lookup-insert, contains_of_mem, mem-map,
}
use mathlib.Core.List.{Memᴰ}
use mathlib.Core.Path.{subst}
use mathlib.Core.Option.{some-injective}
use rattler_sandbox.Url.{UrlCrate}
use rattler_sandbox.Paths.Std.{PathBuf, path_eq}
use rattler_sandbox.Linux.Routing.Plan.{rewrite_proxy_env_value}
use rattler_sandbox.Linux.Routing.Values.{IsRewritten, rewrite_proxy_env_value-IsRewritten}
use rattler_sandbox.Linux.Routing.Directories.{
  Fallible, ok, err, and_then, RouteError, invalid_input, os_error,
}
use rattler_sandbox.Linux.Routing.Host.{ProxyRouteEntry, ProxyRouteSpec}
use rattler_sandbox.Linux.Routing.Results.{ok_of_and_then, some_of_or_error, ok-injective}
use rattler_sandbox.Linux.Routing.Activate.{
  Ports, port_of, spawn_local_bridges, activate_route, activate_routes,
  activate_proxy_routes_in_netns,
}
use rattler_sandbox.Linux.Routing.Bridges.{Spawned, spawn_local_bridges-Spawned}

abbrev pub env_keys : List ProxyRouteEntry → List String
env_keys routes = map (λ (r : ProxyRouteEntry). r.env_key) routes

-- No variable has two routes.
unfoldable pub has_distinct_keys : List ProxyRouteEntry → Bool
has_distinct_keys [] = true
has_distinct_keys (route ∷ routes) =
    not (contains route.env_key (env_keys routes)) && has_distinct_keys routes

distinct_head :
    (first route : ProxyRouteEntry) (routes : List ProxyRouteEntry)
    → has_distinct_keys (first ∷ routes) ≡ true
    → Memᴰ route routes
    → (first.env_key == route.env_key) ≡ false
unfolding has_distinct_keys
distinct_head first route routes d m = elim (Bool-cases (first.env_key == route.env_key)) [
  | inl e ↦
      let same : route.env_key ≡ first.env_key = sym (==-eq _ _ e) in
      let present : contains route.env_key (env_keys routes) ≡ true =
        contains_of_mem route.env_key (env_keys routes)
          (mem-map (λ (r : ProxyRouteEntry). r.env_key) route routes m) in
      let here = ap (λ (key : String). contains key (env_keys routes)) (sym same) ∙ present in
      absurd (ground (arith, here, d))
  | inr e ↦ e
]

module _ (u : UrlCrate) (from_json : String → Option ProxyRouteSpec)
    (spawn_local_bridge : PathBuf → Option ℕ) where
  -- The environment gives the variable of a route the URL that its old value names, at 127.0.0.1 and
  -- the port of the bridge to its socket.
  abbrev pub Rewrites : Env → Env → ProxyRouteEntry → Type 0
  Rewrites env changed route =
      (original_value : String) × (local_port : ℕ) × (rewritten : String) × (lookup route.env_key
          env
        ≡ some original_value)
      × (spawn_local_bridge route.uds_path ≡ some local_port)
      × IsRewritten u original_value local_port rewritten
      × (lookup route.env_key changed ≡ some rewritten)

  activate_route_lem :
      (ports : Ports) (env : Env) (route : ProxyRouteEntry) (changed : Env)
      → Spawned u from_json spawn_local_bridge ports
      → activate_route u from_json spawn_local_bridge ports env route ≡ ok changed
      → Rewrites env changed route
        × ((key : String) → (route.env_key == key) ≡ false → lookup key changed ≡ lookup key env)
  unfolding activate_route Spawned
  activate_route_lem ports env route changed s h =
      let (local_port, e1, h1) = some_of_or_error _ (port_of route.uds_path ports) _ changed h in
      let (original_value, e2, h2) = some_of_or_error _ (lookup route.env_key env) _ changed h1 in
      let (rewritten, e3, h3) =
        some_of_or_error _ (rewrite_proxy_env_value u original_value local_port) _ changed h2 in
      let same : insert route.env_key rewritten env ≡ changed = ok-injective _ _ h3 in
      (
        (
          original_value,
          local_port,
          rewritten,
          e2,
          s route.uds_path local_port e1,
          rewrite_proxy_env_value-IsRewritten u original_value local_port rewritten e3,
          ap (lookup route.env_key) (sym same)
              ∙ lookup-insert route.env_key route.env_key rewritten env
              ∙ rw (==_refl route.env_key) refl,
        ),
        λ key differ.
            ap (lookup key) (sym same)
            ∙ lookup-insert route.env_key key rewritten env
            ∙ rw differ refl,
      )

  -- Of the routes together.
  activate_routes_lem :
      (ports : Ports) (routes : List ProxyRouteEntry) (env changed : Env)
      → Spawned u from_json spawn_local_bridge ports
      → has_distinct_keys routes ≡ true
      → activate_routes u from_json spawn_local_bridge ports env routes ≡ ok changed
      → ((route : ProxyRouteEntry) → Memᴰ route routes → Rewrites env changed route)
        × ((key : String)
            → contains key (env_keys routes) ≡ false
            → lookup key changed ≡ lookup key env)
  unfolding activate_routes has_distinct_keys
  activate_routes_lem ports [] env changed s d h =
      (λ route m. elim m [ ], λ key k. ap (lookup key) (sym (ok-injective _ _ h)))
  activate_routes_lem ports (first ∷ routes) env changed s d h =
      let (middle, e1, h1) =
        ok_of_and_then (activate_route u from_json spawn_local_bridge ports env first) _ changed
          h in
      let (rewrites, others) = activate_route_lem ports env first middle s e1 in
      let (later, kept) = activate_routes_lem ports routes middle changed s (ground arith) h1 in
      (
        by_route middle rewrites others later kept,
        λ key k. kept key (ground arith) ∙ others key (ground arith),
      )
    where
      by_route :
          (middle : Env)
          → Rewrites env middle first
          → ((key : String) → (first.env_key == key) ≡ false → lookup key middle ≡ lookup key env)
          → ((route : ProxyRouteEntry) → Memᴰ route routes → Rewrites middle changed route)
          → ((key : String)
              → contains key (env_keys routes) ≡ false
              → lookup key changed ≡ lookup key middle)
          → (route : ProxyRouteEntry) → Memᴰ route (first ∷ routes)
          → Rewrites env changed route
      by_route middle (v, n, w, e, p, q, r) others later kept route (Memᴰ.head same) =
          subst (Rewrites env changed) (sym same)
            (v, n, w, e, p, q, kept first.env_key (ground arith) ∙ r)
      by_route middle rewrites others later kept route (Memᴰ.tail m) =
          let (v, n, w, e, p, q, r) = later route m in
          (v, n, w, sym (others route.env_key (distinct_head first route routes d m)) ∙ e, p, q, r)

  -- When the activation gives an environment and no variable has two routes, the variable of each
  -- route had a value, a bridge to the socket of the route was started at some port, and the
  -- variable now has the text of the URL that its value names, with the host set to 127.0.0.1 and the
  -- port to that port: without a leading http:// if the value had no scheme, and with or without its
  -- last slash if the value did not end in one. A variable without a route has what it had.
  pub activate_proxy_routes_in_netns_lem :
      (text : String) (env changed : Env) (spec : ProxyRouteSpec) (route : ProxyRouteEntry)
      (key : String)
      → Memᴰ route spec.routes
      → contains key (env_keys spec.routes) ≡ false
      → from_json text ≡ some spec
      → has_distinct_keys spec.routes ≡ true
      → activate_proxy_routes_in_netns u from_json spawn_local_bridge text env ≡ ok changed
      → Rewrites env changed route × (lookup key changed ≡ lookup key env)
  unfolding activate_proxy_routes_in_netns
  activate_proxy_routes_in_netns_lem text env changed spec route key m n j d h =
      let (spec1, j1, h1) = some_of_or_error os_error (from_json text) _ changed h in
      let same : spec1 ≡ spec = some-injective _ _ (sym j1 ∙ j) in
      if_else (is_empty spec.routes) (invalid_input "proxy routing spec contained no routes")
        (subst (λ (x : ProxyRouteSpec). activated x ≡ ok changed) same h1)
    where
      none_yet : Spawned u from_json spawn_local_bridge []
      none_yet = unfold Spawned port_of in λ p n k. absurd (cc k)

      activated : ProxyRouteSpec → Fallible Env
      activated x =
          if is_empty x.routes
          then err (invalid_input "proxy routing spec contained no routes")
          else and_then (spawn_local_bridges u from_json spawn_local_bridge [] x.routes)
              (λ ports. activate_routes u from_json spawn_local_bridge ports env x.routes)

      if_else :
          (b : Bool) (e : RouteError)
          → (if b
              then err e
              else and_then
                  (spawn_local_bridges u from_json spawn_local_bridge [] spec.routes)
                  (λ ports. activate_routes u from_json spawn_local_bridge ports env spec.routes))
            ≡ ok changed
          → Rewrites env changed route × (lookup key changed ≡ lookup key env)
      if_else true e k = absurd (cc k)
      if_else false refused k =
          let (ports, e, k1) =
            ok_of_and_then (spawn_local_bridges u from_json spawn_local_bridge [] spec.routes) _
              changed k in
          let (rewritten, kept) =
            activate_routes_lem ports spec.routes env changed
              (spawn_local_bridges-Spawned u from_json spawn_local_bridge spec.routes [] ports
                none_yet e)
              d k1 in
          (rewritten route m, kept key n)
