-- ===== src/Linux/Routing/Loopback.antt =====
-- proxy_routing.rs: what the routes of a plan are, and where they lead.
use rattler_sandbox.Prelude.{
  String, true, false, not, Option, none, some, ◌≡◌, refl, sym, ap, ◌∙◌, ◌↔◌, trim, Env,
  if◌then◌else◌, if_intro, eqb, ℕ, unwrap_or, to_ascii_lowercase, ◌>>=◌, mem_of_sort, mem-sort,
  mem-filter, mem_of_filter, mem-filter_map, mem_of_filter_map, arith, is_empty_text,
  to_ascii_uppercase, mem_of_contains, contains_of_mem, string_eq,
}
use mathlib.Core.List.{Memᴰ}
use mathlib.Core.Path.{subst}
use mathlib.Core.Option.{some-injective}
use rattler_sandbox.Url.{UrlCrate}
use rattler_sandbox.Linux.Routing.Plan.{
  IpAddr, SocketAddr, is_loopback, PlannedProxyRoute, is_localhost, is_loopback_host, localhost,
  parse_ip, loopback_endpoint, parse_loopback_proxy_endpoint, planned_route, is_configured,
  plan_proxy_routes, default_proxy_port, with_scheme, is_proxy_env_key, proxy_env_keys,
}
use rattler_sandbox.Linux.Routing.Asked.{NamesEndpoint, parse_loopback_proxy_endpoint-NamesEndpoint}

-- A variable of the environment is a proxy variable, its value is not blank, and the trimmed value
-- names the endpoint.
abbrev pub AsksFor : UrlCrate → Env → String → SocketAddr → Type 0
AsksFor u env key endpoint =
    (value : String) × Memᴰ (key, value) env
    × Memᴰ (to_ascii_uppercase key) proxy_env_keys
    × (is_empty_text (trim value) ≡ false)
    × NamesEndpoint u (trim value) endpoint

-- The same, by the tests of the code.
abbrev IsPlanned : UrlCrate → Env → String → SocketAddr → Type 0
IsPlanned u env key endpoint =
    (value : String) × Memᴰ (key, value) env
    × (is_configured (key, value) ≡ true)
    × (parse_loopback_proxy_endpoint u (trim value) ≡ some endpoint)

module _ (u : UrlCrate) where
  planned_route-endpoint :
      (key value : String) (route : PlannedProxyRoute)
      → planned_route u (key, value) ≡ some route
      → (parse_loopback_proxy_endpoint u (trim value) ≡ some route.endpoint) × (key ≡ route.env_key)
  unfolding planned_route
  planned_route-endpoint key value route =
      by_endpoint (parse_loopback_proxy_endpoint u (trim value))
    where
      by_endpoint :
          (o : Option SocketAddr)
          → (o >>= λ endpoint. some (record { env_key = key; endpoint = endpoint })) ≡ some route
          → (o ≡ some route.endpoint) × (key ≡ route.env_key)
      by_endpoint none h = absurd (cc h)
      by_endpoint (some endpoint) h =
          let e : record { env_key = key; endpoint = endpoint } ≡ route = some-injective _ _ h in
          (
            ap (λ (r : PlannedProxyRoute). some r.endpoint) e,
            ap (λ (r : PlannedProxyRoute). r.env_key) e,
          )

  plan_proxy_routes-IsPlanned :
      (env : Env) (route : PlannedProxyRoute)
      → Memᴰ route (plan_proxy_routes u env).routes ↔ IsPlanned u env route.env_key route.endpoint
  unfolding plan_proxy_routes planned_route
  plan_proxy_routes-IsPlanned env route = (sound, complete)
    where
      sound :
          Memᴰ route (plan_proxy_routes u env).routes → IsPlanned u env route.env_key route.endpoint
      sound m =
          let ((key, value), n, e) =
            mem_of_filter_map (planned_route u) route _ (mem_of_sort _ route _ m) in
          let (k, c) = mem_of_filter is_configured (key, value) env n in
          let (parsed, same) = planned_route-endpoint key value route e in
          subst (λ (name : String). IsPlanned u env name route.endpoint) same (value, k, c, parsed)

      complete :
          IsPlanned u env route.env_key route.endpoint → Memᴰ route (plan_proxy_routes u env).routes
      complete (value, m, c, e) = mem-sort _ route _ (
          mem-filter_map (planned_route u) (route.env_key, value) route _
            (mem-filter is_configured (route.env_key, value) env m c) (rw e refl))

  is_configured_lem :
      (key value : String)
      → (is_configured (key, value) ≡ true)
        ↔ (Memᴰ (to_ascii_uppercase key) proxy_env_keys × (is_empty_text (trim value) ≡ false))
  unfolding is_proxy_env_key
  is_configured_lem key value = (
    λ c. (
      mem_of_contains (to_ascii_uppercase key) proxy_env_keys (ground (arith, c)),
      ground (arith, c),
    ),
    λ (m, b).
        let listed = contains_of_mem (to_ascii_uppercase key) proxy_env_keys m in
        ground (arith, listed, b),
  )

  -- The plan has a route for a variable to an endpoint exactly when the environment sets that
  -- variable, its upper-case name is one of the proxy variables, its value is not blank, and the
  -- trimmed value, with http:// in front if it has no scheme, is a URL whose host is localhost,
  -- 127.0.0.1 or ::1, the endpoint has the address of that host, and its port, which is not zero,
  -- is that of the URL or else the default of its scheme.
  pub plan_proxy_routes_lem :
      (env : Env) (route : PlannedProxyRoute)
      → Memᴰ route (plan_proxy_routes u env).routes ↔ AsksFor u env route.env_key route.endpoint
  plan_proxy_routes_lem env route = (
    λ m.
        let (value, k, c, e) = (plan_proxy_routes-IsPlanned env route).0 m in
        let (listed, b) = (is_configured_lem route.env_key value).0 c in
        (value, k, listed, b, (parse_loopback_proxy_endpoint-NamesEndpoint u (trim value) _).0 e),
    λ (value, k, listed, b, n). (plan_proxy_routes-IsPlanned env route).1 (
      value,
      k,
      (is_configured_lem route.env_key value).1 (listed, b),
      (parse_loopback_proxy_endpoint-NamesEndpoint u (trim value) _).1 n,
    ),
  )

  loopback_endpoint-is_loopback :
      (parsed : u.Url) (host : String) (endpoint : SocketAddr)
      → loopback_endpoint u parsed host ≡ some endpoint
      → (is_loopback endpoint.ip ≡ true) × (eqb endpoint.port 0 ≡ false)
  unfolding loopback_endpoint
  loopback_endpoint-is_loopback parsed host endpoint =
      if_intro Safe (not (is_loopback_host host)) (λ _ h. absurd (cc h))
        (λ _.
          if_intro Safe (eqb (port_asked parsed) 0) (λ _ h. absurd (cc h))
            (λ nonzero.
              by_address nonzero (if is_localhost host then some localhost else parse_ip host)))
    where
      port_asked : u.Url → ℕ
      port_asked url =
          unwrap_or (u.port url) (default_proxy_port (to_ascii_lowercase (u.scheme url)))

      Safe : Option SocketAddr → Type 0
      Safe o = o ≡ some endpoint → (is_loopback endpoint.ip ≡ true) × (eqb endpoint.port 0 ≡ false)

      by_address :
          eqb (port_asked parsed) 0 ≡ false
          → (o : Option IpAddr)
          → Safe (
              o >>= λ ip.
              if is_loopback ip then some (record { ip = ip; port = port_asked parsed }) else none)
      by_address nonzero none = λ h. absurd (cc h)
      by_address nonzero (some ip) =
          if_intro Safe (is_loopback ip)
            (λ loops h.
              let e = some-injective _ _ h in
              (
                ap (λ (s : SocketAddr). is_loopback s.ip) (sym e) ∙ loops,
                ap (λ (s : SocketAddr). eqb s.port 0) (sym e) ∙ nonzero,
              ))
            (λ _ h. absurd (cc h))

  parse_loopback_proxy_endpoint-is_loopback :
      (text : String) (endpoint : SocketAddr)
      → parse_loopback_proxy_endpoint u text ≡ some endpoint
      → (is_loopback endpoint.ip ≡ true) × (eqb endpoint.port 0 ≡ false)
  unfolding parse_loopback_proxy_endpoint
  parse_loopback_proxy_endpoint-is_loopback text endpoint = by_url (u.parse (with_scheme text))
    where
      Safe : Option SocketAddr → Type 0
      Safe o = o ≡ some endpoint → (is_loopback endpoint.ip ≡ true) × (eqb endpoint.port 0 ≡ false)

      by_host :
          (parsed : u.Url) (o : Option String)
          → Safe (o >>= λ host. loopback_endpoint u parsed host)
      by_host parsed none h = absurd (cc h)
      by_host parsed (some host) h = loopback_endpoint-is_loopback parsed host endpoint h

      by_url :
          (o : Option u.Url)
          → Safe (o >>= λ parsed. u.host_str parsed >>= λ host. loopback_endpoint u parsed host)
      by_url none = λ h. absurd (cc h)
      by_url (some parsed) = by_host parsed (u.host_str parsed)

  -- Every route of a plan leads to a loopback address and to a port that is not zero.
  pub plan_proxy_routes-is_loopback :
      (env : Env) (route : PlannedProxyRoute)
      → Memᴰ route (plan_proxy_routes u env).routes
      → (is_loopback route.endpoint.ip ≡ true) × (eqb route.endpoint.port 0 ≡ false)
  plan_proxy_routes-is_loopback env route m =
      let (value, k, c, e) = (plan_proxy_routes-IsPlanned env route).0 m in
      parse_loopback_proxy_endpoint-is_loopback (trim value) route.endpoint e
