-- ===== src/Linux/Routing/Prepared.antt =====
-- proxy_routing.rs: the spec that `prepare_host_proxy_route_spec` writes for the routes of a plan.
use rattler_sandbox.Prelude.{
  String, sym, ◌∙◌, ℕ, true, false, Option, none, some, List, [], ◌∷◌, map, mem_of_sort, ◌≡◌, refl,
  ap, ◌⊎◌, ◌↔◌, inl, inr, Bool-cases, sort, is_some,
}
use mathlib.Core.List.{Memᴰ}
use rattler_sandbox.Paths.Std.{PathBuf}
use rattler_sandbox.Url.{UrlCrate}
use rattler_sandbox.Linux.Routing.Plan.{SocketAddr, socket_addr_eq, PlannedProxyRoute}
use rattler_sandbox.Linux.Routing.Directories.{
  DirectoryHost, Fallible, ok, err, and_then, or_error, os_error,
}
use rattler_sandbox.Linux.Routing.Host.{
  ProxyRouteEntry, ProxyRouteSpec, BridgeHost, Sockets, socket_of, assign_sockets, route_entries,
  spawn_host_bridges, prepare_in, endpoint_le,
}
use rattler_sandbox.Linux.Routing.Sockets.{Kept, assign_sockets-apart, assign_sockets-has}

-- The entries of routes whose endpoints have sockets.
abbrev pub EntriesFor :
    (SocketAddr → Option PathBuf) → List PlannedProxyRoute → List ProxyRouteEntry → Type 0
EntriesFor socket routes entries =
    (map (λ (r : ProxyRouteEntry). r.env_key) entries
      ≡ map (λ (r : PlannedProxyRoute). r.env_key) routes)
    × (map (λ (r : ProxyRouteEntry). some r.uds_path) entries
        ≡ map (λ (r : PlannedProxyRoute). socket r.endpoint) routes)

route_entries-ok :
    (sockets : Sockets) (routes : List PlannedProxyRoute)
    → ((r : PlannedProxyRoute) → Memᴰ r routes → is_some (socket_of r.endpoint sockets) ≡ true)
    → (entries : List ProxyRouteEntry) × (route_entries sockets routes ≡ ok entries)
      × EntriesFor (λ e. socket_of e sockets) routes entries
unfolding route_entries
route_entries-ok sockets [] h = ([], refl, (refl, refl))
route_entries-ok sockets (route ∷ routes) h =
    let (entries, e, (keys, paths)) = route_entries-ok sockets routes (λ r m. h r (Memᴰ.tail m)) in
    by_path (socket_of route.endpoint sockets) refl entries e keys paths
  where
    here : is_some (socket_of route.endpoint sockets) ≡ true
    here = h route (Memᴰ.head refl)

    by_path :
        (o : Option PathBuf)
        → socket_of route.endpoint sockets ≡ o
        → (entries : List ProxyRouteEntry) → route_entries sockets routes ≡ ok entries
        → map (λ (r : ProxyRouteEntry). r.env_key) entries
          ≡ map (λ (r : PlannedProxyRoute). r.env_key) routes
        → map (λ (r : ProxyRouteEntry). some r.uds_path) entries
          ≡ map (λ (r : PlannedProxyRoute). socket_of r.endpoint sockets) routes
        → (all_entries : List ProxyRouteEntry) × (route_entries sockets (route ∷ routes)
            ≡ ok all_entries)
          × EntriesFor (λ e. socket_of e sockets) (route ∷ routes) all_entries
    by_path none o entries e keys paths = absurd (cc (ap is_some o, here))
    by_path (some path) o entries e keys paths = (
      record { env_key = route.env_key; uds_path = path } ∷ entries,
      rw o (rw e refl),
      (ap (λ (l : List String). route.env_key ∷ l) keys, rw o (rw paths refl)),
    )

module _ (u : UrlCrate) (d : DirectoryHost) (h : BridgeHost) where
  -- No bridge process could be started from one of the sockets to its endpoint.
  abbrev pub LacksBridge : Sockets → Type 0
  LacksBridge sockets =
      (endpoint : SocketAddr) × (path : PathBuf) × Memᴰ (endpoint, path) sockets
      × (h.spawn_host_bridge endpoint path ≡ none)

  spawn_host_bridges-cases :
      (sockets : Sockets)
      → ((spawn_host_bridges u d h sockets ≡ err os_error) × LacksBridge sockets)
        ⊎ ((pids : List ℕ) × (spawn_host_bridges u d h sockets ≡ ok pids)
            × (map (λ (e, p). h.spawn_host_bridge e p) sockets ≡ map (λ pid. some pid) pids))
  unfolding spawn_host_bridges
  spawn_host_bridges-cases [] = inr ([], refl, refl)
  spawn_host_bridges-cases ((endpoint, path) ∷ sockets) =
      by_rest (h.spawn_host_bridge endpoint path) refl (spawn_host_bridges u d h sockets)
        (spawn_host_bridges-cases sockets)
    where
      by_rest :
          (o : Option ℕ)
          → h.spawn_host_bridge endpoint path ≡ o
          → (f : Fallible (List ℕ))
          → ((f ≡ err os_error) × LacksBridge sockets)
            ⊎ ((pids : List ℕ) × (f ≡ ok pids)
                × (map (λ (e, p). h.spawn_host_bridge e p) sockets ≡ map (λ pid. some pid) pids))
          → ((and_then (or_error os_error o) (λ pid. and_then f (λ pids. ok (pid ∷ pids)))
                ≡ err os_error)
              × LacksBridge ((endpoint, path) ∷ sockets))
            ⊎ ((pids : List ℕ) × (and_then
                    (or_error os_error o)
                    (λ pid. and_then f (λ pids. ok (pid ∷ pids)))
                  ≡ ok pids)
                × (map (λ (e, p). h.spawn_host_bridge e p) ((endpoint, path) ∷ sockets)
                    ≡ map (λ pid. some pid) pids))
      by_rest none e f c = inl (refl, (endpoint, path, Memᴰ.head refl, e))
      by_rest (some pid) e f (inl (k, (a, p, m, lacks))) =
          inl (rw k refl, (a, p, Memᴰ.tail m, lacks))
      by_rest (some pid) e f (inr (pids, k, all)) = inr (pid ∷ pids, rw k refl, rw (e, all) refl)

  -- The processes of the bridges, one for each of the sockets in the order of their endpoints.
  abbrev pub Bridged : Sockets → List ℕ → Type 0
  Bridged sockets pids =
      map (λ (e, p). h.spawn_host_bridge e p) (sort (λ (a, _) (b, _). endpoint_le a b) sockets)
      ≡ map (λ pid. some pid) pids

  -- A call on the host fails: a bridge is not started, or all are and the worker that is to clean up
  -- after them is not.
  abbrev pub Fails : PathBuf → Sockets → Type 0
  Fails dir sockets =
      LacksBridge sockets
      ⊎ ((pids : List ℕ) × Bridged sockets pids
          × (h.spawn_proxy_socket_dir_cleanup_worker dir pids ≡ false))

  -- The spec for the routes of a plan. Either it is an error, and no bridge from one of the sockets
  -- to its endpoint could be started, or all could but not the worker that cleans up after them. Or
  -- all of these were started, and the spec has the variables of the routes in their order, each
  -- with the socket of its endpoint; and of any two routes of the plan the sockets are the same
  -- exactly where the endpoints are.
  pub prepare_in_lem :
      (dir : PathBuf) (routes : List PlannedProxyRoute) (first second : PlannedProxyRoute)
      → Memᴰ first routes
      → ((prepare_in u d h dir routes ≡ err os_error)
          × Fails dir (assign_sockets dir ([], 0) routes))
        ⊎ ((spec : ProxyRouteSpec) × (prepare_in u d h dir routes ≡ ok spec)
            × ((pids : List ℕ) × Bridged (assign_sockets dir ([], 0) routes) pids
                × (h.spawn_proxy_socket_dir_cleanup_worker dir pids ≡ true))
            × EntriesFor (λ e. socket_of e (assign_sockets dir ([], 0) routes)) routes spec.routes
            × ((socket_of first.endpoint (assign_sockets dir ([], 0) routes)
                  ≡ socket_of second.endpoint (assign_sockets dir ([], 0) routes))
                ↔ (first.endpoint ≡ second.endpoint)))
  unfolding prepare_in
  prepare_in_lem dir routes first second m =
      elim (spawn_host_bridges-cases (sort (λ (a, _) (b, _). endpoint_le a b) sockets)) [
        | inl (e, (a, p, k, lacks)) ↦ inl (rw e refl, inl (a, p, mem_of_sort _ (a, p) _ k, lacks))
        | inr (pids, e, all) ↦
            elim (Bool-cases (h.spawn_proxy_socket_dir_cleanup_worker dir pids)) [
              | inl w ↦
                  let (entries, r, held) =
                    route_entries-ok sockets routes
                      (λ route m. assign_sockets-has dir routes [] 0 route m) in
                  inr (
                    record { routes = entries },
                    rw e (rw w (rw r refl)),
                    (pids, all, w),
                    held,
                    (
                      same_endpoint (socket_of first.endpoint sockets) refl
                          (assign_sockets-has dir routes [] 0 first m),
                      ap (λ (a : SocketAddr). socket_of a sockets),
                    ),
                  )
              | inr w ↦ inl (rw e (rw w refl), inr (pids, all, w))
            ]
      ]
    where
      sockets : Sockets
      sockets = assign_sockets dir ([], 0) routes

      empty : Kept dir [] 0
      empty = record {
        below = λ a p k. absurd (unfold socket_of in cc k);
        apart = λ a b p k. absurd (unfold socket_of in cc k);
      }

      same_endpoint :
          (o : Option PathBuf)
          → socket_of first.endpoint sockets ≡ o
          → is_some o ≡ true
          → socket_of first.endpoint sockets ≡ socket_of second.endpoint sockets
          → first.endpoint ≡ second.endpoint
      same_endpoint none k t e = absurd (cc t)
      same_endpoint (some p) k t e =
          assign_sockets-apart dir routes [] 0 empty first.endpoint second.endpoint p k (sym e ∙ k)
