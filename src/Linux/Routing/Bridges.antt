-- ===== src/Linux/Routing/Bridges.antt =====
-- proxy_routing.rs: the ports that `activate_proxy_routes_in_netns` has are those of its bridges.
use rattler_sandbox.Prelude.{
  String, ℕ, Option, none, some, List, [], ◌∷◌, ◌++◌, ◌≡◌, sym, ap, ◌∙◌, ◌==◌, string_eq, ==-eq,
  Bool-cases, inl, inr, ◌⊎◌, some_of_then,
}
use mathlib.Core.Option.{some-injective}
use rattler_sandbox.Url.{UrlCrate}
use rattler_sandbox.Paths.Std.{PathBuf, path_eq}
use rattler_sandbox.Linux.Routing.Directories.{Fallible, ok, and_then, or_error, os_error}
use rattler_sandbox.Linux.Routing.Host.{ProxyRouteEntry, ProxyRouteSpec}
use rattler_sandbox.Linux.Routing.Results.{ok_of_and_then, some_of_or_error, ok-injective}
use rattler_sandbox.Linux.Routing.Activate.{Ports, port_of, spawn_local_bridges}

module _ (u : UrlCrate) (from_json : String → Option ProxyRouteSpec)
    (spawn_local_bridge : PathBuf → Option ℕ) where
  unfoldable pub Spawned : Ports → Type 0
  Spawned ports = (p : PathBuf) (n : ℕ) → port_of p ports ≡ some n → spawn_local_bridge p ≡ some n

  port_of-append :
      (p q : PathBuf) (n m : ℕ) (ports : Ports)
      → port_of p (ports ++ ((q, n) ∷ [])) ≡ some m
      → (port_of p ports ≡ some m) ⊎ ((q ≡ p) × (n ≡ m))
  unfolding port_of
  port_of-append p q n m [] h =
      let (same, k) = some_of_then (q == p) (some n) m h in
      inr (==-eq q p same, some-injective n m k)
  port_of-append p q n m ((r, k) ∷ ports) h = elim (Bool-cases (r == p)) [
    | inl e ↦ inl (rw e (rw e at h))
    | inr e ↦ rw e (port_of-append p q n m ports (rw e at h))
  ]

  pub spawn_local_bridges-Spawned :
      (routes : List ProxyRouteEntry) (ports final : Ports)
      → Spawned ports
      → spawn_local_bridges u from_json spawn_local_bridge ports routes ≡ ok final
      → Spawned final
  unfolding spawn_local_bridges Spawned
  spawn_local_bridges-Spawned [] ports final s h =
      λ p n k. s p n (ap (port_of p) (ok-injective _ _ h) ∙ k)
  spawn_local_bridges-Spawned (route ∷ routes) ports final s h =
      let (known, e, h1) = ok_of_and_then (step (port_of route.uds_path ports)) _ final h in
      spawn_local_bridges-Spawned routes known final
        (step-Spawned (port_of route.uds_path ports) known e) h1
    where
      step : Option ℕ → Fallible Ports
      step (some port) = ok ports
      step none =
          and_then (or_error os_error (spawn_local_bridge route.uds_path))
            (λ port. ok (ports ++ ((route.uds_path, port) ∷ [])))

      step-Spawned : (o : Option ℕ) (known : Ports) → step o ≡ ok known → Spawned known
      step-Spawned (some port) known e p n k = s p n (ap (port_of p) (ok-injective _ _ e) ∙ k)
      step-Spawned none known e p n k =
          let (port, started, e1) =
            some_of_or_error os_error (spawn_local_bridge route.uds_path) _ known e in
          elim (port_of-append p route.uds_path port n ports
            (ap (port_of p) (ok-injective _ _ e1) ∙ k)) [
              | inl old ↦ s p n old
              | inr (same, at_port) ↦ ap spawn_local_bridge (sym same) ∙ started ∙ ap some at_port
            ]
