-- ===== src/Linux/Routing/Sockets.antt =====
-- proxy_routing.rs: the loop of `prepare_host_proxy_route_spec` that gives each endpoint a socket.
use rattler_sandbox.Prelude.{
  ℕ, ◌+◌, ◌<◌, true, Option, none, some, List, [], ◌∷◌, ◌++◌, ◌≡◌, refl, sym, ap, ◌∙◌, ◌⊎◌, inl,
  inr, if◌then◌else◌, if_intro, ◌==◌, ==-eq, ==_refl, arith, is_some, some_of_then,
}
use mathlib.Core.List.{Memᴰ}
use mathlib.Core.Option.{some-injective}
use rattler_sandbox.Paths.Std.{PathBuf}
use rattler_sandbox.Linux.Routing.Plan.{SocketAddr, socket_addr_eq, PlannedProxyRoute}
use rattler_sandbox.Linux.Routing.Host.{
  Sockets, socket_of, socket_path, has_socket, assign_socket, assign_sockets,
}
use rattler_sandbox.Linux.Routing.Names.{socket_path-injective}

-- What the loop keeps of the sockets and the next index: each path has an index below it, and no
-- two endpoints have one path.
pub record Kept (dir : PathBuf) (sockets : Sockets) (next_index : ℕ) : Type 0 where
  pub below :
      (e : SocketAddr) (p : PathBuf)
      → socket_of e sockets ≡ some p
      → (i : ℕ) × (i < next_index) × (p ≡ socket_path dir i)
  pub apart :
      (e f : SocketAddr) (p : PathBuf)
      → socket_of e sockets ≡ some p
      → socket_of f sockets ≡ some p
      → e ≡ f

socket_of-append :
    (e f : SocketAddr) (p : PathBuf) (sockets : Sockets)
    → socket_of e (sockets ++ ((f, p) ∷ []))
      ≡ elim (socket_of e sockets) [ none ↦ (if f == e then some p else none) | some q ↦ some q ]
unfolding socket_of
socket_of-append e f p [] = refl
socket_of-append e f p ((g, q) ∷ sockets) = ground (arith, socket_of-append e f p sockets)

-- A socket of the longer list is one of the shorter, or the new one.
socket_of_append :
    (e f : SocketAddr) (p q : PathBuf) (sockets : Sockets)
    → socket_of e (sockets ++ ((f, p) ∷ [])) ≡ some q
    → (socket_of e sockets ≡ some q) ⊎ ((f ≡ e) × (p ≡ q))
socket_of_append e f p q sockets h =
    by_old (socket_of e sockets) (sym (socket_of-append e f p sockets) ∙ h)
  where
    by_old :
        (o : Option PathBuf)
        → elim o [ none ↦ (if f == e then some p else none) | some r ↦ some r ] ≡ some q
        → (o ≡ some q) ⊎ ((f ≡ e) × (p ≡ q))
    by_old none k =
        let (same, k1) = some_of_then (f == e) (some p) q k in
        inr (==-eq f e same, some-injective p q k1)
    by_old (some r) k = inl k

socket_of-has_socket :
    (e : SocketAddr) (sockets : Sockets)
    → has_socket e sockets ≡ true
    → is_some (socket_of e sockets) ≡ true
unfolding socket_of
socket_of-has_socket e [] h = absurd (cc h)
socket_of-has_socket e ((f, p) ∷ sockets) h =
    if_intro (λ (o : Option PathBuf). is_some o ≡ true) (f == e) (λ _. refl)
      (λ differ. socket_of-has_socket e sockets (ground (arith, differ, h)))

module _ (dir : PathBuf) where
  assign_socket-Kept :
      (sockets : Sockets) (n : ℕ) (route : PlannedProxyRoute)
      → Kept dir sockets n
      → Kept dir (assign_socket dir (sockets, n) route).0 (assign_socket dir (sockets, n) route).1
  unfolding assign_socket
  assign_socket-Kept sockets n route k =
      if_intro (λ (s : Sockets × ℕ). Kept dir s.0 s.1) (has_socket route.endpoint sockets) (λ _. k)
        (λ _. record { below = below_next; apart = still_apart })
    where
      longer : Sockets
      longer = sockets ++ ((route.endpoint, socket_path dir n) ∷ [])

      below_next :
          (e : SocketAddr) (p : PathBuf)
          → socket_of e longer ≡ some p
          → (i : ℕ) × (i < n + 1) × (p ≡ socket_path dir i)
      below_next e p h = elim (socket_of_append e route.endpoint _ p sockets h) [
        | inl old ↦ let (i, l, q) = k.below e p old in (i, omega arith, q)
        | inr (_, q) ↦ (n, omega arith, sym q)
      ]

      fresh :
          (e : SocketAddr) (p : PathBuf) → socket_of e sockets ≡ some p → socket_path dir n ≡ p → ⊥
      fresh e p old new =
          let (i, l, q) = k.below e p old in
          let same = socket_path-injective dir n i (new ∙ q) in omega arith

      still_apart :
          (e f : SocketAddr) (p : PathBuf)
          → socket_of e longer ≡ some p
          → socket_of f longer ≡ some p
          → e ≡ f
      still_apart e f p h g = elim (socket_of_append e route.endpoint _ p sockets h) [
        | inl a ↦ elim (socket_of_append f route.endpoint _ p sockets g) [
          | inl b ↦ k.apart e f p a b
          | inr (_, b) ↦ absurd (fresh e p a b)
        ]
        | inr (same, a) ↦ elim (socket_of_append f route.endpoint _ p sockets g) [
          | inl b ↦ absurd (fresh f p b a)
          | inr (b, _) ↦ sym same ∙ b
        ]
      ]

  pub assign_sockets-apart :
      (routes : List PlannedProxyRoute) (sockets : Sockets) (n : ℕ)
      → Kept dir sockets n
      → (e f : SocketAddr) (p : PathBuf)
      → socket_of e (assign_sockets dir (sockets, n) routes) ≡ some p
      → socket_of f (assign_sockets dir (sockets, n) routes) ≡ some p
      → e ≡ f
  unfolding assign_sockets
  assign_sockets-apart [] sockets n k = k.apart
  assign_sockets-apart (route ∷ routes) sockets n k =
      assign_sockets-apart routes _ _ (assign_socket-Kept sockets n route k)

  -- The loop gives an endpoint a socket and keeps those that are there.
  assign_socket-has :
      (sockets : Sockets) (n : ℕ) (route : PlannedProxyRoute)
      → is_some (socket_of route.endpoint (assign_socket dir (sockets, n) route).0) ≡ true
  unfolding assign_socket
  assign_socket-has sockets n route =
      if_intro (λ (s : Sockets × ℕ). is_some (socket_of route.endpoint s.0) ≡ true)
        (has_socket route.endpoint sockets)
        (λ here. socket_of-has_socket route.endpoint sockets here)
        (λ _.
          ap is_some (socket_of-append route.endpoint route.endpoint _ sockets)
          ∙ added (socket_of route.endpoint sockets))
    where
      added :
          (o : Option PathBuf)
          → is_some (elim o [
            | none ↦ (if route.endpoint == route.endpoint then some (socket_path dir n) else none)
            | some q ↦ some q
          ])
            ≡ true
      added none = rw (==_refl route.endpoint) refl
      added (some q) = refl

  assign_socket-keeps :
      (e : SocketAddr) (sockets : Sockets) (n : ℕ) (route : PlannedProxyRoute)
      → is_some (socket_of e sockets) ≡ true
      → is_some (socket_of e (assign_socket dir (sockets, n) route).0) ≡ true
  unfolding assign_socket
  assign_socket-keeps e sockets n route h =
      if_intro (λ (s : Sockets × ℕ). is_some (socket_of e s.0) ≡ true)
        (has_socket route.endpoint sockets) (λ _. h)
        (λ _.
          ap is_some (socket_of-append e route.endpoint _ sockets) ∙ kept (socket_of e sockets) h)
    where
      kept :
          (o : Option PathBuf)
          → is_some o ≡ true
          → is_some (elim o [
            | none ↦ (if route.endpoint == e then some (socket_path dir n) else none)
            | some q ↦ some q
          ])
            ≡ true
      kept none k = absurd (cc k)
      kept (some q) k = refl

  assign_sockets-keeps :
      (e : SocketAddr) (routes : List PlannedProxyRoute) (sockets : Sockets) (n : ℕ)
      → is_some (socket_of e sockets) ≡ true
      → is_some (socket_of e (assign_sockets dir (sockets, n) routes)) ≡ true
  unfolding assign_sockets
  assign_sockets-keeps e [] sockets n h = h
  assign_sockets-keeps e (route ∷ routes) sockets n h =
      assign_sockets-keeps e routes _ _ (assign_socket-keeps e sockets n route h)

  pub assign_sockets-has :
      (routes : List PlannedProxyRoute) (sockets : Sockets) (n : ℕ) (route : PlannedProxyRoute)
      → Memᴰ route routes
      → is_some (socket_of route.endpoint (assign_sockets dir (sockets, n) routes)) ≡ true
  unfolding assign_sockets
  assign_sockets-has [] sockets n route m = elim m [ ]
  assign_sockets-has (r ∷ routes) sockets n route (Memᴰ.head e) =
      assign_sockets-keeps route.endpoint routes _ _ (
        ap
          (λ (x : PlannedProxyRoute).
            is_some (socket_of x.endpoint (assign_socket dir (sockets, n) r).0))
          e
        ∙ assign_socket-has sockets n r)
  assign_sockets-has (r ∷ routes) sockets n route (Memᴰ.tail m) =
      assign_sockets-has routes _ _ route m
