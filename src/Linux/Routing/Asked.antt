-- ===== src/Linux/Routing/Asked.antt =====
-- proxy_routing.rs: which loopback endpoint `parse_loopback_proxy_endpoint` reads from a value.
use rattler_sandbox.Prelude.{
  String, ◌<>◌, ℕ, true, false, not, Option, none, some, ◌≡◌, refl, sym, ap, ◌∙◌, ◌⊎◌, ◌↔◌, inl,
  inr, if◌then◌else◌, eqb, ◌==◌, ==-eq, string_eq, some_of_bind, some_of_else, some_of_then,
  has_text, to_ascii_lowercase, unwrap_or, Bool-cases,
}
use mathlib.Core.Option.{some-injective}
use rattler_sandbox.Url.{UrlCrate}
use rattler_sandbox.Linux.Routing.Plan.{
  IpAddr, SocketAddr, is_loopback, is_localhost, is_loopback_host, localhost, localhost_v6,
  parse_ip, loopback_endpoint, parse_loopback_proxy_endpoint, default_proxy_port, with_scheme,
}

-- The host is one of the three that are routed, and this is its address.
abbrev pub NamesAddress : String → IpAddr → Type 0
NamesAddress host ip =
    ((to_ascii_lowercase host ≡ "localhost") × (ip ≡ localhost))
    ⊎ (((host ≡ "127.0.0.1") × (ip ≡ localhost)) ⊎ ((host ≡ "::1") × (ip ≡ localhost_v6)))

-- A text, read as a URL, with `http://` before it if it has no scheme, names the endpoint.
pub record NamesEndpoint (u : UrlCrate) (text : String) (endpoint : SocketAddr) : Type 0 where
  pub parsed : u.Url
  pub host : String
  pub parsed_lem : u.parse (if has_text "://" text then text else "http://" <> text) ≡ some parsed
  pub host_lem : u.host_str parsed ≡ some host
  pub address : NamesAddress host endpoint.ip
  pub port :
      (u.port parsed ≡ some endpoint.port)
      ⊎ ((u.port parsed ≡ none)
          × (endpoint.port ≡ default_proxy_port (to_ascii_lowercase (u.scheme parsed))))
  pub nonzero : eqb endpoint.port 0 ≡ false

abbrev address_of : String → Option IpAddr
address_of host = if is_localhost host then some localhost else parse_ip host

NamesAddress-address_of :
    (host : String) (ip : IpAddr) → address_of host ≡ some ip → NamesAddress host ip
NamesAddress-address_of host ip h = elim (Bool-cases (is_localhost host)) [
  | inl e ↦ inl (==-eq _ _ e, sym (some-injective _ _ (rw e at h)))
  | inr e ↦ elim (Bool-cases (host == "127.0.0.1")) [
    | inl f ↦ inr (inl (==-eq _ _ f, sym (some-injective _ _ (rw (e, f) at h))))
    | inr f ↦
        let (g, k) = some_of_then (host == "::1") (some localhost_v6) ip (rw (e, f) at h) in
        inr (inr (==-eq _ _ g, sym (some-injective _ _ k)))
  ]
]

-- The three hosts pass the test, and their addresses are loopback addresses.
IsRouted : String → IpAddr → Type 0
IsRouted host ip =
    (is_loopback_host host ≡ true) × (address_of host ≡ some ip) × (is_loopback ip ≡ true)

address_of-NamesAddress : (host : String) (ip : IpAddr) → NamesAddress host ip → IsRouted host ip
unfolding IsRouted is_loopback_host to_ascii_lowercase string_eq
address_of-NamesAddress host ip (inl (e, f)) = rw (e, f) (refl, refl, refl)
address_of-NamesAddress host ip (inr (inl (e, f))) = rw (e, f) (refl, refl, refl)
address_of-NamesAddress host ip (inr (inr (e, f))) = rw (e, f) (refl, refl, refl)

-- The port that the URL has, or its scheme has.
port_of_default :
    (o : Option ℕ) (asked default : ℕ)
    → unwrap_or o default ≡ asked
    → (o ≡ some asked) ⊎ ((o ≡ none) × (asked ≡ default))
port_of_default none asked default h = inr (refl, sym h)
port_of_default (some n) asked default h = inl (ap some h)

default_of_port :
    (o : Option ℕ) (asked default : ℕ)
    → (o ≡ some asked) ⊎ ((o ≡ none) × (asked ≡ default))
    → unwrap_or o default ≡ asked
default_of_port o asked default (inl e) = rw e refl
default_of_port o asked default (inr (e, f)) = rw e (sym f)

module _ (u : UrlCrate) (text : String) (endpoint : SocketAddr) where
  sound : parse_loopback_proxy_endpoint u text ≡ some endpoint → NamesEndpoint u text endpoint
  unfolding parse_loopback_proxy_endpoint loopback_endpoint
  sound h =
      let (parsed, e, h1) = some_of_bind (u.parse (with_scheme text)) _ endpoint h in
      let (host, f, h2) = some_of_bind (u.host_str parsed) _ endpoint h1 in
      let (routed, h3) = some_of_else (not (is_loopback_host host)) _ endpoint h2 in
      let (nonzero, h4) = some_of_else (eqb (port_asked parsed) 0) _ endpoint h3 in
      let (ip, g, h5) = some_of_bind (address_of host) _ endpoint h4 in
      let (loops, h6) =
        some_of_then (is_loopback ip) (some (record { ip = ip; port = port_asked parsed })) endpoint
          h5 in
      let same = some-injective _ _ h6 in
      record {
        parsed = parsed;
        host = host;
        parsed_lem = e;
        host_lem = f;
        address =
            NamesAddress-address_of host endpoint.ip (g ∙ ap (λ (s : SocketAddr). some s.ip) same);
        port =
            port_of_default (u.port parsed) endpoint.port _ (ap (λ (s : SocketAddr). s.port) same);
        nonzero = ap (λ (s : SocketAddr). eqb s.port 0) (sym same) ∙ nonzero;
      }
    where
      port_asked : u.Url → ℕ
      port_asked url =
          unwrap_or (u.port url) (default_proxy_port (to_ascii_lowercase (u.scheme url)))

  complete : NamesEndpoint u text endpoint → parse_loopback_proxy_endpoint u text ≡ some endpoint
  unfolding parse_loopback_proxy_endpoint loopback_endpoint IsRouted
  complete n =
      let (routed, address, loops) = address_of-NamesAddress n.host endpoint.ip n.address in
      let port = default_of_port (u.port n.parsed) endpoint.port _ n.port in
      rw (n.parsed_lem, n.host_lem, routed, port, n.nonzero, address, loops) refl

  pub parse_loopback_proxy_endpoint-NamesEndpoint :
      (parse_loopback_proxy_endpoint u text ≡ some endpoint) ↔ NamesEndpoint u text endpoint
  parse_loopback_proxy_endpoint-NamesEndpoint = (sound, complete)
