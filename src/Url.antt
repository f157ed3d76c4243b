-- ===== src/Url.antt =====
-- What linux/proxy_routing.rs and seatbelt.rs ask of the `url` crate, as a parameter.
use rattler_sandbox.Prelude.{String, Option, ℕ}

pub record UrlCrate : Type 1 where
  pub Url : Type 0
  -- `Url::parse`, `Url::host_str`, `Url::scheme`, `Url::port`
  pub parse : String → Option Url
  pub host_str : Url → Option String
  pub scheme : Url → String
  pub port : Url → Option ℕ
  -- `Url::set_host` to a host, `Url::set_port` to a port, `Url::to_string`
  pub set_host : Url → String → Option Url
  pub set_port : Url → ℕ → Option Url
  pub to_string : Url → String
