-- ===== src/Linux/Routing/Values.antt =====
-- proxy_routing.rs: the value that `rewrite_proxy_env_value` gives a proxy variable.
use rattler_sandbox.Prelude.{
  String, ◌<>◌, ℕ, Bool, true, false, not, ◌&&◌, Option, none, some, ◌≡◌, refl, sym, ◌⊎◌, inl, inr,
  if◌then◌else◌, if_intro, arith, some_of_bind, has_text, strip_text, ends_with_char,
  append_of_strip_text, pop_char-append,
}
use mathlib.Core.Path.{subst}
use mathlib.Core.Option.{some-injective}
use rattler_sandbox.Url.{UrlCrate}
use rattler_sandbox.Linux.Routing.Plan.{
  with_scheme, without_http, rewritten_text, rewrite_proxy_env_value,
}

-- The text without a scheme, where it has the default one.
abbrev pub WithoutHttp : String → String → Type 0
WithoutHttp text shown =
    ("http://" <> shown ≡ text) ⊎ ((strip_text "http://" text ≡ none) × (shown ≡ text))

-- The text of the URL that `value` names, with host 127.0.0.1 and this port: without its scheme if
-- the value had none, and without its last slash only if the value did not end in one.
pub record IsRewritten (u : UrlCrate) (value : String) (port : ℕ) (rewritten : String)
    : Type 0 where
  pub parsed : u.Url
  pub hosted : u.Url
  pub ported : u.Url
  pub shown : String
  pub parsed_lem :
      u.parse (if has_text "://" value then value else "http://" <> value) ≡ some parsed
  pub hosted_lem : u.set_host parsed "127.0.0.1" ≡ some hosted
  pub ported_lem : u.set_port hosted port ≡ some ported
  pub scheme :
      ((has_text "://" value ≡ true) × (shown ≡ u.to_string ported))
      ⊎ ((has_text "://" value ≡ false) × WithoutHttp (u.to_string ported) shown)
  pub slash :
      (rewritten ≡ shown) ⊎ ((rewritten <> "/" ≡ shown) × (ends_with_char b'/' value ≡ false))

WithoutHttp-strip :
    (text : String) → WithoutHttp text (without_http text (strip_text "http://" text))
WithoutHttp-strip text = by_rest (strip_text "http://" text) refl
  where
    by_rest :
        (o : Option String) → strip_text "http://" text ≡ o → WithoutHttp text (without_http text o)
    by_rest none e = inr (e, refl)
    by_rest (some rest) e = inl (sym (append_of_strip_text "http://" text rest e))

module _ (u : UrlCrate) (value : String) where
  slash_popped :
      (text : String)
      → (rewritten_text u value text ≡ text)
        ⊎ ((rewritten_text u value text <> "/" ≡ text) × (ends_with_char b'/' value ≡ false))
  unfolding rewritten_text
  slash_popped text =
      if_intro (λ t. (t ≡ text) ⊎ ((t <> "/" ≡ text) × (ends_with_char b'/' value ≡ false)))
        (not (ends_with_char b'/' value)
          && (not (has_text "?" value) && (not (has_text "#" value) && ends_with_char b'/' text)))
        (λ e. inr (pop_char-append _ text (ground (arith, e)), ground (arith, e))) (λ _. inl refl)

  scheme_shown :
      (b : Bool) (text : String)
      → has_text "://" value ≡ b
      → ((has_text "://" value ≡ true)
          × ((if b then text else without_http text (strip_text "http://" text)) ≡ text))
        ⊎ ((has_text "://" value ≡ false)
            × WithoutHttp text (if b then text else without_http text (strip_text "http://" text)))
  scheme_shown true text e = inl (e, refl)
  scheme_shown false text e = inr (e, WithoutHttp-strip text)

  pub rewrite_proxy_env_value-IsRewritten :
      (port : ℕ) (rewritten : String)
      → rewrite_proxy_env_value u value port ≡ some rewritten
      → IsRewritten u value port rewritten
  unfolding rewrite_proxy_env_value
  rewrite_proxy_env_value-IsRewritten port rewritten h =
      let (parsed, e, h1) = some_of_bind (u.parse (with_scheme value)) _ rewritten h in
      let (hosted, f, h2) = some_of_bind (u.set_host parsed "127.0.0.1") _ rewritten h1 in
      let (ported, g, h3) = some_of_bind (u.set_port hosted port) _ rewritten h2 in
      record {
        parsed = parsed;
        hosted = hosted;
        ported = ported;
        shown = _;
        parsed_lem = e;
        hosted_lem = f;
        ported_lem = g;
        scheme = scheme_shown (has_text "://" value) (u.to_string ported) refl;
        slash =
            subst
              (λ (t : String).
                (t ≡ shown_text ported)
                ⊎ ((t <> "/" ≡ shown_text ported) × (ends_with_char b'/' value ≡ false)))
              (some-injective _ _ h3) (slash_popped (shown_text ported));
      }
    where
      shown_text : u.Url → String
      shown_text ported =
          if has_text "://" value
          then u.to_string ported
          else without_http (u.to_string ported) (strip_text "http://" (u.to_string ported))
