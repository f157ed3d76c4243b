-- ===== src/Network/Laws.antt =====
-- What `apply_to_env` leaves in the environment.
use rattler_sandbox.Prelude.{
  none, any_of_mem, is_empty_text-trim, is_whitespace, true, false, ap, ◌<>◌, is_empty_text, trim,
  is_some_and, to_ascii_lowercase, not, String, ◌≢◌, ◌≡◌, refl, ◌∙◌, false, some, [], ◌∷◌, arith,
  ◌==◌, string_eq, string_discrete, contains, Env, lookup, insert, lookup-insert,
}
use mathlib.Core.List.{Memᴰ}
use Prim.Native.String.append
use rattler_sandbox.Network.{
  proxy_url_env_keys, has_proxy_url_env_vars, proxy_url_env_value, default_no_proxy_value,
  proxy_active_env_key, allow_local_binding_env_key, NetworkProxy, http_url, all_proxy, apply_urls,
  apply_local_binding, apply_no_proxy, apply_to_env,
}

-- The proxy's own variables, as `apply_to_env` leaves them for a proxy and an environment.
module _ (p : NetworkProxy) (env : Env) where
  lookup-apply_no_proxy :
      (k : String) (e : Env)
      → contains k ("NO_PROXY" ∷ "no_proxy" ∷ []) ≡ false
      → lookup k (apply_no_proxy e) ≡ lookup k e
  unfolding apply_no_proxy
  lookup-apply_no_proxy k e h = ground (
    arith,
    lookup-insert "no_proxy" k default_no_proxy_value (insert "NO_PROXY" default_no_proxy_value e),
    lookup-insert "NO_PROXY" k default_no_proxy_value e,
  )

  lookup-apply_local_binding :
      (k : String) (e : Env)
      → k ≢ allow_local_binding_env_key
      → lookup k (apply_local_binding p e) ≡ lookup k e
  unfolding apply_local_binding
  lookup-apply_local_binding k e h =
      ground (arith, lookup-insert allow_local_binding_env_key k "1" e)

  -- A variable that is not among those that the proxy writes keeps its value.
  pub lookup-apply_to_env_other :
      (k : String)
      → contains k (
          "HTTP_PROXY" ∷ "HTTPS_PROXY" ∷ "http_proxy" ∷ "https_proxy" ∷ "ALL_PROXY" ∷ "all_proxy"
          ∷ proxy_active_env_key ∷ allow_local_binding_env_key ∷ "NO_PROXY" ∷ "no_proxy" ∷ [])
        ≡ false
      → lookup k (apply_to_env p env) ≡ lookup k env
  unfolding apply_to_env apply_urls
  lookup-apply_to_env_other k h =
      lookup-apply_no_proxy k _ (ground arith)
      ∙ lookup-apply_local_binding k _ (λ e. ground (arith, e))
      ∙ simp lookup-insert (ground arith)

  lookup-apply_to_env_url :
      (k : String)
      → contains k ("NO_PROXY" ∷ "no_proxy" ∷ []) ≡ false
      → (allow_local_binding_env_key == k) ≡ false
      → lookup k (apply_to_env p env) ≡ lookup k (apply_urls p env)
  unfolding apply_to_env
  lookup-apply_to_env_url k h n =
      lookup-apply_no_proxy k (apply_local_binding p (apply_urls p env)) h
      ∙ lookup-apply_local_binding k (apply_urls p env) (λ e. ground (arith, e))

  -- The six proxy variables hold the addresses of the proxy, and the activity mark is set, whatever
  -- the environment held.
  pub apply_to_env-urls :
      (lookup "HTTP_PROXY" (apply_to_env p env) ≡ some (http_url p))
      × (lookup "HTTPS_PROXY" (apply_to_env p env) ≡ some (http_url p))
      × (lookup "http_proxy" (apply_to_env p env) ≡ some (http_url p))
      × (lookup "https_proxy" (apply_to_env p env) ≡ some (http_url p))
      × (lookup "ALL_PROXY" (apply_to_env p env) ≡ some (all_proxy p))
      × (lookup "all_proxy" (apply_to_env p env) ≡ some (all_proxy p))
      × (lookup proxy_active_env_key (apply_to_env p env) ≡ some "1")
  unfolding apply_urls string_eq string_discrete
  apply_to_env-urls = (
    lookup-apply_to_env_url "HTTP_PROXY" refl refl ∙ simp lookup-insert refl,
    lookup-apply_to_env_url "HTTPS_PROXY" refl refl ∙ simp lookup-insert refl,
    lookup-apply_to_env_url "http_proxy" refl refl ∙ simp lookup-insert refl,
    lookup-apply_to_env_url "https_proxy" refl refl ∙ simp lookup-insert refl,
    lookup-apply_to_env_url "ALL_PROXY" refl refl ∙ simp lookup-insert refl,
    lookup-apply_to_env_url "all_proxy" refl refl ∙ simp lookup-insert refl,
    lookup-apply_to_env_url proxy_active_env_key refl refl ∙ simp lookup-insert refl,
  )

  http_url_filled : is_empty_text (trim (http_url p)) ≡ false
  unfolding is_whitespace
  http_url_filled =
      ap (λ s. is_empty_text (trim s)) (λ i. append.cons "h" "ttp://" p.http_addr i)
      ∙ is_empty_text-trim "h" ("ttp://" <> p.http_addr) refl

  proxy_url_env_value-apply_to_env :
      proxy_url_env_value (apply_to_env p env) "HTTP_PROXY" ≡ some (http_url p)
  unfolding proxy_url_env_value
  proxy_url_env_value-apply_to_env =
      ap
        (λ o. elim o [
          | some value ↦ some value
          | none ↦ lookup (to_ascii_lowercase "HTTP_PROXY") (apply_to_env p env)
        ])
        apply_to_env-urls.0

  -- What is injected is what `has_proxy_url_env_vars` looks for, whatever the environment held.
  pub has_proxy_url_env_vars-apply_to_env : has_proxy_url_env_vars (apply_to_env p env) ≡ true
  unfolding has_proxy_url_env_vars
  has_proxy_url_env_vars-apply_to_env =
      any_of_mem
        (λ key.
          is_some_and (λ v. not (is_empty_text (trim v)))
            (proxy_url_env_value (apply_to_env p env) key))
        "HTTP_PROXY" proxy_url_env_keys (Memᴰ.head refl)
        (ap (λ o. is_some_and (λ v. not (is_empty_text (trim v))) o)
            proxy_url_env_value-apply_to_env
          ∙ ap not http_url_filled)
