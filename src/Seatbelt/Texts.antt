-- ===== src/Seatbelt/Texts.antt =====
-- What seatbelt.rs takes from its texts, from the `regex_lite` crate and from `confstr`, and the
-- operations on texts that it uses.
use Prim.Native.Char.{code}
use rattler_sandbox.Prelude.{String, ◌<>◌, ℕ, ◌+◌, Option, List, [], ◌∷◌, if◌then◌else◌, eqb}

pub record Profile : Type 0 where
  -- seatbelt_base_policy.sbpl, seatbelt_network_policy.sbpl and
  -- restricted_read_only_platform_defaults.sbpl
  pub base_policy : String
  pub network_policy : String
  pub platform_defaults : String
  -- `regex_lite::escape`
  pub escape : String → String
  -- `confstr` of the cache directory of the user
  pub confstr : Option String

-- `[String]::join`
unfoldable pub join_texts : String → List String → String
join_texts separator [] = ""
join_texts separator (text ∷ []) = text
join_texts separator (text ∷ next ∷ texts) =
    text <> (separator <> join_texts separator (next ∷ texts))

-- `[String]::concat`
unfoldable pub concat_texts : List String → String
concat_texts [] = ""
concat_texts (text ∷ texts) = text <> concat_texts texts

-- `str::replace('"', "\\\"")`
unfoldable pub escape_quotes : String → String
escape_quotes String.[] = ""
escape_quotes (String.◌∷◌ c s) =
    if eqb (code c) b'"' then "\\\"" <> escape_quotes s else String.◌∷◌ c (escape_quotes s)

-- `enumerate`, from a number on.
unfoldable pub enumerate_from {ℓ} : {A : Type ℓ} → ℕ → List A → List (ℕ × A)
enumerate_from n [] = []
enumerate_from n (a ∷ list) = (n, a) ∷ enumerate_from (n + 1) list
