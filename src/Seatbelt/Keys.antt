-- ===== src/Seatbelt/Keys.antt =====
-- seatbelt.rs: the names of the parameters of one rule are different.
use Prim.Native.String.append.{cons}
use rattler_sandbox.Prelude.{
  String, ◌<>◌, ℕ, ◌≡◌, refl, sym, ap, ◌∙◌, number_text, number_text_digits, number_text_injective,
  append_cancel_left, digits_cancel, has_only_digits, has_only_digits-mark,
}
use rattler_sandbox.Seatbelt.Access.{root_param, excluded_param}

pub data Key : Type 0 where
  root_key : ℕ → Key
  excluded_key : ℕ → ℕ → Key

abbrev pub key_text : String → Key → String
key_text prefix (root_key i) = root_param prefix i
key_text prefix (excluded_key i j) = excluded_param prefix i j

abbrev number_part : Key → String
number_part (root_key i) = number_text i
number_part (excluded_key i j) = number_text i <> ("_EXCLUDED_" <> number_text j)

key_text_parts : (prefix : String) (k : Key) → key_text prefix k ≡ prefix <> ("_" <> number_part k)
key_text_parts prefix (root_key i) = refl
key_text_parts prefix (excluded_key i j) = refl

key_text-number_part :
    (prefix : String) (k l : Key)
    → key_text prefix k ≡ key_text prefix l
    → number_part k ≡ number_part l
key_text-number_part prefix k l e = append_cancel_left "_" (number_part k) (number_part l) (
    append_cancel_left prefix ("_" <> number_part k) ("_" <> number_part l)
      (sym (key_text_parts prefix k) ∙ e ∙ key_text_parts prefix l))

apart : (i j k : ℕ) → number_text i ≡ number_text j <> ("_EXCLUDED_" <> number_text k) → ⊥
apart i j k e = cc (
  ap has_only_digits
        (sym (e ∙ ap (λ (s : String). number_text j <> s) (cons "_" "EXCLUDED_" (number_text k))))
      ∙ number_text_digits i,
  has_only_digits-mark "_" (number_text j) ("EXCLUDED_" <> number_text k) refl,
)

-- Two parameters with one name are one parameter.
pub key_text-injective :
    (prefix : String) (k l : Key) → key_text prefix k ≡ key_text prefix l → k ≡ l
key_text-injective prefix (root_key i) (root_key j) e =
    ap root_key
      (number_text_injective i j (key_text-number_part prefix (root_key i) (root_key j) e))
key_text-injective prefix (root_key i) (excluded_key j k) e =
    absurd (apart i j k (key_text-number_part prefix (root_key i) (excluded_key j k) e))
key_text-injective prefix (excluded_key i k) (root_key j) e =
    absurd (apart j i k (sym (key_text-number_part prefix (excluded_key i k) (root_key j) e)))
key_text-injective prefix (excluded_key i k) (excluded_key j l) e =
    let (first, second) =
      digits_cancel "_" (number_text i) (number_text j) (marked k) (marked l) refl
        (number_text_digits i) (number_text_digits j)
        (sym (cut i k)
          ∙ key_text-number_part prefix (excluded_key i k) (excluded_key j l) e
          ∙ cut j l) in
    cc (
      number_text_injective i j first,
      number_text_injective k l
          (append_cancel_left "EXCLUDED_" (number_text k) (number_text l) second),
    )
  where
    marked : ℕ → String
    marked n = "EXCLUDED_" <> number_text n

    cut : (m n : ℕ) → number_part (excluded_key m n) ≡ number_text m <> String.◌∷◌ "_" (marked n)
    cut m n = ap (λ (s : String). number_text m <> s) (cons "_" "EXCLUDED_" (number_text n))
