-- ===== src/Prelude/Decimal.antt =====
-- Rust's `format!("{n}")` and `str::parse` for numbers without a sign.
use Prim.Native.Nat.{ℕ, zero, suc, ◌+◌, ◌-◌, ◌*◌, ◌/◌, ◌%◌, ◌≤◌, ◌<◌}
use Prim.Native.Char.{Char, code}
use Prim.Native.String.{String}
use mathlib.Core.Path.{◌≡◌, refl, sym, ap, ◌∙◌}
use mathlib.Core.Bool.{Bool, true, ◌&&◌}
use mathlib.Core.Option.{Option, none, some, some-injective}
use native.Mathlib.Omega.{arith}
use rattler_sandbox.Prelude.Tests.{if◌then◌else◌, eqb, leb, ltb, if_intro}

abbrev pub is_digit : Char → Bool
is_digit c = leb b'0' (code c) && leb (code c) b'9'

digit_char : ℕ → Char
digit_char zero = "0"
digit_char (suc zero) = "1"
digit_char (suc (suc zero)) = "2"
digit_char (suc (suc (suc zero))) = "3"
digit_char (suc (suc (suc (suc zero)))) = "4"
digit_char (suc (suc (suc (suc (suc zero))))) = "5"
digit_char (suc (suc (suc (suc (suc (suc zero)))))) = "6"
digit_char (suc (suc (suc (suc (suc (suc (suc zero))))))) = "7"
digit_char (suc (suc (suc (suc (suc (suc (suc (suc zero)))))))) = "8"
digit_char (suc (suc (suc (suc (suc (suc (suc (suc (suc n))))))))) = "9"

code-digit_char : (d : ℕ) → d < 10 → code (digit_char d) ≡ b'0' + d
unfolding digit_char
code-digit_char zero h = refl
code-digit_char (suc zero) h = refl
code-digit_char (suc (suc zero)) h = refl
code-digit_char (suc (suc (suc zero))) h = refl
code-digit_char (suc (suc (suc (suc zero)))) h = refl
code-digit_char (suc (suc (suc (suc (suc zero))))) h = refl
code-digit_char (suc (suc (suc (suc (suc (suc zero)))))) h = refl
code-digit_char (suc (suc (suc (suc (suc (suc (suc zero))))))) h = refl
code-digit_char (suc (suc (suc (suc (suc (suc (suc (suc zero)))))))) h = refl
code-digit_char (suc (suc (suc (suc (suc (suc (suc (suc (suc n))))))))) h = omega arith

-- The digits of a number in front of a text. Each round divides the number by ten, so the number is
-- fuel enough.
unfoldable pub digits_within : ℕ → ℕ → String → String
unfolding digit_char
digits_within zero n s = s
digits_within (suc fuel) n s =
    let shown = String.◌∷◌ (digit_char (n % 10)) s in
    let more = digits_within fuel (n / 10) shown in if ltb n 10 then shown else more

-- `to_string`
unfoldable pub number_text : ℕ → String
unfolding digits_within
number_text n = digits_within (suc n) n ""

-- The digits of a text behind a number, up to a maximum.
unfoldable pub scan_number : ℕ → ℕ → String → Option ℕ
scan_number max n String.[] = some n
scan_number max n (String.◌∷◌ c s) =
    let m = n * 10 + (code c - b'0') in
    let rest = scan_number max m s in
    if is_digit c then (if leb m max then rest else none) else none

abbrev without_sign : String → String
without_sign String.[] = ""
without_sign (String.◌∷◌ c s) = if eqb (code c) b'+' then s else String.◌∷◌ c s

abbrev scan_some : ℕ → String → Option ℕ
scan_some max String.[] = none
scan_some max (String.◌∷◌ c s) = scan_number max 0 (String.◌∷◌ c s)

-- `str::parse` into a type whose greatest number is `max`: one `+` may stand in front.
unfoldable pub parse_number : ℕ → String → Option ℕ
unfolding scan_number
parse_number max s = scan_some max (without_sign s)

scan_digit :
    (max n d : ℕ) (s : String)
    → d < 10
    → n * 10 + d ≤ max
    → scan_number max n (String.◌∷◌ (digit_char d) s) ≡ scan_number max (n * 10 + d) s
unfolding scan_number
scan_digit max n d s h k = ground (arith, code-digit_char d h)

scan_step :
    (max n : ℕ) (s : String)
    → n ≤ max
    → scan_number max (n / 10) (String.◌∷◌ (digit_char (n % 10)) s) ≡ scan_number max n s
scan_step max n s h =
    scan_digit max (n / 10) (n % 10) s (omega arith) (omega arith)
    ∙ ap (λ (m : ℕ). scan_number max m s) (omega arith)

scan_low :
    (n max : ℕ) (s : String)
    → n ≤ max
    → ltb n 10 ≡ true
    → scan_number max 0 (String.◌∷◌ (digit_char (n % 10)) s) ≡ scan_number max n s
scan_low n max s k low =
    ap (λ (m : ℕ). scan_number max m (String.◌∷◌ (digit_char (n % 10)) s)) {x = 0} {y = n / 10}
      (ground arith)
    ∙ scan_step max n s k

scan-digits_within :
    (fuel n max : ℕ) (s : String)
    → n ≤ fuel
    → n ≤ max
    → scan_number max 0 (digits_within (suc fuel) n s) ≡ scan_number max n s
unfolding digits_within
scan-digits_within zero n max s h k =
    if_intro (λ (t : String). scan_number max 0 t ≡ scan_number max n s) (ltb n 10)
      (scan_low n max s k) (λ high. absurd (ground (arith, high)))
scan-digits_within (suc fuel) n max s h k =
    if_intro (λ (t : String). scan_number max 0 t ≡ scan_number max n s) (ltb n 10)
      (scan_low n max s k)
      (λ high.
        let less : n / 10 ≤ fuel = ground (arith, high) in
        scan-digits_within fuel (n / 10) max (String.◌∷◌ (digit_char (n % 10)) s) less (omega arith)
        ∙ scan_step max n s k)

-- A text of digits.
unfoldable pub has_only_digits : String → Bool
has_only_digits String.[] = true
has_only_digits (String.◌∷◌ c s) = is_digit c && has_only_digits s

digits_within_digits :
    (fuel n : ℕ) (s : String)
    → has_only_digits s ≡ true
    → has_only_digits (digits_within fuel n s) ≡ true
unfolding digits_within
digits_within_digits zero n s h = h
digits_within_digits (suc fuel) n s h =
    if_intro (λ (t : String). has_only_digits t ≡ true) (ltb n 10) (λ _. shown)
      (λ _. digits_within_digits fuel (n / 10) _ shown)
  where
    shown : has_only_digits (String.◌∷◌ (digit_char (n % 10)) s) ≡ true
    shown = unfold has_only_digits in ground (arith, code-digit_char (n % 10) (omega arith))

pub number_text_digits : (n : ℕ) → has_only_digits (number_text n) ≡ true
unfolding number_text has_only_digits
number_text_digits n = digits_within_digits (suc n) n "" refl

digits_within_nonempty :
    (fuel n : ℕ) (c : Char) (s : String)
    → (d : Char) × (t : String) × (digits_within fuel n (String.◌∷◌ c s) ≡ String.◌∷◌ d t)
unfolding digits_within
digits_within_nonempty zero n c s = (c, s, refl)
digits_within_nonempty (suc fuel) n c s =
    if_intro (λ (u : String). (d : Char) × (t : String) × (u ≡ String.◌∷◌ d t)) (ltb n 10)
      (λ _. (digit_char (n % 10), String.◌∷◌ c s, refl))
      (λ _. digits_within_nonempty fuel (n / 10) (digit_char (n % 10)) (String.◌∷◌ c s))

-- The text of a number is a digit and more.
pub number_text_nonempty : (n : ℕ) → (c : Char) × (s : String) × (number_text n ≡ String.◌∷◌ c s)
unfolding number_text digits_within
number_text_nonempty n =
    if_intro (λ (u : String). (d : Char) × (t : String) × (u ≡ String.◌∷◌ d t)) (ltb n 10)
      (λ _. (digit_char (n % 10), "", refl))
      (λ _. digits_within_nonempty n (n / 10) (digit_char (n % 10)) "")

scan_some_digit :
    (max : ℕ) (c : Char) (s : String)
    → has_only_digits (String.◌∷◌ c s) ≡ true
    → scan_some max (without_sign (String.◌∷◌ c s)) ≡ scan_number max 0 (String.◌∷◌ c s)
unfolding has_only_digits
scan_some_digit max c s h =
    if_intro (λ (t : String). scan_some max t ≡ scan_number max 0 (String.◌∷◌ c s))
      (eqb (code c) b'+') (λ plus. absurd (ground (arith, plus, h))) (λ _. refl)

parse_number-scan :
    (max n : ℕ) → parse_number max (number_text n) ≡ scan_number max 0 (number_text n)
unfolding parse_number
parse_number-scan max n =
    let (c, s, e) = number_text_nonempty n in
    ap (λ (t : String). scan_some max (without_sign t)) e
    ∙ scan_some_digit max c s (ap has_only_digits (sym e) ∙ number_text_digits n)
    ∙ ap (λ (t : String). scan_number max 0 t) (sym e)

-- A number that fits is read back from its text.
pub parse_number-number_text : (max n : ℕ) → n ≤ max → parse_number max (number_text n) ≡ some n
unfolding number_text scan_number
parse_number-number_text max n h =
    parse_number-scan max n ∙ scan-digits_within n n max "" (omega arith) h

pub number_text_injective : (n m : ℕ) → number_text n ≡ number_text m → n ≡ m
number_text_injective n m e = some-injective n m (
    sym (parse_number-number_text (n + m) n (omega arith))
    ∙ ap (λ (s : String). parse_number (n + m) s) e
    ∙ parse_number-number_text (n + m) m (omega arith))
