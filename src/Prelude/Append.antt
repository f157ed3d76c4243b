-- ===== src/Prelude/Append.antt =====
-- What `str::strip_prefix` and `str::split_once` give on texts that were put together.
use Prim.Native.Char.{Char, code}
use Prim.Native.String.{String, ◌++◌ as ◌<>◌}
use Prim.Native.String.append.{nil, cons}
use mathlib.Core.Path.{◌≡◌, sym, ap, ◌∙◌}
use mathlib.Core.Bool.{true, false}
use mathlib.Core.Option.{Option, some, some-injective}
use native.Mathlib.Omega.{arith}
use text.Mathlib.TextEquality.{Char-path}
use rattler_sandbox.Prelude.Tests.{eqb, if_intro}
use rattler_sandbox.Prelude.Options.{map_option, some_of_then}
use rattler_sandbox.Prelude.Text.{strip_text, split_once, ends_with_char, pop_char}
use rattler_sandbox.Prelude.Decimal.{has_only_digits, is_digit}

pub strip_text-append : (p s : String) → strip_text p (p <> s) ≡ some s
unfolding strip_text
strip_text-append String.[] s = ap some (nil s)
strip_text-append (String.◌∷◌ c p) s =
    ap (strip_text (String.◌∷◌ c p)) (cons c p s) ∙ ground (arith, strip_text-append p s)

-- What is stripped was there.
pub append_of_strip_text : (p s r : String) → strip_text p s ≡ some r → s ≡ p <> r
unfolding strip_text
append_of_strip_text String.[] s r h = some-injective s r h ∙ sym (nil r)
append_of_strip_text (String.◌∷◌ c p) String.[] r h = absurd (cc h)
append_of_strip_text (String.◌∷◌ c p) (String.◌∷◌ d s) r h =
    let (same, k) = some_of_then (eqb (code c) (code d)) (strip_text p s) r h in
    ap (λ (x : Char). String.◌∷◌ x s) (Char-path d c (ground (arith, same)))
    ∙ ap (λ (x : String). String.◌∷◌ c x) (append_of_strip_text p s r k)
    ∙ sym (cons c p r)

-- A character that is popped was the last.
pub pop_char-append :
    (mark : Char) (s : String)
    → ends_with_char (code mark) s ≡ true
    → pop_char s <> String.◌∷◌ mark "" ≡ s
unfolding ends_with_char pop_char
pop_char-append mark String.[] h = absurd (ground arith)
pop_char-append mark (String.◌∷◌ c String.[]) h =
    nil (String.◌∷◌ mark "")
    ∙ ap (λ (x : Char). String.◌∷◌ x "") (Char-path mark c (ground (arith, h)))
pop_char-append mark (String.◌∷◌ c (String.◌∷◌ d s)) h =
    cons c (pop_char (String.◌∷◌ d s)) (String.◌∷◌ mark "")
    ∙ ap (λ (x : String). String.◌∷◌ c x) (pop_char-append mark (String.◌∷◌ d s) h)

-- A text in front of another is cancelled.
pub append_cancel_left : (p s t : String) → p <> s ≡ p <> t → s ≡ t
append_cancel_left p s t e =
    some-injective s t (sym (strip_text-append p s) ∙ ap (strip_text p) e ∙ strip_text-append p t)

-- A text of digits is cut off at a mark that is no digit.
pub split_once-digits :
    (mark : Char) (d s : String)
    → is_digit mark ≡ false
    → has_only_digits d ≡ true
    → split_once (code mark) (d <> String.◌∷◌ mark s) ≡ some (d, s)
unfolding split_once has_only_digits
split_once-digits mark String.[] s n h =
    ap (split_once (code mark)) (nil (String.◌∷◌ mark s)) ∙ ground (arith)
split_once-digits mark (String.◌∷◌ c d) s n h =
    ap (split_once (code mark)) (cons c d (String.◌∷◌ mark s))
    ∙ split_rest (split_once-digits mark d s n (ground arith))
  where
    split_rest :
        split_once (code mark) (d <> String.◌∷◌ mark s) ≡ some (d, s)
        → split_once (code mark) (String.◌∷◌ c (d <> String.◌∷◌ mark s)) ≡ some (String.◌∷◌ c d, s)
    split_rest e =
        if_intro (λ (o : Option (String × String)). o ≡ some (String.◌∷◌ c d, s))
          (eqb (code c) (code mark)) (λ same. absurd (ground (arith, same, n, h)))
          (λ _. ap (map_option (λ (before, after). (String.◌∷◌ c before, after))) e)

-- Two texts of digits, each with a mark and a text behind it.
pub digits_cancel :
    (mark : Char) (d e s t : String)
    → is_digit mark ≡ false
    → has_only_digits d ≡ true
    → has_only_digits e ≡ true
    → d <> String.◌∷◌ mark s ≡ e <> String.◌∷◌ mark t
    → (d ≡ e) × (s ≡ t)
digits_cancel mark d e s t n h k same =
    (ap (λ (p : String × String). p.0) pairs, ap (λ (p : String × String). p.1) pairs)
  where
    pairs : ◌≡◌ {A = String × String} (d, s) (e, t)
    pairs =
        some-injective (d, s) (e, t)
          (sym (split_once-digits mark d s n h)
            ∙ ap (split_once (code mark)) same
            ∙ split_once-digits mark e t n k)

-- A text with a mark in it is not a text of digits.
pub has_only_digits-mark :
    (mark : Char) (d s : String)
    → is_digit mark ≡ false
    → has_only_digits (d <> String.◌∷◌ mark s) ≡ false
unfolding has_only_digits
has_only_digits-mark mark String.[] s n =
    ap has_only_digits (nil (String.◌∷◌ mark s)) ∙ ground (arith, n)
has_only_digits-mark mark (String.◌∷◌ c d) s n =
    ap has_only_digits (cons c d (String.◌∷◌ mark s))
    ∙ ground (arith, has_only_digits-mark mark d s n)
