-- ===== src/Prelude/Text.antt =====
-- Rust's `str::trim` and `str::split_once` on native texts.
use Prim.Native.Nat.{ℕ}
use Prim.Native.Char.{Char, code}
use Prim.Native.String.{String}
use mathlib.Core.Bool.{Bool, true, false, ◌&&◌, ◌||◌}
use mathlib.Core.Option.{Option, none, some}
use mathlib.Core.List.{List, [], ◌∷◌}
use native.Mathlib.Omega.{arith}
use mathlib.Core.Path.{◌≡◌}
use rattler_sandbox.Prelude.Tests.{if◌then◌else◌, eqb, leb}
use rattler_sandbox.Prelude.Lists.{any}
use rattler_sandbox.Prelude.Options.{map_option}

-- The Unicode property `White_Space`.
unfoldable pub is_whitespace : Char → Bool
is_whitespace c =
    (leb 0x9 (code c) && leb (code c) 0xd)
    || (leb 0x2000 (code c) && leb (code c) 0x200a)
    || any (eqb (code c))
        (0x20 ∷ 0x85 ∷ 0xa0 ∷ 0x1680 ∷ 0x2028 ∷ 0x2029 ∷ 0x202f ∷ 0x205f ∷ 0x3000 ∷ [])

unfoldable pub trim_start : String → String
trim_start String.[] = ""
trim_start (String.◌∷◌ c s) =
    let rest = trim_start s in if is_whitespace c then rest else String.◌∷◌ c s

abbrev pub is_empty_text : String → Bool
is_empty_text String.[] = true
is_empty_text (String.◌∷◌ c s) = false

unfoldable pub trim_end : String → String
trim_end String.[] = ""
trim_end (String.◌∷◌ c s) =
    let rest = trim_end s in if is_empty_text rest && is_whitespace c then "" else String.◌∷◌ c rest

unfoldable pub trim : String → String
trim s = trim_end (trim_start s)

-- The text before the first mark, and the text after it.
unfoldable pub split_once : ℕ → String → Option (String × String)
split_once mark String.[] = none
split_once mark (String.◌∷◌ c s) =
    let rest = split_once mark s in
    if eqb (code c) mark
    then some ("", s)
    else map_option (λ (before, after). (String.◌∷◌ c before, after)) rest

-- The capital letters of ASCII with their small forms.
abbrev small_letters : List (ℕ × Char)
small_letters =
    (b'A', "a")
    ∷ (b'B', "b")
    ∷ (b'C', "c")
    ∷ (b'D', "d")
    ∷ (b'E', "e")
    ∷ (b'F', "f")
    ∷ (b'G', "g")
    ∷ (b'H', "h")
    ∷ (b'I', "i")
    ∷ (b'J', "j")
    ∷ (b'K', "k")
    ∷ (b'L', "l")
    ∷ (b'M', "m")
    ∷ (b'N', "n")
    ∷ (b'O', "o")
    ∷ (b'P', "p")
    ∷ (b'Q', "q")
    ∷ (b'R', "r")
    ∷ (b'S', "s")
    ∷ (b'T', "t")
    ∷ (b'U', "u")
    ∷ (b'V', "v")
    ∷ (b'W', "w")
    ∷ (b'X', "x")
    ∷ (b'Y', "y")
    ∷ (b'Z', "z")
    ∷ []

abbrev small_in : List (ℕ × Char) → Char → Char
small_in [] c = c
small_in ((n, small) ∷ letters) c = if eqb (code c) n then small else small_in letters c

unfoldable pub to_ascii_lowercase : String → String
to_ascii_lowercase String.[] = ""
to_ascii_lowercase (String.◌∷◌ c s) = String.◌∷◌ (small_in small_letters c) (to_ascii_lowercase s)

-- A text that begins with no white space is not trimmed away.
pub is_empty_text-trim :
    (c : Char) (s : String)
    → is_whitespace c ≡ false
    → is_empty_text (trim (String.◌∷◌ c s)) ≡ false
unfolding trim trim_start trim_end
is_empty_text-trim c s h = ground arith

-- `str::starts_with`
unfoldable pub has_prefix : String → String → Bool
has_prefix String.[] s = true
has_prefix (String.◌∷◌ c prefix) String.[] = false
has_prefix (String.◌∷◌ c prefix) (String.◌∷◌ d s) = eqb (code c) (code d) && has_prefix prefix s

-- `str::to_ascii_uppercase`
abbrev capital_letters : List (ℕ × Char)
capital_letters =
    (b'a', "A")
    ∷ (b'b', "B")
    ∷ (b'c', "C")
    ∷ (b'd', "D")
    ∷ (b'e', "E")
    ∷ (b'f', "F")
    ∷ (b'g', "G")
    ∷ (b'h', "H")
    ∷ (b'i', "I")
    ∷ (b'j', "J")
    ∷ (b'k', "K")
    ∷ (b'l', "L")
    ∷ (b'm', "M")
    ∷ (b'n', "N")
    ∷ (b'o', "O")
    ∷ (b'p', "P")
    ∷ (b'q', "Q")
    ∷ (b'r', "R")
    ∷ (b's', "S")
    ∷ (b't', "T")
    ∷ (b'u', "U")
    ∷ (b'v', "V")
    ∷ (b'w', "W")
    ∷ (b'x', "X")
    ∷ (b'y', "Y")
    ∷ (b'z', "Z")
    ∷ []

unfoldable pub to_ascii_uppercase : String → String
to_ascii_uppercase String.[] = ""
to_ascii_uppercase (String.◌∷◌ c s) = String.◌∷◌ (small_in capital_letters c) (to_ascii_uppercase s)

-- `str::strip_prefix`
unfoldable pub strip_text : String → String → Option String
strip_text String.[] s = some s
strip_text (String.◌∷◌ c prefix) String.[] = none
strip_text (String.◌∷◌ c prefix) (String.◌∷◌ d s) =
    let rest = strip_text prefix s in if eqb (code c) (code d) then rest else none

-- `str::contains`
unfoldable pub has_text : String → String → Bool
has_text pattern String.[] = has_prefix pattern ""
has_text pattern (String.◌∷◌ c s) = has_prefix pattern (String.◌∷◌ c s) || has_text pattern s

-- The last character of a text is this one.
unfoldable pub ends_with_char : ℕ → String → Bool
ends_with_char mark String.[] = false
ends_with_char mark (String.◌∷◌ c s) =
    if is_empty_text s then eqb (code c) mark else ends_with_char mark s

-- `String::pop`
unfoldable pub pop_char : String → String
pop_char String.[] = ""
pop_char (String.◌∷◌ c s) = if is_empty_text s then "" else String.◌∷◌ c (pop_char s)
