-- ===== src/Linux/Globs/Classes.antt =====
-- The classes in brackets of a glob.
use Prim.Native.Char.{Char}
use text.Mathlib.TextLemmas.{nil-append, cons-append}
use rattler_sandbox.Prelude.{
  String, ◌<>◌, ◌≡◌, ◌∙◌, refl, sym, ap, Bool, true, false, not, ◌&&◌, arith, ◌==◌, ==-eq,
  string_eq,
}

-- Whether every class that is opened is closed; the test says whether one is open.
unfoldable pub is_closed : Bool → String → Bool
is_closed opened String.[] = not opened
is_closed false (String.◌∷◌ c s) = is_closed (String.◌∷◌ c "" == "[") s
is_closed true (String.◌∷◌ c s) = is_closed (not (String.◌∷◌ c "" == "]")) s

pub one_char : (c : Char) (t : String) → String.◌∷◌ c "" <> t ≡ String.◌∷◌ c t
one_char c t = cons-append c "" t ∙ ap (λ (u : String). String.◌∷◌ c u) (nil-append t)

-- A character that is read as another text's only one is written as it.
pub same_char :
    (c : Char) (mark t : String) → (String.◌∷◌ c "" == mark) ≡ true → mark <> t ≡ String.◌∷◌ c t
same_char c mark t e =
    ap (λ (m : String). m <> t) (sym (==-eq (String.◌∷◌ c "") mark e)) ∙ one_char c t

-- No class is closed in the text.
unfoldable pub lacks_close : String → Bool
lacks_close String.[] = true
lacks_close (String.◌∷◌ c s) = not (String.◌∷◌ c "" == "]") && lacks_close s

pub empty_lacks_close : lacks_close "" ≡ true
unfolding lacks_close
empty_lacks_close = refl

pub lacks_close-append :
    (s : String) (c : Char)
    → lacks_close s ≡ true
    → (String.◌∷◌ c "" == "]") ≡ false
    → lacks_close (s <> String.◌∷◌ c "") ≡ true
unfolding lacks_close
lacks_close-append String.[] c h e =
    ap lacks_close (nil-append (String.◌∷◌ c "")) ∙ ground (arith, e)
lacks_close-append (String.◌∷◌ d s) c h e =
    ap lacks_close (cons-append d s (String.◌∷◌ c ""))
    ∙ ground (arith, h, lacks_close-append s c (ground (arith, h)) e)

-- A class that is closed, and then what is closed.
closes :
    (class s : String)
    → lacks_close class ≡ true
    → is_closed false s ≡ true
    → is_closed true (class <> ("]" <> s)) ≡ true
unfolding lacks_close is_closed string_eq
closes String.[] s h k = ap (is_closed true) (nil-append ("]" <> s) ∙ one_char _ s) ∙ k
closes (String.◌∷◌ c class) s h k =
    ap (is_closed true) (cons-append c class ("]" <> s))
    ∙ by_test (String.◌∷◌ c "" == "]") (ground (arith, h)) (closes class s (ground (arith, h)) k)
  where
    by_test :
        (b : Bool)
        → b ≡ false
        → is_closed true (class <> ("]" <> s)) ≡ true
        → is_closed (not b) (class <> ("]" <> s)) ≡ true
    by_test true e r = absurd (cc e)
    by_test false e r = r

pub class_closes :
    (class s : String)
    → lacks_close class ≡ true
    → is_closed false s ≡ true
    → is_closed false ("[" <> (class <> ("]" <> s))) ≡ true
unfolding is_closed string_eq
class_closes class s h k =
    ap (is_closed false) (one_char _ (class <> ("]" <> s))) ∙ closes class s h k

pub outside_closes :
    (c : Char) (b : String)
    → (String.◌∷◌ c "" == "[") ≡ false
    → is_closed false b ≡ true
    → is_closed false (String.◌∷◌ c "" <> b) ≡ true
unfolding is_closed
outside_closes c b e h = ap (is_closed false) (one_char c b) ∙ rw (e, is_closed) h
