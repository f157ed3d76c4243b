-- ===== src/Linux/Globs/Escape.antt =====
-- `escape_unclosed_glob_classes` of bwrap_runner.rs: only a class that is not closed is escaped.
use Prim.Native.Char.{Char}
use text.Mathlib.TextLemmas.{append-nil, nil-append, append_assoc}
use rattler_sandbox.Prelude.{
  String, ◌<>◌, ◌≡◌, ◌∙◌, refl, sym, ap, true, false, none, some, arith, Bool-cases, inl, inr, ◌==◌,
  string_eq,
}
use rattler_sandbox.Linux.Globs.Classes.{
  is_closed, one_char, same_char, lacks_close, empty_lacks_close, lacks_close-append, class_closes,
  outside_closes,
}
use rattler_sandbox.Linux.Globs.{escape_from, escape_unclosed_glob_classes}

-- The steps of the walk.
outside_ends : escape_from none "" ≡ ""
unfolding escape_from
outside_ends = refl

inside_ends : (class : String) → escape_from (some class) "" ≡ "\\[" <> class
unfolding escape_from
inside_ends class = refl

outside_opens :
    (c : Char) (s : String)
    → (String.◌∷◌ c "" == "[") ≡ true
    → escape_from none (String.◌∷◌ c s) ≡ escape_from (some "") s
unfolding escape_from
outside_opens c s e = rw (e, escape_from) refl

outside_passes :
    (c : Char) (s : String)
    → (String.◌∷◌ c "" == "[") ≡ false
    → escape_from none (String.◌∷◌ c s) ≡ String.◌∷◌ c (escape_from none s)
unfolding escape_from
outside_passes c s e = rw (e, escape_from) refl

inside_closes :
    (class : String) (c : Char) (s : String)
    → (String.◌∷◌ c "" == "]") ≡ true
    → escape_from (some class) (String.◌∷◌ c s) ≡ "[" <> (class <> ("]" <> escape_from none s))
unfolding escape_from
inside_closes class c s e = rw (e, escape_from) refl

inside_passes :
    (class : String) (c : Char) (s : String)
    → (String.◌∷◌ c "" == "]") ≡ false
    → escape_from (some class) (String.◌∷◌ c s) ≡ escape_from (some (class <> String.◌∷◌ c "")) s
unfolding escape_from
inside_passes class c s e = rw (e, escape_from) refl

-- A character moves from what is to be read to what was read.
regroup :
    (class : String) (c : Char) (s : String)
    → "[" <> ((class <> String.◌∷◌ c "") <> s) ≡ "[" <> (class <> String.◌∷◌ c s)
regroup class c s =
    ap (λ (t : String). "[" <> t)
      (append_assoc class (String.◌∷◌ c "") s ∙ ap (λ (t : String). class <> t) (one_char c s))

mutual
  unfolding is_closed

  closed_outside : (s : String) → is_closed false s ≡ true → escape_from none s ≡ s
  closed_outside String.[] h = outside_ends
  closed_outside (String.◌∷◌ c s) h = elim (Bool-cases (String.◌∷◌ c "" == "[")) [
    | inl e ↦
        outside_opens c s e
        ∙ closed_inside "" s (rw (e, is_closed) at h)
        ∙ ap (λ (t : String). "[" <> t) (nil-append s)
        ∙ same_char c "[" s e
    | inr e ↦
        outside_passes c s e
        ∙ ap (λ (t : String). String.◌∷◌ c t) (closed_outside s (rw (e, is_closed) at h))
  ]

  closed_inside :
      (class s : String)
      → is_closed true s ≡ true
      → escape_from (some class) s ≡ "[" <> (class <> s)
  closed_inside class String.[] h = absurd (ground arith)
  closed_inside class (String.◌∷◌ c s) h = elim (Bool-cases (String.◌∷◌ c "" == "]")) [
    | inl e ↦
        inside_closes class c s e
        ∙ ap (λ (t : String). "[" <> (class <> ("]" <> t)))
            (closed_outside s (rw (e, is_closed) at h))
        ∙ ap (λ (t : String). "[" <> (class <> t)) (same_char c "]" s e)
    | inr e ↦
        inside_passes class c s e
        ∙ closed_inside (class <> String.◌∷◌ c "") s (rw (e, is_closed) at h)
        ∙ regroup class c s
  ]

-- The text with a backslash in front of a bracket: all classes before it are closed, and the class
-- that it opens is not.
abbrev pub EscapesOne : String → String → Type 0
EscapesOne s escaped =
    (before : String) × (after : String) × (s ≡ before <> ("[" <> after))
    × (escaped ≡ before <> ("\\[" <> after))
    × (is_closed false before ≡ true)
    × (lacks_close after ≡ true)

EscapesOne-behind :
    (front s escaped : String)
    → ((b : String) → is_closed false b ≡ true → is_closed false (front <> b) ≡ true)
    → EscapesOne s escaped
    → EscapesOne (front <> s) (front <> escaped)
EscapesOne-behind front s escaped closing (before, after, e, f, h, k) = (
  front <> before,
  after,
  ap (λ (t : String). front <> t) e ∙ sym (append_assoc front before ("[" <> after)),
  ap (λ (t : String). front <> t) f ∙ sym (append_assoc front before ("\\[" <> after)),
  closing before h,
  k,
)

EscapesOne-eq : (s t a b : String) → s ≡ t → a ≡ b → EscapesOne s a → EscapesOne t b
EscapesOne-eq s t a b p q (before, after, e, f, h, k) = (before, after, sym p ∙ e, sym q ∙ f, h, k)

closed_class-append :
    (class s : String) → ("[" <> (class <> "]")) <> s ≡ "[" <> (class <> ("]" <> s))
closed_class-append class s =
    append_assoc "[" (class <> "]") s ∙ ap (λ (t : String). "[" <> t) (append_assoc class "]" s)

EscapesOne-class :
    (class s escaped : String)
    → lacks_close class ≡ true
    → EscapesOne s escaped
    → EscapesOne ("[" <> (class <> ("]" <> s))) ("[" <> (class <> ("]" <> escaped)))
EscapesOne-class class s escaped h one =
    EscapesOne-eq (("[" <> (class <> "]")) <> s) ("[" <> (class <> ("]" <> s)))
      (("[" <> (class <> "]")) <> escaped) ("[" <> (class <> ("]" <> escaped)))
      (closed_class-append class s) (closed_class-append class escaped)
      (EscapesOne-behind ("[" <> (class <> "]")) s escaped
        (λ b k. ap (is_closed false) (closed_class-append class b) ∙ class_closes class b h k) one)

mutual
  unfolding is_closed

  open_outside : (s : String) → is_closed false s ≡ false → EscapesOne s (escape_from none s)
  open_outside String.[] h = absurd (ground arith)
  open_outside (String.◌∷◌ c s) h = elim (Bool-cases (String.◌∷◌ c "" == "[")) [
    | inl e ↦
        EscapesOne-eq ("[" <> ("" <> s)) (String.◌∷◌ c s) (escape_from (some "") s) _
          (ap (λ (t : String). "[" <> t) (nil-append s) ∙ same_char c "[" s e)
          (sym (outside_opens c s e)) (open_inside "" s empty_lacks_close (rw (e, is_closed) at h))
    | inr e ↦
        EscapesOne-eq (String.◌∷◌ c "" <> s) (String.◌∷◌ c s)
          (String.◌∷◌ c "" <> escape_from none s) _ (one_char c s)
          (one_char c (escape_from none s) ∙ sym (outside_passes c s e))
          (EscapesOne-behind (String.◌∷◌ c "") s (escape_from none s)
            (λ b k. outside_closes c b e k) (open_outside s (rw (e, is_closed) at h)))
  ]

  open_inside :
      (class s : String)
      → lacks_close class ≡ true
      → is_closed true s ≡ false
      → EscapesOne ("[" <> (class <> s)) (escape_from (some class) s)
  open_inside class String.[] l h = (
    "",
    class,
    ap (λ (t : String). "[" <> t) (append-nil class) ∙ sym (nil-append ("[" <> class)),
    inside_ends class ∙ sym (nil-append ("\\[" <> class)),
    refl,
    l,
  )
  open_inside class (String.◌∷◌ c s) l h = elim (Bool-cases (String.◌∷◌ c "" == "]")) [
    | inl e ↦
        EscapesOne-eq ("[" <> (class <> ("]" <> s))) ("[" <> (class <> String.◌∷◌ c s))
          ("[" <> (class <> ("]" <> escape_from none s))) _
          (ap (λ (t : String). "[" <> (class <> t)) (same_char c "]" s e))
          (sym (inside_closes class c s e))
          (EscapesOne-class class s (escape_from none s) l
            (open_outside s (rw (e, is_closed) at h)))
    | inr e ↦
        EscapesOne-eq ("[" <> ((class <> String.◌∷◌ c "") <> s)) ("[" <> (class <> String.◌∷◌ c s))
          (escape_from (some (class <> String.◌∷◌ c "")) s) _ (regroup class c s)
          (sym (inside_passes class c s e))
          (open_inside (class <> String.◌∷◌ c "") s (lacks_close-append class c l e)
            (rw (e, is_closed) at h))
  ]

-- A glob whose classes are all closed stays as it is. Any other gets one backslash, in front of the
-- bracket that opens the class which is not closed: all classes before it are closed, and no bracket
-- after it closes one.
pub escape_unclosed_glob_classes_lem :
    (glob : String)
    → (is_closed false glob ≡ true → escape_unclosed_glob_classes glob ≡ glob)
      × (is_closed false glob ≡ false → EscapesOne glob (escape_unclosed_glob_classes glob))
unfolding escape_unclosed_glob_classes
escape_unclosed_glob_classes_lem glob = (closed_outside glob, open_outside glob)
