-- ===== src/Paths/Named.antt =====
-- The path of a name without a slash, and such a name below a directory.
use Prim.Native.Char.{Char, code}
use Prim.Native.String.append.{nil, cons}
use rattler_sandbox.Prelude.{
  String, ◌<>◌, Bool, true, false, not, ◌&&◌, [], ◌∷◌, ◌++◌, ◌≡◌, refl, ap, ◌∙◌, eqb, if_intro,
  arith, ◌==◌, string_eq, ==-eq, Bool-cases, inl, inr,
}
use rattler_sandbox.Paths.Std.{
  PathBuf, normal, push, components, split_slash, pieces_components, leading_components,
}

unfoldable pub has_no_slash : String → Bool
has_no_slash String.[] = true
has_no_slash (String.◌∷◌ c s) = not (eqb (code c) b'/') && has_no_slash s

pub has_no_slash-append :
    (s t : String) → has_no_slash s ≡ true → has_no_slash t ≡ true → has_no_slash (s <> t) ≡ true
unfolding has_no_slash
has_no_slash-append String.[] t h k = ap has_no_slash (nil t) ∙ k
has_no_slash-append (String.◌∷◌ c s) t h k =
    ap has_no_slash (cons c s t) ∙ ground (arith, has_no_slash-append s t (ground arith) k)

split_slash_lem : (s : String) → has_no_slash s ≡ true → split_slash s ≡ s ∷ []
unfolding split_slash has_no_slash
split_slash_lem String.[] h = refl
split_slash_lem (String.◌∷◌ c s) h = ground (arith, split_slash_lem s (ground arith))

abbrev starts_with_dot : String → Bool
starts_with_dot String.[] = true
starts_with_dot (String.◌∷◌ c s) = eqb (code c) b'.'

not_dots : (s t : String) → starts_with_dot s ≡ false → starts_with_dot t ≡ true → (s == t) ≡ false
not_dots s t h k = elim (Bool-cases (s == t)) [
  | inl e ↦ absurd (cc (ap starts_with_dot (==-eq s t e)))
  | inr e ↦ e
]

-- A name that begins with neither a slash nor a dot is a path of one component.
pub components-has_no_slash :
    (c : Char) (s : String)
    → has_no_slash (String.◌∷◌ c s) ≡ true
    → eqb (code c) b'.' ≡ false
    → components (String.◌∷◌ c s) ≡ normal (String.◌∷◌ c s) ∷ []
unfolding components leading_components pieces_components
components-has_no_slash c s h dot =
    if_intro (λ (p : PathBuf). p ≡ normal name ∷ []) (eqb (code c) b'/')
      (λ slash. absurd (unfold has_no_slash in ground (arith, slash, h)))
      (λ _. rw (split_slash_lem name h) (
        rw (not_dots name "." dot refl)
          (rw (not_dots name "" dot refl) (rw (not_dots name ".." dot refl) refl))))
  where
    name : String
    name = String.◌∷◌ c s

pub push-normal :
    (dir : PathBuf) (name : String) → push dir (normal name ∷ []) ≡ dir ++ (normal name ∷ [])
unfolding push
push-normal [] name = refl
push-normal (d ∷ dir) name = refl
