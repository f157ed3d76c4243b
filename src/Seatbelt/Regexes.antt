-- ===== src/Seatbelt/Regexes.antt =====
-- seatbelt.rs: the loop of `seatbelt_regex_for_unreadable_glob` ends, and what it gives for a pattern
-- without glob characters.
use Prim.Native.Char.{Char, code}
use Prim.Native.String.{count}
use Prim.Native.String.count as Count
use mathlib.Core.Option.{some-injective}
use rattler_sandbox.Prelude.{
  String, ◌<>◌, ℕ, zero, suc, ◌≤◌, Bool, true, false, not, ◌&&◌, ◌||◌, Option, none, some, ◌≡◌,
  refl, ap, if_intro, eqb, split_once, arith, is_empty_text, Bool-cases, inl, inr, map_option,
}
use rattler_sandbox.Seatbelt.Texts.{Profile}
use rattler_sandbox.Seatbelt.Globs.{
  is_glob_char, after_star, after_bracket, glob_round, glob_rounds,
  seatbelt_regex_for_unreadable_glob, class_text,
}

-- A text without glob characters.
unfoldable pub has_no_glob : String → Bool
has_no_glob String.[] = true
has_no_glob (String.◌∷◌ c s) = not (is_glob_char c) && has_no_glob s

-- Its characters, each escaped.
unfoldable pub escape_each : Profile → String → String
escape_each profile String.[] = ""
escape_each profile (String.◌∷◌ c s) = profile.escape (String.◌∷◌ c "") <> escape_each profile s

split_once-count :
    (mark : ℕ) (s before after : String)
    → split_once mark s ≡ some (before, after)
    → count after ≤ count s
unfolding split_once
split_once-count mark String.[] before after h = absurd (cc h)
split_once-count mark (String.◌∷◌ c s) before after h = elim (Bool-cases (eqb (code c) mark)) [
  | inl e ↦
      let same : s ≡ after = second (rw e at h) in
      let longer = Count.cons c s in let equal = ap count same in omega arith
  | inr e ↦
      by_rest (split_once mark s) (λ before after. split_once-count mark s before after) (rw e at h)
]
  where
    second : ◌≡◌ {A = Option (String × String)} (some ("", s)) (some (before, after)) → s ≡ after
    second k = ap (λ (p : String × String). p.1) (some-injective ("", s) (before, after) k)

    by_rest :
        (o : Option (String × String))
        → ((before after : String) → o ≡ some (before, after) → count after ≤ count s)
        → map_option {B = String × String} (λ (b, a). (String.◌∷◌ c b, a)) o ≡ some (before, after)
        → count after ≤ count (String.◌∷◌ c s)
    by_rest none f k = absurd (cc k)
    by_rest (some (b, a)) f k =
        let same : a ≡ after =
          ap (λ (p : String × String). p.1)
            (some-injective (String.◌∷◌ c b, a) (before, after) k) in
        let shorter = f b a refl in
        let equal = ap count same in let longer = Count.cons c s in omega arith

after_star-count : (s : String) → count (after_star s).1 ≤ count s
unfolding after_star
after_star-count String.[] = omega arith
after_star-count (String.◌∷◌ c String.[]) =
    if_intro (λ (p : String × String). count p.1 ≤ count (String.◌∷◌ c "")) (eqb (code c) b'*')
      (λ _. let longer = Count.cons c "" in let none_left = Count.nil in omega arith)
      (λ _. omega arith)
after_star-count (String.◌∷◌ c (String.◌∷◌ d s)) =
    if_intro At (eqb (code c) b'*')
      (λ _.
        if_intro At (eqb (code d) b'/') (λ _. omega (arith, outer, inner))
          (λ _. omega (arith, outer)))
      (λ _. omega arith)
  where
    At : String × String → Type 0
    At p = count p.1 ≤ count (String.◌∷◌ c (String.◌∷◌ d s))

    outer : count (String.◌∷◌ c (String.◌∷◌ d s)) ≡ suc (count (String.◌∷◌ d s))
    outer = Count.cons c (String.◌∷◌ d s)

    inner : count (String.◌∷◌ d s) ≡ suc (count s)
    inner = Count.cons d s

after_bracket-count : (s : String) → count (after_bracket s).1 ≤ count s
unfolding after_bracket
after_bracket-count s = by_class (split_once b']' s) (split_once-count b']' s)
  where
    pieces : Option (String × String) → String × String
    pieces o = elim o [
      | some (class, rest) ↦ ("[" <> (class_text class <> "]"), rest)
      | none ↦ ("\\[", s)
    ]

    by_class :
        (o : Option (String × String))
        → ((before after : String) → o ≡ some (before, after) → count after ≤ count s)
        → count (pieces o).1 ≤ count s
    by_class none f = omega arith
    by_class (some (class, rest)) f = f class rest refl

glob_round-count :
    (profile : Profile) (c : Char) (s : String) → count (glob_round profile c s).1 ≤ count s
unfolding glob_round
glob_round-count profile c s =
    if_intro At (eqb (code c) b'*') (λ _. after_star-count s)
      (λ _.
        if_intro At (eqb (code c) b'?') (λ _. omega arith)
          (λ _.
            if_intro At (eqb (code c) b'[') (λ _. after_bracket-count s)
              (λ _. if_intro At (eqb (code c) b']') (λ _. omega arith) (λ _. omega arith))))
  where
    At : String × String → Type 0
    At p = count p.1 ≤ count s

-- With as many rounds as the pattern has characters, or more, the result is the same.
pub glob_rounds-enough :
    (profile : Profile) (fuel more : ℕ) (saw_glob : Bool) (s : String)
    → count s ≤ fuel
    → count s ≤ more
    → glob_rounds profile fuel saw_glob s ≡ glob_rounds profile more saw_glob s
unfolding glob_rounds
glob_rounds-enough profile zero zero saw_glob s h k = refl
glob_rounds-enough profile zero (suc more) saw_glob String.[] h k = refl
glob_rounds-enough profile (suc fuel) zero saw_glob String.[] h k = refl
glob_rounds-enough profile (suc fuel) (suc more) saw_glob String.[] h k = refl
glob_rounds-enough profile zero (suc more) saw_glob (String.◌∷◌ c s) h k =
    let longer = Count.cons c s in absurd (omega arith)
glob_rounds-enough profile (suc fuel) zero saw_glob (String.◌∷◌ c s) h k =
    let longer = Count.cons c s in absurd (omega arith)
glob_rounds-enough profile (suc fuel) (suc more) saw_glob (String.◌∷◌ c s) h k =
    let longer = Count.cons c s in
    let shorter = glob_round-count profile c s in
    rw
      (glob_rounds-enough profile fuel more (saw_glob || is_glob_char c) (glob_round profile c s).1
        (omega arith) (omega arith))
      refl

glob_round-plain :
    (profile : Profile) (c : Char) (s : String)
    → is_glob_char c ≡ false
    → glob_round profile c s ≡ (profile.escape (String.◌∷◌ c ""), s)
unfolding glob_round is_glob_char
glob_round-plain profile c s h = ground (arith, h)

glob_rounds-plain :
    (profile : Profile) (fuel : ℕ) (s : String)
    → has_no_glob s ≡ true
    → count s ≤ fuel
    → glob_rounds profile fuel false s ≡ (escape_each profile s, false)
unfolding glob_rounds has_no_glob escape_each
glob_rounds-plain profile zero String.[] h k = refl
glob_rounds-plain profile zero (String.◌∷◌ c s) h k =
    let longer = Count.cons c s in absurd (omega arith)
glob_rounds-plain profile (suc fuel) String.[] h k = refl
glob_rounds-plain profile (suc fuel) (String.◌∷◌ c s) h k =
    let longer = Count.cons c s in
    let plain : is_glob_char c ≡ false = ground arith in
    rw plain (
      rw (glob_round-plain profile c s plain)
        (rw (glob_rounds-plain profile fuel s (ground arith) (omega arith)) refl))

-- A pattern that is not empty and has no glob character gives the regex of that very path and of
-- what lies below it.
pub seatbelt_regex_for_unreadable_glob-plain :
    (profile : Profile) (pattern : String)
    → is_empty_text pattern ≡ false
    → has_no_glob pattern ≡ true
    → seatbelt_regex_for_unreadable_glob profile pattern
      ≡ some ("^" <> (escape_each profile pattern <> "(/.*)?$"))
unfolding seatbelt_regex_for_unreadable_glob
seatbelt_regex_for_unreadable_glob-plain profile pattern h k =
    rw h (rw (glob_rounds-plain profile (count pattern) pattern k (omega arith)) refl)
