-- ===== src/Linux/Launch/Separator.antt =====
-- `apply_inner_command_argv0_for_launcher` of run_main.rs: what it finds, and what it keeps.
use mathlib.Core.List.{Memᴰ}
use mathlib.Core.List.{append_assoc}
use rattler_sandbox.Prelude.{
  ◌∙◌, sym, ap, String, ◌≡◌, ◌⊎◌, refl, Bool, true, false, Option, none, some, List, [], ◌∷◌, ◌++◌,
  ◌==◌, string_eq, inl, inr, map_option, mem-append_left, mem-append_right, if◌then◌else◌, if_intro,
}
use rattler_sandbox.Linux.Launch.{
  apply_inner_command_argv0_for_launcher, split_at_separator, replace_command, linux_sandbox_arg0,
}

-- The arguments end with a separator and `tail`.
abbrev pub EndsWith : List String → List String → Type 0
EndsWith tail args = (pre : List String) × (args ≡ pre ++ ("--" ∷ tail))

-- They do, and `kept` is one of those before it.
abbrev pub HoldsBefore : String → List String → List String → Type 0
HoldsBefore kept tail args = (pre : List String) × (args ≡ pre ++ ("--" ∷ tail)) × Memᴰ kept pre

-- The split of arguments that hold a separator with a command: the two sides, the second not empty.
abbrev pub SplitKeeps : String → List String → Option (List String × List String) → Type 0
SplitKeeps kept tail none = ⊥
SplitKeeps kept tail (some (before, [])) = ⊥
SplitKeeps kept tail (some (before, first ∷ rest)) =
    (pre : List String) × (rest ≡ pre ++ ("--" ∷ tail)) × (Memᴰ kept before ⊎ Memᴰ kept pre)

SplitKeeps-map :
    (kept arg : String) (tail : List String) (o : Option (List String × List String))
    → SplitKeeps kept tail o
    → SplitKeeps kept tail (map_option (λ (before, after). (arg ∷ before, after)) o)
SplitKeeps-map kept arg tail none s = s
SplitKeeps-map kept arg tail (some (before, [])) s = s
SplitKeeps-map kept arg tail (some (before, first ∷ rest)) (pre, p, inl m) =
    (pre, p, inl (Memᴰ.tail m))
SplitKeeps-map kept arg tail (some (before, first ∷ rest)) (pre, p, inr m) = (pre, p, inr m)

abbrev HasCommand : List String → Option (List String × List String) → Type 0
HasCommand tail none = ⊥
HasCommand tail (some (before, [])) = ⊥
HasCommand tail (some (before, first ∷ rest)) = EndsWith tail rest

-- `program` and its arguments, which end with a separator and `tail`, behind a separator.
module _ (program : String) (inner tail : List String) where
  abbrev commanded : List String → List String
  commanded ys = ys ++ ("--" ∷ program ∷ (inner ++ ("--" ∷ tail)))

  commanded-ends : (ys : List String) → EndsWith tail (commanded ys)
  commanded-ends ys =
      (ys ++ ("--" ∷ program ∷ inner), sym (append_assoc ys ("--" ∷ program ∷ inner) ("--" ∷ tail)))

  split_at_separator-splits :
      (ys : List String) → HasCommand tail (split_at_separator (commanded ys))
  unfolding split_at_separator string_eq
  split_at_separator-splits [] = (inner, refl)
  split_at_separator-splits (y ∷ ys) =
      if_intro (HasCommand tail) (y == "--") (λ _. inside ys)
        (λ _. by_split _ (split_at_separator-splits ys))
    where
      inside : (ys : List String) → HasCommand tail (some ([], commanded ys))
      inside [] = (program ∷ inner, refl)
      inside (y ∷ ys) = commanded-ends ys

      by_split :
          (o : Option (List String × List String))
          → HasCommand tail o
          → HasCommand tail (map_option (λ (before, after). (y ∷ before, after)) o)
      by_split none s = s
      by_split (some (before, [])) s = s
      by_split (some (before, first ∷ after)) s = s

  -- The command behind a separator is found, and an argument before it that follows another one
  -- which is no separator stays, on its side.
  split_at_separator-keeps :
      (xs : List String) (a kept : String) (ys : List String)
      → (a == "--") ≡ false
      → (kept == "--") ≡ false
      → SplitKeeps kept tail (split_at_separator (xs ++ (a ∷ kept ∷ commanded ys)))
  unfolding split_at_separator
  split_at_separator-keeps (x ∷ xs) a kept ys ha hk =
      if_intro (SplitKeeps kept tail) (x == "--") (λ _. inside xs)
        (λ _. SplitKeeps-map kept x tail _ (split_at_separator-keeps xs a kept ys ha hk))
    where
      inside :
          (xs : List String) → SplitKeeps kept tail (some ([], xs ++ (a ∷ kept ∷ commanded ys)))
      inside [] =
          let (pre, p) = commanded-ends ys in
          (kept ∷ pre, ap (λ (l : List String). kept ∷ l) p, inr (Memᴰ.head refl))
      inside (x ∷ xs) =
          let (pre, p) = commanded-ends ys in
          (
            xs ++ (a ∷ kept ∷ pre),
            ap (λ (l : List String). xs ++ (a ∷ kept ∷ l)) p
                ∙ sym (append_assoc xs (a ∷ kept ∷ pre) ("--" ∷ tail)),
            inr (mem-append_right kept xs _ (Memᴰ.tail (Memᴰ.head refl))),
          )
  split_at_separator-keeps [] a kept ys ha hk =
      rw (ha, hk) (by_split _ (split_at_separator-splits ys))
    where
      by_split :
          (o : Option (List String × List String))
          → HasCommand tail o
          → SplitKeeps kept tail (
              map_option
                (λ (before, after). (a ∷ before, after))
                (map_option (λ (before, after). (kept ∷ before, after)) o))
      by_split none s = s
      by_split (some (before, [])) s = s
      by_split (some (before, first ∷ rest)) (pre, p) = (pre, p, inl (Memᴰ.tail (Memᴰ.head refl)))

  -- Where arguments hold such a pair before a command, the launcher's choice of `argv[0]` is made,
  -- and the second of the pair stays before the last arguments, which stay as they are.
  pub apply_inner_command_argv0_for_launcher-keeps :
      (xs : List String) (a kept : String) (ys : List String)
      → (supports_argv0 : Bool) (fallback : String) → (a == "--") ≡ false
      → (kept == "--") ≡ false
      → (argv : List String) × (apply_inner_command_argv0_for_launcher
            (xs ++ (a ∷ kept ∷ commanded ys))
            supports_argv0
            fallback
          ≡ some argv)
        × HoldsBefore kept tail argv
  unfolding apply_inner_command_argv0_for_launcher replace_command
  apply_inner_command_argv0_for_launcher-keeps xs a kept ys supports fallback ha hk =
      by_split (split_at_separator (xs ++ (a ∷ kept ∷ commanded ys)))
        (split_at_separator-keeps xs a kept ys ha hk) supports
    where
      held :
          (before between rest pre : List String)
          → rest ≡ pre ++ ("--" ∷ tail)
          → Memᴰ kept before ⊎ Memᴰ kept pre
          → HoldsBefore kept tail (before ++ (between ++ rest))
      held before between rest pre p m = (
        before ++ (between ++ pre),
        ap (λ (l : List String). before ++ (between ++ l)) p
            ∙ ap (λ (l : List String). before ++ l) (sym (append_assoc between pre ("--" ∷ tail)))
            ∙ sym (append_assoc before (between ++ pre) ("--" ∷ tail)),
        elim m [
          | inl k ↦ mem-append_left kept before _ k
          | inr k ↦ mem-append_right kept before _ (mem-append_right kept between _ k)
        ],
      )

      by_split :
          (o : Option (List String × List String))
          → SplitKeeps kept tail o
          → (supports : Bool)
          → (argv : List String) × ((elim o [
            | none ↦ none
            | some (before, after) ↦
                if supports
                then some (before ++ ("--argv0" ∷ linux_sandbox_arg0 ∷ "--" ∷ after))
                else replace_command before fallback after
          ])
              ≡ some argv)
            × HoldsBefore kept tail argv
      by_split none s supports = absurd s
      by_split (some (before, [])) s supports = absurd s
      by_split (some (before, first ∷ after)) (pre, p, m) true =
          (_, refl, held before ("--argv0" ∷ linux_sandbox_arg0 ∷ "--" ∷ first ∷ []) after pre p m)
      by_split (some (before, first ∷ after)) (pre, p, m) false =
          (_, refl, held before ("--" ∷ fallback ∷ []) after pre p m)
