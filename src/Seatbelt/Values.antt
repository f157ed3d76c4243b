-- ===== src/Seatbelt/Values.antt =====
-- seatbelt.rs: every parameter of a rule has the value that its root or excluded path has.
use rattler_sandbox.Prelude.{
  String, ℕ, ◌+◌, ◌≤◌, false, Option, some, List, [], ◌∷◌, ◌++◌, map, ◌≡◌, inl, inr, refl, sym, ap,
  ◌∙◌, if_intro, ◌==◌, string_eq, ==-eq, ==_refl, arith, mem_of_append,
}
use mathlib.Core.List.{Memᴰ}
use rattler_sandbox.World.{World}
use rattler_sandbox.Paths.Std.{PathBuf, path_eq}
use rattler_sandbox.Paths.Absolute.{AbsolutePathBuf}
use rattler_sandbox.Seatbelt.Texts.{Profile}
use rattler_sandbox.Seatbelt.Access.{
  SeatbeltAccessRoot, Params, sandbox_path, excluded_params, root_param, access_params,
}
use rattler_sandbox.Seatbelt.Filters.{param_value, same}
use rattler_sandbox.Seatbelt.Rules.{map-append}
use rattler_sandbox.Seatbelt.Keys.{Key, root_key, excluded_key, key_text, key_text-injective}

abbrev pub Entry : Type 0
Entry = Key × PathBuf

abbrev index_of : Key → ℕ
index_of (root_key i) = i
index_of (excluded_key i j) = i

-- A key has one value.
abbrev Single : List Entry → Type 0
Single xs = (k : Key) (v v' : PathBuf) → Memᴰ (k, v) xs → Memᴰ (k, v') xs → v ≡ v'

value_of_head : (k l : Key) (v u : PathBuf) → ◌≡◌ {A = Entry} (k, v) (l, u) → (k ≡ l) × (v ≡ u)
value_of_head k l v u e = (ap (λ (x : Entry). x.0) e, ap (λ (x : Entry). x.1) e)

Single-cons :
    (k : Key) (v : PathBuf) (xs : List Entry)
    → ((l : Key) (u : PathBuf) → Memᴰ (l, u) xs → l ≡ k → ⊥)
    → Single xs
    → Single ((k, v) ∷ xs)
Single-cons k v xs fresh s l u u' (Memᴰ.head e) (Memᴰ.head f) =
    (value_of_head l k u v e).1 ∙ sym (value_of_head l k u' v f).1
Single-cons k v xs fresh s l u u' (Memᴰ.head e) (Memᴰ.tail n) =
    absurd (fresh l u' n (value_of_head l k u v e).0)
Single-cons k v xs fresh s l u u' (Memᴰ.tail m) (Memᴰ.head f) =
    absurd (fresh l u m (value_of_head l k u' v f).0)
Single-cons k v xs fresh s l u u' (Memᴰ.tail m) (Memᴰ.tail n) = s l u u' m n

Single-append :
    (xs ys : List Entry)
    → ((k : Key) (v u : PathBuf) → Memᴰ (k, v) xs → Memᴰ (k, u) ys → ⊥)
    → Single xs
    → Single ys
    → Single (xs ++ ys)
Single-append xs ys apart s t k v u m n = elim (mem_of_append (k, v) xs ys m) [
  | inl a ↦ elim (mem_of_append (k, u) xs ys n) [
    | inl b ↦ s k v u a b
    | inr b ↦ absurd (apart k v u a b)
  ]
  | inr a ↦ elim (mem_of_append (k, u) xs ys n) [
    | inl b ↦ absurd (apart k u v b a)
    | inr b ↦ t k v u a b
  ]
]

abbrev named : String → Entry → String × PathBuf
named prefix (k, v) = (key_text prefix k, v)

param_value-Single :
    (prefix : String) (k : Key) (v : PathBuf) (xs : List Entry)
    → Single xs
    → Memᴰ (k, v) xs
    → param_value (key_text prefix k) (map (named prefix) xs) ≡ some v
unfolding param_value
param_value-Single prefix k v [] s m = elim m [ ]
param_value-Single prefix k v ((l, u) ∷ xs) s m =
    if_intro (λ (o : Option PathBuf). o ≡ some v) (key_text prefix l == key_text prefix k)
      (λ e. ap some (s k u v (Memᴰ.head (cc (key_text-injective prefix l k (==-eq _ _ e)))) m))
      (λ differ.
        param_value-Single prefix k v xs (λ a b c p q. s a b c (Memᴰ.tail p) (Memᴰ.tail q))
          (later differ m))
  where
    later :
        (key_text prefix l == key_text prefix k) ≡ false
        → Memᴰ (k, v) ((l, u) ∷ xs)
        → Memᴰ (k, v) xs
    later differ (Memᴰ.head e) = absurd (
        cc (
          differ,
          ap (λ (x : Key). key_text prefix l == key_text prefix x) (value_of_head k l v u e).0
              ∙ ==_refl (key_text prefix l),
        ))
    later differ (Memᴰ.tail n) = n

module _ (w : World) (profile : Profile) where
  -- The parameters by their keys.
  unfoldable pub keyed_excluded : ℕ → ℕ → List AbsolutePathBuf → List Entry
  keyed_excluded i j [] = []
  keyed_excluded i j (e ∷ rest) =
      (excluded_key i j, sandbox_path w profile e) ∷ keyed_excluded i (j + 1) rest

  unfoldable pub keyed : ℕ → List SeatbeltAccessRoot → List Entry
  keyed i [] = []
  keyed i (r ∷ roots) =
      (root_key i, sandbox_path w profile r.root)
      ∷ (keyed_excluded i 0 r.excluded_subpaths ++ keyed (i + 1) roots)

  mem_of_keyed_excluded :
      (i j : ℕ) (es : List AbsolutePathBuf) (k : Key) (v : PathBuf)
      → Memᴰ (k, v) (keyed_excluded i j es)
      → (m : ℕ) × (j ≤ m) × (k ≡ excluded_key i m)
  unfolding keyed_excluded
  mem_of_keyed_excluded i j [] k v m = elim m [ ]
  mem_of_keyed_excluded i j (e ∷ rest) k v (Memᴰ.head h) =
      (j, omega arith, (value_of_head k (excluded_key i j) v _ h).0)
  mem_of_keyed_excluded i j (e ∷ rest) k v (Memᴰ.tail n) =
      let (m, l, q) = mem_of_keyed_excluded i (j + 1) rest k v n in (m, omega arith, q)

  keyed_excluded-Single : (i j : ℕ) (es : List AbsolutePathBuf) → Single (keyed_excluded i j es)
  unfolding keyed_excluded
  keyed_excluded-Single i j [] = λ k v u m n. elim m [ ]
  keyed_excluded-Single i j (e ∷ rest) =
      Single-cons (excluded_key i j) (sandbox_path w profile e) (keyed_excluded i (j + 1) rest)
        (λ l u m same.
          let (n, above, q) = mem_of_keyed_excluded i (j + 1) rest l u m in
          excluded_ne n above (sym q ∙ same))
        (keyed_excluded-Single i (j + 1) rest)
    where
      excluded_ne : (n : ℕ) → j + 1 ≤ n → excluded_key i n ≡ excluded_key i j → ⊥
      excluded_ne n above same = let e = ap second same in omega arith
        where
          second : Key → ℕ
          second (root_key a) = 0
          second (excluded_key a b) = b

  index_of-keyed :
      (i : ℕ) (roots : List SeatbeltAccessRoot) (k : Key) (v : PathBuf)
      → Memᴰ (k, v) (keyed i roots)
      → i ≤ index_of k
  unfolding keyed
  index_of-keyed i [] k v m = elim m [ ]
  index_of-keyed i (r ∷ roots) k v (Memᴰ.head h) =
      let e = ap index_of (value_of_head k (root_key i) v _ h).0 in omega arith
  index_of-keyed i (r ∷ roots) k v (Memᴰ.tail n) =
      elim (mem_of_append (k, v) (keyed_excluded i 0 r.excluded_subpaths) (keyed (i + 1) roots) n) [
        | inl a ↦
            let (m, _, q) = mem_of_keyed_excluded i 0 r.excluded_subpaths k v a in
            let e = ap index_of q in omega arith
        | inr b ↦ let l = index_of-keyed (i + 1) roots k v b in omega arith
      ]

  keyed-Single : (i : ℕ) (roots : List SeatbeltAccessRoot) → Single (keyed i roots)
  unfolding keyed
  keyed-Single i [] = λ k v u m n. elim m [ ]
  keyed-Single i (r ∷ roots) = Single-cons (root_key i) (sandbox_path w profile r.root) _ fresh (
      Single-append (keyed_excluded i 0 r.excluded_subpaths) (keyed (i + 1) roots) apart
        (keyed_excluded-Single i 0 r.excluded_subpaths) (keyed-Single (i + 1) roots))
    where
      fresh :
          (l : Key) (u : PathBuf)
          → Memᴰ (l, u) (keyed_excluded i 0 r.excluded_subpaths ++ keyed (i + 1) roots)
          → l ≡ root_key i
          → ⊥
      fresh l u m same =
          elim (mem_of_append (l, u) (keyed_excluded i 0 r.excluded_subpaths) (keyed (i + 1) roots)
            m) [
              | inl a ↦
                  let (n, _, q) = mem_of_keyed_excluded i 0 r.excluded_subpaths l u a in
                  cc (sym q ∙ same)
              | inr b ↦
                  let above = index_of-keyed (i + 1) roots l u b in
                  let e = ap index_of same in omega arith
            ]

      apart :
          (k : Key) (v u : PathBuf)
          → Memᴰ (k, v) (keyed_excluded i 0 r.excluded_subpaths)
          → Memᴰ (k, u) (keyed (i + 1) roots)
          → ⊥
      apart k v u a b =
          let (n, _, q) = mem_of_keyed_excluded i 0 r.excluded_subpaths k v a in
          let e = ap index_of q in let above = index_of-keyed (i + 1) roots k u b in omega arith

  excluded_params-keyed :
      (prefix : String) (i j : ℕ) (es : List AbsolutePathBuf)
      → excluded_params w profile prefix i j es ≡ map (named prefix) (keyed_excluded i j es)
  unfolding excluded_params keyed_excluded
  excluded_params-keyed prefix i j [] = refl
  excluded_params-keyed prefix i j (e ∷ rest) =
      rw (excluded_params-keyed prefix i (j + 1) rest) refl

  access_params-keyed :
      (prefix : String) (i : ℕ) (roots : List SeatbeltAccessRoot)
      → access_params w profile prefix i roots ≡ map (named prefix) (keyed i roots)
  unfolding access_params keyed
  access_params-keyed prefix i [] = refl
  access_params-keyed prefix i (r ∷ roots) =
      rw (excluded_params-keyed prefix i 0 r.excluded_subpaths) (
        rw (access_params-keyed prefix (i + 1) roots) (
          ap (λ (l : Params). (root_param prefix i, sandbox_path w profile r.root) ∷ l)
            (sym (
              map-append (named prefix) (keyed_excluded i 0 r.excluded_subpaths)
                (keyed (i + 1) roots)))))

  -- Every key has its own value among the parameters.
  pub param_value-access_params :
      (prefix : String) (i : ℕ) (roots : List SeatbeltAccessRoot) (k : Key) (v : PathBuf)
      → Memᴰ (k, v) (keyed i roots)
      → param_value (key_text prefix k) (access_params w profile prefix i roots) ≡ some v
  param_value-access_params prefix i roots k v m =
      ap (param_value (key_text prefix k)) (access_params-keyed prefix i roots)
      ∙ param_value-Single prefix k v (keyed i roots) (keyed-Single i roots) m
