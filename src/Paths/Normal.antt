-- ===== src/Paths/Normal.antt =====
-- Absolute and normalized: what an `AbsolutePathBuf` guarantees.
use mathlib.Core.List.{foldl, append_assoc, append-nil}
use rattler_sandbox.Prelude.{
  suc, ◌≡◌, refl, ap, ◌∙◌, Bool, true, false, some, [], ◌∷◌, ◌++◌, if◌then◌else◌, arith, length,
}
use rattler_sandbox.Paths.Std.{
  Component, root_dir, cur_dir, parent_dir, normal, PathBuf, is_absolute, push, pop, is_empty_path,
  parent,
}
use rattler_sandbox.Paths.Absolute.{normalize_step, normalize_path}

abbrev pub all_normal : PathBuf → Bool
all_normal [] = true
all_normal (normal _ ∷ path) = all_normal path
all_normal (_ ∷ path) = false

-- The root followed by names.
abbrev pub is_normalized : PathBuf → Bool
is_normalized (root_dir ∷ path) = all_normal path
is_normalized _ = false

all_normal-append :
    (p q : PathBuf) → all_normal p ≡ true → all_normal q ≡ true → all_normal (p ++ q) ≡ true
all_normal-append [] q h k = k
all_normal-append (normal _ ∷ p) q h k = all_normal-append p q h k
all_normal-append (root_dir ∷ p) q h k = h
all_normal-append (cur_dir ∷ p) q h k = h
all_normal-append (parent_dir ∷ p) q h k = h

pub parent_of_names :
    (c : Component) (p : PathBuf)
    → all_normal (c ∷ p) ≡ true
    → (q : PathBuf) × (parent (c ∷ p) ≡ some q) × (all_normal q ≡ true) × (length q ≡ length p)
unfolding parent
parent_of_names root_dir p h = absurd (ground arith)
parent_of_names cur_dir p h = absurd (ground arith)
parent_of_names parent_dir p h = absurd (ground arith)
parent_of_names (normal a) [] h = ([], refl, refl, refl)
parent_of_names (normal a) (d ∷ p) h =
    let (q, e, k, l) = parent_of_names d p h in (normal a ∷ q, rw e refl, k, ap suc l)

pop-normalized : (p : PathBuf) → is_normalized p ≡ true → is_normalized (pop p) ≡ true
unfolding pop parent
pop-normalized [] h = absurd (ground arith)
pop-normalized (root_dir ∷ []) h = refl
pop-normalized (root_dir ∷ d ∷ p) h =
    let (q, e, k, l) = parent_of_names d p h in rw (e, parent, pop) k
pop-normalized (cur_dir ∷ p) h = absurd (ground arith)
pop-normalized (parent_dir ∷ p) h = absurd (ground arith)
pop-normalized (normal _ ∷ p) h = absurd (ground arith)

pub push-name-normalized :
    (p q : PathBuf) → is_normalized p ≡ true → all_normal q ≡ true → is_normalized (push p q) ≡ true
unfolding push
push-name-normalized [] q h k = absurd (ground arith)
push-name-normalized (root_dir ∷ p) [] h k = all_normal-append p [] h k
push-name-normalized (root_dir ∷ p) (normal a ∷ q) h k = all_normal-append p (normal a ∷ q) h k
push-name-normalized (root_dir ∷ p) (_ ∷ q) h k = absurd (ground arith)
push-name-normalized (cur_dir ∷ p) q h k = absurd (ground arith)
push-name-normalized (parent_dir ∷ p) q h k = absurd (ground arith)
push-name-normalized (normal _ ∷ p) q h k = absurd (ground arith)

-- One component never breaks the form.
normalize_step-normalized :
    (p : PathBuf) (c : Component)
    → is_normalized p ≡ true
    → is_normalized (normalize_step p c) ≡ true
unfolding normalize_step push
normalize_step-normalized p cur_dir h = h
normalize_step-normalized p parent_dir h = pop-normalized p h
normalize_step-normalized [] root_dir h = refl
normalize_step-normalized (_ ∷ _) root_dir h = refl
normalize_step-normalized p (normal a) h = push-name-normalized p (normal a ∷ []) h refl

fold-normalized :
    (p path : PathBuf) → is_normalized p ≡ true → is_normalized (foldl normalize_step p path) ≡ true
fold-normalized p [] h = h
fold-normalized p (c ∷ path) h =
    fold-normalized (normalize_step p c) path (normalize_step-normalized p c h)

-- Names are appended one by one.
fold-names :
    (c : Component) (p names : PathBuf)
    → all_normal names ≡ true
    → foldl normalize_step (c ∷ p) names ≡ c ∷ (p ++ names)
unfolding normalize_step push
fold-names c p [] h = rw append-nil
fold-names c p (normal a ∷ names) h = fold-names c (p ++ normal a ∷ []) names h ∙ rw append_assoc
fold-names c p (root_dir ∷ names) h = absurd (ground arith)
fold-names c p (cur_dir ∷ names) h = absurd (ground arith)
fold-names c p (parent_dir ∷ names) h = absurd (ground arith)

nonempty_of_normalized :
    (p : PathBuf) → is_normalized p ≡ true → (if is_empty_path p then cur_dir ∷ [] else p) ≡ p
nonempty_of_normalized [] h = absurd (ground arith)
nonempty_of_normalized (_ ∷ p) h = refl

pub normalize_path-normalized :
    (path : PathBuf) → is_absolute path ≡ true → is_normalized (normalize_path path) ≡ true
unfolding normalize_path normalize_step push
normalize_path-normalized [] h = absurd (ground arith)
normalize_path-normalized (root_dir ∷ path) h =
    let k = fold-normalized (root_dir ∷ []) path refl in
    rw (nonempty_of_normalized (foldl normalize_step (root_dir ∷ []) path) k) k
normalize_path-normalized (cur_dir ∷ path) h = absurd (ground arith)
normalize_path-normalized (parent_dir ∷ path) h = absurd (ground arith)
normalize_path-normalized (normal _ ∷ path) h = absurd (ground arith)

pub normalize_path_fixed : (path : PathBuf) → is_normalized path ≡ true → normalize_path path ≡ path
unfolding normalize_path normalize_step push
normalize_path_fixed [] h = absurd (ground arith)
normalize_path_fixed (root_dir ∷ path) h = rw (fold-names root_dir [] path h) refl
normalize_path_fixed (cur_dir ∷ path) h = absurd (ground arith)
normalize_path_fixed (parent_dir ∷ path) h = absurd (ground arith)
normalize_path_fixed (normal _ ∷ path) h = absurd (ground arith)

pub absolute_of_normalized : (path : PathBuf) → is_normalized path ≡ true → is_absolute path ≡ true
absolute_of_normalized [] h = absurd (ground arith)
absolute_of_normalized (root_dir ∷ path) h = refl
absolute_of_normalized (_ ∷ path) h = absurd (ground arith)
