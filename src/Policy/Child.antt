-- ===== src/Policy/Child.antt =====
-- `metadata_child_of_writable_root` of policy.rs: the first entry whose protected metadata a target
-- lies in.
use mathlib.Core.List.{Memᴰ}
use mathlib.Core.Path.{subst}
use mathlib.Core.Option.{some-injective}
use rattler_sandbox.Prelude.{
  String, ◌≡◌, refl, sym, ap, ◌∙◌, inl, inr, true, none, some, List, [], ◌∷◌, ◌++◌, Bool-cases,
  ◌==◌, ==-eq, ==_refl, string_eq, contains, contains_of_mem, find, head?, some_of_bind,
}
use rattler_sandbox.Paths.Std.{
  PathBuf, Component, normal, root_dir, cur_dir, parent_dir, as_os_str, strip_prefix,
}
use rattler_sandbox.Paths.Prefix.{append_of_strip_prefix, strip_prefix-append}
use rattler_sandbox.Paths.Absolute.{AbsolutePathBuf, join}
use rattler_sandbox.Policy.Types.{FileSystemAccessMode, read, write, ResolvedFileSystemEntry}
use rattler_sandbox.Policy.Grants.{can_write}
use rattler_sandbox.Policy.Metadata.{
  protected_metadata_path_names, metadata_path_name, metadata_child_of_entry,
}

-- The entry may be written, and the target lies in protected metadata of this name directly in it.
pub record IsMetadata (target : PathBuf) (e : ResolvedFileSystemEntry) (name : String)
    : Type 0 where
  pub writable : e.access ≡ write
  pub protected : Memᴰ name protected_metadata_path_names
  pub rest : PathBuf
  pub inside : target ≡ e.path ++ (normal name ∷ rest)

pub write_of_can_write : (a : FileSystemAccessMode) → can_write a ≡ true → a ≡ write
write_of_can_write FileSystemAccessMode.none h = absurd (cc h)
write_of_can_write read h = absurd (cc h)
write_of_can_write write h = refl

some_of_find :
    (s name : String) (names : List String)
    → find (λ n. s == n) names ≡ some name
    → Memᴰ name names × (s ≡ name)
some_of_find s name [] h = absurd (cc h)
some_of_find s name (n ∷ names) h = elim (Bool-cases (s == n)) [
  | inl e ↦
      let same : n ≡ name = some-injective _ _ (rw e at h) in
      (Memᴰ.head (sym same), ==-eq s n e ∙ same)
  | inr e ↦ let (m, k) = some_of_find s name names (rw e at h) in (Memᴰ.tail m, k)
]

find_of_mem :
    (name : String) (names : List String)
    → Memᴰ name names
    → find (λ n. name == n) names ≡ some name
find_of_mem name [] m = elim m [ ]
find_of_mem name (n ∷ names) (Memᴰ.head e) =
    rw (ap (λ (x : String). name == x) (sym e) ∙ ==_refl name) (ap some (sym e))
find_of_mem name (n ∷ names) (Memᴰ.tail m) = elim (Bool-cases (name == n)) [
  | inl e ↦ rw e (ap some (sym (==-eq name n e)))
  | inr e ↦ rw e (find_of_mem name names m)
]

-- A component with a name of protected metadata is a name.
named :
    (c : Component) (name : String)
    → Memᴰ name protected_metadata_path_names
    → as_os_str c ≡ name
    → c ≡ normal name
unfolding string_eq
named c name m e = by_kind c e
  where
    listed : (s : String) → s ≡ name → contains s protected_metadata_path_names ≡ true
    listed s e =
        subst (λ (x : String). contains x protected_metadata_path_names ≡ true) (sym e)
          (contains_of_mem name protected_metadata_path_names m)

    by_kind : (c : Component) → as_os_str c ≡ name → c ≡ normal name
    by_kind (normal n) e = ap normal e
    by_kind root_dir e = absurd (cc (listed "/" e))
    by_kind cur_dir e = absurd (cc (listed "." e))
    by_kind parent_dir e = absurd (cc (listed ".." e))

cons_of_head :
    (path : PathBuf) (c : Component) → head? path ≡ some c → (rest : PathBuf) × (path ≡ c ∷ rest)
cons_of_head [] c h = absurd (cc h)
cons_of_head (d ∷ path) c h = (path, ap (λ (x : Component). x ∷ path) (some-injective _ _ h))

-- What an entry gives is protected metadata, and what gives nothing has none.
pub metadata_child_of_entry-IsMetadata :
    (t : PathBuf) (e : ResolvedFileSystemEntry) (metadata : AbsolutePathBuf) (name : String)
    → can_write e.access ≡ true
    → metadata_child_of_entry t e ≡ some (metadata, name)
    → IsMetadata t e name × (join e.path (normal name ∷ []) ≡ metadata)
unfolding metadata_child_of_entry metadata_path_name
metadata_child_of_entry-IsMetadata t e metadata name w h =
    let (relative, h1, k1) = some_of_bind (strip_prefix t e.path) _ (metadata, name) h in
    let (c, h2, k2) = some_of_bind (head? relative) _ (metadata, name) k1 in
    let (n, h3, k3) =
      some_of_bind (find (λ m. as_os_str c == m) protected_metadata_path_names) _ (metadata, name)
        k2 in
    let same = some-injective _ _ k3 in
    let (protected, called) = some_of_find (as_os_str c) n protected_metadata_path_names h3 in
    let (rest, cut) = cons_of_head relative c h2 in
    let name_same : n ≡ name = ap (λ (q : AbsolutePathBuf × String). q.1) same in
    (
      record {
        writable = write_of_can_write e.access w;
        protected =
            subst (λ (x : String). Memᴰ x protected_metadata_path_names) name_same protected;
        rest = rest;
        inside =
            append_of_strip_prefix t e.path relative h1
            ∙ ap (λ (q : PathBuf). e.path ++ q) cut
            ∙ ap (λ (x : Component). e.path ++ (x ∷ rest))
                (named c n protected called ∙ ap normal name_same);
      },
      ap (λ (x : String). join e.path (normal x ∷ [])) (sym name_same)
          ∙ ap (λ (q : AbsolutePathBuf × String). q.0) same,
    )

pub metadata_child_of_entry-none :
    (t : PathBuf) (e : ResolvedFileSystemEntry) (name : String)
    → metadata_child_of_entry t e ≡ none
    → ¬ IsMetadata t e name
unfolding metadata_child_of_entry metadata_path_name
metadata_child_of_entry-none t e name h m = absurd (
    cc (
      rw
        (
          m.inside,
          strip_prefix-append e.path (normal name ∷ m.rest),
          find_of_mem name protected_metadata_path_names m.protected,
        )
        at h))
