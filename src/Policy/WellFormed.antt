-- ===== src/Policy/WellFormed.antt =====
-- What the types of the source keep and the model writes out: the paths of entries are
-- `AbsolutePathBuf`s, and a working directory has its absolute form.
use rattler_sandbox.Prelude.{◌≡◌, refl, Bool, true, false, some, [], ◌∷◌, arith, all, is_some}
use rattler_sandbox.World.{World}
use rattler_sandbox.Paths.Std.{PathBuf, root_dir, starts_with, parent}
use rattler_sandbox.Paths.Absolute.{AbsolutePathBuf}
use rattler_sandbox.Paths.Normal.{is_normalized, parent_of_names}
use rattler_sandbox.Paths.Guarantees.{from_absolute_path_fixed, last-ancestors}
use rattler_sandbox.Policy.Types.{FileSystemPath, path, FileSystemSandboxPolicy}
use rattler_sandbox.Policy.Resolve.{absolute_root_path_for_cwd}

abbrev pub is_normal_path : FileSystemPath → Bool
is_normal_path (path p) = is_normalized p
is_normal_path _ = true

abbrev pub IsWellFormed : FileSystemSandboxPolicy → Type 0
IsWellFormed policy = all (λ entry. is_normal_path entry.path) policy.entries ≡ true

-- The root is a prefix of every absolute, normalized path.
pub starts_with-root : (p : PathBuf) → is_normalized p ≡ true → starts_with p (root_dir ∷ []) ≡ true
unfolding starts_with
starts_with-root [] h = absurd (ground arith)
starts_with-root (root_dir ∷ p) h = ground arith
starts_with-root (_ ∷ p) h = absurd (ground arith)

-- Only the root has no parent.
pub root_of_no_parent :
    (p : PathBuf) → is_normalized p ≡ true → is_some (parent p) ≡ false → p ≡ root_dir ∷ []
unfolding parent
root_of_no_parent [] h k = absurd (ground arith)
root_of_no_parent (root_dir ∷ []) h k = refl
root_of_no_parent (root_dir ∷ c ∷ p) h k =
    let (q, e, n, l) = parent_of_names c p h in absurd (ground arith)
root_of_no_parent (_ ∷ p) h k = absurd (ground arith)

-- The root of an absolute, normalized directory is `/`, and taking it never panics.
pub absolute_root_path_for_cwd_lem :
    (w : World) (c : AbsolutePathBuf)
    → is_normalized c ≡ true
    → absolute_root_path_for_cwd w c ≡ some (root_dir ∷ [])
unfolding absolute_root_path_for_cwd
absolute_root_path_for_cwd_lem w c h =
    rw (last-ancestors c h) (from_absolute_path_fixed w (root_dir ∷ []) refl)
