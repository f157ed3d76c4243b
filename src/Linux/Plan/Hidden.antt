-- ===== src/Linux/Plan/Hidden.antt =====
-- What `create_filesystem_args` of bwrap_runner.rs masks.
use mathlib.Core.List.{Memᴰ}
use rattler_sandbox.Prelude.{ℕ, ◌≡◌, Option, List}
use rattler_sandbox.Paths.Std.{PathBuf}
use rattler_sandbox.Policy.Types.{WritableRoot, FileSystemSandboxPolicy}
use rattler_sandbox.Linux.Host.{Host}
use rattler_sandbox.Linux.Types.{BwrapArgs, ok}
use rattler_sandbox.Linux.Returns.{Returns}
use rattler_sandbox.Linux.Plan.Layers.{IsDeniedBy}
use rattler_sandbox.Linux.Plan.{
  existing_writable_roots, all_unreadable_roots, base_args, missing_auto_metadata_subpaths,
}

module _ (h : Host) where
  -- What `create_filesystem_args` returns for the policy: of its denied paths, the matches of its
  -- denied patterns among them, those below a writable root and those below no writable path have
  -- their masks.
  pub record MasksDenied (policy : FileSystemSandboxPolicy) (cwd : PathBuf) (depth : Option ℕ)
      (b : BwrapArgs) : Type 0 where
    pub roots : List WritableRoot
    pub roots_lem : existing_writable_roots h policy cwd ≡ ok roots
    pub denied : List PathBuf
    pub denied_lem : all_unreadable_roots h policy cwd depth ≡ ok denied
    pub masks :
        (p : PathBuf)
        → Memᴰ p denied
        → IsDeniedBy h denied
            (missing_auto_metadata_subpaths h policy cwd)
            roots
            (base_args h policy cwd roots)
            p
            b
