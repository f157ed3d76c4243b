-- ===== src/World.antt =====
-- What the crate asks of the process and of the file system: `std::env`, `std::fs` and the
-- `dunce` crate. It is a parameter of the development, and every answer is allowed.
use rattler_sandbox.Prelude.{String, Bool, Option}
use rattler_sandbox.Paths.Std.{PathBuf}

pub record World : Type 0 where
  -- `std::env::current_dir()`
  pub current_dir : Option PathBuf
  -- `std::env::var_os("TMPDIR")`
  pub tmpdir : Option PathBuf
  -- `Path::is_dir`, `Path::is_file`, `Path::exists`
  pub is_dir : PathBuf → Bool
  pub is_file : PathBuf → Bool
  pub exists : PathBuf → Bool
  -- `std::fs::symlink_metadata(path)`, and whether what it describes is a symbolic link
  pub symlink_metadata : PathBuf → Option Bool
  -- `Path::canonicalize` and `dunce::canonicalize`
  pub canonicalize : PathBuf → Option PathBuf
  pub dunce_canonicalize : PathBuf → Option PathBuf
  -- `std::fs::read_to_string`
  pub read_to_string : PathBuf → Option String
