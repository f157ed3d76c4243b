-- ===== src/Linux/Host.antt =====
-- What the Linux engine asks of the operating system beyond `World`: metadata with its identity,
-- directory listings, the descriptor of `/dev/null`, the `rg` process and the `globset` crate.
use rattler_sandbox.Prelude.{String, Bool, true, false, Option, List, ℕ}
use rattler_sandbox.World.{World}
use rattler_sandbox.Paths.Std.{PathBuf}

-- `std::fs::FileType`
pub data FileType : Type 0 where
  file directory symlink special_file : FileType

abbrev pub is_file_type : FileType → Bool
is_file_type file = true
is_file_type _ = false

abbrev pub is_directory_type : FileType → Bool
is_directory_type directory = true
is_directory_type _ = false

abbrev pub is_symlink_type : FileType → Bool
is_symlink_type symlink = true
is_symlink_type _ = false

-- `std::fs::Metadata`: `file_type`, `len`, `dev` and `ino`
pub record Metadata : Type 0 where
  pub file_type : FileType
  pub len : ℕ
  pub dev : ℕ
  pub ino : ℕ

-- The result of a call of `std::fs`, where the code looks at the kind of its error.
pub data IoResult (A : Type 0) : Type 0 where
  found : A → IoResult A
  not_found other_error : IoResult A

-- `std::fs::DirEntry`: its path, and `file_type()` or its error
pub record DirEntry : Type 0 where
  pub path : PathBuf
  pub file_type : Option FileType

-- `Command::output` of `rg`: not installed, another error, or its result. The output is text.
pub data RipgrepOutput : Type 0 where
  not_installed could_not_run : RipgrepOutput
  finished : Option ℕ → String → String → RipgrepOutput

pub record Host : Type 0 where
  pub world : World
  -- `std::fs::symlink_metadata`
  pub symlink_metadata : PathBuf → IoResult Metadata
  -- `std::fs::read_dir`, and each entry or its error
  pub read_dir : PathBuf → Option (List (Option DirEntry))
  -- `File::open("/dev/null")`: the text of the descriptor
  pub open_dev_null : Option String
  -- `Command::new("rg")` with these arguments: the exit code, the output and the error output
  pub ripgrep : List String → RipgrepOutput
  -- `GlobBuilder` with `literal_separator` and `allow_unclosed_class`, `GlobSetBuilder::build`, and
  -- `is_match` of one glob
  pub build_glob : String → Option (PathBuf → Bool)
  pub build_glob_set : List String → Bool
  -- how deep the directories lie at most, without going through symbolic links
  pub tree_depth : ℕ
  -- `to_string` of a number
  pub number_text : ℕ → String
