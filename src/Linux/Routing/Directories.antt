-- ===== src/Linux/Routing/Directories.antt =====
-- proxy_routing.rs: the directories that hold the sockets of the bridges, and the removal of those
-- that a process has left.
use rattler_sandbox.Prelude.{
  String, ◌<>◌, ℕ, zero, suc, ◌+◌, ◌-◌, ◌^◌, Bool, true, false, not, Option, none, some, List,
  filter_map, if◌then◌else◌, eqb, leb, ◌>>=◌, map_option, number_text, parse_number, strip_text,
  split_once,
}
use rattler_sandbox.Paths.Std.{PathBuf, push, components, file_name, path_text}
use rattler_sandbox.Linux.Host.{DirEntry, is_directory_type}

-- The kinds of `io::Error` that the code makes, and those of the operating system.
pub data RouteError : Type 0 where
  invalid_input not_found already_exists other : String → RouteError
  os_error : RouteError

pub data Fallible {ℓ} (A : Type ℓ) : Type ℓ where
  ok : A → Fallible A
  err : RouteError → Fallible A

abbrev pub and_then {ℓ κ} : {A : Type ℓ} {B : Type κ} → Fallible A → (A → Fallible B) → Fallible B
and_then (ok a) f = f a
and_then (err e) f = err e

abbrev pub or_error {ℓ} : {A : Type ℓ} → RouteError → Option A → Fallible A
or_error e none = err e
or_error e (some a) = ok a

pub data MkdirResult : Type 0 where
  made exists refused : MkdirResult

pub data Removal : Type 0 where
  removed absent failed : Removal

-- What the directories take from the process and the file system.
pub record DirectoryHost : Type 0 where
  -- `std::process::id`, `CODEX_HOME`, `std::env::temp_dir`
  pub id : ℕ
  pub codex_home : Option String
  pub temp_dir : PathBuf
  -- `DirBuilder::create` with the mode 0o700, recursive or not, and `set_permissions` to it
  pub create_dir : PathBuf → MkdirResult
  pub create_dir_all : PathBuf → MkdirResult
  pub set_permissions : PathBuf → Bool
  pub read_dir : PathBuf → Option (List (Option DirEntry))
  -- `kill(pid, 0)`, which does not fail with `ESRCH`
  pub is_pid_alive_raw : ℕ → Bool

abbrev pub proxy_socket_dir_prefix : String
proxy_socket_dir_prefix = "codex-linux-sandbox-proxy-"

unfoldable pub socket_dir_name : ℕ → ℕ → String
socket_dir_name pid attempt =
    proxy_socket_dir_prefix <> (number_text pid <> ("-" <> number_text attempt))

unfoldable pub parse_proxy_socket_dir_owner_pid : String → Option ℕ
parse_proxy_socket_dir_owner_pid file_name =
    strip_text proxy_socket_dir_prefix file_name >>= λ suffix.
    split_once b'-' suffix >>= λ (pid_raw, rest).
    parse_number (2 ^ 32 - 1) pid_raw >>= λ pid. if eqb pid 0 then none else some pid

-- `cleanup_proxy_socket_dir`, by what each of its attempts to remove the directory gives: twenty,
-- and the last one, whose error is its own.
unfoldable pub removal_succeeds : Removal → Bool
removal_succeeds removed = true
removal_succeeds absent = true
removal_succeeds failed = false

unfoldable pub cleanup_attempts : ℕ → (ℕ → Removal) → ℕ → Bool
cleanup_attempts zero remove_dir_all attempt = removal_succeeds (remove_dir_all attempt)
cleanup_attempts (suc left) remove_dir_all attempt =
    let later = cleanup_attempts left remove_dir_all (attempt + 1) in
    if removal_succeeds (remove_dir_all attempt) then true else later

unfoldable pub cleanup_proxy_socket_dir : (ℕ → Removal) → Bool
cleanup_proxy_socket_dir remove_dir_all = cleanup_attempts 20 remove_dir_all 0

module _ (h : DirectoryHost) where
  -- A `pid_t` has 31 bits and a sign.
  unfoldable pub is_pid_alive : ℕ → Bool
  is_pid_alive pid = if leb pid (2 ^ 31 - 1) then h.is_pid_alive_raw pid else false

  unfoldable pub stale_dir : Option DirEntry → Option PathBuf
  stale_dir none = none
  stale_dir (some entry) = entry.file_type >>= λ file_type.
      if not (is_directory_type file_type)
      then none
      else (file_name entry.path >>= λ name. parse_proxy_socket_dir_owner_pid name >>= λ owner_pid.
          if is_pid_alive owner_pid then none else some entry.path)

  -- The directories that `cleanup_stale_proxy_socket_dirs_in` removes; `none` is that the directory
  -- cannot be read.
  unfoldable pub cleanup_stale_proxy_socket_dirs_in : PathBuf → Option (List PathBuf)
  cleanup_stale_proxy_socket_dirs_in temp_dir =
      map_option (filter_map stale_dir) (h.read_dir temp_dir)

  unfoldable pub ensure_private_proxy_socket_parent_dir : PathBuf → Bool
  ensure_private_proxy_socket_parent_dir path = elim (h.create_dir_all path) [
    | made ↦ h.set_permissions path
    | exists ↦ h.set_permissions path
    | refused ↦ false
  ]

  unfoldable pub proxy_socket_parent_dir : PathBuf
  proxy_socket_parent_dir = elim h.codex_home [
    | none ↦ h.temp_dir
    | some codex_home ↦
        let candidate = push (components codex_home) (components "tmp") in
        if ensure_private_proxy_socket_parent_dir candidate then candidate else h.temp_dir
  ]

  -- The loop of `create_proxy_socket_dir`, by the attempts that are left.
  unfoldable pub create_attempts : PathBuf → ℕ → ℕ → Fallible PathBuf
  create_attempts temp_dir zero attempt =
      err
        (already_exists ("failed to allocate proxy routing temp dir under " <> path_text temp_dir))
  create_attempts temp_dir (suc left) attempt =
      let candidate = push temp_dir (components (socket_dir_name h.id attempt)) in
      elim (h.create_dir candidate) [
        | made ↦ ok candidate
        | exists ↦ create_attempts temp_dir left (attempt + 1)
        | refused ↦ err os_error
      ]

  unfoldable pub create_proxy_socket_dir : Fallible PathBuf
  create_proxy_socket_dir = create_attempts proxy_socket_parent_dir 128 0
