-- ===== src/Linux/Routing/Owner.antt =====
-- proxy_routing.rs: the name of a socket directory carries the process that owns it, and the removal
-- of stale directories goes by it.
use rattler_sandbox.Prelude.{
  String, ◌<>◌, ℕ, ◌-◌, ◌^◌, ◌≤◌, ◌<◌, false, not, Option, none, some, List, ◌↔◌, ◌≡◌, refl, sym,
  ap, ◌∙◌, if◌then◌else◌, if_intro, eqb, ◌>>=◌, map_option, arith, number_text, parse_number,
  number_text_digits, parse_number-number_text, split_once, strip_text-append, split_once-digits,
  mem_of_filter_map, filter_map, mem-filter_map, some_of_bind, some_of_else,
}
use Prim.Native.String.append.{nil, cons}
use mathlib.Core.List.{Memᴰ}
use mathlib.Core.Option.{some-injective}
use rattler_sandbox.Paths.Std.{PathBuf, file_name}
use rattler_sandbox.Linux.Host.{DirEntry, is_directory_type, directory}
use rattler_sandbox.Linux.Routing.Directories.{
  DirectoryHost, proxy_socket_dir_prefix, socket_dir_name, parse_proxy_socket_dir_owner_pid,
  is_pid_alive, stale_dir, cleanup_stale_proxy_socket_dirs_in,
}

abbrev nonzero_pid : Option ℕ → Option ℕ
nonzero_pid o = o >>= λ pid. if eqb pid 0 then none else some pid

abbrev pid_before_dash : Option (String × String) → Option ℕ
pid_before_dash o = o >>= λ (pid_raw, rest). nonzero_pid (parse_number (2 ^ 32 - 1) pid_raw)

-- The process that made a socket directory, whose number is not zero and fits 32 bits, is read back
-- from the name of the directory.
pub parse_proxy_socket_dir_owner_pid-socket_dir_name :
    (pid attempt : ℕ)
    → 0 < pid
    → pid ≤ 2 ^ 32 - 1
    → parse_proxy_socket_dir_owner_pid (socket_dir_name pid attempt) ≡ some pid
unfolding parse_proxy_socket_dir_owner_pid socket_dir_name
parse_proxy_socket_dir_owner_pid-socket_dir_name pid attempt h k =
    ap (λ (o : Option String). o >>= λ suffix. pid_before_dash (split_once b'-' suffix))
      (strip_text-append proxy_socket_dir_prefix _)
    ∙ ap pid_before_dash (
        ap (λ (s : String). split_once b'-' (number_text pid <> s))
          (cons "-" "" (number_text attempt) ∙ ap (String.◌∷◌ "-") (nil (number_text attempt)))
        ∙ split_once-digits "-" (number_text pid) (number_text attempt) refl
            (number_text_digits pid))
    ∙ ap nonzero_pid (parse_number-number_text (2 ^ 32 - 1) pid k)
    ∙ if_intro (λ (o : Option ℕ). o ≡ some pid) (eqb pid 0)
        (λ zero_pid. absurd (ground (arith, zero_pid))) (λ _. refl)

module _ (h : DirectoryHost) where
  stale_dir-owner :
      (o : Option DirEntry) (path : PathBuf) (pid attempt : ℕ)
      → stale_dir h o ≡ some path
      → file_name path ≡ some (socket_dir_name pid attempt)
      → 0 < pid
      → pid ≤ 2 ^ 32 - 1
      → is_pid_alive h pid ≡ false
  unfolding stale_dir
  stale_dir-owner none path pid attempt e n g k = absurd (cc e)
  stale_dir-owner (some entry) path pid attempt e n g k =
      let (kind, _, e1) = some_of_bind entry.file_type _ path e in
      let (_, e2) = some_of_else (not (is_directory_type kind)) _ path e1 in
      let (name, named, e3) = some_of_bind (file_name entry.path) _ path e2 in
      let (owner, parsed, e4) = some_of_bind (parse_proxy_socket_dir_owner_pid name) _ path e3 in
      let (dead, e5) = some_of_else (is_pid_alive h owner) _ path e4 in
      let same_path : entry.path ≡ path = some-injective _ _ e5 in
      let same_owner : owner ≡ pid = some-injective _ _ (
        sym parsed
        ∙ ap parse_proxy_socket_dir_owner_pid
            (some-injective _ _ (sym named ∙ ap file_name same_path ∙ n))
        ∙ parse_proxy_socket_dir_owner_pid-socket_dir_name pid attempt g k) in
      ap (is_pid_alive h) (sym same_owner) ∙ dead

  -- Of the directory of a process, by the name that the process gives it.
  stale_dir_lem :
      (entry : DirEntry) (pid attempt : ℕ)
      → entry.file_type ≡ some directory
      → file_name entry.path ≡ some (socket_dir_name pid attempt)
      → 0 < pid
      → pid ≤ 2 ^ 32 - 1
      → stale_dir h (some entry) ≡ (if is_pid_alive h pid then none else some entry.path)
  unfolding stale_dir
  stale_dir_lem entry pid attempt t n h k =
      rw t (rw n (rw (parse_proxy_socket_dir_owner_pid-socket_dir_name pid attempt h k) refl))

  -- When a directory that can be listed holds the socket directory of a process, whose number is
  -- not zero and fits 32 bits, the removal of stale directories takes it exactly when the process
  -- is no longer alive.
  pub cleanup_stale_proxy_socket_dirs_in-is_pid_alive :
      (dir : PathBuf) (entries : List (Option DirEntry)) (entry : DirEntry) (pid attempt : ℕ)
      → h.read_dir dir ≡ some entries
      → Memᴰ (some entry) entries
      → entry.file_type ≡ some directory
      → file_name entry.path ≡ some (socket_dir_name pid attempt)
      → 0 < pid
      → pid ≤ 2 ^ 32 - 1
      → (stale : List PathBuf) × (cleanup_stale_proxy_socket_dirs_in h dir ≡ some stale)
        × (Memᴰ entry.path stale ↔ (is_pid_alive h pid ≡ false))
  unfolding cleanup_stale_proxy_socket_dirs_in
  cleanup_stale_proxy_socket_dirs_in-is_pid_alive dir entries entry pid attempt r m t n p k = (
    filter_map (stale_dir h) entries,
    ap (map_option (filter_map (stale_dir h))) r,
    (dead, taken),
  )
    where
      dead : Memᴰ entry.path (filter_map (stale_dir h) entries) → is_pid_alive h pid ≡ false
      dead taken_path =
          let (o, _, e) = mem_of_filter_map (stale_dir h) entry.path entries taken_path in
          stale_dir-owner o entry.path pid attempt e n p k

      taken : is_pid_alive h pid ≡ false → Memᴰ entry.path (filter_map (stale_dir h) entries)
      taken gone =
          mem-filter_map (stale_dir h) (some entry) entry.path entries m
            (stale_dir_lem entry pid attempt t n p k ∙ rw gone refl)
