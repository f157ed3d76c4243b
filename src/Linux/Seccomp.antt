-- ===== src/Linux/Seccomp.antt =====
-- landlock_runner.rs: what a thread gives up before it runs the command. The kernel's calls are
-- the steps of a plan; a filter is its rules, read as the crate `seccompiler` documents them.
pub mod Sockets
use rattler_sandbox.Prelude.{
  Bool, true, false, not, ◌&&◌, ◌||◌, Option, none, some, List, [], ◌∷◌, ◌++◌, ℕ, eqb, any, all,
  map, if◌then◌else◌, is_some, is_empty, ◌%◌, ◌^◌,
}
use rattler_sandbox.World.{World}
use rattler_sandbox.Paths.Std.{PathBuf}
use rattler_sandbox.Paths.Absolute.{AbsolutePathBuf}
use rattler_sandbox.Policy.Types.{NetworkSandboxPolicy, PermissionProfile, FileSystemSandboxPolicy}
use rattler_sandbox.Policy.Grants.{
  is_enabled, has_full_disk_read_access, has_full_disk_write_access,
}
use rattler_sandbox.Policy.Roots.{get_writable_roots_with_cwd}

pub data NetworkSeccompMode : Type 0 where
  restricted proxy_routed : NetworkSeccompMode

unfoldable pub should_install_network_seccomp : NetworkSandboxPolicy → Bool → Bool
should_install_network_seccomp network allow_network_for_proxy =
    not (is_enabled network) || allow_network_for_proxy

unfoldable pub network_seccomp_mode : NetworkSandboxPolicy → Bool → Bool → Option NetworkSeccompMode
network_seccomp_mode network allow_network_for_proxy proxy_routed_network =
    if not (should_install_network_seccomp network allow_network_for_proxy)
    then none
    else if proxy_routed_network
    then some proxy_routed
    else some restricted

-- The calls of the kernel, in their order.
pub data KernelStep : Type 0 where
  set_no_new_privs : KernelStep
  install_network_seccomp_filter : NetworkSeccompMode → KernelStep
  install_filesystem_landlock_rules : List AbsolutePathBuf → KernelStep

-- `none` is the `UnsupportedOperation`.
unfoldable pub landlock_steps :
    World → FileSystemSandboxPolicy → PathBuf → Bool → Option (List KernelStep)
landlock_steps w file_system cwd apply_landlock_fs =
    if apply_landlock_fs && not (has_full_disk_write_access file_system)
    then (if not (has_full_disk_read_access file_system)
        then none
        else some (
            install_filesystem_landlock_rules
              (map (λ r. r.root) (get_writable_roots_with_cwd w file_system cwd))
            ∷ []))
    else some []

abbrev pub filter_steps : Option NetworkSeccompMode → List KernelStep
filter_steps none = []
filter_steps (some mode) = install_network_seccomp_filter mode ∷ []

-- What `apply_permission_profile_to_current_thread` asks of the kernel, and whether it goes on to
-- return `Ok` where the kernel grants it all.
unfoldable pub apply_permission_profile_to_current_thread :
    World → PermissionProfile → PathBuf → Bool → Bool → Bool → List KernelStep × Bool
apply_permission_profile_to_current_thread w profile cwd apply_landlock_fs allow_network_for_proxy
      proxy_routed_network =
    let mode = network_seccomp_mode profile.network allow_network_for_proxy proxy_routed_network in
    let needs_no_new_privs =
      is_some mode || (apply_landlock_fs && not (has_full_disk_write_access profile.file_system)) in
    let before = (if needs_no_new_privs then set_no_new_privs ∷ [] else []) ++ filter_steps mode in
    elim (landlock_steps w profile.file_system cwd apply_landlock_fs) [
      | none ↦ (before, false)
      | some steps ↦ (before ++ steps, true)
    ]

pub data Syscall : Type 0 where
  ptrace process_vm_readv process_vm_writev io_uring_setup io_uring_enter : Syscall
  io_uring_register connect accept accept4 bind listen getpeername getsockname shutdown : Syscall
  sendto sendmmsg recvfrom recvmmsg getsockopt setsockopt socket socketpair : Syscall
  other_syscall : ℕ → Syscall

-- A condition on the low 32 bits of the first argument.
pub data SeccompCondition : Type 0 where
  domain_ne domain_eq : ℕ → SeccompCondition

abbrev pub af_unix : ℕ
af_unix = 1

abbrev pub af_inet : ℕ
af_inet = 2

abbrev pub af_inet6 : ℕ
af_inet6 = 10

-- `BTreeMap::get` of the rules that are inserted: the conditions of each rule of a system call,
-- `none` where it has no entry. A call with an entry without rules always matches.
unfoldable pub common_rules : Syscall → Option (List (List SeccompCondition))
common_rules ptrace = some []
common_rules process_vm_readv = some []
common_rules process_vm_writev = some []
common_rules io_uring_setup = some []
common_rules io_uring_enter = some []
common_rules io_uring_register = some []
common_rules _ = none

unfoldable pub restricted_rules : Syscall → Option (List (List SeccompCondition))
restricted_rules connect = some []
restricted_rules accept = some []
restricted_rules accept4 = some []
restricted_rules bind = some []
restricted_rules listen = some []
restricted_rules getpeername = some []
restricted_rules getsockname = some []
restricted_rules shutdown = some []
restricted_rules sendto = some []
restricted_rules sendmmsg = some []
restricted_rules recvmmsg = some []
restricted_rules getsockopt = some []
restricted_rules setsockopt = some []
restricted_rules socket = some ((domain_ne af_unix ∷ []) ∷ [])
restricted_rules socketpair = some ((domain_ne af_unix ∷ []) ∷ [])
restricted_rules nr = common_rules nr

unfoldable pub proxy_routed_rules : Syscall → Option (List (List SeccompCondition))
proxy_routed_rules socket = some ((domain_ne af_inet ∷ domain_ne af_inet6 ∷ []) ∷ [])
proxy_routed_rules socketpair = some ((domain_eq af_unix ∷ []) ∷ [])
proxy_routed_rules nr = common_rules nr

unfoldable pub filter_rules : NetworkSeccompMode → Syscall → Option (List (List SeccompCondition))
filter_rules restricted nr = restricted_rules nr
filter_rules proxy_routed nr = proxy_routed_rules nr

abbrev pub holds : ℕ → SeccompCondition → Bool
holds argument (domain_ne domain) = not (eqb (argument % 2 ^ 32) domain)
holds argument (domain_eq domain) = eqb (argument % 2 ^ 32) domain

-- Whether the filter answers a call with `EPERM`: some rule of it matches, all of its conditions
-- holding, or it has no rule.
unfoldable pub is_denied : NetworkSeccompMode → Syscall → ℕ → Bool
is_denied mode nr argument = elim (filter_rules mode nr) [
  | none ↦ false
  | some rules ↦ is_empty rules || any (λ rule. all (holds argument) rule) rules
]
