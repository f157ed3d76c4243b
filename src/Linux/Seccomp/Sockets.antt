-- ===== src/Linux/Seccomp/Sockets.antt =====
-- Which sockets the seccomp filters of landlock_runner.rs leave.
use rattler_sandbox.Prelude.{ℕ, ◌%◌, ◌^◌, ◌≡◌, ◌↔◌, ◌⊎◌, true, false, arith}
use rattler_sandbox.Linux.Seccomp.{
  restricted, proxy_routed, socket, socketpair, is_denied, filter_rules, restricted_rules,
  proxy_routed_rules,
}

-- The restricted filter lets `socket` and `socketpair` pass for the domain AF_UNIX (1), as 32 bits,
-- and for no other. The proxy-routed filter lets `socket` pass for AF_INET (2) and AF_INET6 (10) and
-- for no other, and `socketpair` for every domain but AF_UNIX.
pub is_denied-domain :
    (domain : ℕ)
    → ((is_denied restricted socket domain ≡ false) ↔ (domain % 2 ^ 32 ≡ 1))
      × ((is_denied restricted socketpair domain ≡ false) ↔ (domain % 2 ^ 32 ≡ 1))
      × ((is_denied proxy_routed socket domain ≡ false)
          ↔ ((domain % 2 ^ 32 ≡ 2) ⊎ (domain % 2 ^ 32 ≡ 10)))
      × ((is_denied proxy_routed socketpair domain ≡ true) ↔ (domain % 2 ^ 32 ≡ 1))
unfolding is_denied filter_rules restricted_rules proxy_routed_rules
is_denied-domain domain = (
  (λ h. ground arith, λ h. ground arith),
  (λ h. ground arith, λ h. ground arith),
  (λ h. ground arith, λ h. ground arith),
  (λ h. ground arith, λ h. ground arith),
)
