-- ===== src/Manager/Types.antt =====
-- manager.rs: the sandboxes to choose from.
pub data SandboxType : Type 0 where
  none macos_seatbelt linux_seccomp windows_restricted_token : SandboxType
