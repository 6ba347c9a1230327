-- ===== src/SshConfig.antt =====
-- The import of `~/.ssh/config`: crates/core-store/src/ssh_config.
pub mod Lex
pub mod Parse
pub mod Import
