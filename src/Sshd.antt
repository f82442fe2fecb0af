-- ===== src/Sshd.antt =====
-- pkg/sshd: the SSH server of the builder.
pub mod Circuit
pub mod Lock
pub mod Wrap
pub mod Names
pub mod Auth
pub mod Server
pub mod Connection
pub mod Config
pub mod Listener
mod Examples
