-- ===== src/Git.antt =====
-- pkg/git: commit hashes, receiving a repository, and the hook.
pub mod Sha
pub mod Receive
pub mod Hook
mod Examples
