-- ===== src/Sys.antt =====
-- pkg/sys: the environment and the file system in memory.
pub mod Env
pub mod Files
pub mod Path
