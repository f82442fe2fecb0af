-- ===== src/Healthsrv.antt =====
-- pkg/healthsrv: the health checks of the builder.
pub mod Checks
pub mod Handlers
pub mod Server
pub mod Goroutines
mod Examples
