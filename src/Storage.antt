-- ===== src/Storage.antt =====
-- pkg/storage: the object store.
pub mod Object
pub mod Interfaces
pub mod ImageRepo
mod Examples
