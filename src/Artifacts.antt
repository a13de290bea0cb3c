-- ===== src/Artifacts.antt =====
-- The artifact service: services/api/artifacts. Each child models one or two files of that folder,
-- and its children hold the theorems about it.
pub mod Models
pub mod Store
pub mod Recovery
pub mod FileRecovery
pub mod Downloads
pub mod Signing
pub mod Catalogue
pub mod Watcher
pub mod Service
mod StoreTests
mod ServiceTests
mod FileTests
mod SigningTests
