-- ===== src/Core.antt =====
-- crates/huginn-core: the types that every other crate uses.
pub mod Platform
pub mod Decimal
pub mod BTree
pub mod Error
pub mod Anyhow
pub mod Stats
pub mod Hub
pub mod Types
pub mod Config
pub mod Samples
