-- ===== src/Web.antt =====
-- crates/huginn-web: what the listeners answer.
pub mod Auth
pub mod Prometheus
pub mod State
pub mod Listeners
pub mod Serve
pub mod Headers
pub mod Health
pub mod Server
mod Tests
