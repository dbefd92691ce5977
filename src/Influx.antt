-- ===== src/Influx.antt =====
-- crates/huginn-influx: the retry queue, the line protocol, the batcher and the writer.
pub mod Queue
pub mod LineProtocol
pub mod Batcher
pub mod Writer
pub mod Client
