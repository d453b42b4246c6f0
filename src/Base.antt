-- ===== src/Base.antt =====
-- The base library: base/.
pub mod LogStream
pub mod Date
pub mod AsyncLogging
mod Examples
