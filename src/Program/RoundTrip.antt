-- ===== src/Program/RoundTrip.antt =====
-- What `ExportCode` writes, `LoadWorker` loads.
pub mod Fields
pub mod Headers
pub mod Workers
pub mod Tables
pub mod Whole
