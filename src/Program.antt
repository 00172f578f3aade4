-- ===== src/Program.antt =====
-- Programs: the file that the compiler writes (main/export.cpp and the exporters of codegen/) and
-- the loader of the runtime that reads it (runtimes/0.3/common/runtime.c).
pub mod HeaderId
pub mod Load
pub mod Loader
pub mod Export
pub mod ExportIds
pub mod Install
pub mod RoundTrip
pub mod Meaning
pub mod SpreadMemory
