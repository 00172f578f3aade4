-- ===== src/Hash.antt =====
-- The hash functions and the two hash tables of runtimes/0.3/common/api.c.
pub mod Bytes
pub mod Keys
pub mod Session
pub mod Lookup
pub mod Pointers
pub mod Spread
