-- ===== src/Program/Meaning.antt =====
-- What loading a program gives its workers: the strings, the calls and the tables of workers.
pub mod Strings
pub mod Calls
pub mod Workers
