-- ===== src/Tests.antt =====
-- The theorems at work on concrete data, and runs of the definitions.
mod Tables
mod Hashes
mod Queues
mod Remote
mod Waiting
mod Hives
mod Objects
mod Workers
mod Texts
mod Programs
mod States
