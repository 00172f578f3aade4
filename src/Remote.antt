-- ===== src/Remote.antt =====
-- The network half of the runtime, runtimes/0.3/common/remote.c.
pub mod Buffer
pub mod Bytes
pub mod Connection
pub mod Receive
pub mod Send
pub mod Delivery
pub mod WaitList
pub mod Paths
pub mod Pages
pub mod Hive
