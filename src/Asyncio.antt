-- ===== src/Asyncio.antt =====
-- src/asyncio.rs: the same methods on the sockets of tokio.
pub mod Stream
pub mod Datagram
pub mod Blocked
pub mod Trials
pub mod Gives
pub mod Receive
pub mod Complete
pub mod Bounds
pub mod Returns
