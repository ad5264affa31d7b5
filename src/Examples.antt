-- ===== src/Examples.antt =====
-- The theorems of the library at concrete inputs.
pub mod Lives
mod Machine
pub mod Messages
pub mod Calls
pub mod Futures
pub mod Deliveries
pub mod Transfers
pub mod Options
pub mod Storage
pub mod Processes
