-- ===== src/Tests.antt =====
-- The theorems at concrete inputs.
pub mod Machine
pub mod Memory
pub mod Queues
pub mod Ipc
pub mod Paging
pub mod Faults
mod Freeing
mod Commands
