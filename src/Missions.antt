-- ===== src/Missions.antt =====
-- The mission store: rows of src/unigrok_public/state.py that workers drive under fenced leases,
-- and the status machine and the sweeper of src/unigrok_public/mission/.
pub mod Status
pub mod State
pub mod Lease
pub mod Cas
pub mod Records
pub mod Sweep
pub mod Calls
pub mod Evolution
pub mod Fencing
pub mod Winner
pub mod Exclusive
mod Tests
pub mod Completion
pub mod Creation
