-- ===== src/SpendGuard.antt =====
-- The daily spend guard of `PublicStateStore`: src/unigrok_public/state.py.
pub mod State
pub mod Ticks
pub mod Queries
pub mod Reserve
pub mod Reconcile
pub mod Retention
pub mod Limit
pub mod Once
pub mod FailClosed
mod Tests
