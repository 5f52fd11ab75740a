-- ===== src/Verification.antt =====
-- CommitDone: the deterministic verifier of src/unigrok_public/mission/ (task_class.py, evidence.py,
-- verify.py) and the voters of voters.py.
pub mod Python
pub mod TaskClass
pub mod Evidence
pub mod Gaps
pub mod Commit
pub mod Voters
pub mod Tests
