-- ===== src/Tests.antt =====
-- Concrete runs: each theorem with conditions is applied where they hold.
pub mod Fixtures
pub mod Economics
pub mod Accounts
pub mod Chains
pub mod Pending
pub mod Nodes
pub mod Policies
pub mod Replayed
pub mod Candidates
