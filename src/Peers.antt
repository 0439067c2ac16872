-- ===== src/Peers.antt =====
-- p2p: the local policy on peers: their reputation, and which connections are kept. It never takes part in
-- the consensus.
pub mod Scoring
pub mod Table
pub mod Diverse
pub mod Limits
