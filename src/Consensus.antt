-- ===== src/Consensus.antt =====
-- The consensus package: block subsidies, the difficulty rule and chain work.
pub mod Subsidy
pub mod Emission
pub mod Difficulty
pub mod Retarget
pub mod Work
pub mod Median
