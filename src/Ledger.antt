-- ===== src/Ledger.antt =====
-- What a block does to the account state: blockchain/transaction_processor.go, blockchain/rewards.go
-- and blockchain/block_processor.go.
pub mod Apply
pub mod Checks
pub mod Conserve
pub mod Mutate
pub mod Rewards
pub mod Process
pub mod Atomic
pub mod Issuance
pub mod Blocks
pub mod Soundness
pub mod Effects
pub mod Lasting
pub mod Confirmed
pub mod Replay
pub mod Marks
