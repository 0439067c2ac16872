-- ===== src/Mining.antt =====
-- blockchain/block_builder.go, rpc/gpu_mining.go and miner/miner.go: the block that is handed to a miner.
pub mod Template
pub mod Bounded
pub mod Accepted
