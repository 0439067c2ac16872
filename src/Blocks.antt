-- ===== src/Blocks.antt =====
-- blockchain/block.go and blockchain/block_resource_validator.go: the block, its header and hash, its
-- Merkle root, the two genesis blocks, and the limits on its transactions.
pub mod Record
pub mod Header
pub mod Merkle
pub mod Genesis
pub mod Limits
