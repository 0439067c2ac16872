-- ===== src/Chain.antt =====
-- The chain of blocks: blockchain/chain.go, blockchain/pow_policy.go, blockchain/proof_verifier.go,
-- blockchain/validator_core.go, blockchain/chain_validator.go, blockchain/validated_chain.go,
-- blockchain/difficulty_history.go, blockchain/fork_choice.go, blockchain/reorg_depth.go,
-- blockchain/finality.go, blockchain/finality_reorg.go and blockchain/reorg.go. A nil block cannot enter
-- a chain, so `blocks` is a list of blocks; its order is the source's, genesis first.
pub mod Policy
pub mod Record
pub mod Validate
pub mod Extend
pub mod Choice
pub mod Finality
pub mod Reorg
pub mod Rebuild
pub mod Replay
pub mod Schedule
pub mod Common
pub mod Adopt
pub mod Outcome
pub mod Valid
pub mod Reachable
pub mod Grow
pub mod Confirmed
