-- ===== src/Pow/Legacy.antt =====
-- pow/pow.go and blockchain/validator_core.go both check the legacy proof.
use sudharma.Base.{Bytes, Option-cases, arith, inl, inr, u32_mod, ℕ, ◌<◌, ◌≡◌}
use sudharma.Blocks.Header.{block_hash, header_bytes}
use sudharma.Blocks.Merkle.{hex_decode}
use sudharma.Blocks.Record.{Block}
use sudharma.Chain.Policy.{
  legacy_only_pow_policy, legacy_proof_verifier, valid_block_proof_of_work_core, version_allowed,
}
use sudharma.Consensus.Work.{target_from_difficulty}
use sudharma.Crypto.{Crypto, hex_encode}
use sudharma.Pow.Reference.{check_legacy_block, hash_block, valid_hash}
use sudharma.Pow.Verifier.{proof_holds}

module _ (crypto : Crypto) where
  -- For every uint32 difficulty, zero included, the two checks of the legacy proof say the same.
  pub check_legacy_block_same :
      (b : Block)
      → b.difficulty < u32_mod
      → check_legacy_block crypto b ≡ valid_block_proof_of_work_core crypto b
  unfolding check_legacy_block valid_block_proof_of_work_core valid_hash hash_block block_hash
      target_from_difficulty
  check_legacy_block_same b small =
      elim (Option-cases
        (hex_decode (hex_encode (crypto.sha256 (crypto.sha256 (header_bytes b b.nonce)))))) [
          | inl e ↦ ground (arith, e)
          | inr (bytes, e) ↦ ground (arith, e)
        ]

  -- Under the policy that never leaves version 1, the verifier of a chain accepts exactly the blocks of
  -- uint32 difficulty that the legacy verifier accepts, whatever Keccak-512 and the cache size are.
  pub proof_holds_legacy :
      (keccak512 : Bytes → Bytes) (nodes : ℕ) (b : Block)
      → b.difficulty < u32_mod
      → proof_holds crypto keccak512 legacy_only_pow_policy nodes b
        ≡ (legacy_proof_verifier crypto).verify_proof b
  unfolding proof_holds legacy_proof_verifier version_allowed legacy_only_pow_policy
  proof_holds_legacy keccak512 nodes b small = ground (arith, check_legacy_block_same b small)
