-- ===== src/Chain/Policy.antt =====
-- blockchain/pow_policy.go, blockchain/proof_verifier.go and the legacy proof rule of
-- blockchain/validator_core.go.
use sudharma.Base.{
  Bool, Bytes, Result, arith, bytes_eq, err, false, if◌then◌else◌, leb, ltb, nat_eq, none, not, ok,
  some, true, unknown_network, ℕ, ◌&&◌, ◌||◌, ◌↔◌, ◌≡◌,
}
use sudharma.Blocks.Header.{block_hash}
use sudharma.Blocks.Merkle.{hex_decode}
use sudharma.Blocks.Record.{Block}
use sudharma.Consensus.Work.{target_from_difficulty}
use sudharma.Crypto.{Crypto, set_bytes}
use sudharma.Params.{
  gpu_v1_activation_disabled, gpu_v1_mainnet_activation_height, gpu_v1_testnet_activation_height,
  network_mainnet, network_public_testnet,
}

pub record PoWPolicy : Type 0 where
  pub gpu_v1_activation_height : ℕ

-- `LegacyOnlyPoWPolicy`
unfoldable pub legacy_only_pow_policy : PoWPolicy
legacy_only_pow_policy = record { gpu_v1_activation_height = gpu_v1_activation_disabled }

-- `PoWPolicyForNetwork`
unfoldable pub pow_policy_for_network : Bytes → Result PoWPolicy
pow_policy_for_network network =
    if bytes_eq network network_public_testnet
    then ok (record { gpu_v1_activation_height = gpu_v1_testnet_activation_height })
    else if bytes_eq network network_mainnet
    then ok (record { gpu_v1_activation_height = gpu_v1_mainnet_activation_height })
    else err unknown_network

unfoldable pub version_allowed : PoWPolicy → ℕ → ℕ → Bool
version_allowed p version height =
    if not (nat_eq version 1) && not (nat_eq version 2)
    then false
    else if nat_eq p.gpu_v1_activation_height gpu_v1_activation_disabled
        || ltb height p.gpu_v1_activation_height
    then nat_eq version 1
    else nat_eq version 2

unfoldable pub version_at_height : PoWPolicy → ℕ → ℕ
version_at_height p height =
    if nat_eq p.gpu_v1_activation_height gpu_v1_activation_disabled
      || ltb height p.gpu_v1_activation_height
    then 1
    else 2

-- The interface `ProofVerifier`.
pub record ProofVerifier : Type 0 where
  pub supports_version : ℕ → Bool
  pub verify_proof : Block → Bool

module _ (crypto : Crypto) where
  -- `validBlockProofOfWorkCore`
  unfoldable pub valid_block_proof_of_work_core : Block → Bool
  valid_block_proof_of_work_core b =
      let target = target_from_difficulty b.difficulty in
      elim (hex_decode (block_hash crypto b)) [
        | none ↦ false
        | some hash_bytes ↦ ltb 0 target && leb (set_bytes 0 hash_bytes) target
      ]

  -- `legacyProofVerifier`
  unfoldable pub legacy_proof_verifier : ProofVerifier
  legacy_proof_verifier = record {
    supports_version = λ version. nat_eq version 1;
    verify_proof = λ b. nat_eq b.version 1 && valid_block_proof_of_work_core b;
  }

-- A version is allowed at a height exactly when it is the one that the policy selects there.
pub version_allowed_iff :
    (p : PoWPolicy) (version height : ℕ)
    → (version_allowed p version height ≡ true) ↔ (version ≡ version_at_height p height)
unfolding version_allowed version_at_height
version_allowed_iff p version height = ground arith
