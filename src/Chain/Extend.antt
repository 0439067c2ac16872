-- ===== src/Chain/Extend.antt =====
-- blockchain/chain.go and blockchain/validated_chain.go: making a chain, adding a block, rebuilding a
-- chain from its blocks; and `ReplaceWith` of blockchain/reorg.go.
use sudharma.Base.{
  Bytes, List, Result, [], block_invalid, bytes_eq, err, fail_if, if◌then◌else◌, invalid_difficulty,
  invalid_version, nat_eq, network_mismatch, no_genesis, none, not, ok, pow_policy_mismatch, some,
  source_invalid, unknown_network, verifier_gpu_missing, verifier_legacy_missing, wrap,
  wrong_genesis, ℕ, ℤ, ◌&&◌, ◌++◌, ◌+◌, ◌>>=◌, ◌>>◌, ◌∷◌,
}
use sudharma.Blocks.Genesis.{genesis_for, new_genesis_block, new_mainnet_genesis_block}
use sudharma.Blocks.Header.{block_hash}
use sudharma.Blocks.Record.{Block}
use sudharma.Chain.Policy.{
  PoWPolicy, ProofVerifier, legacy_proof_verifier, pow_policy_for_network, version_allowed,
}
use sudharma.Chain.Record.{Chain, last_block}
use sudharma.Chain.Validate.{recent_block_intervals, validate_block_core_with_proof}
use sudharma.Consensus.Difficulty.{next_difficulty_from_history}
use sudharma.Consensus.Work.{work_from_difficulty}
use sudharma.Crypto.{Crypto}
use sudharma.Params.{
  gpu_v1_activation_disabled, monetary_policy_for, network_mainnet, network_public_testnet,
}

-- The genesis block of a network, as the constructor compares it.
unfoldable pub expected_genesis : Bytes → Result Block
expected_genesis network =
    if bytes_eq network network_public_testnet
    then ok new_genesis_block
    else if bytes_eq network network_mainnet
    then ok new_mainnet_genesis_block
    else err unknown_network

module _ (crypto : Crypto) where
  -- `newChainFromGenesisForNetworkWithConsensus`
  unfoldable pub new_chain_from_genesis_with_consensus :
      Bytes → Block → PoWPolicy → ProofVerifier → Result Chain
  new_chain_from_genesis_with_consensus network genesis policy verifier = do
    _ ← monetary_policy_for network
    fail_if (not (verifier.supports_version 1)) verifier_legacy_missing
    fail_if
        (not (nat_eq policy.gpu_v1_activation_height gpu_v1_activation_disabled)
          && not (verifier.supports_version 2))
        verifier_gpu_missing
    fail_if (not (version_allowed policy genesis.version genesis.height)) invalid_version
    expected ← expected_genesis network
    fail_if (not (bytes_eq (block_hash crypto genesis) (block_hash crypto expected))) wrong_genesis
    ok (record {
      network = network;
      blocks = genesis ∷ [];
      total_work = work_from_difficulty genesis.difficulty;
      pow_policy = policy;
      proof_verifier = verifier;
    })

  -- `NewChainForWithConsensus`
  unfoldable pub new_chain_for_with_consensus : Bytes → PoWPolicy → ProofVerifier → Result Chain
  new_chain_for_with_consensus network policy verifier = do
    genesis ← genesis_for network
    new_chain_from_genesis_with_consensus network genesis policy verifier

  -- `NewChainFor`
  unfoldable pub new_chain_for : Bytes → Result Chain
  new_chain_for network = do
    policy ← pow_policy_for_network network
    new_chain_for_with_consensus network policy (legacy_proof_verifier crypto)

  -- `AddBlock` on a chain whose last block is `previous`
  unfoldable pub check_next_block : ℤ → Block → Block → Chain → Result (Unit {0})
  check_next_block now b previous c = do
    fail_if
        (not (
          nat_eq b.difficulty
            (next_difficulty_from_history previous.difficulty (recent_block_intervals c.blocks))))
        (block_invalid invalid_difficulty)
    wrap block_invalid
        (validate_block_core_with_proof crypto now b previous c.pow_policy c.proof_verifier)

  -- `AddBlock`
  unfoldable pub add_block : ℤ → Block → Chain → Result Chain
  add_block now b c = elim (last_block c.blocks) [
    | none ↦ err no_genesis
    | some previous ↦ elim (check_next_block now b previous c) [
      | err e ↦ err e
      | ok _ ↦ ok (record c {
        blocks = c.blocks ++ (b ∷ []);
        total_work = c.total_work + work_from_difficulty b.difficulty;
      })
    ]
  ]

  -- The loop over the blocks after genesis. The clock may go on between two blocks.
  unfoldable pub add_blocks : (ℕ → ℤ) → ℕ → List Block → Chain → Result Chain
  add_blocks clock i [] c = ok c
  add_blocks clock i (b ∷ blocks) c = elim (add_block (clock i) b c) [
    | err e ↦ err e
    | ok d ↦ add_blocks clock (i + 1) blocks d
  ]

  -- `newChainFromGenesisForNetworkWithConsensus` on the first block, and the loop
  unfoldable pub revalidate :
      (ℕ → ℤ) → Bytes → List Block → PoWPolicy → ProofVerifier → Result Chain
  revalidate clock network [] policy verifier = err no_genesis
  revalidate clock network (genesis ∷ blocks) policy verifier =
      elim (new_chain_from_genesis_with_consensus network genesis policy verifier) [
        | err e ↦ err (source_invalid e)
        | ok c ↦ wrap source_invalid (add_blocks clock 1 blocks c)
      ]

  -- `ValidateAndCloneChain`
  unfoldable pub validate_and_clone_chain : (ℕ → ℤ) → Chain → Result Chain
  validate_and_clone_chain clock source =
      revalidate clock source.network source.blocks source.pow_policy source.proof_verifier

  -- `ReplaceWith` of a chain, by one that is another object
  unfoldable pub replace_chain : (ℕ → ℤ) → Chain → Chain → Result Chain
  replace_chain clock candidate c = do
    fail_if (not (bytes_eq c.network candidate.network)) network_mismatch
    fail_if
        (not (
          nat_eq c.pow_policy.gpu_v1_activation_height
            candidate.pow_policy.gpu_v1_activation_height))
        pow_policy_mismatch
    validated ← revalidate clock c.network candidate.blocks c.pow_policy c.proof_verifier
    ok (record c { blocks = candidate.blocks; total_work = validated.total_work })
