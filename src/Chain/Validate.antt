-- ===== src/Chain/Validate.antt =====
-- blockchain/validator_core.go, blockchain/difficulty_history.go and blockchain/chain_validator.go.
-- `now` is what the clock reads when a block is validated.
use sudharma.Base.{
  List, Result, [], add64, bytes_eq, drop, err, fail_if, if◌then◌else◌, invalid_difficulty,
  invalid_height, invalid_merkle_root, invalid_previous_hash, invalid_proof, invalid_version, leb_ℤ,
  length, ltb, ltb_ℤ, nat_eq, no_genesis, none, not, ok, pos, some, timestamp_not_after,
  timestamp_too_far, unsupported_version, ℕ, ℤ, ◌+ℤ◌, ◌-ℤ◌, ◌-◌, ◌>>=◌, ◌>>◌, ◌∷◌,
}
use sudharma.Blocks.Header.{block_hash}
use sudharma.Blocks.Limits.{validate_block_transactions}
use sudharma.Blocks.Merkle.{calculate_merkle_root}
use sudharma.Blocks.Record.{Block}
use sudharma.Chain.Policy.{
  PoWPolicy, ProofVerifier, legacy_only_pow_policy, legacy_proof_verifier, version_allowed,
}
use sudharma.Chain.Record.{Chain, last_block}
use sudharma.Consensus.Difficulty.{
  difficulty_history_window, next_difficulty, next_difficulty_from_history,
}
use sudharma.Crypto.{Crypto}

abbrev pub max_future_block_seconds : ℕ
max_future_block_seconds = 7200

module _ (crypto : Crypto) where
  -- `validateBlockCoreWithProof`
  unfoldable pub validate_block_core_with_proof :
      ℤ → Block → Block → PoWPolicy → ProofVerifier → Result (Unit {0})
  validate_block_core_with_proof now b previous policy verifier = do
    fail_if (not (version_allowed policy b.version b.height)) invalid_version
    fail_if (not (verifier.supports_version b.version)) unsupported_version
    fail_if (not (nat_eq b.height (add64 previous.height 1))) invalid_height
    fail_if (not (bytes_eq b.previous_hash (block_hash crypto previous))) invalid_previous_hash
    fail_if (leb_ℤ b.timestamp previous.timestamp) timestamp_not_after
    fail_if (ltb_ℤ (now +ℤ pos max_future_block_seconds) b.timestamp) timestamp_too_far
    fail_if (not (bytes_eq b.merkle_root (calculate_merkle_root crypto b))) invalid_merkle_root
    validate_block_transactions b
    fail_if (not (verifier.verify_proof b)) invalid_proof

  -- `validateBlockCore`
  unfoldable pub validate_block_core : ℤ → Block → Block → Result (Unit {0})
  validate_block_core now b previous =
      validate_block_core_with_proof now b previous legacy_only_pow_policy
        (legacy_proof_verifier crypto)

  -- `ValidateBlockBasic`
  unfoldable pub validate_block_basic : ℤ → Block → Block → Result (Unit {0})
  validate_block_basic now b previous = do
    fail_if
        (not (
          nat_eq b.difficulty
            (next_difficulty previous.difficulty (b.timestamp -ℤ previous.timestamp))))
        invalid_difficulty
    validate_block_core now b previous

-- The loop of `recentBlockIntervalsLocked`: the positive differences between neighbours.
unfoldable pub positive_intervals : List Block → List ℤ
positive_intervals [] = []
positive_intervals (b ∷ []) = []
positive_intervals (b ∷ c ∷ blocks) =
    let rest = positive_intervals (c ∷ blocks) in
    let interval = c.timestamp -ℤ b.timestamp in
    if ltb_ℤ (pos 0) interval then interval ∷ rest else rest

-- `recentBlockIntervalsLocked`: the last blocks that the window's intervals lie between.
unfoldable pub recent_block_intervals : List Block → List ℤ
recent_block_intervals blocks =
    let interval_count =
      if ltb difficulty_history_window (length blocks - 1)
      then difficulty_history_window
      else length blocks - 1 in
    if ltb (length blocks) 2
    then []
    else positive_intervals (drop (length blocks - interval_count - 1) blocks)

-- `ExpectedNextDifficulty`
unfoldable pub expected_next_difficulty : Chain → Result ℕ
expected_next_difficulty c = elim (last_block c.blocks) [
  | none ↦ err no_genesis
  | some previous ↦
      ok (next_difficulty_from_history previous.difficulty (recent_block_intervals c.blocks))
]

-- `ValidateBlockAgainstChain`
unfoldable pub validate_block_against_chain : Crypto → ℤ → Chain → Block → Result (Unit {0})
validate_block_against_chain crypto now c b = elim (last_block c.blocks) [
  | none ↦ err no_genesis
  | some previous ↦ (do
    expected_difficulty ← expected_next_difficulty c
    fail_if (not (nat_eq b.difficulty expected_difficulty)) invalid_difficulty
    validate_block_core_with_proof crypto now b previous c.pow_policy c.proof_verifier)
]
