-- ===== src/Tests/Candidates.antt =====
-- A candidate block with a pending transaction, mined and added to a legacy chain.
use sudharma.Base.{
  List, [], add64, arith, bytes_eq, bytes_keys, false, ltb_ℤ, nat_keys, ok, pos, refl, some,
  u32_mod, ◌++◌, ◌+ℤ◌, ◌+◌, ◌<◌, ◌∷◌, ◌≡◌,
}
use sudharma.Blocks.Genesis.{genesis_block, new_genesis_block}
use sudharma.Blocks.Header.{block_hash}
use sudharma.Blocks.Merkle.{
  calculate_merkle_root, hex_decode, hex_value, leaf, leaves, next_level, reduce_levels,
  update_merkle_root,
}
use sudharma.Blocks.Record.{Block}
use sudharma.Chain.Extend.{add_block}
use sudharma.Chain.Policy.{legacy_proof_verifier}
use sudharma.Chain.Record.{Chain, last_block, tip}
use sudharma.Chain.Validate.{
  expected_next_difficulty, max_future_block_seconds, recent_block_intervals,
}
use sudharma.Consensus.Difficulty.{
  median_block_interval, middle, next_difficulty, next_difficulty_from_history, sort,
  valid_intervals,
}
use sudharma.Consensus.Work.{target_from_difficulty, work_from_difficulty}
use sudharma.Crypto.{
  all_lower_hex, hex_digit, hex_encode, is_lower_hex, set_bytes, validate_address,
}
use sudharma.Dict.{get, insert, lookup}
use sudharma.Mempool.Invariant.{Operation, add, perform, perform_all}
use sudharma.Mempool.Listing.{all_transactions}
use sudharma.Mempool.Methods.{
  add_transaction, check_admission, check_admission_locked, new_mempool, nonces_of,
  store_transaction,
}
use sudharma.Mining.Accepted.{add_block-mine}
use sudharma.Mining.Template.{candidate_block, mine, new_block_from_mempool, select_pending}
use sudharma.Pow.Reference.{hash_block, valid_hash}
use sudharma.Tests.Chains.{first_block, genesis_chain, noon}
use sudharma.Tests.Fixtures.{bob, payment, toy_crypto}
use sudharma.Transactions.Record.{estimated_serialized_size, validate_resource_bounds}

abbrev legacy_chain : Chain
legacy_chain = record genesis_chain { proof_verifier = legacy_proof_verifier toy_crypto }

abbrev pending_calls : List Operation
pending_calls = add (some payment) ∷ []

abbrev candidate : Block
candidate = record first_block { timestamp = noon; transactions = some payment ∷ [] }

candidate_made :
    candidate_block toy_crypto noon legacy_chain (perform_all pending_calls new_mempool) bob
    ≡ ok candidate
unfolding candidate_block tip last_block new_block_from_mempool expected_next_difficulty
    update_merkle_root add64 new_genesis_block block_hash calculate_merkle_root
    next_difficulty_from_history select_pending genesis_block hex_encode leaves next_difficulty
    all_transactions perform_all median_block_interval perform recent_block_intervals
    add_transaction check_admission validate_resource_bounds validate_address
    estimated_serialized_size check_admission_locked lookup new_mempool bytes_eq leaf next_level
    reduce_levels hex_decode hex_value sort valid_intervals middle all_lower_hex is_lower_hex
    hex_digit get insert nonces_of store_transaction
candidate_made = refl

candidate_mined : mine toy_crypto candidate 0 3 ≡ some candidate
unfolding mine valid_hash hex_decode hash_block hex_encode hex_value set_bytes
    target_from_difficulty
candidate_mined = refl

at_genesis : tip legacy_chain ≡ some new_genesis_block
unfolding tip last_block
at_genesis = refl

genesis_time : new_genesis_block.timestamp ≡ pos 1786924800
unfolding new_genesis_block genesis_block
genesis_time = refl

genesis_difficulty : new_genesis_block.difficulty < u32_mod
unfolding new_genesis_block genesis_block
genesis_difficulty = omega arith

not_in_future : ltb_ℤ (noon +ℤ pos max_future_block_seconds) candidate.timestamp ≡ false
unfolding ◌+ℤ◌
not_in_future = refl

add_block-mine_example :
    add_block toy_crypto noon candidate legacy_chain
    ≡ ok (record legacy_chain {
      blocks = legacy_chain.blocks ++ (candidate ∷ []);
      total_work = legacy_chain.total_work + work_from_difficulty candidate.difficulty;
    })
add_block-mine_example =
    add_block-mine toy_crypto noon noon 1786924800 0 3 legacy_chain new_genesis_block pending_calls
      bob candidate candidate at_genesis genesis_time (omega arith) genesis_difficulty refl refl
      candidate_made candidate_mined not_in_future
