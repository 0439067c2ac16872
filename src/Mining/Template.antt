-- ===== src/Mining/Template.antt =====
-- blockchain/block_builder.go, `candidateGPUMinerBlock` of rpc/gpu_mining.go, and `Mine` of
-- miner/miner.go. The clock is an argument.
use sudharma.Base.{
  Bytes, List, Option, Result, [], add64, block_nil, err, if◌then◌else◌, leb, leb_ℤ, no_genesis,
  none, ok, pos, some, suc, zero, ℕ, ℤ, ◌+ℤ◌, ◌+◌, ◌>>=◌, ◌∷◌,
}
use sudharma.Blocks.Header.{block_hash}
use sudharma.Blocks.Merkle.{update_merkle_root}
use sudharma.Blocks.Record.{Block}
use sudharma.Chain.Record.{Chain, tip}
use sudharma.Chain.Validate.{expected_next_difficulty}
use sudharma.Crypto.{Crypto}
use sudharma.Mempool.Listing.{all_transactions}
use sudharma.Mempool.Record.{Mempool}
use sudharma.Params.{max_block_transaction_bytes, max_block_transactions}
use sudharma.Pow.Reference.{hash_block, valid_hash}
use sudharma.Transactions.Record.{Transaction, estimated_serialized_size}

-- The loop over the pending transactions, with how many are selected and their bytes.
unfoldable pub select_pending : ℕ → ℕ → List Transaction → List (Option Transaction)
select_pending selected total_bytes [] = []
select_pending selected total_bytes (tx ∷ txs) =
    let size = estimated_serialized_size tx in
    let fits = leb (total_bytes + size) max_block_transaction_bytes in
    let rest =
      select_pending (if fits then selected + 1 else selected)
        (if fits then total_bytes + size else total_bytes) txs in
    if leb max_block_transactions selected then [] else if fits then some tx ∷ rest else rest

module _ (crypto : Crypto) where
  -- `NewBlockFromMempool`
  unfoldable pub new_block_from_mempool : ℤ → Option Block → Mempool → Result Block
  new_block_from_mempool now none pool = err block_nil
  new_block_from_mempool now (some previous) pool = ok (
      update_merkle_root crypto (record {
        version = 1;
        height = add64 previous.height 1;
        timestamp = now;
        previous_hash = block_hash crypto previous;
        merkle_root = [];
        difficulty = previous.difficulty;
        nonce = 0;
        miner_address = [];
        transactions = select_pending 0 0 (all_transactions pool);
      }))

  -- `candidateGPUMinerBlock`
  unfoldable pub candidate_block : ℤ → Chain → Mempool → Bytes → Result Block
  candidate_block now c pool miner_address = elim (tip c) [
    | none ↦ err no_genesis
    | some previous ↦ (do
      b ← new_block_from_mempool now (some previous) pool
      difficulty ← expected_next_difficulty c
      ok (
          update_merkle_root crypto (record b {
            timestamp =
                if leb_ℤ b.timestamp previous.timestamp
                then previous.timestamp +ℤ pos 1
                else b.timestamp;
            difficulty = difficulty;
            miner_address = miner_address;
            nonce = 0;
          })))
  ]

  -- `Mine`: the block with the first nonce that meets the target, if one of the attempts does
  unfoldable pub mine : Block → ℕ → ℕ → Option Block
  mine b nonce zero = none
  mine b nonce (suc attempts) =
      let later = mine b (add64 nonce 1) attempts in
      if valid_hash (hash_block crypto b nonce) b.difficulty
      then some (record b { nonce = nonce })
      else later
