-- ===== src/Blocks/Limits.antt =====
-- blockchain/block_resource_validator.go: how many transactions a block holds, and how large they are.
use sudharma.Base.{
  List, Option, Result, [], bad_block_tx, block_too_large, err, fail_if, length, ltb, none, ok,
  some, too_many_txs, tx_nil, wrap, ℕ, ◌+◌, ◌>>=◌, ◌>>◌, ◌∷◌,
}
use sudharma.Blocks.Record.{Block}
use sudharma.Params.{max_block_transaction_bytes, max_block_transactions}
use sudharma.Transactions.Record.{Transaction, estimated_serialized_size, validate_resource_bounds}

-- The loop over the transactions, with the bytes so far.
unfoldable pub count_block_bytes : ℕ → List (Option Transaction) → Result ℕ
count_block_bytes total [] = ok total
count_block_bytes total (none ∷ txs) = err tx_nil
count_block_bytes total (some tx ∷ txs) =
    let rest = count_block_bytes (total + estimated_serialized_size tx) txs in
    wrap bad_block_tx (validate_resource_bounds tx) >> rest

unfoldable pub validate_block_transactions : Block → Result (Unit {0})
validate_block_transactions b = do
  fail_if (ltb max_block_transactions (length b.transactions)) too_many_txs
  total_bytes ← count_block_bytes 0 b.transactions
  fail_if (ltb max_block_transaction_bytes total_bytes) block_too_large
