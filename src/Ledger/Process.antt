-- ===== src/Ledger/Process.antt =====
-- blockchain/block_processor.go: all transactions of a block on a clone, then the miner's reward.
use sudharma.Base.{
  Bytes, List, Option, Result, [], add64, err, if◌then◌else◌, is_empty, ltb, max_u64, miner_empty,
  miner_fee_overflow, none, ok, some, tx_failed, tx_nil, ℕ, ◌-◌, ◌∷◌,
}
use sudharma.Blocks.Record.{Block}
use sudharma.Crypto.{Crypto}
use sudharma.Ledger.Mutate.{apply_transaction_for}
use sudharma.Ledger.Rewards.{credit_miner_reward_for}
use sudharma.Params.{network_for_monetary_policy, policy_public_testnet, validate_monetary_policy}
use sudharma.State.Methods.{clone, ensure_monetary_policy, replace_with}
use sudharma.State.Monad.{Action, State, fail_action, pure, raise, wrap_action, ◌>>=◌, ◌>>◌}
use sudharma.Transactions.Fee.{mining_fee}
use sudharma.Transactions.Record.{Transaction}

-- The checks of `ProcessBlockFor` before the clone is made; they give the policy's network.
unfoldable pub check_block_context : State → ℕ → Bytes → Result Bytes
check_block_context s policy miner_address =
    if is_empty miner_address then err miner_empty else elim (validate_monetary_policy policy) [
      | err e ↦ err e
      | ok _ ↦ elim (network_for_monetary_policy policy) [
        | err e ↦ err e
        | ok network ↦ elim (ensure_monetary_policy s policy) [ err e ↦ err e | ok _ ↦ ok network ]
      ]
    ]

-- `TotalMinerFees`
unfoldable pub total_miner_fees_from : ℕ → List (Option Transaction) → Result ℕ
total_miner_fees_from total [] = ok total
total_miner_fees_from total (none ∷ txs) = err tx_nil
total_miner_fees_from total (some tx ∷ txs) =
    let rest = total_miner_fees_from (add64 total (mining_fee tx.amount)) txs in
    if ltb (max_u64 - mining_fee tx.amount) total then err miner_fee_overflow else rest

unfoldable pub total_miner_fees : List (Option Transaction) → Result ℕ
unfolding total_miner_fees_from
total_miner_fees txs = total_miner_fees_from 0 txs

module _ (crypto : Crypto) where
  -- The loop of `ProcessBlockFor` over the transactions, with the fees so far.
  unfoldable pub process_transactions : List (Option Transaction) → Bytes → ℕ → Action ℕ
  process_transactions [] network total = pure total
  process_transactions (none ∷ txs) network total = raise tx_nil
  process_transactions (some tx ∷ txs) network total = do
    miner_fee ← wrap_action tx_failed (apply_transaction_for crypto (some tx) network)
    fail_action (ltb (max_u64 - miner_fee) total) miner_fee_overflow
    process_transactions txs network (add64 total miner_fee)

  -- What happens to the clone.
  unfoldable pub process_working_state : ℕ → Bytes → Block → Bytes → Action ℕ
  process_working_state policy network block miner_address = do
    total_fees ← process_transactions block.transactions network 0
    credit_miner_reward_for policy block.height miner_address total_fees

  unfoldable pub process_block_for : ℕ → Block → Bytes → Action ℕ
  process_block_for policy block miner_address s =
      elim (check_block_context s policy miner_address) [
        | err e ↦ (err e, s)
        | ok network ↦
            let (r, working_state) =
              process_working_state policy network block miner_address (clone s) in
            elim r [
              | err e ↦ (err e, s)
              | ok total_reward ↦ (ok total_reward, replace_with working_state s)
            ]
      ]

  -- `ProcessBlock`
  unfoldable pub process_block : Block → Bytes → Action ℕ
  process_block block miner_address = process_block_for policy_public_testnet block miner_address
