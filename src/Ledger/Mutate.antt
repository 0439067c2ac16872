-- ===== src/Ledger/Mutate.antt =====
-- blockchain/transaction_processor.go, from the first mutation on, and `ApplyTransactionFor`.
use sudharma.Base.{
  Bytes, Option, add64, err, none, ok, receiver_credit, some, treasury_credit, tx_nil, ℕ,
}
use sudharma.Crypto.{Crypto}
use sudharma.Ledger.Apply.{check_transaction}
use sudharma.Params.{network_public_testnet}
use sudharma.State.Methods.{
  clone, credit, debit, mark_transaction_processed, replace_with, set_account_nonce,
}
use sudharma.State.Monad.{Action, pure, wrap_action, ◌>>◌}
use sudharma.Transactions.Fee.{development_fee, mining_fee}
use sudharma.Transactions.Record.{Transaction}

-- The mutations of `applyTransactionMutating`; the treasury's address was read before.
unfoldable pub move_funds : Transaction → Bytes → Action ℕ
move_funds tx development_address = do
  debit tx.from (add64 tx.amount tx.fee)
  wrap_action receiver_credit (credit tx.to tx.amount)
  wrap_action treasury_credit (credit development_address (development_fee tx.amount))
  set_account_nonce tx.from tx.nonce
  mark_transaction_processed tx.id
  pure (mining_fee tx.amount)

module _ (crypto : Crypto) where
  -- On an error the state may have been changed in part.
  unfoldable pub apply_transaction_mutating : Option Transaction → Bytes → Action ℕ
  apply_transaction_mutating none network s = (err tx_nil, s)
  apply_transaction_mutating (some tx) network s = elim (check_transaction crypto s tx network) [
    | err e ↦ (err e, s)
    | ok _ ↦ move_funds tx s.development_address s
  ]

  unfoldable pub apply_transaction_for : Option Transaction → Bytes → Action ℕ
  apply_transaction_for tx network s =
      let (r, working_state) = apply_transaction_mutating tx network (clone s) in
      elim r [ err e ↦ (err e, s) | ok miner_fee ↦ (ok miner_fee, replace_with working_state s) ]

  -- `ApplyTransaction`
  unfoldable pub apply_transaction : Option Transaction → Action ℕ
  apply_transaction tx = apply_transaction_for tx network_public_testnet
