-- ===== src/Ledger/Apply.antt =====
-- blockchain/transaction_processor.go: one transaction, applied to a clone of the state.
use sudharma.Base.{
  Bytes, Result, add64, amount_overflow, amount_zero, fail_if, insufficient_balance, invalid_fee,
  invalid_fee_distribution, invalid_nonce, invalid_signature, is_empty, ltb, max_u64, nat_eq, not,
  receiver_empty, sender_empty, sub64, treasury_missing, tx_already_processed, tx_id_empty, ◌-◌,
  ◌>>=◌, ◌>>◌, ◌||◌,
}
use sudharma.Crypto.{Crypto}
use sudharma.State.Methods.{balance, expected_nonce, is_transaction_processed}
use sudharma.State.Monad.{State}
use sudharma.Transactions.Fee.{calculate_fee, development_fee, mining_fee}
use sudharma.Transactions.Record.{Transaction, validate_resource_bounds}
use sudharma.Transactions.Signature.{verify_for_network}

module _ (crypto : Crypto) where
  -- The checks of `applyTransactionMutating`, up to the first mutation.
  unfoldable pub check_transaction : State → Transaction → Bytes → Result (Unit {0})
  check_transaction s tx network = do
    fail_if (is_empty tx.id) tx_id_empty
    fail_if (is_transaction_processed s tx.id) tx_already_processed
    fail_if (is_empty tx.from) sender_empty
    fail_if (is_empty tx.to) receiver_empty
    fail_if (nat_eq tx.amount 0) amount_zero
    validate_resource_bounds tx
    fail_if (not (verify_for_network crypto tx network)) invalid_signature
    next_nonce ← expected_nonce s tx.from
    fail_if (not (nat_eq tx.nonce next_nonce)) invalid_nonce
    fail_if (not (nat_eq tx.fee (calculate_fee tx.amount))) invalid_fee
    fail_if
        (ltb tx.fee (development_fee tx.amount)
          || not (nat_eq (mining_fee tx.amount) (sub64 tx.fee (development_fee tx.amount))))
        invalid_fee_distribution
    fail_if (ltb (max_u64 - tx.fee) tx.amount) amount_overflow
    fail_if (ltb (balance s tx.from) (add64 tx.amount tx.fee)) insufficient_balance
    fail_if (is_empty s.development_address) treasury_missing
