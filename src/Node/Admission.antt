-- ===== src/Node/Admission.antt =====
-- p2p/transaction_submit.go: admitting a transaction to the mempool. The admission lock makes the state
-- and the mempool that the validation reads the ones that the insertion changes.
use sudharma.Base.{
  Option, Result, already_confirmed, err, fail_if, index_rejected, invalid_signature, map, none,
  not, ok, pending_invalid, rejected, relay_failed, some, state_missing, tx_nil, wrap, ℕ, ◌>>=◌,
  ◌>>◌,
}
use sudharma.Crypto.{Crypto}
use sudharma.Mempool.Listing.{transactions_for_sender}
use sudharma.Mempool.Methods.{add_transaction, check_admission}
use sudharma.Mempool.Validate.{validate_mempool_transaction_for}
use sudharma.Node.Record.{Node, active_network, attached}
use sudharma.State.Methods.{is_transaction_processed}
use sudharma.Transactions.Record.{Transaction, validate_resource_bounds}
use sudharma.Transactions.Signature.{verify_for_network}

module _ (crypto : Crypto) where
  -- `admitVerifiedTransaction` up to the insertion.
  unfoldable pub check_verified : Transaction → Node → Result (Unit {0})
  check_verified tx n = do
    wrap rejected (validate_resource_bounds tx)
    s ← attached state_missing n.state
    fail_if (is_transaction_processed s tx.id) already_confirmed
    wrap index_rejected (check_admission n.mempool (some tx))
    wrap pending_invalid (
        validate_mempool_transaction_for crypto s
          (map some (transactions_for_sender n.mempool tx.from)) (some tx) (active_network n))

  -- `admitVerifiedTransaction`
  unfoldable pub admit_verified_transaction : Option Transaction → Node → Result (Unit {0}) × Node
  admit_verified_transaction none n = (err tx_nil, n)
  admit_verified_transaction (some tx) n = elim (check_verified tx n) [
    | err e ↦ (err e, n)
    | ok _ ↦
        let (r, m) = add_transaction (some tx) n.mempool in
        (wrap rejected r, record n { mempool = m })
  ]

  -- The checks of `admitTransaction` before the verified part.
  unfoldable pub check_untrusted : Transaction → Node → Result (Unit {0})
  check_untrusted tx n = do
    wrap rejected (validate_resource_bounds tx)
    wrap index_rejected (check_admission n.mempool (some tx))
    fail_if (not (verify_for_network crypto tx (active_network n))) invalid_signature

  -- `admitTransaction`
  unfoldable pub admit_transaction : Option Transaction → Node → Result (Unit {0}) × Node
  admit_transaction none n = (err tx_nil, n)
  admit_transaction (some tx) n = elim (check_untrusted tx n) [
    | err e ↦ (err e, n)
    | ok _ ↦ admit_verified_transaction (some tx) n
  ]

  -- `SubmitTransaction`, with what the relay to the peers returns
  unfoldable pub submit_transaction : Result ℕ → Option Transaction → Node → Result ℕ × Node
  submit_transaction relayed tx n =
      let (r, n') = admit_transaction tx n in
      elim r [ err e ↦ (err e, n') | ok _ ↦ (wrap relay_failed relayed, n') ]
