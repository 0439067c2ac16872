-- ===== src/Mempool/Validate.antt =====
-- blockchain/mempool_validator.go: a candidate against the confirmed state and the pending transactions
-- of its sender.
-- The loop over `pending`, with `senderPending` so far.
use sudharma.Base.{
  Bytes, List, Option, Result, [], bytes_eq, err, if◌then◌else◌, is_empty, leb, length, none, ok,
  pending_invalid, rejected, sender_full, some, tx_already_pending, tx_id_empty, tx_nil, ℕ, ◌&&◌,
  ◌++◌, ◌∷◌,
}
use sudharma.Crypto.{Crypto}
use sudharma.Ledger.Mutate.{apply_transaction_for}
use sudharma.Mempool.Order.{before_in_chain, sort_slice}
use sudharma.Params.{max_mempool_transactions_per_sender, network_public_testnet}
use sudharma.State.Methods.{clone}
use sudharma.State.Monad.{Action, State, pure, wrap_action, ◌>>=◌, ◌>>◌}
use sudharma.Transactions.Record.{Transaction, validate_resource_bounds}

unfoldable pub collect_pending :
    Transaction → List (Option Transaction) → List Transaction → Result (List Transaction)
collect_pending candidate [] own = ok own
collect_pending candidate (none ∷ pending) own = err tx_nil
collect_pending candidate (some tx ∷ pending) own =
    let same = bytes_eq tx.from candidate.from in
    let own' = if same then own ++ (tx ∷ []) else own in
    let rest = collect_pending candidate pending own' in
    if bytes_eq tx.id candidate.id
    then err tx_already_pending
    else if same && leb max_mempool_transactions_per_sender (length own')
    then err sender_full
    else rest

module _ (crypto : Crypto) where
  -- The loop over the sorted `senderPending` on the working state.
  unfoldable pub replay_pending : List Transaction → Bytes → Action (Unit {0})
  replay_pending [] network = pure tt
  replay_pending (tx ∷ txs) network = do
    _ ← wrap_action pending_invalid (apply_transaction_for crypto (some tx) network)
    replay_pending txs network

  -- What happens to the working state.
  unfoldable pub replay_candidate : List Transaction → Transaction → Bytes → Action ℕ
  replay_candidate own candidate network = do
    replay_pending own network
    wrap_action rejected (apply_transaction_for crypto (some candidate) network)

  -- `ValidateMempoolTransactionFor`
  unfoldable pub validate_mempool_transaction_for :
      State → List (Option Transaction) → Option Transaction → Bytes → Result (Unit {0})
  validate_mempool_transaction_for s pending none network = err tx_nil
  validate_mempool_transaction_for s pending (some candidate) network =
      if is_empty candidate.id then err tx_id_empty else elim (validate_resource_bounds candidate) [
        | err e ↦ err (rejected e)
        | ok _ ↦ elim (collect_pending candidate pending []) [
          | err e ↦ err e
          | ok own ↦
              elim (replay_candidate (sort_slice before_in_chain own) candidate network
                (clone s)).0 [ err e ↦ err e | ok _ ↦ ok tt ]
        ]
      ]

  -- `ValidateMempoolTransaction`
  unfoldable pub validate_mempool_transaction :
      State → List (Option Transaction) → Option Transaction → Result (Unit {0})
  validate_mempool_transaction s pending candidate =
      validate_mempool_transaction_for s pending candidate network_public_testnet
