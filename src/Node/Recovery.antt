-- ===== src/Node/Recovery.antt =====
-- p2p/reorg_mempool.go: a reorganization, after which the mempool is rebuilt from what was pending and
-- from what only the abandoned chain had confirmed. p2p/mempool_persistence.go: the same for the
-- transactions of a stored mempool.
-- The loop over `oldPending`, a map of candidates by identifier.
use sudharma.Base.{
  Bool, Bytes, List, Option, Result, [], bytes_keys, chain_missing, err, false, if◌then◌else◌,
  is_empty, map, nat_keys, none, ok, some, source_invalid, state_missing, suc, true, zero, ℕ, ℤ,
  ◌+◌, ◌||◌, ◌∷◌,
}
use sudharma.Chain.Record.{Chain, block_by_height, chain_height, clone_chain}
use sudharma.Chain.Reorg.{reorganize_to_candidate}
use sudharma.Crypto.{Crypto}
use sudharma.Dict.{Dict, insert}
use sudharma.Mempool.Listing.{all_transactions, transactions_for_sender}
use sudharma.Mempool.Methods.{add_transaction, count, new_mempool}
use sudharma.Mempool.Order.{before_in_snapshot, sort_slice}
use sudharma.Mempool.Record.{Mempool}
use sudharma.Mempool.Validate.{validate_mempool_transaction_for}
use sudharma.Node.Record.{Node, active_network, refresh_chain_status}
use sudharma.State.Methods.{is_transaction_processed}
use sudharma.State.Monad.{State}
use sudharma.Transactions.Record.{Transaction}

unfoldable pub add_pending : List Transaction → Dict Bytes Transaction → Dict Bytes Transaction
add_pending [] candidates = candidates
add_pending (tx ∷ txs) candidates =
    add_pending txs (if is_empty tx.id then candidates else insert tx.id tx candidates)

-- The loop over the transactions of an abandoned block.
unfoldable pub add_orphans :
    State → List (Option Transaction) → Dict Bytes Transaction → Dict Bytes Transaction
add_orphans s [] candidates = candidates
add_orphans s (none ∷ txs) candidates = add_orphans s txs candidates
add_orphans s (some tx ∷ txs) candidates = add_orphans s txs (
    if is_empty tx.id || is_transaction_processed s tx.id
    then candidates
    else insert tx.id tx candidates)

-- The loop over the heights of the old chain, `count` of them from `height` on.
unfoldable pub add_abandoned :
    State → Chain → ℕ → ℕ → Dict Bytes Transaction → Dict Bytes Transaction
add_abandoned s old zero height candidates = candidates
add_abandoned s old (suc count) height candidates =
    let more : Dict Bytes Transaction = elim (block_by_height old height) [
      | none ↦ candidates
      | some b ↦ add_orphans s b.transactions candidates
    ] in
    add_abandoned s old count (height + 1) more

abbrev pub entries_of : Dict Bytes Transaction → List Transaction
entries_of d = map (λ (entry : Bytes × Transaction). entry.1) d

-- `MempoolSnapshot`
unfoldable pub mempool_snapshot : Mempool → List Transaction
mempool_snapshot m = sort_slice before_in_snapshot (all_transactions m)

module _ (crypto : Crypto) where
  -- One transaction of the rebuilding loop: whether it was recovered.
  unfoldable pub recover_one : State → Bytes → Transaction → Mempool → Bool × Mempool
  recover_one s network tx m =
      if is_transaction_processed s tx.id
      then (false, m)
      else elim (validate_mempool_transaction_for crypto s
          (map some (transactions_for_sender m tx.from)) (some tx) network) [
            | err e ↦ (false, m)
            | ok _ ↦
                let (r, m') = add_transaction (some tx) m in
                elim r [ err e ↦ (false, m') | ok _ ↦ (true, m') ]
          ]

  -- The rebuilding loop, with `recovered` so far.
  unfoldable pub recover_all : State → Bytes → List Transaction → ℕ → Mempool → ℕ × Mempool
  recover_all s network [] recovered m = (recovered, m)
  recover_all s network (tx ∷ txs) recovered m =
      let (added, m') = recover_one s network tx m in
      recover_all s network txs (if added then recovered + 1 else recovered) m'

  -- What follows an adoption: `n` has the new chain and state, and still the old mempool.
  unfoldable pub rebuild_mempool : Chain → State → Node → ℕ × Node
  rebuild_mempool old s n =
      let candidates =
        add_abandoned s old (chain_height old) 1 (add_pending (all_transactions n.mempool) []) in
      let ordered = sort_slice before_in_snapshot (entries_of candidates) in
      let (recovered, m) = recover_all s (active_network n) ordered 0 new_mempool in
      (recovered, refresh_chain_status crypto (record n { mempool = m }))

  -- `ReorganizeWithMempoolRecovery`
  unfoldable pub reorganize_with_mempool_recovery :
      (ℕ → ℤ) → (ℕ → ℤ) → Option Chain → Node → Result (Bool × ℕ) × Node
  reorganize_with_mempool_recovery clock later none n = (err chain_missing, n)
  reorganize_with_mempool_recovery clock later (some candidate) n = elim n.chain [
    | none ↦ (err chain_missing, n)
    | some current ↦ elim n.state [
      | none ↦ (err state_missing, n)
      | some s ↦ elim (clone_chain current) [
        | err e ↦ (err (source_invalid e), n)
        | ok old ↦
            let (r, (c, t)) = reorganize_to_candidate crypto clock later current s candidate in
            let n' = record n { chain = some c; state = some t } in
            elim r [
              | err e ↦ (err e, n')
              | ok adopted ↦
                  if adopted
                  then (let (recovered, n'') = rebuild_mempool old t n' in
                      (ok (true, recovered), n''))
                  else (ok (false, 0), n')
            ]
      ]
    ]
  ]
