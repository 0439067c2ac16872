-- ===== src/Node/Storage.antt =====
-- p2p/mempool_persistence.go: restoring a stored mempool. The file was read and decoded; a payload is
-- its version and its transactions.
use sudharma.Base.{
  Bool, Bytes, List, Option, Result, [], bytes_keys, err, false, if◌then◌else◌, is_empty, map,
  nat_eq, nat_keys, none, not, ok, rejected, some, state_missing, true, unsupported_version, ℕ,
  ◌&&◌, ◌++◌, ◌+◌, ◌||◌, ◌∷◌,
}
use sudharma.Crypto.{Crypto}
use sudharma.Dict.{Dict, get, insert}
use sudharma.Mempool.Methods.{add_transaction, new_mempool}
use sudharma.Mempool.Order.{before_in_snapshot, sort_slice}
use sudharma.Mempool.Record.{Mempool}
use sudharma.Mempool.Validate.{validate_mempool_transaction_for}
use sudharma.Node.Record.{Node, active_network}
use sudharma.State.Methods.{is_transaction_processed}
use sudharma.State.Monad.{State}
use sudharma.Transactions.Record.{Transaction}
use sudharma.Transactions.Signature.{verify_for_network}

abbrev pub mempool_file_version : ℕ
mempool_file_version = 1

-- The loop over the payload, with the transactions and the identifiers seen so far.
unfoldable pub distinct_stored :
    List (Option Transaction) → Dict Bytes Bool → ℕ → List Transaction × ℕ
distinct_stored [] seen discarded = ([], discarded)
distinct_stored (none ∷ txs) seen discarded = distinct_stored txs seen (discarded + 1)
distinct_stored (some tx ∷ txs) seen discarded =
    let refused = is_empty tx.id || get false tx.id seen in
    let (ordered, n) =
      distinct_stored txs (if refused then seen else insert tx.id true seen)
        (if refused then discarded + 1 else discarded) in
    (if refused then ordered else tx ∷ ordered, n)

-- The loop that adds the valid transactions, up to the first failure: how many were added.
unfoldable pub restore_all : List Transaction → ℕ → Mempool → (Result (Unit {0}) × ℕ) × Mempool
restore_all [] loaded m = ((ok tt, loaded), m)
restore_all (tx ∷ txs) loaded m =
    let (r, m') = add_transaction (some tx) m in
    elim r [ err e ↦ ((err (rejected e), loaded), m') | ok _ ↦ restore_all txs (loaded + 1) m' ]

module _ (crypto : Crypto) where
  -- A stored transaction is admissible on the state after the valid ones before it.
  unfoldable pub stored_admissible : State → Bytes → List Transaction → Transaction → Bool
  stored_admissible s network valid tx =
      not (is_transaction_processed s tx.id)
      && verify_for_network crypto tx network
      && elim (validate_mempool_transaction_for crypto s (map some valid) (some tx) network) [
        | err e ↦ false
        | ok _ ↦ true
      ]

  -- The loop over the sorted transactions, with the valid ones so far.
  unfoldable pub valid_stored :
      State → Bytes → List Transaction → List Transaction → ℕ → List Transaction × ℕ
  valid_stored s network [] valid discarded = (valid, discarded)
  valid_stored s network (tx ∷ txs) valid discarded =
      let admissible = stored_admissible s network valid tx in
      valid_stored s network txs (if admissible then valid ++ (tx ∷ []) else valid)
        (if admissible then discarded else discarded + 1)

  -- `LoadMempoolFromFile`: the error and the counts of loaded and rejected transactions
  unfoldable pub load_mempool :
      ℕ → List (Option Transaction) → Node → (Result (Unit {0}) × (ℕ × ℕ)) × Node
  load_mempool version txs n = elim n.state [
    | none ↦ ((err state_missing, (0, 0)), n)
    | some s ↦
        if not (nat_eq version mempool_file_version)
        then ((err unsupported_version, (0, 0)), n)
        else (let (ordered, refused) = distinct_stored txs [] 0 in
            let (valid, discarded) =
              valid_stored s (active_network n) (sort_slice before_in_snapshot ordered) []
                refused in
            let ((r, loaded), m) = restore_all valid 0 new_mempool in
            ((r, (loaded, discarded)), record n { mempool = m }))
  ]
