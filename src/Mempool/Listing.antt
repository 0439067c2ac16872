-- ===== src/Mempool/Listing.antt =====
-- blockchain/mempool/mempool.go: the methods that list pending transactions. The order in which Go ranges
-- over a map is that of the association list here; what sorts its result does not depend on it.
use sudharma.Base.{Bytes, List, [], bytes_keys, map, nat_keys, none, some, ℕ, ◌∷◌}
use sudharma.Dict.{Dict, lookup}
use sudharma.Mempool.Methods.{nonces_of}
use sudharma.Mempool.Order.{before_in_chain, sort_slice}
use sudharma.Mempool.Record.{Mempool}
use sudharma.Transactions.Record.{Transaction}

unfoldable pub pending_entries : Dict ℕ Bytes → Dict Bytes Transaction → List Transaction
pending_entries [] transactions = []
pending_entries ((nonce, id) ∷ nonces) transactions =
    let rest = pending_entries nonces transactions in
    elim (lookup id transactions) [ none ↦ rest | some tx ↦ tx ∷ rest ]

-- `TransactionsForSender`
unfoldable pub transactions_for_sender : Mempool → Bytes → List Transaction
transactions_for_sender m sender =
    sort_slice before_in_chain (pending_entries (nonces_of m sender) m.pending)

-- `AllTransactions`
unfoldable pub all_transactions : Mempool → List Transaction
all_transactions m = map (λ (entry : Bytes × Transaction). entry.1) m.pending
