-- ===== src/Mempool/Order.antt =====
-- The orders in which the node lists pending transactions, and sorting by them. Go compares strings byte
-- by byte; `sort.Slice` is modelled by an insertion sort, which gives the one sorted order there is
-- where no two transactions have the same key.
pub mod Laws
use sudharma.Base.{Bool, Bytes, List, [], bytes_eq, false, if◌then◌else◌, ltb, nat_eq, true, ◌∷◌}
use sudharma.Transactions.Record.{Transaction}

abbrev pub bytes_ltb : Bytes → Bytes → Bool
bytes_ltb xs [] = false
bytes_ltb [] (y ∷ ys) = true
bytes_ltb (x ∷ xs) (y ∷ ys) = if nat_eq x y then bytes_ltb xs ys else ltb x y

-- `TransactionsForSender`: by nonce, then by identifier
unfoldable pub before_in_chain : Transaction → Transaction → Bool
before_in_chain a b = if nat_eq a.nonce b.nonce then bytes_ltb a.id b.id else ltb a.nonce b.nonce

-- `MempoolSnapshot`: by sender first
unfoldable pub before_in_snapshot : Transaction → Transaction → Bool
before_in_snapshot a b =
    if bytes_eq a.from b.from then before_in_chain a b else bytes_ltb a.from b.from

module _ (less : Transaction → Transaction → Bool) where
  unfoldable pub insert_ordered : Transaction → List Transaction → List Transaction
  insert_ordered tx [] = tx ∷ []
  insert_ordered tx (x ∷ xs) = if less x tx then x ∷ insert_ordered tx xs else tx ∷ x ∷ xs

  -- `sort.Slice`
  unfoldable pub sort_slice : List Transaction → List Transaction
  sort_slice [] = []
  sort_slice (tx ∷ txs) = insert_ordered tx (sort_slice txs)
