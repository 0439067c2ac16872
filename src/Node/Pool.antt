-- ===== src/Node/Pool.antt =====
-- What the node's operations leave in the mempool.
-- No pending transaction is processed in the state.
use sudharma.Base.{
  Bool-cases, Bytes, List, Option, Option-cases, Result-cases, [], arith, bytes_eq_iff, bytes_keys,
  false, if◌then◌else◌, inl, inr, map, nat_keys, none, some, ℕ, ◌+◌, ◌∷◌, ◌≡◌, ◌≢◌,
}
use sudharma.Crypto.{Crypto}
use sudharma.Dict.{lookup, lookup-erase, lookup-insert}
use sudharma.Ledger.Marks.{HasId}
use sudharma.Mempool.Indexed.{IsKept, perform-IsKept}
use sudharma.Mempool.Invariant.{add, perform, remove}
use sudharma.Mempool.Listing.{transactions_for_sender}
use sudharma.Mempool.Methods.{
  add_transaction, check_admission, new_mempool, remove_transaction, store_transaction,
}
use sudharma.Mempool.Record.{Mempool}
use sudharma.Mempool.Validate.{validate_mempool_transaction_for}
use sudharma.Node.Blocks.{remove_all}
use sudharma.Node.Recovery.{recover_all, recover_one}
use sudharma.State.Methods.{is_transaction_processed}
use sudharma.State.Monad.{State}
use sudharma.Transactions.Record.{Transaction}

abbrev pub Unconfirmed : State → Mempool → Type 0
Unconfirmed s m =
    (id : Bytes) (tx : Transaction)
    → lookup id m.pending ≡ some tx
    → is_transaction_processed s id ≡ false

pub new_mempool-Unconfirmed : (s : State) → Unconfirmed s new_mempool
unfolding new_mempool lookup
new_mempool-Unconfirmed s id tx h = absurd (cc h)

removed_entry :
    (m : Mempool) (id j : Bytes) (tx : Transaction)
    → lookup j (remove_transaction id m).pending ≡ some tx
    → (id ≢ j) × (lookup j m.pending ≡ some tx)
unfolding remove_transaction
removed_entry m id j tx h = elim (Option-cases (lookup id m.pending)) [
  | inl e ↦
      let old : lookup j m.pending ≡ some tx = rw (e, remove_transaction) at h in
      (λ same. ground (arith, e, old, same), old)
  | inr (entry, e) ↦ elim (Option-cases (lookup id m.metadata)) [
    | inl f ↦ ground (arith, e, f, lookup-erase id j m.pending, bytes_eq_iff id j)
    | inr (meta, f) ↦ ground (arith, e, f, lookup-erase id j m.pending, bytes_eq_iff id j)
  ]
]

-- What is left is none of the removed transactions.
pub remove_all_entry :
    (txs : List (Option Transaction)) (m : Mempool) (j : Bytes) (tx : Transaction)
    → lookup j (remove_all txs m).pending ≡ some tx
    → (¬ HasId j txs) × (lookup j m.pending ≡ some tx)
unfolding remove_all HasId
remove_all_entry [] m j tx h = (λ x. x, h)
remove_all_entry (none ∷ txs) m j tx h = remove_all_entry txs m j tx h
remove_all_entry (some t ∷ txs) m j tx h =
    let (none_of, left) = remove_all_entry txs (remove_transaction t.id m) j tx h in
    let (ne, old) = removed_entry m t.id j tx left in
    (λ has. elim has [ inl same ↦ ne same | inr later ↦ none_of later ], old)

pub remove_all-IsKept :
    (txs : List (Option Transaction)) (m : Mempool) → IsKept m → IsKept (remove_all txs m)
unfolding remove_all perform
remove_all-IsKept [] m k = k
remove_all-IsKept (none ∷ txs) m k = remove_all-IsKept txs m k
remove_all-IsKept (some tx ∷ txs) m k =
    remove_all-IsKept txs (remove_transaction tx.id m) (perform-IsKept (remove tx.id) m k)

pub add_transaction-IsKept :
    (tx : Option Transaction) (m : Mempool) → IsKept m → IsKept (add_transaction tx m).1
unfolding perform
add_transaction-IsKept tx m k = perform-IsKept (add tx) m k

pub add_transaction-Unconfirmed :
    (s : State) (tx : Transaction) (m : Mempool)
    → is_transaction_processed s tx.id ≡ false
    → Unconfirmed s m
    → Unconfirmed s (add_transaction (some tx) m).1
unfolding add_transaction store_transaction
add_transaction-Unconfirmed s tx m new u id other =
    elim (Result-cases (check_admission m (some tx))) [
      | inr (x, e) ↦ rw (e, add_transaction) (u id other)
      | inl (v, e) ↦
          rw (e, add_transaction)
            (λ h.
              ground (
                arith,
                new,
                u id other,
                lookup-insert tx.id id tx m.pending,
                bytes_eq_iff tx.id id,
              ))
    ]

module _ (crypto : Crypto) where
  recover_one-IsKept :
      (s : State) (network : Bytes) (tx : Transaction) (m : Mempool)
      → IsKept m
      → Unconfirmed s m
      → IsKept (recover_one crypto s network tx m).1
        × Unconfirmed s (recover_one crypto s network tx m).1
  unfolding recover_one
  recover_one-IsKept s network tx m k u = elim (Bool-cases (is_transaction_processed s tx.id)) [
    | inl e ↦ rw (e, recover_one) (k, u)
    | inr e ↦
        elim (Result-cases (
          validate_mempool_transaction_for crypto s (map some (transactions_for_sender m tx.from))
            (some tx) network)) [
              | inr (x, f) ↦ rw (e, f, recover_one) (k, u)
              | inl (v, f) ↦
                  let k' = add_transaction-IsKept (some tx) m k in
                  let u' = add_transaction-Unconfirmed s tx m e u in
                  elim (Result-cases (add_transaction (some tx) m).0) [
                    | inr (x, g) ↦ rw (e, f, g, recover_one) (k', u')
                    | inl (w, g) ↦ rw (e, f, g, recover_one) (k', u')
                  ]
            ]
  ]

  pub recover_all-IsKept :
      (s : State) (network : Bytes) (txs : List Transaction) (recovered : ℕ) (m : Mempool)
      → IsKept m
      → Unconfirmed s m
      → IsKept (recover_all crypto s network txs recovered m).1
        × Unconfirmed s (recover_all crypto s network txs recovered m).1
  unfolding recover_all
  recover_all-IsKept s network [] recovered m k u = (k, u)
  recover_all-IsKept s network (tx ∷ txs) recovered m k u =
      let (k', u') = recover_one-IsKept s network tx m k u in
      recover_all-IsKept s network txs
        (if (recover_one crypto s network tx m).0 then recovered + 1 else recovered)
        (recover_one crypto s network tx m).1 k' u'
