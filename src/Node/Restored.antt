-- ===== src/Node/Restored.antt =====
-- p2p/mempool_persistence.go: restoring a stored mempool keeps a node consistent.
use sudharma.Base.{
  All, Bool-cases, Bytes, List, Option, Result-cases, [], arith, false, inl, inr, nat_eq, some,
  subst, sym, ℕ, ◌++◌, ◌+◌, ◌∷◌, ◌≡◌,
}
use sudharma.Crypto.{Crypto}
use sudharma.Mempool.Indexed.{IsKept, new_mempool-IsKept}
use sudharma.Mempool.Methods.{add_transaction, new_mempool}
use sudharma.Mempool.Order.{before_in_snapshot, sort_slice}
use sudharma.Mempool.Record.{Mempool}
use sudharma.Node.Consistent.{IsConsistent}
use sudharma.Node.Pool.{
  Unconfirmed, add_transaction-IsKept, add_transaction-Unconfirmed, new_mempool-Unconfirmed,
}
use sudharma.Node.Record.{Node, active_network}
use sudharma.Node.Runs.{pool-IsConsistent}
use sudharma.Node.Storage.{
  distinct_stored, load_mempool, mempool_file_version, restore_all, stored_admissible, valid_stored,
}
use sudharma.State.Methods.{is_transaction_processed}
use sudharma.State.Monad.{State}
use sudharma.Transactions.Record.{Transaction}

module _ (crypto : Crypto) where
  restored-IsKept :
      (s : State) (txs : List Transaction) (loaded : ℕ) (m : Mempool)
      → All (λ tx. is_transaction_processed s tx.id ≡ false) txs
      → IsKept m
      → Unconfirmed s m
      → IsKept (restore_all txs loaded m).1 × Unconfirmed s (restore_all txs loaded m).1
  unfolding restore_all
  restored-IsKept s [] loaded m a k u = (k, u)
  restored-IsKept s (tx ∷ txs) loaded m (new, a) k u =
      let k' = add_transaction-IsKept (some tx) m k in
      let u' = add_transaction-Unconfirmed s tx m new u in
      elim (Result-cases (add_transaction (some tx) m).0) [
        | inr (x, e) ↦ rw (e, restore_all) (k', u')
        | inl (v, e) ↦
            rw (e, restore_all)
              (restored-IsKept s txs (loaded + 1) (add_transaction (some tx) m).1 a k' u')
      ]

  append-new :
      (s : State) (valid : List Transaction) (tx : Transaction)
      → All (λ x. is_transaction_processed s x.id ≡ false) valid
      → is_transaction_processed s tx.id ≡ false
      → All (λ x. is_transaction_processed s x.id ≡ false) (valid ++ (tx ∷ []))
  append-new s [] tx a h = (h, tt)
  append-new s (x ∷ valid) tx (p, a) h = (p, append-new s valid tx a h)

  valid_new :
      (s : State) (network : Bytes) (txs valid : List Transaction) (discarded : ℕ)
      → All (λ tx. is_transaction_processed s tx.id ≡ false) valid
      → All
          (λ tx. is_transaction_processed s tx.id ≡ false)
          (valid_stored crypto s network txs valid discarded).0
  unfolding valid_stored stored_admissible
  valid_new s network [] valid discarded a = a
  valid_new s network (tx ∷ txs) valid discarded a =
      elim (Bool-cases (stored_admissible crypto s network valid tx)) [
        | inr e ↦ rw (e, valid_stored) (valid_new s network txs valid (discarded + 1) a)
        | inl e ↦
            rw (e, valid_stored)
              (valid_new s network txs (valid ++ (tx ∷ [])) discarded
                (append-new s valid tx a (ground (arith, e))))
      ]

  -- The parts of a restored node.
  loaded_node :
      (txs : List (Option Transaction)) (n : Node) (s : State)
      → n.state ≡ some s
      → (valid : List Transaction) × All (λ tx. is_transaction_processed s tx.id ≡ false) valid
        × ((load_mempool crypto mempool_file_version txs n).1
            ≡ record n { mempool = (restore_all valid 0 new_mempool).1 })
  unfolding load_mempool
  loaded_node txs n s h =
      let start = distinct_stored txs [] 0 in
      let valid =
        valid_stored crypto s (active_network n) (sort_slice before_in_snapshot start.0) []
          start.1 in
      (
        valid.0,
        valid_new s (active_network n) (sort_slice before_in_snapshot start.0) [] start.1 tt,
        ground (arith, h),
      )

  other_version :
      (version : ℕ) (txs : List (Option Transaction)) (n : Node) (s : State)
      → n.state ≡ some s
      → nat_eq version mempool_file_version ≡ false
      → (load_mempool crypto version txs n).1 ≡ n
  unfolding load_mempool
  other_version version txs n s h e = ground (arith, h, e)

  -- Restoring a stored mempool, whatever it holds, keeps a node consistent.
  pub load_mempool-IsConsistent :
      (version : ℕ) (txs : List (Option Transaction)) (n : Node)
      → IsConsistent crypto n
      → IsConsistent crypto (load_mempool crypto version txs n).1
  load_mempool-IsConsistent version txs n i =
      elim (Bool-cases (nat_eq version mempool_file_version)) [
        | inr e ↦
            subst (IsConsistent crypto)
              (sym (other_version version txs n i.its_state i.has_state e)) i
        | inl e ↦
            let same : mempool_file_version ≡ version = ground (arith, e) in
            let (valid, new, loaded) = loaded_node txs n i.its_state i.has_state in
            let (kept, fresh) =
              restored-IsKept i.its_state valid 0 new_mempool new new_mempool-IsKept
                (new_mempool-Unconfirmed i.its_state) in
            subst (λ v. IsConsistent crypto (load_mempool crypto v txs n).1) same
              (subst (IsConsistent crypto) (sym loaded)
                (pool-IsConsistent crypto n (restore_all valid 0 new_mempool).1 i kept fresh))
      ]
