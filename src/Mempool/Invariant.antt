-- ===== src/Mempool/Invariant.antt =====
-- Every operation of the mempool keeps its accounts.
use sudharma.Base.{
  Bytes, List, Option, Option-cases, Result-cases, [], arith, bytes_keys, if◌then◌else◌, inl, inr,
  leb, length, nat_keys, none, ok, refl, some, ℕ, ◌+◌, ◌-◌, ◌<◌, ◌∷◌, ◌≡◌, ◌≤◌,
}
use sudharma.Dict.{Dict, erase, lookup, lookup-erase, lookup-insert}
use sudharma.Mempool.Accounting.{
  IsAccounted, Unique, erase-Unique, insert-Unique, length-erase, length-insert, size_sum,
  size_sum-erase, size_sum-insert,
}
use sudharma.Mempool.Methods.{
  add_transaction, check_admission, check_admission_locked, drop_nonce, new_mempool,
  remove_transaction, store_transaction,
}
use sudharma.Mempool.Record.{EntryMetadata, Mempool}
use sudharma.Params.{max_mempool_bytes, max_mempool_transactions}
use sudharma.Transactions.Record.{Transaction, estimated_serialized_size, validate_resource_bounds}

pub new_mempool-IsAccounted : IsAccounted new_mempool
unfolding new_mempool size_sum Unique lookup
new_mempool-IsAccounted = record {
  same_keys = λ id. refl;
  unique = tt;
  exact_bytes = refl;
  bytes_bounded = omega arith;
  count_bounded = omega arith;
}

admitted :
    (m : Mempool) (tx : Transaction)
    → check_admission m (some tx) ≡ ok tt
    → (lookup tx.id m.pending ≡ none)
      × (length m.pending < max_mempool_transactions)
      × (m.total_estimated_bytes + estimated_serialized_size tx ≤ max_mempool_bytes)
unfolding check_admission check_admission_locked
admitted m tx h = elim (Result-cases (validate_resource_bounds tx)) [
  | inr (x, e) ↦ absurd (ground (arith, e))
  | inl (u, e) ↦ elim (Option-cases (lookup tx.id m.pending)) [
    | inr (old, f) ↦ absurd (ground (arith, e, f))
    | inl f ↦ (f, ground (arith, e, f), ground (arith, e, f))
  ]
]

pub absent :
    (m : Mempool) (id : Bytes)
    → IsAccounted m
    → lookup id m.pending ≡ none
    → lookup id m.metadata ≡ none
absent m id a h = elim (Option-cases (lookup id m.metadata)) [
  | inl e ↦ e
  | inr (meta, e) ↦ absurd (ground (arith, e, h, a.same_keys id))
]

store-IsAccounted :
    (m : Mempool) (tx : Transaction)
    → IsAccounted m
    → check_admission m (some tx) ≡ ok tt
    → IsAccounted (store_transaction m tx)
unfolding store_transaction
store-IsAccounted m tx a h =
    let meta : EntryMetadata = record {
      sender = tx.from;
      sender_nonce = tx.nonce;
      size = estimated_serialized_size tx;
    } in
    let (fresh, few, small) = admitted m tx h in
    let sum = size_sum-insert tx.id meta m.metadata (absent m tx.id a fresh) in
    record {
      same_keys = λ id. ground (
        arith,
        lookup-insert tx.id id tx m.pending,
        lookup-insert tx.id id meta m.metadata,
        a.same_keys id,
      );
      unique = insert-Unique tx.id meta m.metadata a.unique;
      exact_bytes = omega (arith, a.exact_bytes);
      bytes_bounded = small;
      count_bounded = omega (arith, length-insert tx.id tx m.pending);
    }

pub add_transaction-IsAccounted :
    (m : Mempool) (tx : Option Transaction) → IsAccounted m → IsAccounted (add_transaction tx m).1
unfolding add_transaction
add_transaction-IsAccounted m none a = a
add_transaction-IsAccounted m (some tx) a = elim (Result-cases (check_admission m (some tx))) [
  | inr (x, e) ↦ rw (e, add_transaction) a
  | inl (u, e) ↦ rw (e, add_transaction) (store-IsAccounted m tx a e)
]

removed-IsAccounted :
    (m : Mempool) (id : Bytes) (meta : EntryMetadata) (index : Dict Bytes (Dict ℕ Bytes))
    → IsAccounted m
    → lookup id m.metadata ≡ some meta
    → IsAccounted (record {
      pending = erase id m.pending;
      metadata = erase id m.metadata;
      total_estimated_bytes =
          if leb m.total_estimated_bytes meta.size then 0 else m.total_estimated_bytes - meta.size;
      sender_nonces = index;
    })
removed-IsAccounted m id meta index a e =
    let sum = size_sum-erase id meta m.metadata a.unique e in
    record {
      same_keys = λ j.
          ground (arith, lookup-erase id j m.pending, lookup-erase id j m.metadata, a.same_keys j);
      unique = erase-Unique id m.metadata a.unique;
      exact_bytes = ground (arith, sum, a.exact_bytes);
      bytes_bounded = ground (arith, a.bytes_bounded);
      count_bounded = omega (arith, length-erase id m.pending, a.count_bounded);
    }

pub remove_transaction-IsAccounted :
    (m : Mempool) (id : Bytes) → IsAccounted m → IsAccounted (remove_transaction id m)
unfolding remove_transaction
remove_transaction-IsAccounted m id a = elim (Option-cases (lookup id m.pending)) [
  | inl e ↦ rw (e, remove_transaction) a
  | inr (tx, e) ↦ elim (Option-cases (lookup id m.metadata)) [
    | inl f ↦ absurd (ground (arith, e, f, a.same_keys id))
    | inr (meta, f) ↦
        rw (e, f, remove_transaction) (removed-IsAccounted m id meta (drop_nonce id meta m) a f)
  ]
]

-- The calls that change a mempool; `clear` is `Clear`.
pub data Operation : Type 0 where
  add : Option Transaction → Operation
  remove : Bytes → Operation
  clear : Operation

unfoldable pub perform : Operation → Mempool → Mempool
perform (add tx) m = (add_transaction tx m).1
perform (remove id) m = remove_transaction id m
perform clear m = new_mempool

unfoldable pub perform_all : List Operation → Mempool → Mempool
perform_all [] m = m
perform_all (o ∷ os) m = perform_all os (perform o m)

kept-IsAccounted : (o : Operation) (m : Mempool) → IsAccounted m → IsAccounted (perform o m)
unfolding perform
kept-IsAccounted (add tx) m a = add_transaction-IsAccounted m tx a
kept-IsAccounted (remove id) m a = remove_transaction-IsAccounted m id a
kept-IsAccounted clear m a = new_mempool-IsAccounted

from-IsAccounted :
    (os : List Operation) (m : Mempool) → IsAccounted m → IsAccounted (perform_all os m)
unfolding perform_all
from-IsAccounted [] m a = a
from-IsAccounted (o ∷ os) m a = from-IsAccounted os (perform o m) (kept-IsAccounted o m a)

-- After every sequence of calls on a new mempool, failed ones included, the transactions and the
-- metadata have the same identifiers, each once, the cached byte count is the sum over the entries, and
-- neither the byte limit nor the limit on the number of transactions is exceeded.
pub perform_all-IsAccounted : (os : List Operation) → IsAccounted (perform_all os new_mempool)
perform_all-IsAccounted os = from-IsAccounted os new_mempool new_mempool-IsAccounted
