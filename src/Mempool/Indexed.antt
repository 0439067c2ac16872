-- ===== src/Mempool/Indexed.antt =====
-- Every operation of the mempool keeps its index.
-- What `CheckAdmission` ensures of the index.
use sudharma.Base.{
  Bool-cases, Bytes, List, Option, Option-cases, Result-cases, [], arith, bytes_eq_iff, bytes_keys,
  false, if◌then◌else◌, inl, inr, length, nat_keys, none, ok, refl, some, sym, ℕ, ◌&&◌, ◌<◌, ◌==◌,
  ◌∷◌, ◌≡◌, ◌≢◌,
}
use sudharma.Dict.{
  erase, get, length-erase_any, length-insert_any, lookup, lookup-erase, lookup-insert,
}
use sudharma.Mempool.Accounting.{IsAccounted}
use sudharma.Mempool.Index.{
  Describes, IsIndexed, dropped_indexed, dropped_nonces, indexed, stored_indexed, stored_nonces,
}
use sudharma.Mempool.Invariant.{
  Operation, absent, add, add_transaction-IsAccounted, clear, new_mempool-IsAccounted, perform,
  perform_all, remove, remove_transaction-IsAccounted,
}
use sudharma.Mempool.Methods.{
  add_transaction, check_admission, check_admission_locked, drop_nonce, new_mempool, nonces_of,
  remove_transaction, store_transaction,
}
use sudharma.Mempool.Record.{EntryMetadata, Mempool}
use sudharma.Params.{max_mempool_transactions_per_sender}
use sudharma.Transactions.Record.{Transaction, estimated_serialized_size, validate_resource_bounds}

admitted_nonce :
    (m : Mempool) (tx : Transaction)
    → check_admission m (some tx) ≡ ok tt
    → (lookup tx.id m.pending ≡ none)
      × (length (nonces_of m tx.from) < max_mempool_transactions_per_sender)
      × (indexed m tx.from tx.nonce ≡ none)
unfolding check_admission check_admission_locked
admitted_nonce m tx h = elim (Result-cases (validate_resource_bounds tx)) [
  | inr (x, e) ↦ absurd (ground (arith, e))
  | inl (u, e) ↦ elim (Option-cases (lookup tx.id m.pending)) [
    | inr (old, f) ↦ absurd (ground (arith, e, f))
    | inl f ↦ elim (Option-cases (indexed m tx.from tx.nonce)) [
      | inr (old, g) ↦ absurd (ground (arith, e, f, g))
      | inl g ↦ (f, ground (arith, e, f, g), g)
    ]
  ]
]

new_mempool-IsIndexed : IsIndexed new_mempool
unfolding new_mempool nonces_of get lookup
new_mempool-IsIndexed = record {
  described = λ sender nonce id h. absurd (cc h);
  listed = λ id meta h. absurd (cc h);
  recorded = λ id tx h. absurd (cc h);
  queue_bounded = λ sender. omega arith;
}

abbrev meta_of : Transaction → EntryMetadata
meta_of tx = record {
  sender = tx.from;
  sender_nonce = tx.nonce;
  size = estimated_serialized_size tx;
}

stored_entry :
    (m : Mempool) (tx : Transaction) (id : Bytes)
    → lookup id (store_transaction m tx).metadata
      ≡ (if tx.id == id then some (meta_of tx) else lookup id m.metadata)
unfolding store_transaction
stored_entry m tx id = lookup-insert tx.id id (meta_of tx) m.metadata

stored_tx :
    (m : Mempool) (tx : Transaction) (id : Bytes)
    → lookup id (store_transaction m tx).pending
      ≡ (if tx.id == id then some tx else lookup id m.pending)
unfolding store_transaction
stored_tx m tx id = lookup-insert tx.id id tx m.pending

stored-Describes :
    (m : Mempool) (tx : Transaction) (id sender : Bytes) (nonce : ℕ)
    → lookup tx.id m.metadata ≡ none
    → Describes m id sender nonce
    → Describes (store_transaction m tx) id sender nonce
stored-Describes m tx id sender nonce fresh d = record {
  entry = d.entry;
  its_entry = ground (arith, stored_entry m tx id, d.its_entry, bytes_eq_iff tx.id id);
  its_sender = d.its_sender;
  its_nonce = d.its_nonce;
}

own-Describes :
    (m : Mempool) (tx : Transaction) → Describes (store_transaction m tx) tx.id tx.from tx.nonce
own-Describes m tx = record {
  entry = meta_of tx;
  its_entry = ground (arith, stored_entry m tx tx.id, bytes_eq_iff tx.id tx.id);
  its_sender = refl;
  its_nonce = refl;
}

store-IsIndexed :
    (m : Mempool) (tx : Transaction)
    → IsIndexed m
    → lookup tx.id m.metadata ≡ none
    → check_admission m (some tx) ≡ ok tt
    → IsIndexed (store_transaction m tx)
store-IsIndexed m tx i fresh h =
    let (_, few, unused) = admitted_nonce m tx h in
    record {
      described = λ sender nonce id k.
          elim (Bool-cases ((tx.from == sender) && (tx.nonce == nonce))) [
            | inl e ↦
                let (same_sender, same_nonce, same_id) : (tx.from ≡ sender)
                    × (tx.nonce ≡ nonce)
                    × (tx.id ≡ id) =
                  ground
                    (arith, e, stored_indexed m tx sender nonce, bytes_eq_iff tx.from sender) in
                rw (sym same_sender, sym same_nonce, sym same_id) (own-Describes m tx)
            | inr e ↦
                stored-Describes m tx id sender nonce fresh (
                  i.described sender nonce id (ground (arith, e, stored_indexed m tx sender nonce)))
          ];
      listed = λ id meta k. ground (
        arith,
        stored_entry m tx id,
        stored_indexed m tx meta.sender meta.sender_nonce,
        i.listed id meta,
        bytes_eq_iff tx.id id,
        bytes_eq_iff tx.from meta.sender,
      );
      recorded = λ id other k. elim (Bool-cases (tx.id == id)) [
        | inl e ↦
            let (same_id, same_tx) : (tx.id ≡ id) × (tx ≡ other) =
              ground (arith, e, stored_tx m tx id, bytes_eq_iff tx.id id) in
            rw (sym same_id, sym same_tx) (own-Describes m tx)
        | inr e ↦
            stored-Describes m tx id other.from other.nonce fresh
              (i.recorded id other (ground (arith, e, stored_tx m tx id)))
      ];
      queue_bounded = λ sender. ground (
        arith,
        stored_nonces m tx sender,
        length-insert_any tx.nonce tx.id (nonces_of m tx.from),
        i.queue_bounded sender,
      );
    }

removed-Describes :
    (id j sender : Bytes) (nonce : ℕ) (m m' : Mempool)
    → m'.metadata ≡ erase id m.metadata
    → id ≢ j
    → Describes m j sender nonce
    → Describes m' j sender nonce
removed-Describes id j sender nonce m m' e ne d = record {
  entry = d.entry;
  its_entry = rw e (ground (arith, lookup-erase id j m.metadata, d.its_entry, bytes_eq_iff id j));
  its_sender = d.its_sender;
  its_nonce = d.its_nonce;
}

removed-IsIndexed :
    (m m' : Mempool) (id : Bytes) (meta : EntryMetadata)
    → IsIndexed m
    → lookup id m.metadata ≡ some meta
    → m'.pending ≡ erase id m.pending
    → m'.metadata ≡ erase id m.metadata
    → m'.sender_nonces ≡ drop_nonce id meta m
    → IsIndexed m'
unfolding nonces_of
removed-IsIndexed m m' id meta i e same_pending same_metadata same_index =
    let own = i.listed id meta e in
    let entries = λ (j : Bytes). lookup-erase id j m.metadata in
    let index =
      λ (sender : Bytes) (nonce : ℕ). dropped_indexed id sender nonce meta m m' same_index own in
    record {
      described = λ sender nonce j k.
          let (other, old) : ((meta.sender == sender) && (meta.sender_nonce == nonce) ≡ false)
              × (indexed m sender nonce ≡ some j) =
            ground (arith, index sender nonce) in
          let d = i.described sender nonce j old in
          removed-Describes id j sender nonce m m' same_metadata
            (λ same. ground (
              arith,
              other,
              d.its_entry,
              d.its_sender,
              d.its_nonce,
              bytes_eq_iff meta.sender sender,
            ))
            d;
      listed = λ j other k.
          let (ne, old) : (id ≢ j) × (lookup j m.metadata ≡ some other) =
            ground (arith, entries j, same_metadata, bytes_eq_iff id j) in
          ground (
            arith,
            i.listed j other old,
            index other.sender other.sender_nonce,
            bytes_eq_iff meta.sender other.sender,
          );
      recorded = λ j tx k.
          let (ne, old) : (id ≢ j) × (lookup j m.pending ≡ some tx) =
            ground (arith, lookup-erase id j m.pending, same_pending, bytes_eq_iff id j) in
          removed-Describes id j tx.from tx.nonce m m' same_metadata ne (i.recorded j tx old);
      queue_bounded = λ sender. rw same_index (
          ground (
            arith,
            dropped_nonces id sender meta m own,
            length-erase_any meta.sender_nonce (nonces_of m meta.sender),
            i.queue_bounded sender,
            i.queue_bounded meta.sender,
          ));
    }

remove_transaction-IsIndexed :
    (m : Mempool) (id : Bytes) → IsAccounted m → IsIndexed m → IsIndexed (remove_transaction id m)
unfolding remove_transaction
remove_transaction-IsIndexed m id a i = elim (Option-cases (lookup id m.pending)) [
  | inl e ↦ rw (e, remove_transaction) i
  | inr (tx, e) ↦ elim (Option-cases (lookup id m.metadata)) [
    | inl f ↦ absurd (ground (arith, e, f, a.same_keys id))
    | inr (meta, f) ↦
        rw (e, f, remove_transaction) (removed-IsIndexed m _ id meta i f refl refl refl)
  ]
]

add_transaction-IsIndexed :
    (m : Mempool) (tx : Option Transaction)
    → IsAccounted m
    → IsIndexed m
    → IsIndexed (add_transaction tx m).1
unfolding add_transaction
add_transaction-IsIndexed m none a i = i
add_transaction-IsIndexed m (some tx) a i = elim (Result-cases (check_admission m (some tx))) [
  | inr (x, e) ↦ rw (e, add_transaction) i
  | inl (u, e) ↦
      rw (e, add_transaction)
        (store-IsIndexed m tx i (absent m tx.id a (admitted_nonce m tx e).0) e)
]

-- The accounts and the index hold.
pub record IsKept (m : Mempool) : Type 0 where
  pub accounts : IsAccounted m
  pub index : IsIndexed m

pub new_mempool-IsKept : IsKept new_mempool
new_mempool-IsKept = record { accounts = new_mempool-IsAccounted; index = new_mempool-IsIndexed }

pub perform-IsKept : (o : Operation) (m : Mempool) → IsKept m → IsKept (perform o m)
unfolding perform
perform-IsKept (add tx) m k = record {
  accounts = add_transaction-IsAccounted m tx k.accounts;
  index = add_transaction-IsIndexed m tx k.accounts k.index;
}
perform-IsKept (remove id) m k = record {
  accounts = remove_transaction-IsAccounted m id k.accounts;
  index = remove_transaction-IsIndexed m id k.accounts k.index;
}
perform-IsKept clear m k = new_mempool-IsKept

from-IsKept : (os : List Operation) (m : Mempool) → IsKept m → IsKept (perform_all os m)
unfolding perform_all
from-IsKept [] m k = k
from-IsKept (o ∷ os) m k = from-IsKept os (perform o m) (perform-IsKept o m k)

-- After every sequence of calls on a new mempool, failed ones included, the index has for a sender and
-- a nonce exactly the identifier whose metadata have them, the metadata are those of the transaction,
-- so no sender has two transactions with one nonce, and no sender has more than 64 transactions.
pub perform_all-IsIndexed : (os : List Operation) → IsIndexed (perform_all os new_mempool)
perform_all-IsIndexed os = (from-IsKept os new_mempool new_mempool-IsKept).index
