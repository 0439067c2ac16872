-- ===== src/Mempool/Methods.antt =====
-- blockchain/mempool/mempool.go: the methods. A map that is nil reads as an empty one.
use sudharma.Base.{
  Bool, Bytes, Option, Result, [], bytes_eq, bytes_keys, err, fail_if, false, if◌then◌else◌,
  is_empty, leb, length, ltb, mempool_bytes_full, mempool_full, nat_eq, nat_keys, nonce_pending,
  none, not, ok, rejected, sender_full, some, true, tx_already_pending, tx_id_empty, tx_nil, wrap,
  ℕ, ◌+◌, ◌-◌, ◌>>◌, ◌||◌,
}
use sudharma.Dict.{Dict, erase, get, insert, lookup}
use sudharma.Mempool.Record.{EntryMetadata, Mempool}
use sudharma.Params.{
  max_mempool_bytes, max_mempool_transactions, max_mempool_transactions_per_sender,
}
use sudharma.Transactions.Record.{Transaction, estimated_serialized_size, validate_resource_bounds}

-- `NewMempool`, and what `Clear` leaves
unfoldable pub new_mempool : Mempool
new_mempool = record { pending = []; metadata = []; total_estimated_bytes = 0; sender_nonces = [] }

-- `m.senderNonces[sender]`
unfoldable pub nonces_of : Mempool → Bytes → Dict ℕ Bytes
nonces_of m sender = get [] sender m.sender_nonces

-- `_, exists := d[k]`
abbrev pub is_present {ℓ} : {T : Type ℓ} → Option T → Bool
is_present none = false
is_present (some v) = true

unfoldable pub check_admission_locked : Mempool → Transaction → Result (Unit {0})
check_admission_locked m tx = do
  fail_if (is_empty tx.id) tx_id_empty
  fail_if (is_present (lookup tx.id m.pending)) tx_already_pending
  fail_if (leb max_mempool_transactions (length m.pending)) mempool_full
  fail_if (ltb max_mempool_bytes (m.total_estimated_bytes + estimated_serialized_size tx))
      mempool_bytes_full
  fail_if (leb max_mempool_transactions_per_sender (length (nonces_of m tx.from))) sender_full
  fail_if (is_present (lookup tx.nonce (nonces_of m tx.from))) nonce_pending

-- `CheckAdmission`
unfoldable pub check_admission : Mempool → Option Transaction → Result (Unit {0})
check_admission m none = err tx_nil
check_admission m (some tx) = do
  wrap rejected (validate_resource_bounds tx)
  check_admission_locked m tx

-- The writes of `AddTransaction`.
unfoldable pub store_transaction : Mempool → Transaction → Mempool
store_transaction m tx =
    let meta : EntryMetadata = record {
      sender = tx.from;
      sender_nonce = tx.nonce;
      size = estimated_serialized_size tx;
    } in
    record m {
      pending = insert tx.id tx m.pending;
      metadata = insert tx.id meta m.metadata;
      total_estimated_bytes = m.total_estimated_bytes + estimated_serialized_size tx;
      sender_nonces = insert tx.from (insert tx.nonce tx.id (nonces_of m tx.from)) m.sender_nonces;
    }

-- `AddTransaction`
unfoldable pub add_transaction : Option Transaction → Mempool → Result (Unit {0}) × Mempool
add_transaction none m = (err tx_nil, m)
add_transaction (some tx) m = elim (check_admission m (some tx)) [
  | err e ↦ (err e, m)
  | ok _ ↦ (ok tt, store_transaction m tx)
]

-- The index without one nonce of one sender, if it holds the identifier; a sender without nonces goes.
unfoldable pub drop_nonce : Bytes → EntryMetadata → Mempool → Dict Bytes (Dict ℕ Bytes)
drop_nonce id meta m =
    let nonces = nonces_of m meta.sender in
    let indexed : Bool = elim (lookup meta.sender_nonce nonces) [
      | none ↦ false
      | some i ↦ bytes_eq i id
    ] in
    let left : Dict ℕ Bytes = if indexed then erase meta.sender_nonce nonces else nonces in
    if not (is_present (lookup meta.sender m.sender_nonces))
    then m.sender_nonces
    else if nat_eq (length left) 0
    then erase meta.sender m.sender_nonces
    else insert meta.sender left m.sender_nonces

-- `RemoveTransaction`
unfoldable pub remove_transaction : Bytes → Mempool → Mempool
remove_transaction id m = elim (lookup id m.pending) [
  | none ↦ m
  | some tx ↦ elim (lookup id m.metadata) [
    | none ↦ record m { pending = erase id m.pending }
    | some meta ↦ record {
      pending = erase id m.pending;
      metadata = erase id m.metadata;
      total_estimated_bytes =
          if leb m.total_estimated_bytes meta.size then 0 else m.total_estimated_bytes - meta.size;
      sender_nonces = drop_nonce id meta m;
    }
  ]
]

-- `GetTransaction`
unfoldable pub get_transaction : Mempool → Bytes → Option Transaction
get_transaction m id = lookup id m.pending

-- `Count` and `CountForSender`
unfoldable pub count : Mempool → ℕ
count m = length m.pending

unfoldable pub count_for_sender : Mempool → Bytes → ℕ
count_for_sender m sender = length (nonces_of m sender)

-- `AtCapacity`
unfoldable pub at_capacity : Mempool → Bool
at_capacity m =
    leb max_mempool_transactions (length m.pending) || leb max_mempool_bytes m.total_estimated_bytes
