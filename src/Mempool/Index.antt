-- ===== src/Mempool/Index.antt =====
-- The index of the nonces of each sender: what it holds for every mempool that the calls can make.
-- The identifier that the index has for a nonce of a sender.
use sudharma.Base.{
  Bytes, List, Option, Option-cases, [], arith, bytes_eq_iff, bytes_keys, if◌then◌else◌, inl, inr,
  length, nat_keys, none, refl, some, ℕ, ◌&&◌, ◌==◌, ◌∷◌, ◌≡◌, ◌≤◌,
}
use sudharma.Dict.{
  erase, get, get-erase, get-insert, get_absent, insert, lookup, lookup-erase, lookup-insert,
}
use sudharma.Mempool.Methods.{drop_nonce, nonces_of, store_transaction}
use sudharma.Mempool.Record.{EntryMetadata, Mempool}
use sudharma.Params.{max_mempool_transactions_per_sender}
use sudharma.Transactions.Record.{Transaction}

abbrev pub indexed : Mempool → Bytes → ℕ → Option Bytes
indexed m sender nonce = lookup nonce (nonces_of m sender)

-- The metadata of an identifier has this sender and this nonce.
pub record Describes (m : Mempool) (id sender : Bytes) (nonce : ℕ) : Type 0 where
  pub entry : EntryMetadata
  pub its_entry : lookup id m.metadata ≡ some entry
  pub its_sender : entry.sender ≡ sender
  pub its_nonce : entry.sender_nonce ≡ nonce

-- The index and the metadata say the same, the metadata describe the transactions, and no sender has
-- more transactions than the limit.
pub record IsIndexed (m : Mempool) : Type 0 where
  pub described :
      (sender : Bytes) (nonce : ℕ) (id : Bytes)
      → lookup nonce (nonces_of m sender) ≡ some id
      → Describes m id sender nonce
  pub listed :
      (id : Bytes) (meta : EntryMetadata)
      → lookup id m.metadata ≡ some meta
      → lookup meta.sender_nonce (nonces_of m meta.sender) ≡ some id
  pub recorded :
      (id : Bytes) (tx : Transaction)
      → lookup id m.pending ≡ some tx
      → Describes m id tx.from tx.nonce
  pub queue_bounded :
      (sender : Bytes) → length (nonces_of m sender) ≤ max_mempool_transactions_per_sender

-- Two pending transactions of one sender with one nonce have the same identifier.
pub one_pending_per_nonce :
    (m : Mempool) (id id' : Bytes) (tx tx' : Transaction)
    → IsIndexed m
    → lookup id m.pending ≡ some tx
    → lookup id' m.pending ≡ some tx'
    → tx.from ≡ tx'.from
    → tx.nonce ≡ tx'.nonce
    → id ≡ id'
one_pending_per_nonce m id id' tx tx' i h h' same_from same_nonce =
    let a = i.recorded id tx h in
    let b = i.recorded id' tx' h' in
    let p = i.listed id a.entry a.its_entry in
    let q = i.listed id' b.entry b.its_entry in
    ground (arith, a.its_sender, a.its_nonce, b.its_sender, b.its_nonce)

empty_length : {A : Type 0} (xs : List A) → length xs ≡ 0 → xs ≡ []
empty_length [] h = refl
empty_length (x ∷ xs) h = absurd (omega arith)

-- The index after `AddTransaction`.
pub stored_nonces :
    (m : Mempool) (tx : Transaction) (sender : Bytes)
    → nonces_of (store_transaction m tx) sender ≡ (
        if tx.from == sender
        then insert tx.nonce tx.id (nonces_of m tx.from)
        else nonces_of m sender)
unfolding store_transaction nonces_of
stored_nonces m tx sender =
    get-insert [] tx.from sender (insert tx.nonce tx.id (nonces_of m tx.from)) m.sender_nonces

pub stored_indexed :
    (m : Mempool) (tx : Transaction) (sender : Bytes) (nonce : ℕ)
    → indexed (store_transaction m tx) sender nonce
      ≡ (if (tx.from == sender) && (tx.nonce == nonce) then some tx.id else indexed m sender nonce)
stored_indexed m tx sender nonce = ground (
  arith,
  stored_nonces m tx sender,
  lookup-insert tx.nonce nonce tx.id (nonces_of m tx.from),
  bytes_eq_iff tx.from sender,
)

unlisted :
    (m : Mempool) (sender : Bytes) (nonce : ℕ)
    → lookup sender m.sender_nonces ≡ none
    → indexed m sender nonce ≡ none
unfolding nonces_of lookup
unlisted m sender nonce h = rw (get_absent [] sender m.sender_nonces h) refl

-- The index after `RemoveTransaction` of an entry that it lists.
pub dropped_nonces :
    (id sender : Bytes) (meta : EntryMetadata) (m : Mempool)
    → indexed m meta.sender meta.sender_nonce ≡ some id
    → get [] sender (drop_nonce id meta m) ≡ (
        if meta.sender == sender
        then erase meta.sender_nonce (nonces_of m meta.sender)
        else nonces_of m sender)
unfolding drop_nonce nonces_of
dropped_nonces id sender meta m h = elim (Option-cases (lookup meta.sender m.sender_nonces)) [
  | inl e ↦ absurd (cc (unlisted m meta.sender meta.sender_nonce e))
  | inr (nonces, e) ↦
      let left = erase meta.sender_nonce (nonces_of m meta.sender) in
      ground (
        arith,
        e,
        empty_length left,
        bytes_eq_iff id id,
        get-erase [] meta.sender sender m.sender_nonces,
        get-insert [] meta.sender sender left m.sender_nonces,
      )
]

pub dropped_indexed :
    (id sender : Bytes) (nonce : ℕ) (meta : EntryMetadata) (m m' : Mempool)
    → m'.sender_nonces ≡ drop_nonce id meta m
    → indexed m meta.sender meta.sender_nonce ≡ some id
    → indexed m' sender nonce ≡ (
        if (meta.sender == sender) && (meta.sender_nonce == nonce)
        then none
        else indexed m sender nonce)
unfolding nonces_of
dropped_indexed id sender nonce meta m m' e h =
    let n : nonces_of m' sender ≡ (
        if meta.sender == sender
        then erase meta.sender_nonce (nonces_of m meta.sender)
        else nonces_of m sender) =
      rw e (dropped_nonces id sender meta m h) in
    ground (
      arith,
      n,
      lookup-erase meta.sender_nonce nonce (nonces_of m meta.sender),
      bytes_eq_iff meta.sender sender,
    )
