-- ===== src/Mining/Bounded.antt =====
-- Every pending transaction is within the resource bounds, and what is selected of them fits into a block.
use sudharma.Base.{
  All, Bool-cases, Bytes, List, Option-cases, Result-cases, [], arith, bytes_eq, bytes_keys, inl,
  inr, leb, length, map, nat_keys, none, ok, refl, some, ℕ, ◌+◌, ◌-◌, ◌∷◌, ◌≡◌, ◌≤◌,
}
use sudharma.Blocks.Limits.{count_block_bytes, validate_block_transactions}
use sudharma.Blocks.Record.{Block}
use sudharma.Dict.{Dict, erase, insert, lookup, total}
use sudharma.Mempool.Invariant.{Operation, add, clear, perform, perform_all, remove}
use sudharma.Mempool.Methods.{
  add_transaction, check_admission, new_mempool, remove_transaction, store_transaction,
}
use sudharma.Mempool.Record.{Mempool}
use sudharma.Mining.Template.{select_pending}
use sudharma.Params.{max_block_transaction_bytes, max_block_transactions}
use sudharma.Transactions.Record.{Transaction, estimated_serialized_size, validate_resource_bounds}

-- The entries of a map.
abbrev pub InBounds : Dict Bytes Transaction → Type 0
InBounds d = All (λ (e : Bytes × Transaction). validate_resource_bounds e.1 ≡ ok tt) d

insert-InBounds :
    (id : Bytes) (tx : Transaction) (d : Dict Bytes Transaction)
    → validate_resource_bounds tx ≡ ok tt
    → InBounds d
    → InBounds (insert id tx d)
unfolding insert
insert-InBounds id tx [] h i = (h, tt)
insert-InBounds id tx ((j, old) ∷ d) h (p, i) = elim (Bool-cases (bytes_eq j id)) [
  | inl e ↦ rw (e, insert) (h, i)
  | inr e ↦ rw (e, insert) (p, insert-InBounds id tx d h i)
]

erase-InBounds : (id : Bytes) (d : Dict Bytes Transaction) → InBounds d → InBounds (erase id d)
unfolding erase
erase-InBounds id [] i = tt
erase-InBounds id ((j, old) ∷ d) (p, i) = elim (Bool-cases (bytes_eq j id)) [
  | inl e ↦ rw (e, erase) (erase-InBounds id d i)
  | inr e ↦ rw (e, erase) (p, erase-InBounds id d i)
]

admitted_bounds :
    (m : Mempool) (tx : Transaction) (v : Unit {0})
    → check_admission m (some tx) ≡ ok v
    → validate_resource_bounds tx ≡ ok tt
unfolding check_admission
admitted_bounds m tx v h = elim (Result-cases (validate_resource_bounds tx)) [
  | inr (x, e) ↦ absurd (ground (arith, e))
  | inl (w, e) ↦ e
]

perform-InBounds :
    (o : Operation) (m : Mempool) → InBounds m.pending → InBounds (perform o m).pending
unfolding perform add_transaction store_transaction remove_transaction new_mempool
perform-InBounds (add none) m i = i
perform-InBounds (add (some tx)) m i = elim (Result-cases (check_admission m (some tx))) [
  | inr (x, e) ↦ rw (e, perform, add_transaction) i
  | inl (v, e) ↦
      rw (e, perform, add_transaction)
        (insert-InBounds tx.id tx m.pending (admitted_bounds m tx v e) i)
]
perform-InBounds (remove id) m i = elim (Option-cases (lookup id m.pending)) [
  | inl e ↦ rw (e, perform, remove_transaction) i
  | inr (tx, e) ↦ elim (Option-cases (lookup id m.metadata)) [
    | inl f ↦ rw (e, f, perform, remove_transaction) (erase-InBounds id m.pending i)
    | inr (meta, f) ↦ rw (e, f, perform, remove_transaction) (erase-InBounds id m.pending i)
  ]
]
perform-InBounds clear m i = tt

-- After any calls, every pending transaction is within the resource bounds.
pub perform_all-InBounds :
    (os : List Operation) (m : Mempool) → InBounds m.pending → InBounds (perform_all os m).pending
unfolding perform_all
perform_all-InBounds [] m i = i
perform_all-InBounds (o ∷ os) m i = perform_all-InBounds os (perform o m) (perform-InBounds o m i)

-- What is selected of such entries passes the limits of a block, from any count and any bytes so far.
abbrev entries : Dict Bytes Transaction → List Transaction
entries d = map (λ (e : Bytes × Transaction). e.1) d

selected_bytes :
    (selected bytes : ℕ) (d : Dict Bytes Transaction)
    → InBounds d
    → bytes ≤ max_block_transaction_bytes
    → (total : ℕ) × (count_block_bytes bytes (select_pending selected bytes (entries d)) ≡ ok total)
      × (total ≤ max_block_transaction_bytes)
unfolding count_block_bytes select_pending
selected_bytes selected bytes [] i h = (bytes, refl, h)
selected_bytes selected bytes ((id, tx) ∷ d) (p, i) h =
    let size = estimated_serialized_size tx in
    elim (Bool-cases (leb max_block_transactions selected)) [
      | inl e ↦ (bytes, rw (e, select_pending) refl, h)
      | inr e ↦ elim (Bool-cases (leb (bytes + size) max_block_transaction_bytes)) [
        | inl f ↦
            let (total, counted, small) =
              selected_bytes (selected + 1) (bytes + size) d i (ground (arith, f)) in
            (total, rw (e, f, select_pending, p) counted, small)
        | inr f ↦
            let (total, counted, small) = selected_bytes selected bytes d i h in
            (total, rw (e, f, select_pending) counted, small)
      ]
    ]

selected_count :
    (selected bytes : ℕ) (txs : List Transaction)
    → length (select_pending selected bytes txs) ≤ max_block_transactions - selected
unfolding select_pending
selected_count selected bytes [] = omega arith
selected_count selected bytes (tx ∷ txs) = ground (
  arith,
  selected_count (selected + 1) (bytes + estimated_serialized_size tx) txs,
  selected_count selected bytes txs,
)

-- A block with such transactions passes the limits.
pub validate_block_transactions-select_pending :
    (d : Dict Bytes Transaction) (b : Block)
    → InBounds d
    → b.transactions ≡ select_pending 0 0 (entries d)
    → validate_block_transactions b ≡ ok tt
unfolding validate_block_transactions
validate_block_transactions-select_pending d b i same =
    let (total, counted, small) = selected_bytes 0 0 d i (omega arith) in
    let few = selected_count 0 0 (entries d) in rw same (ground (arith, counted, small, few))
