-- ===== src/Mempool/Accounting.antt =====
-- The byte count and the limits of the mempool hold after every sequence of operations.
use sudharma.Base.{
  Bytes, [], arith, bytes_eq_iff, bytes_keys, length, nat_keys, none, refl, some, ℕ, ◌+◌, ◌∷◌, ◌≡◌,
  ◌≤◌,
}
use sudharma.Dict.{Dict, erase, insert, lookup, lookup-erase, lookup-insert}
use sudharma.Mempool.Methods.{is_present}
use sudharma.Mempool.Record.{EntryMetadata, Mempool}
use sudharma.Params.{max_mempool_bytes, max_mempool_transactions}
use sudharma.Transactions.Record.{Transaction}

unfoldable pub size_sum : Dict Bytes EntryMetadata → ℕ
size_sum [] = 0
size_sum ((id, meta) ∷ d) = meta.size + size_sum d

-- No key occurs twice.
unfoldable pub Unique : Dict Bytes EntryMetadata → Type 0
Unique [] = Unit
Unique ((id, meta) ∷ d) = (lookup id d ≡ none) × Unique d

-- The maps have the same keys, the cached bytes are the sum over the entries, and the limits hold.
pub record IsAccounted (m : Mempool) : Type 0 where
  pub same_keys :
      (id : Bytes) → is_present (lookup id m.metadata) ≡ is_present (lookup id m.pending)
  pub unique : Unique m.metadata
  pub exact_bytes : m.total_estimated_bytes ≡ size_sum m.metadata
  pub bytes_bounded : m.total_estimated_bytes ≤ max_mempool_bytes
  pub count_bounded : length m.pending ≤ max_mempool_transactions

pub size_sum-insert :
    (id : Bytes) (meta : EntryMetadata) (d : Dict Bytes EntryMetadata)
    → lookup id d ≡ none
    → size_sum (insert id meta d) ≡ size_sum d + meta.size
unfolding size_sum insert lookup
size_sum-insert id meta [] h = omega arith
size_sum-insert id meta ((j, w) ∷ d) h = ground (arith, size_sum-insert id meta d)

pub insert-Unique :
    (id : Bytes) (meta : EntryMetadata) (d : Dict Bytes EntryMetadata)
    → Unique d
    → Unique (insert id meta d)
unfolding Unique insert lookup
insert-Unique id meta [] u = (refl, tt)
insert-Unique id meta ((j, w) ∷ d) (fresh, u) = ground (
  arith,
  insert-Unique id meta d u,
  lookup-insert id j meta d,
  bytes_eq_iff j id,
  bytes_eq_iff id j,
)

erase_absent :
    (id : Bytes) (d : Dict Bytes EntryMetadata)
    → lookup id d ≡ none
    → size_sum (erase id d) ≡ size_sum d
unfolding size_sum erase lookup
erase_absent id [] h = refl
erase_absent id ((j, w) ∷ d) h = ground (arith, erase_absent id d)

pub size_sum-erase :
    (id : Bytes) (meta : EntryMetadata) (d : Dict Bytes EntryMetadata)
    → Unique d
    → lookup id d ≡ some meta
    → size_sum (erase id d) + meta.size ≡ size_sum d
unfolding size_sum erase lookup Unique
size_sum-erase id meta [] u h = absurd (cc h)
size_sum-erase id meta ((j, w) ∷ d) (fresh, u) h =
    ground (arith, size_sum-erase id meta d u, erase_absent id d, bytes_eq_iff j id)

pub erase-Unique : (id : Bytes) (d : Dict Bytes EntryMetadata) → Unique d → Unique (erase id d)
unfolding Unique erase
erase-Unique id [] u = tt
erase-Unique id ((j, w) ∷ d) (fresh, u) = ground (arith, erase-Unique id d u, lookup-erase id j d)

pub length-insert :
    (id : Bytes) (tx : Transaction) (d : Dict Bytes Transaction)
    → length (insert id tx d) ≤ length d + 1
unfolding insert
length-insert id tx [] = omega arith
length-insert id tx ((j, w) ∷ d) = ground (arith, length-insert id tx d)

pub length-erase : (id : Bytes) (d : Dict Bytes Transaction) → length (erase id d) ≤ length d
unfolding erase
length-erase id [] = omega arith
length-erase id ((j, w) ∷ d) = ground (arith, length-erase id d)
