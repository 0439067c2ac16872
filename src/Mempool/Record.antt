-- ===== src/Mempool/Record.antt =====
-- blockchain/mempool/mempool.go: the record.
use sudharma.Base.{Bytes, ℕ}
use sudharma.Dict.{Dict}
use sudharma.Transactions.Record.{Transaction}

pub record EntryMetadata : Type 0 where
  pub sender : Bytes
  pub sender_nonce : ℕ
  pub size : ℕ

pub record Mempool : Type 0 where
  pub pending : Dict Bytes Transaction
  pub metadata : Dict Bytes EntryMetadata
  pub total_estimated_bytes : ℕ
  pub sender_nonces : Dict Bytes (Dict ℕ Bytes)
