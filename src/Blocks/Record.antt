-- ===== src/Blocks/Record.antt =====
-- blockchain/block.go, the record. A transaction pointer in a block may be nil.
use sudharma.Base.{Bytes, List, Option, [], none, some, ℕ, ℤ, ◌∷◌}
use sudharma.Transactions.Record.{IsU64, Transaction}

pub record Block : Type 0 where
  pub version : ℕ
  pub height : ℕ
  pub timestamp : ℤ
  pub previous_hash : Bytes
  pub merkle_root : Bytes
  pub difficulty : ℕ
  pub nonce : ℕ
  pub miner_address : Bytes
  pub transactions : List (Option Transaction)

-- The numbers of every transaction in a list are uint64.
abbrev pub AllU64 : List (Option Transaction) → Type 0
AllU64 [] = Unit
AllU64 (none ∷ txs) = AllU64 txs
AllU64 (some tx ∷ txs) = IsU64 tx × AllU64 txs
