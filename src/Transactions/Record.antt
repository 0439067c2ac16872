-- ===== src/Transactions/Record.antt =====
-- transactions/transaction.go, the record, and transactions/resource_bounds.go. A pointer that may
-- be nil is an `Option`.
use sudharma.Base.{
  Bytes, Result, bad_receiver, bad_sender, below_dust_minimum, fail_if, length, ltb, nat_eq,
  public_key_too_large, signature_too_large, tx_id_length, tx_too_large, u64_mod, wrap, ℕ, ◌+◌, ◌<◌,
  ◌>>◌, ◌||◌,
}
use sudharma.Crypto.{validate_address}
use sudharma.Params.{
  max_transaction_id_length, max_transaction_public_key_size, max_transaction_serialized_bytes,
  max_transaction_signature_size, min_transfer_amount,
}

pub record Transaction : Type 0 where
  pub id : Bytes
  pub from : Bytes
  pub to : Bytes
  pub amount : ℕ
  pub fee : ℕ
  pub nonce : ℕ
  pub public_key : Bytes
  pub signature : Bytes

-- The numbers of a transaction are uint64.
pub record IsU64 (tx : Transaction) : Type 0 where
  pub amount_fits : tx.amount < u64_mod
  pub fee_fits : tx.fee < u64_mod
  pub nonce_fits : tx.nonce < u64_mod

unfoldable pub estimated_serialized_size : Transaction → ℕ
estimated_serialized_size tx =
    length tx.id + length tx.from + length tx.to + length tx.public_key + length tx.signature + 24

unfoldable pub validate_resource_bounds : Transaction → Result (Unit {0})
validate_resource_bounds tx = do
  fail_if (nat_eq (length tx.id) 0 || ltb max_transaction_id_length (length tx.id)) tx_id_length
  wrap bad_sender (validate_address tx.from)
  wrap bad_receiver (validate_address tx.to)
  fail_if (ltb max_transaction_public_key_size (length tx.public_key)) public_key_too_large
  fail_if (ltb max_transaction_signature_size (length tx.signature)) signature_too_large
  fail_if (ltb max_transaction_serialized_bytes (estimated_serialized_size tx)) tx_too_large
  fail_if (ltb tx.amount min_transfer_amount) below_dust_minimum
