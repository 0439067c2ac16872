-- ===== src/Ledger/Checks.antt =====
-- What a transaction that passes the checks satisfies.
use sudharma.Base.{
  Bytes, Result-cases, add64, add64_exact, arith, false, inl, inr, is_empty, ok, true, u64_mod, ℕ,
  ◌+◌, ◌<◌, ◌≡◌, ◌≤◌,
}
use sudharma.Crypto.{Crypto}
use sudharma.Ledger.Apply.{check_transaction}
use sudharma.Params.{min_transfer_amount}
use sudharma.State.Methods.{account_nonce, balance, expected_nonce, is_transaction_processed}
use sudharma.State.Monad.{State}
use sudharma.Transactions.Fee.{calculate_fee}
use sudharma.Transactions.Record.{IsU64, Transaction, validate_resource_bounds}
use sudharma.Transactions.Signature.{verify_for_network}

module _ (crypto : Crypto) where
  pub record Passes (s : State) (tx : Transaction) (network : Bytes) : Type 0 where
    pub unprocessed : is_transaction_processed s tx.id ≡ false
    pub authorised : verify_for_network crypto tx network ≡ true
    pub above_dust : min_transfer_amount ≤ tx.amount
    pub next_in_order : tx.nonce ≡ account_nonce s tx.from + 1
    pub exact_fee : tx.fee ≡ calculate_fee tx.amount
    pub no_overflow : tx.amount + tx.fee < u64_mod
    pub funded : tx.amount + tx.fee ≤ balance s tx.from
    pub named : is_empty tx.id ≡ false

  bounds_dust :
      (tx : Transaction) → validate_resource_bounds tx ≡ ok tt → min_transfer_amount ≤ tx.amount
  unfolding validate_resource_bounds
  bounds_dust tx h = ground arith

  nonce_next :
      (s : State) (address : Bytes) (n : ℕ)
      → account_nonce s address < u64_mod
      → expected_nonce s address ≡ ok n
      → n ≡ account_nonce s address + 1
  unfolding expected_nonce account_nonce add64
  nonce_next s address n fits h = ground arith

  -- Every transaction that passes the checks is new, is signed for the network, has the sender's next
  -- nonce and the exact fee, and is covered by the sender's balance.
  pub check_transaction-Passes :
      (s : State) (tx : Transaction) (network : Bytes)
      → IsU64 tx
      → account_nonce s tx.from < u64_mod
      → check_transaction crypto s tx network ≡ ok tt
      → Passes s tx network
  unfolding check_transaction
  check_transaction-Passes s tx network fits nonce_fits h =
      elim (Result-cases (expected_nonce s tx.from)) [
        | inl (n, e) ↦
            let next = nonce_next s tx.from n nonce_fits e in
            ground (arith, bounds_dust tx, add64_exact tx.amount tx.fee, e)
        | inr (x, e) ↦ ground (arith, e)
      ]
