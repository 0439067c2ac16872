-- ===== src/Ledger/Replay.antt =====
-- A transaction cannot be applied twice.
use sudharma.Base.{
  Bytes, Result-cases, arith, bytes_eq_iff, err, false, inl, inr, is_empty, ok, some, true,
  tx_already_processed, ℕ, ◌≡◌,
}
use sudharma.Crypto.{Crypto}
use sudharma.Ledger.Apply.{check_transaction}
use sudharma.Ledger.Atomic.{apply_transaction_for_lem, mutating_refused}
use sudharma.Ledger.Effects.{apply_transaction_for_ok}
use sudharma.Ledger.Lasting.{Later, Later-Remembers}
use sudharma.Ledger.Marks.{applied_marks}
use sudharma.Ledger.Mutate.{apply_transaction_for}
use sudharma.State.Methods.{expected_nonce, is_transaction_processed}
use sudharma.State.Monad.{State}
use sudharma.Transactions.Record.{Transaction}

module _ (crypto : Crypto) where
  checked_id :
      (s : State) (tx : Transaction) (network : Bytes)
      → check_transaction crypto s tx network ≡ ok tt
      → is_empty tx.id ≡ false
  unfolding check_transaction
  checked_id s tx network h = elim (Result-cases (expected_nonce s tx.from)) [
    | inl (n, e) ↦ ground (arith, e)
    | inr (x, e) ↦ absurd (ground (arith, e))
  ]

  processed_refused :
      (s : State) (tx : Transaction) (network : Bytes)
      → is_empty tx.id ≡ false
      → is_transaction_processed s tx.id ≡ true
      → check_transaction crypto s tx network ≡ err tx_already_processed
  unfolding check_transaction
  processed_refused s tx network named done = rw (named, done)

  marked :
      (tx : Transaction) (network : Bytes) (s t : State) (n : ℕ)
      → apply_transaction_for crypto (some tx) network s ≡ (ok n, t)
      → is_transaction_processed t tx.id ≡ true
  marked tx network s t n h =
      ground (arith, applied_marks crypto tx network s t n tx.id h, bytes_eq_iff tx.id tx.id)

  -- Once a transaction has been applied, one with the same identifier is refused, on any network, and
  -- changes nothing, in the state that this leaves and in every state that later transactions and blocks,
  -- applied or refused, make of it.
  pub apply_transaction_for_once :
      (n : ℕ) (tx other : Transaction) (network network' : Bytes) (s t u : State)
      → apply_transaction_for crypto (some tx) network s ≡ (ok n, t)
      → Later crypto t u
      → other.id ≡ tx.id
      → apply_transaction_for crypto (some other) network' u ≡ (err tx_already_processed, u)
  apply_transaction_for_once n tx other network network' s t u h later same =
      let checked = (apply_transaction_for_ok crypto tx network s t n h).0 in
      let named : is_empty other.id ≡ false = rw same (checked_id s tx network checked) in
      let done : is_transaction_processed u other.id ≡ true =
        rw same (Later-Remembers crypto t u later tx.id (marked tx network s t n h)) in
      apply_transaction_for_lem crypto u (some other) network'
        (mutating_refused crypto u other network' (processed_refused u other network' named done))
