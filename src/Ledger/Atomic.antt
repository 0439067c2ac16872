-- ===== src/Ledger/Atomic.antt =====
-- A transaction is applied whole or not at all, and a block is too.
use sudharma.Base.{
  Bytes, Error, Option, Result, Result-cases, ap, arith, err, inl, inr, ok, refl, some, u64_mod, ℕ,
  ◌+◌, ◌<◌, ◌≡◌,
}
use sudharma.Crypto.{Crypto}
use sudharma.Ledger.Apply.{check_transaction}
use sudharma.Ledger.Conserve.{Backed, Moves, max_supply_for-lt, move_funds-Moves}
use sudharma.Ledger.Mutate.{apply_transaction_for, apply_transaction_mutating, move_funds}
use sudharma.State.Methods.{clone, expected_nonce, replace_with}
use sudharma.State.Monad.{State}
use sudharma.Transactions.Fee.{calculate_fee, mining_fee}
use sudharma.Transactions.Record.{IsU64, Transaction}

module _ (crypto : Crypto) where
  pub check_fee :
      (s : State) (tx : Transaction) (network : Bytes)
      → IsU64 tx
      → check_transaction crypto s tx network ≡ ok tt
      → (tx.fee ≡ calculate_fee tx.amount) × (tx.amount + tx.fee < u64_mod)
  unfolding check_transaction
  check_fee s tx network fits h = elim (Result-cases (expected_nonce s tx.from)) [
    | inl (n, e) ↦ ground (arith, e)
    | inr (x, e) ↦ absurd (ground (arith, e))
  ]

  -- What one call of `ApplyTransactionFor` has done: either it failed and the state is as it was, or
  -- it returns the miner's part of the fee, which has left the
  -- balances; the supply is the same.
  unfoldable pub Applies : ℕ → Transaction → State → Result ℕ × State → Type 0
  Applies fees tx s (ok miner_fee, t) =
      (miner_fee ≡ mining_fee tx.amount)
      × Backed (fees + miner_fee) t
      × (t.issued_supply ≡ s.issued_supply)
      × (t.monetary_policy ≡ s.monetary_policy)
  Applies fees tx s (err e, t) = t ≡ s

  mutating-Applies :
      (fees : ℕ) (tx : Transaction) (s : State) (r : Result ℕ) (t : State)
      → Backed fees s
      → Moves tx s (r, t)
      → Applies fees tx s (elim r [ err e ↦ (err e, s) | ok f ↦ (ok f, replace_with t s) ])
  unfolding Applies Moves replace_with
  mutating-Applies fees tx s (ok f) t backed moved = ground arith
  mutating-Applies fees tx s (err e) t backed moved = refl

  failed-Applies :
      (fees : ℕ) (tx : Transaction) (s : State) (e : Error) → Applies fees tx s (err e, s)
  unfolding Applies
  failed-Applies fees tx s e = refl

  pub mutating_checked :
      (s : State) (tx : Transaction) (network : Bytes)
      → check_transaction crypto s tx network ≡ ok tt
      → apply_transaction_mutating crypto (some tx) network s
        ≡ move_funds tx s.development_address s
  unfolding apply_transaction_mutating
  mutating_checked s tx network e = rw (e, apply_transaction_mutating)

  pub mutating_refused :
      (s : State) (tx : Transaction) (network : Bytes) {e : Error}
      → check_transaction crypto s tx network ≡ err e
      → apply_transaction_mutating crypto (some tx) network s ≡ (err e, s)
  unfolding apply_transaction_mutating
  mutating_refused s tx network e = rw (e, apply_transaction_mutating)

  pub apply_transaction_for_lem :
      (s : State) (tx : Option Transaction) (network : Bytes) {o : Result ℕ × State}
      → apply_transaction_mutating crypto tx network s ≡ o
      → apply_transaction_for crypto tx network s
        ≡ elim o.0 [ err e ↦ (err e, s) | ok f ↦ (ok f, replace_with o.1 s) ]
  unfolding apply_transaction_for clone
  apply_transaction_for_lem s tx network h =
      ap
        (λ (o : Result ℕ × State).
          let a : Result ℕ × State = elim o.0 [
            | err e ↦ (err e, s)
            | ok f ↦ (ok f, replace_with o.1 s)
          ] in
          a)
        h

  -- A transaction whose numbers are uint64, applied for any network to a state whose balances and
  -- waiting fees make up the issued supply: on an error, whichever it is, the state is unchanged;
  -- on success the balances with the waiting fees and the returned fee still make up the supply.
  pub apply_transaction_for-Applies :
      (fees : ℕ) (tx : Transaction) (network : Bytes) (s : State)
      → IsU64 tx
      → Backed fees s
      → Applies fees tx s (apply_transaction_for crypto (some tx) network s)
  apply_transaction_for-Applies fees tx network s fits backed =
      elim (Result-cases (check_transaction crypto s tx network)) [
        | inl (u, e) ↦
            let (exact, no_overflow) = check_fee s tx network fits e in
            rw (apply_transaction_for_lem s (some tx) network (mutating_checked s tx network e)) (
              mutating-Applies fees tx s (move_funds tx s.development_address s).0
                (move_funds tx s.development_address s).1 backed
                (move_funds-Moves tx s.development_address s fits.amount_fits
                  (omega (arith, max_supply_for-lt s.monetary_policy)) exact no_overflow))
        | inr (x, e) ↦
            rw (apply_transaction_for_lem s (some tx) network (mutating_refused s tx network e))
              (failed-Applies fees tx s x)
      ]
