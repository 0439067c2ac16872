-- ===== src/Ledger/Blocks.antt =====
-- A whole block: it fails and changes nothing, or issues its subsidy up to the cap and nothing else.
use sudharma.Base.{
  Bytes, Error, List, Option, Result, [], add64, add64_exact, arith, err, false, ltb, max_u64, min,
  miner_fee_overflow, none, ok, refl, some, subst, tx_failed, tx_nil, u64_mod, ℕ, ◌+◌, ◌-◌, ◌<◌,
  ◌∙◌, ◌∷◌, ◌≡◌,
}
use sudharma.Blocks.Record.{AllU64, Block}
use sudharma.Consensus.Subsidy.{block_subsidy_for}
use sudharma.Crypto.{Crypto}
use sudharma.Ledger.Atomic.{Applies, apply_transaction_for-Applies}
use sudharma.Ledger.Conserve.{Backed, max_supply_for-lt}
use sudharma.Ledger.Mutate.{apply_transaction_for}
use sudharma.Ledger.Process.{process_transactions, total_miner_fees, total_miner_fees_from}
use sudharma.Params.{max_supply_for}
use sudharma.State.Monad.{State, bind_rule, fail_action, wrap_action, wrap_action_ok, ◌>>◌}
use sudharma.Transactions.Fee.{mining_fee}
use sudharma.Transactions.Record.{IsU64, Transaction}

-- The sum of all balances is the issued supply, which is within the cap.
abbrev pub IsSound : State → Type 0
IsSound s = Backed 0 s

module _ (crypto : Crypto) where
  -- The state after the loop over the transactions, which returns the fees that wait: those that
  -- `TotalMinerFees` computes.
  unfoldable pub Processes : List (Option Transaction) → ℕ → State → Result ℕ × State → Type 0
  Processes txs start s (ok fees, t) =
      Backed fees t
      × (total_miner_fees_from start txs ≡ ok fees)
      × (t.issued_supply ≡ s.issued_supply)
      × (t.monetary_policy ≡ s.monetary_policy)
  Processes txs start s (err e, t) = Unit {0}

  err-Processes :
      (txs : List (Option Transaction)) (start : ℕ) (s t : State) (e : Error)
      → Processes txs start s (err e, t)
  unfolding Processes
  err-Processes txs start s t e = tt

  cons-Processes :
      (txs : List (Option Transaction)) (tx : Transaction) (start : ℕ) (s t : State)
      (o : Result ℕ × State)
      → ltb (max_u64 - mining_fee tx.amount) start ≡ false
      → t.issued_supply ≡ s.issued_supply
      → t.monetary_policy ≡ s.monetary_policy
      → Processes txs (add64 start (mining_fee tx.amount)) t o
      → Processes (some tx ∷ txs) start s o
  unfolding Processes total_miner_fees_from
  cons-Processes txs tx start s t (ok n, u) small p q (b, f, i, m) = (b, rw small f, i ∙ p, m ∙ q)
  cons-Processes txs tx start s t (err e, u) small p q h = tt

  nil-Processes : (fees : ℕ) (s : State) → Backed fees s → Processes [] fees s (ok fees, s)
  unfolding Processes total_miner_fees_from
  nil-Processes fees s backed = (backed, refl, refl, refl)

  -- After one transaction the fees do not wrap, and the rest of the loop starts from a backed state.
  applied :
      (fees n : ℕ) (tx : Transaction) (network : Bytes) (s t : State)
      → IsU64 tx
      → Backed fees s
      → wrap_action tx_failed (apply_transaction_for crypto (some tx) network) s ≡ (ok n, t)
      → (n ≡ mining_fee tx.amount)
        × (ltb (max_u64 - n) fees ≡ false)
        × Backed (add64 fees n) t
        × (t.issued_supply ≡ s.issued_supply)
        × (t.monetary_policy ≡ s.monetary_policy)
  unfolding Applies
  applied fees n tx network s t fits backed h =
      let done = wrap_action_ok tx_failed (apply_transaction_for crypto (some tx) network) s h in
      let (e, b, i, m) =
        subst (Applies crypto fees tx s) done
          (apply_transaction_for-Applies crypto fees tx network s fits backed) in
      let small : fees + n < u64_mod = omega (arith, max_supply_for-lt t.monetary_policy) in
      let exact = add64_exact fees n small in (e, ground arith, rw exact b, i, m)

  pub process_transactions-Processes :
      (txs : List (Option Transaction)) (network : Bytes) (fees : ℕ) (s : State)
      → AllU64 txs
      → Backed fees s
      → Processes txs fees s (process_transactions crypto txs network fees s)
  unfolding process_transactions
  process_transactions-Processes [] network fees s fits backed = nil-Processes fees s backed
  process_transactions-Processes (none ∷ txs) network fees s fits backed =
      err-Processes (none ∷ txs) fees s s tx_nil
  process_transactions-Processes (some tx ∷ txs) network fees s fits backed =
      bind_rule (Processes (some tx ∷ txs) fees s)
        (wrap_action tx_failed (apply_transaction_for crypto (some tx) network))
        (λ miner_fee.
          fail_action (ltb (max_u64 - miner_fee) fees) miner_fee_overflow
          >> process_transactions crypto txs network (add64 fees miner_fee))
        s
        (λ n t h.
          let (e, small, b, i, m) = applied fees n tx network s t fits.0 backed h in
          let rest = process_transactions-Processes txs network (add64 fees n) t fits.1 b in
          rw small (
            cons-Processes txs tx fees s t
              (process_transactions crypto txs network (add64 fees n) t) (rw e at small) i m
              (subst
                (λ k.
                  Processes txs (add64 fees k) t
                    (process_transactions crypto txs network (add64 fees n) t))
                e rest)))
        (λ e t _. err-Processes (some tx ∷ txs) fees s t e)

  -- What a block has done: it failed and the state is as it was, or the supply grew by the subsidy
  -- of its height as far as the cap left it, the balances are again the issued supply, and the reward
  -- is what was issued and the fees that `TotalMinerFees` computes.
  unfoldable pub BlockOutcome : ℕ → Block → State → Result ℕ × State → Type 0
  BlockOutcome policy block s (ok reward, t) =
      (subsidy : ℕ) × (fees : ℕ) × (block_subsidy_for policy block.height ≡ ok subsidy)
      × (total_miner_fees block.transactions ≡ ok fees)
      × IsSound t
      × (t.issued_supply ≡ s.issued_supply + min subsidy (max_supply_for policy - s.issued_supply))
      × (reward ≡ min subsidy (max_supply_for policy - s.issued_supply) + fees)
      × (t.monetary_policy ≡ s.monetary_policy)
  BlockOutcome policy block s (err e, t) = t ≡ s
