-- ===== src/Ledger/Lasting.antt =====
-- What a state has processed stays processed, whatever transactions and blocks it is given.
use sudharma.Base.{
  Bytes, List, Option, Result, Result-cases, [], add64, ap, arith, inl, inr, ltb, max_u64,
  miner_fee_overflow, none, ok, refl, some, subst, sym, true, tx_failed, ℕ, ◌-◌, ◌∙◌, ◌∷◌, ◌≡◌,
}
use sudharma.Blocks.Record.{Block}
use sudharma.Crypto.{Crypto}
use sudharma.Ledger.Atomic.{apply_transaction_for_lem}
use sudharma.Ledger.Marks.{SameMarks, applied_marks, replaced_marks, reward-SameMarks}
use sudharma.Ledger.Mutate.{apply_transaction_for, apply_transaction_mutating}
use sudharma.Ledger.Process.{
  check_block_context, process_block_for, process_transactions, process_working_state,
}
use sudharma.Ledger.Rewards.{credit_miner_reward_for}
use sudharma.Ledger.Soundness.{process_block_for_lem, process_block_for_refused}
use sudharma.State.Methods.{is_transaction_processed, replace_with}
use sudharma.State.Monad.{State, bind_ok, fail_action, wrap_action, wrap_action_ok, ◌>>◌}
use sudharma.Transactions.Record.{Transaction}

-- No identifier that is processed in the one is new in the other.
abbrev pub Remembers : State → State → Type 0
Remembers s t =
    (id : Bytes) → is_transaction_processed s id ≡ true → is_transaction_processed t id ≡ true

same-Remembers : (s t : State) → SameMarks s t → Remembers s t
unfolding is_transaction_processed
same-Remembers s t e id h = rw e h

module _ (crypto : Crypto) where
  apply-Remembers :
      (tx : Transaction) (network : Bytes) (s t : State) (n : ℕ)
      → apply_transaction_for crypto (some tx) network s ≡ (ok n, t)
      → Remembers s t
  apply-Remembers tx network s t n h id done =
      ground (arith, applied_marks crypto tx network s t n id h, done)

  transactions-Remembers :
      (txs : List (Option Transaction)) (network : Bytes) (fees n : ℕ) (s t : State)
      → process_transactions crypto txs network fees s ≡ (ok n, t)
      → Remembers s t
  unfolding process_transactions
  transactions-Remembers [] network fees n s t h =
      same-Remembers s t (ap (λ (p : Result ℕ × State). p.1.processed_tx) (sym h))
  transactions-Remembers (none ∷ txs) network fees n s t h =
      absurd (cc (ap (λ (p : Result ℕ × State). p.0) h))
  transactions-Remembers (some tx ∷ txs) network fees n s t h =
      let rest = λ (miner_fee : ℕ).
        fail_action (ltb (max_u64 - miner_fee) fees) miner_fee_overflow
        >> process_transactions crypto txs network (add64 fees miner_fee) in
      let (f, u, h1, k1) =
        bind_ok (wrap_action tx_failed (apply_transaction_for crypto (some tx) network)) rest s h in
      let (_, w, h2, k2) =
        bind_ok (fail_action (ltb (max_u64 - f) fees) miner_fee_overflow)
          (λ _. process_transactions crypto txs network (add64 fees f)) u k1 in
      let same : u ≡ w = ap (λ (p : Result (Unit {0}) × State). p.1) h2 in
      let applied =
        wrap_action_ok tx_failed (apply_transaction_for crypto (some tx) network) s h1 in
      λ id done. transactions-Remembers txs network (add64 fees f) n w t k2 id (
        subst (λ x. is_transaction_processed x id ≡ true) same
          (apply-Remembers tx network s u f applied id done))

  working-Remembers :
      (policy n : ℕ) (network address : Bytes) (b : Block) (s t : State)
      → process_working_state crypto policy network b address s ≡ (ok n, t)
      → Remembers s t
  unfolding process_working_state
  working-Remembers policy n network address b s t h id done =
      let (fees, u, h1, k1) =
        bind_ok (process_transactions crypto b.transactions network 0)
          (λ total. credit_miner_reward_for policy b.height address total) s h in
      same-Remembers u t (reward-SameMarks policy b.height fees n address u t k1) id
        (transactions-Remembers b.transactions network 0 fees s u h1 id done)

  -- A transaction, applied or refused.
  apply_transaction_for-Remembers :
      (tx : Option Transaction) (network : Bytes) (s : State)
      → Remembers s (apply_transaction_for crypto tx network s).1
  unfolding apply_transaction_mutating
  apply_transaction_for-Remembers none network s =
      subst (λ (o : Result ℕ × State). Remembers s o.1)
        (sym (apply_transaction_for_lem crypto s none network refl)) (λ id h. h)
  apply_transaction_for-Remembers (some tx) network s =
      let run = apply_transaction_for_lem crypto s (some tx) network refl in
      elim (Result-cases (apply_transaction_mutating crypto (some tx) network s).0) [
        | inr (x, e) ↦
            subst (λ (o : Result ℕ × State). Remembers s o.1) (sym run) (rw e (λ id h. h))
        | inl (n, e) ↦
            let u = (apply_transaction_mutating crypto (some tx) network s).1 in
            let applied : apply_transaction_for crypto (some tx) network s
                ≡ (ok n, replace_with u s) =
              run ∙ rw e refl in
            subst (λ (o : Result ℕ × State). Remembers s o.1) (sym applied)
              (apply-Remembers tx network s (replace_with u s) n applied)
      ]

  -- A block, processed or refused.
  process_block_for-Remembers :
      (policy : ℕ) (b : Block) (address : Bytes) (s : State)
      → Remembers s (process_block_for crypto policy b address s).1
  process_block_for-Remembers policy b address s =
      elim (Result-cases (check_block_context s policy address)) [
        | inr (x, e) ↦
            subst (λ (o : Result ℕ × State). Remembers s o.1)
              (sym (process_block_for_refused crypto policy b address s e)) (λ id h. h)
        | inl (network, e) ↦
            subst (λ (o : Result ℕ × State). Remembers s o.1)
              (sym (process_block_for_lem crypto policy b address s e))
              (elim (Result-cases (process_working_state crypto policy network b address s).0) [
                | inr (x, f) ↦ rw f (λ id h. h)
                | inl (m, f) ↦
                    let u = (process_working_state crypto policy network b address s).1 in
                    rw f (λ id h. same-Remembers u (replace_with u s) (replaced_marks u s) id (
                      working-Remembers policy m network address b s u
                        (ap (λ (r : Result ℕ). (r, u)) f) id h))
              ])
      ]

  -- A state and those that transactions and blocks make of it, applied or refused.
  pub data Later (s : State) : State → Type 0 where
    now : Later s s
    with_transaction :
        {t : State} (tx : Option Transaction) (network : Bytes)
        → Later s t
        → Later s (apply_transaction_for crypto tx network t).1
    with_block :
        {t : State} (policy : ℕ) (b : Block) (address : Bytes)
        → Later s t
        → Later s (process_block_for crypto policy b address t).1

  pub Later-Remembers : (s t : State) → Later s t → Remembers s t
  Later-Remembers s t now id h = h
  Later-Remembers s u (with_transaction {t} tx network l) id h =
      apply_transaction_for-Remembers tx network t id (Later-Remembers s t l id h)
  Later-Remembers s u (with_block {t} policy b address l) id h =
      process_block_for-Remembers policy b address t id (Later-Remembers s t l id h)
