-- ===== src/Ledger/Confirmed.antt =====
-- How often an identifier is confirmed, against what the state has processed.
use sudharma.Base.{
  Bool-cases, Bytes, List, Option, Result, Result-cases, [], add64, ap, arith, bytes_eq,
  bytes_eq_iff, false, if◌then◌else◌, inl, inr, ltb, max_u64, miner_fee_overflow, none, ok, refl,
  some, subst, suc, sym, tx_failed, ℕ, ◌++◌, ◌+◌, ◌-◌, ◌∙◌, ◌∷◌, ◌≡◌,
}
use sudharma.Blocks.Record.{Block}
use sudharma.Crypto.{Crypto}
use sudharma.Ledger.Apply.{check_transaction}
use sudharma.Ledger.Effects.{apply_transaction_for_ok}
use sudharma.Ledger.Marks.{SameMarks, applied_marks, replaced_marks, reward-SameMarks}
use sudharma.Ledger.Mutate.{apply_transaction_for}
use sudharma.Ledger.Process.{
  check_block_context, process_block_for, process_transactions, process_working_state,
}
use sudharma.Ledger.Rewards.{credit_miner_reward_for}
use sudharma.Ledger.Soundness.{process_block_for_lem, process_block_for_refused}
use sudharma.State.Methods.{expected_nonce, is_transaction_processed}
use sudharma.State.Monad.{State, bind_ok, fail_action, wrap_action, wrap_action_ok, ◌>>◌}
use sudharma.Transactions.Record.{Transaction}

-- How many of the transactions have the identifier.
unfoldable pub count_id : Bytes → List (Option Transaction) → ℕ
count_id id [] = 0
count_id id (none ∷ txs) = count_id id txs
count_id id (some tx ∷ txs) =
    let rest = count_id id txs in if bytes_eq tx.id id then suc rest else rest

pub count_id-append :
    (id : Bytes) (xs ys : List (Option Transaction))
    → count_id id (xs ++ ys) ≡ count_id id xs + count_id id ys
unfolding count_id
count_id-append id [] ys = omega arith
count_id-append id (none ∷ xs) ys = count_id-append id xs ys
count_id-append id (some tx ∷ xs) ys = ground (arith, count_id-append id xs ys)

-- 1 for an identifier that is processed.
abbrev pub times : State → Bytes → ℕ
times s id = if is_transaction_processed s id then 1 else 0

times_same : (s t : State) (id : Bytes) → SameMarks s t → times t id ≡ times s id
unfolding is_transaction_processed
times_same s t id e = rw e refl

module _ (crypto : Crypto) where
  checked_new :
      (s : State) (tx : Transaction) (network : Bytes)
      → check_transaction crypto s tx network ≡ ok tt
      → is_transaction_processed s tx.id ≡ false
  unfolding check_transaction
  checked_new s tx network h = elim (Result-cases (expected_nonce s tx.from)) [
    | inl (n, e) ↦ ground (arith, e)
    | inr (x, e) ↦ ground (arith, e)
  ]

  applied_times :
      (tx : Transaction) (network : Bytes) (s t : State) (n : ℕ) (id : Bytes)
      → apply_transaction_for crypto (some tx) network s ≡ (ok n, t)
      → times t id ≡ times s id + (if bytes_eq tx.id id then 1 else 0)
  applied_times tx network s t n id h =
      let new = checked_new s tx network (apply_transaction_for_ok crypto tx network s t n h).0 in
      let marks = applied_marks crypto tx network s t n id h in
      elim (Bool-cases (bytes_eq tx.id id)) [
        | inr e ↦ ground (arith, marks, e)
        | inl e ↦
            let same : tx.id ≡ id = ground (arith, e, bytes_eq_iff tx.id id) in
            let new' : is_transaction_processed s id ≡ false =
              subst (λ i. is_transaction_processed s i ≡ false) same new in
            ground (arith, marks, e, new')
      ]

  transactions_times :
      (txs : List (Option Transaction)) (network : Bytes) (fees n : ℕ) (s t : State) (id : Bytes)
      → process_transactions crypto txs network fees s ≡ (ok n, t)
      → times t id ≡ times s id + count_id id txs
  unfolding process_transactions count_id
  transactions_times [] network fees n s t id h =
      times_same s t id (ap (λ (p : Result ℕ × State). p.1.processed_tx) (sym h)) ∙ omega arith
  transactions_times (none ∷ txs) network fees n s t id h =
      absurd (cc (ap (λ (p : Result ℕ × State). p.0) h))
  transactions_times (some tx ∷ txs) network fees n s t id h =
      let rest = λ (miner_fee : ℕ).
        fail_action (ltb (max_u64 - miner_fee) fees) miner_fee_overflow
        >> process_transactions crypto txs network (add64 fees miner_fee) in
      let (f, u, h1, k1) =
        bind_ok (wrap_action tx_failed (apply_transaction_for crypto (some tx) network)) rest s h in
      let (_, w, h2, k2) =
        bind_ok (fail_action (ltb (max_u64 - f) fees) miner_fee_overflow)
          (λ _. process_transactions crypto txs network (add64 fees f)) u k1 in
      let same : u ≡ w = ap (λ (p : Result (Unit {0}) × State). p.1) h2 in
      let first : times w id ≡ times s id + (if bytes_eq tx.id id then 1 else 0) =
        subst (λ x. times x id ≡ times s id + (if bytes_eq tx.id id then 1 else 0)) same
          (applied_times tx network s u f id
            (wrap_action_ok tx_failed (apply_transaction_for crypto (some tx) network) s h1)) in
      transactions_times txs network (add64 fees f) n w t id k2 ∙ ground (arith, first)

  working_times :
      (policy n : ℕ) (network address : Bytes) (b : Block) (s t : State) (id : Bytes)
      → process_working_state crypto policy network b address s ≡ (ok n, t)
      → times t id ≡ times s id + count_id id b.transactions
  unfolding process_working_state
  working_times policy n network address b s t id h =
      let (fees, u, h1, k1) =
        bind_ok (process_transactions crypto b.transactions network 0)
          (λ total. credit_miner_reward_for policy b.height address total) s h in
      times_same u t id (reward-SameMarks policy b.height fees n address u t k1)
      ∙ transactions_times b.transactions network 0 fees s u id h1

  -- A processed block adds its transactions to what is processed, each of them once.
  pub times-process_block_for :
      (policy n : ℕ) (b : Block) (address : Bytes) (s t : State) (id : Bytes)
      → process_block_for crypto policy b address s ≡ (ok n, t)
      → times t id ≡ times s id + count_id id b.transactions
  times-process_block_for policy n b address s t id h =
      elim (Result-cases (check_block_context s policy address)) [
        | inr (x, e) ↦ absurd (
            cc (
              ap (λ (p : Result ℕ × State). p.0)
                (sym (process_block_for_refused crypto policy b address s e) ∙ h)))
        | inl (network, e) ↦
            let done = sym (process_block_for_lem crypto policy b address s e) ∙ h in
            elim (Result-cases (process_working_state crypto policy network b address s).0) [
              | inr (x, f) ↦ absurd (ground (arith, f, done))
              | inl (m, f) ↦
                  let u = (process_working_state crypto policy network b address s).1 in
                  let same : SameMarks u t = ground (arith, f, done, replaced_marks u s) in
                  times_same u t id same
                  ∙ working_times policy m network address b s u id
                      (ap (λ (r : Result ℕ). (r, u)) f)
            ]
      ]
