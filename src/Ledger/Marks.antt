-- ===== src/Ledger/Marks.antt =====
-- Which identifiers a transaction and a block mark as processed.
use sudharma.Base.{
  Bytes, List, Option, Result, Result-cases, [], add64, ap, arith, bytes_eq_iff, bytes_keys, false,
  if◌then◌else◌, inl, inr, is_empty, ltb, max_u64, miner_empty, miner_fee_overflow, nat_keys, none,
  ok, receiver_credit, refl, reward_overflow, some, subst, sym, treasury_credit, true, tx_failed, ℕ,
  ◌-◌, ◌==◌, ◌∙◌, ◌∷◌, ◌≡◌, ◌⊎◌,
}
use sudharma.Blocks.Record.{Block}
use sudharma.Consensus.Subsidy.{block_subsidy_for}
use sudharma.Crypto.{Crypto}
use sudharma.Dict.{get-insert, insert}
use sudharma.Ledger.Conserve.{mark_transaction_processed_lem, set_account_nonce_lem}
use sudharma.Ledger.Effects.{apply_transaction_for_ok}
use sudharma.Ledger.Issuance.{granted}
use sudharma.Ledger.Mutate.{apply_transaction_for, move_funds}
use sudharma.Ledger.Process.{
  check_block_context, process_block_for, process_transactions, process_working_state,
}
use sudharma.Ledger.Rewards.{
  credit_miner_reward_for, credit_total, mint_subsidy, pay_miner, state_remaining_supply_for,
}
use sudharma.Ledger.Soundness.{process_block_for_lem, process_block_for_refused}
use sudharma.Params.{validate_monetary_policy}
use sudharma.Peers.Scoring.{reward}
use sudharma.State.Methods.{
  credit, debit, is_transaction_processed, mark_transaction_processed, mint_supply_for,
  replace_with, set_account_nonce,
}
use sudharma.State.Monad.{
  State, bind_ok, fail_action, lift, pure, wrap_action, wrap_action_ok, ◌>>=◌, ◌>>◌,
}
use sudharma.Transactions.Fee.{development_fee, mining_fee}
use sudharma.Transactions.Record.{Transaction}

-- The marks are the same.
abbrev pub SameMarks : State → State → Type 0
SameMarks s t = t.processed_tx ≡ s.processed_tx

credit-SameMarks :
    (address : Bytes) (amount : ℕ) (s : State) → SameMarks s (credit address amount s).1
unfolding credit
credit-SameMarks address amount s = ground arith

debit-SameMarks :
    (address : Bytes) (amount : ℕ) (s : State) → SameMarks s (debit address amount s).1
unfolding debit
debit-SameMarks address amount s = ground arith

left_by :
    {A : Type 0} (s t : State) (o : Result A × State) (r : Result A)
    → SameMarks s o.1
    → ◌≡◌ {A = Result A × State} o (r, t)
    → SameMarks s t
left_by {A} s t o r same h = subst (SameMarks s) (ap (λ (p : Result A × State). p.1) h) same

move_funds_marks :
    (tx : Transaction) (address : Bytes) (s v : State) (n : ℕ)
    → move_funds tx address s ≡ (ok n, v)
    → v.processed_tx ≡ insert tx.id true s.processed_tx
unfolding move_funds
move_funds_marks tx address s v n h =
    let mark = λ (_ : Unit {0}). mark_transaction_processed tx.id >> pure (mining_fee tx.amount) in
    let set = λ (_ : Unit {0}). set_account_nonce tx.from tx.nonce >>= mark in
    let treasury = λ (_ : Unit {0}).
      wrap_action treasury_credit (credit address (development_fee tx.amount)) >>= set in
    let receiver =
      λ (_ : Unit {0}). wrap_action receiver_credit (credit tx.to tx.amount) >>= treasury in
    let (_, s1, h1, k1) = bind_ok (debit tx.from (add64 tx.amount tx.fee)) receiver s h in
    let (_, s2, h2, k2) =
      bind_ok (wrap_action receiver_credit (credit tx.to tx.amount)) treasury s1 k1 in
    let (_, s3, h3, k3) =
      bind_ok (wrap_action treasury_credit (credit address (development_fee tx.amount))) set s2
        k2 in
    let (_, s4, h4, k4) = bind_ok (set_account_nonce tx.from tx.nonce) mark s3 k3 in
    let (_, s5, h5, k5) =
      bind_ok (mark_transaction_processed tx.id) (λ _. pure (mining_fee tx.amount)) s4 k4 in
    let e1 = left_by s s1 _ _ (debit-SameMarks tx.from (add64 tx.amount tx.fee) s) h1 in
    let e2 =
      left_by s1 s2 _ _ (credit-SameMarks tx.to tx.amount s1)
        (wrap_action_ok receiver_credit (credit tx.to tx.amount) s1 h2) in
    let e3 =
      left_by s2 s3 _ _ (credit-SameMarks address (development_fee tx.amount) s2)
        (wrap_action_ok treasury_credit (credit address (development_fee tx.amount)) s2 h3) in
    let e4 = ap (λ (x : State). x.processed_tx) (set_account_nonce_lem tx.from tx.nonce s3 s4 h4) in
    let e5 = ap (λ (x : State). x.processed_tx) (mark_transaction_processed_lem tx.id s4 s5 h5) in
    let e6 = ap (λ (p : Result ℕ × State). p.1.processed_tx) k5 in
    sym e6 ∙ e5 ∙ ap (insert tx.id true) (e4 ∙ e3 ∙ e2 ∙ e1)

mint_supply-SameMarks :
    (policy amount : ℕ) (s : State) → SameMarks s (mint_supply_for policy amount s).1
unfolding mint_supply_for
mint_supply-SameMarks policy amount s = elim (Result-cases (validate_monetary_policy policy)) [
  | inl (u, e) ↦ ground (arith, e)
  | inr (x, e) ↦ ground (arith, e)
]

mint_subsidy-SameMarks :
    (policy subsidy n : ℕ) (s t : State) → mint_subsidy policy subsidy s ≡ (ok n, t) → SameMarks s t
unfolding mint_subsidy
mint_subsidy-SameMarks policy subsidy n s t h =
    let remaining = state_remaining_supply_for s policy in
    let granted = if ltb remaining subsidy then remaining else subsidy in
    elim (Result-cases (mint_supply_for policy granted s).0) [
      | inl (u, e) ↦ ground (arith, e, mint_supply-SameMarks policy granted s)
      | inr (x, e) ↦ ground (arith, e, mint_supply-SameMarks policy granted s)
    ]

credit_total-SameMarks :
    (address : Bytes) (reward n : ℕ) (s t : State)
    → credit_total address reward s ≡ (ok n, t)
    → SameMarks s t
unfolding credit_total
credit_total-SameMarks address reward n s t h = elim (Result-cases (credit address reward s).0) [
  | inl (u, e) ↦ ground (arith, e, credit-SameMarks address reward s)
  | inr (x, e) ↦ ground (arith, e, credit-SameMarks address reward s)
]

pub reward-SameMarks :
    (policy height fees n : ℕ) (address : Bytes) (s t : State)
    → credit_miner_reward_for policy height address fees s ≡ (ok n, t)
    → SameMarks s t
unfolding credit_miner_reward_for pay_miner
reward-SameMarks policy height fees n address s t h =
    let pay = λ (granted : ℕ). pay_miner address fees granted in
    let mint = λ (subsidy : ℕ). mint_subsidy policy subsidy >>= pay in
    let (_, s1, h1, k1) =
      bind_ok (fail_action (is_empty address) miner_empty)
        (λ _. lift (block_subsidy_for policy height) >>= mint) s h in
    let (subsidy, s2, h2, k2) = bind_ok (lift (block_subsidy_for policy height)) mint s1 k1 in
    let (granted, s3, h3, k3) = bind_ok (mint_subsidy policy subsidy) pay s2 k2 in
    let (_, s4, h4, k4) =
      bind_ok (fail_action (ltb (max_u64 - fees) granted) reward_overflow)
        (λ _. credit_total address (add64 granted fees)) s3 k3 in
    let e1 = ap (λ (p : Result (Unit {0}) × State). p.1.processed_tx) (sym h1) in
    let e2 = ap (λ (p : Result ℕ × State). p.1.processed_tx) (sym h2) in
    let e4 = ap (λ (p : Result (Unit {0}) × State). p.1.processed_tx) (sym h4) in
    credit_total-SameMarks address (add64 granted fees) n s4 t k4
    ∙ e4
    ∙ mint_subsidy-SameMarks policy subsidy granted s2 s3 h3
    ∙ e2
    ∙ e1

pub replaced_marks : (u s : State) → SameMarks u (replace_with u s)
unfolding replace_with
replaced_marks u s = refl

marked_same :
    (u t : State) (id : Bytes)
    → SameMarks u t
    → is_transaction_processed t id ≡ true
    → is_transaction_processed u id ≡ true
unfolding is_transaction_processed
marked_same u t id e h = rw (sym e) h

-- One of the transactions has the identifier.
unfoldable pub HasId : Bytes → List (Option Transaction) → Type 0
HasId id [] = ⊥
HasId id (none ∷ txs) = HasId id txs
HasId id (some tx ∷ txs) = (tx.id ≡ id) ⊎ HasId id txs

-- What is processed after was processed before or is one of the transactions.
abbrev Explained : List (Option Transaction) → State → State → Type 0
Explained txs s t =
    (id : Bytes)
    → is_transaction_processed t id ≡ true
    → (is_transaction_processed s id ≡ true) ⊎ HasId id txs

same-Explained : (s t : State) → SameMarks s t → Explained [] s t
unfolding is_transaction_processed
same-Explained s t e id h = inl (rw (sym e) h)

module _ (crypto : Crypto) where
  -- After a transaction, the identifiers processed are those before and its own.
  pub applied_marks :
      (tx : Transaction) (network : Bytes) (s t : State) (n : ℕ) (id : Bytes)
      → apply_transaction_for crypto (some tx) network s ≡ (ok n, t)
      → is_transaction_processed t id
        ≡ (if tx.id == id then true else is_transaction_processed s id)
  unfolding is_transaction_processed
  applied_marks tx network s t n id h =
      let moved = (apply_transaction_for_ok crypto tx network s t n h).1 in
      rw (move_funds_marks tx s.development_address s t n moved)
        (get-insert false tx.id id true s.processed_tx)

  processed_marks :
      (txs : List (Option Transaction)) (network : Bytes) (fees n : ℕ) (s t : State)
      → process_transactions crypto txs network fees s ≡ (ok n, t)
      → Explained txs s t
  unfolding process_transactions HasId
  processed_marks [] network fees n s t h =
      same-Explained s t (ap (λ (p : Result ℕ × State). p.1.processed_tx) (sym h))
  processed_marks (none ∷ txs) network fees n s t h =
      absurd (cc (ap (λ (p : Result ℕ × State). p.0) h))
  processed_marks (some tx ∷ txs) network fees n s t h =
      let rest = λ (miner_fee : ℕ).
        fail_action (ltb (max_u64 - miner_fee) fees) miner_fee_overflow
        >> process_transactions crypto txs network (add64 fees miner_fee) in
      let (f, u, h1, k1) =
        bind_ok (wrap_action tx_failed (apply_transaction_for crypto (some tx) network)) rest s h in
      let (_, w, h2, k2) =
        bind_ok (fail_action (ltb (max_u64 - f) fees) miner_fee_overflow)
          (λ _. process_transactions crypto txs network (add64 fees f)) u k1 in
      let same : u ≡ w = ap (λ (p : Result (Unit {0}) × State). p.1) h2 in
      let applied =
        wrap_action_ok tx_failed (apply_transaction_for crypto (some tx) network) s h1 in
      λ id done. elim (processed_marks txs network (add64 fees f) n w t k2 id done) [
        | inr later ↦ inr (inr later)
        | inl before ↦ ground (
          arith,
          subst (λ x. is_transaction_processed x id ≡ true) (sym same) before,
          applied_marks tx network s u f id applied,
          bytes_eq_iff tx.id id,
        )
      ]

  working_marks :
      (policy n : ℕ) (network address : Bytes) (b : Block) (s t : State)
      → process_working_state crypto policy network b address s ≡ (ok n, t)
      → Explained b.transactions s t
  unfolding process_working_state is_transaction_processed
  working_marks policy n network address b s t h =
      let (fees, u, h1, k1) =
        bind_ok (process_transactions crypto b.transactions network 0)
          (λ total. credit_miner_reward_for policy b.height address total) s h in
      let same = reward-SameMarks policy b.height fees n address u t k1 in
      λ id done. processed_marks b.transactions network 0 fees s u h1 id (rw (sym same) done)

  -- After a block that was processed, every identifier that is processed was so before or is that of one
  -- of the block's transactions.
  pub process_block_for_marks :
      (policy n : ℕ) (b : Block) (address : Bytes) (s t : State)
      → process_block_for crypto policy b address s ≡ (ok n, t)
      → Explained b.transactions s t
  process_block_for_marks policy n b address s t h =
      elim (Result-cases (check_block_context s policy address)) [
        | inr (x, e) ↦ absurd (
            cc (
              ap (λ (p : Result ℕ × State). p.0)
                (sym (process_block_for_refused crypto policy b address s e) ∙ h)))
        | inl (network, e) ↦
            let done = sym (process_block_for_lem crypto policy b address s e) ∙ h in
            elim (Result-cases (process_working_state crypto policy network b address s).0) [
              | inr (x, f) ↦ absurd (ground (arith, f, done))
              | inl (m, f) ↦
                  let u = (process_working_state crypto policy network b address s).1 in
                  let same : SameMarks u t = ground (arith, f, done, replaced_marks u s) in
                  let known =
                    working_marks policy m network address b s u
                      (ap (λ (r : Result ℕ). (r, u)) f) in
                  λ id k. known id (marked_same u t id same k)
            ]
      ]
