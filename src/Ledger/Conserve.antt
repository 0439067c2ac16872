-- ===== src/Ledger/Conserve.antt =====
-- One transaction moves money and makes none: what leaves the balances is the miner's fee, which the
-- block then credits.
use sudharma.Base.{
  Bytes, Error, Result, add64, add64_exact, arith, bytes_keys, err, nat_keys, ok, receiver_credit,
  refl, subst, treasury_credit, true, u64_mod, ℕ, ◌+◌, ◌<◌, ◌≡◌, ◌≤◌,
}
use sudharma.Dict.{insert, total}
use sudharma.Ledger.Mutate.{move_funds}
use sudharma.Params.{max_supply_for}
use sudharma.State.Balance.{Credits, Debits, SameButBalances, credit-Credits, debit-Debits}
use sudharma.State.Methods.{credit, debit, mark_transaction_processed, set_account_nonce}
use sudharma.State.Monad.{State, bind_rule, pure, wrap_action, wrap_action_ok, ◌>>◌}
use sudharma.Transactions.Fee.{calculate_fee, development_fee, mining_fee}
use sudharma.Transactions.Fee.Exact.{fee_split_exact}
use sudharma.Transactions.Record.{Transaction}

-- The balances, with the fees that wait for the miner, are exactly the issued supply, which is at
-- most the policy's cap.
pub record Backed (fees : ℕ) (s : State) : Type 0 where
  pub covered : total s.balances + fees ≡ s.issued_supply
  pub capped : s.issued_supply ≤ max_supply_for s.monetary_policy

pub max_supply_for-lt : (policy : ℕ) → max_supply_for policy < u64_mod
unfolding max_supply_for
max_supply_for-lt policy = ground arith

-- The state after the mutations of a transaction.
unfoldable pub Moves : Transaction → State → Result ℕ × State → Type 0
Moves tx s (ok miner_fee, t) =
    (miner_fee ≡ mining_fee tx.amount)
    × (total t.balances + miner_fee ≡ total s.balances)
    × (t.issued_supply ≡ s.issued_supply)
    × (t.monetary_policy ≡ s.monetary_policy)
    × (t.development_address ≡ s.development_address)
    × (t.account_nonces ≡ insert tx.from tx.nonce s.account_nonces)
    × (t.processed_tx ≡ insert tx.id true s.processed_tx)
Moves tx s (err e, t) = Unit {0}

err-Moves : (tx : Transaction) (s t : State) (e : Error) → Moves tx s (err e, t)
unfolding Moves
err-Moves tx s t e = tt

pub set_account_nonce_lem :
    (address : Bytes) (nonce : ℕ) (s t : State)
    → set_account_nonce address nonce s ≡ (ok tt, t)
    → t ≡ record s { account_nonces = insert address nonce s.account_nonces }
unfolding set_account_nonce
set_account_nonce_lem address nonce s t h = ground arith

pub mark_transaction_processed_lem :
    (tx_id : Bytes) (s t : State)
    → mark_transaction_processed tx_id s ≡ (ok tt, t)
    → t ≡ record s { processed_tx = insert tx_id true s.processed_tx }
unfolding mark_transaction_processed
mark_transaction_processed_lem tx_id s t h = ground arith

bookkeeping_done :
    (tx : Transaction) (s t u v : State) (miner_fee : ℕ)
    → miner_fee ≡ mining_fee tx.amount
    → total t.balances + miner_fee ≡ total s.balances
    → SameButBalances s t
    → set_account_nonce tx.from tx.nonce t ≡ (ok tt, u)
    → mark_transaction_processed tx.id u ≡ (ok tt, v)
    → Moves tx s (ok miner_fee, v)
unfolding Moves
bookkeeping_done tx s t u v miner_fee e moved same h k = ground (
  arith,
  set_account_nonce_lem tx.from tx.nonce t u h,
  mark_transaction_processed_lem tx.id u v k,
)

bookkeeping-Moves :
    (tx : Transaction) (s t : State) (miner_fee : ℕ)
    → miner_fee ≡ mining_fee tx.amount
    → total t.balances + miner_fee ≡ total s.balances
    → SameButBalances s t
    → Moves tx s (
        (do set_account_nonce tx.from tx.nonce; mark_transaction_processed tx.id; pure miner_fee) t)
bookkeeping-Moves tx s t miner_fee e moved same =
    bind_rule (Moves tx s) (set_account_nonce tx.from tx.nonce) _ t
      (λ _ u h.
        bind_rule (Moves tx s) (mark_transaction_processed tx.id) (λ _. pure miner_fee) u
          (λ _ v k. bookkeeping_done tx s t u v miner_fee e moved same h k)
          (λ x v _. err-Moves tx s v x))
      (λ x u _. err-Moves tx s u x)

debit_ok :
    (address : Bytes) (amount : ℕ) (s : State) {t : State}
    → total s.balances < u64_mod
    → debit address amount s ≡ (ok tt, t)
    → (total t.balances + amount ≡ total s.balances) × SameButBalances s t
debit_ok address amount s {t} small h =
    subst (Debits amount s) h (debit-Debits address amount s small)

credit_ok :
    (address : Bytes) (amount : ℕ) (s : State) {t : State}
    → amount < u64_mod
    → credit address amount s ≡ (ok tt, t)
    → (total t.balances ≡ total s.balances + amount) × SameButBalances s t
credit_ok address amount s {t} fits h =
    subst (Credits amount s) h (credit-Credits address amount s fits)

move_funds_paid :
    (tx : Transaction) (address : Bytes) (s t u v : State)
    → tx.amount < u64_mod
    → total s.balances < u64_mod
    → tx.fee ≡ calculate_fee tx.amount
    → tx.amount + tx.fee < u64_mod
    → debit tx.from (add64 tx.amount tx.fee) s ≡ (ok tt, t)
    → credit tx.to tx.amount t ≡ (ok tt, u)
    → credit address (development_fee tx.amount) u ≡ (ok tt, v)
    → (total v.balances + mining_fee tx.amount ≡ total s.balances) × SameButBalances s v
move_funds_paid tx address s t u v fits small exact no_overflow h k l =
    let (d, same_d) = debit_ok tx.from (add64 tx.amount tx.fee) s small h in
    let (c, same_c) = credit_ok tx.to tx.amount t fits k in
    let parts = fee_split_exact tx.amount fits in
    let (f, same_f) = credit_ok address (development_fee tx.amount) u (omega arith) l in
    (omega (arith, add64_exact tx.amount tx.fee no_overflow), ground arith)

pub move_funds-Moves :
    (tx : Transaction) (address : Bytes) (s : State)
    → tx.amount < u64_mod
    → total s.balances < u64_mod
    → tx.fee ≡ calculate_fee tx.amount
    → tx.amount + tx.fee < u64_mod
    → Moves tx s (move_funds tx address s)
unfolding move_funds
move_funds-Moves tx address s fits small exact no_overflow =
    bind_rule (Moves tx s) (debit tx.from (add64 tx.amount tx.fee)) _ s
      (λ _ t h.
        bind_rule (Moves tx s) (wrap_action receiver_credit (credit tx.to tx.amount)) _ t
          (λ _ u k.
            bind_rule (Moves tx s)
              (wrap_action treasury_credit (credit address (development_fee tx.amount))) _ u
              (λ _ v l.
                let (moved, same) =
                  move_funds_paid tx address s t u v fits small exact no_overflow h
                    (wrap_action_ok receiver_credit (credit tx.to tx.amount) t k)
                    (wrap_action_ok treasury_credit (credit address (development_fee tx.amount)) u
                      l) in
                bookkeeping-Moves tx s v (mining_fee tx.amount) refl moved same)
              (λ x v _. err-Moves tx s v x))
          (λ x u _. err-Moves tx s u x))
      (λ x t _. err-Moves tx s t x)
