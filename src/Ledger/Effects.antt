-- ===== src/Ledger/Effects.antt =====
-- The exact effect of one transaction on every account.
use sudharma.Base.{
  Bytes, Result, Result-cases, [], add64, add64_exact, ap, arith, bytes_eq_iff, bytes_keys, err,
  if◌then◌else◌, inl, inr, nat_keys, ok, receiver_credit, some, sub64, sub64_exact, subst, sym,
  treasury_credit, true, u64_mod, ℕ, ◌+◌, ◌<◌, ◌==◌, ◌∙◌, ◌≡◌,
}
use sudharma.Crypto.{Crypto}
use sudharma.Dict.{Dict, get, get-insert, get-le-total, insert, total}
use sudharma.Ledger.Apply.{check_transaction}
use sudharma.Ledger.Atomic.{
  apply_transaction_for_lem, check_fee, mutating_checked, mutating_refused,
}
use sudharma.Ledger.Conserve.{
  Backed, mark_transaction_processed_lem, max_supply_for-lt, set_account_nonce_lem,
}
use sudharma.Ledger.Mutate.{apply_transaction_for, move_funds}
use sudharma.State.Balance.{SameButBalances}
use sudharma.State.Methods.{
  balance, credit, debit, mark_transaction_processed, replace_with, set_account_nonce,
}
use sudharma.State.Monad.{State, bind_ok, pure, wrap_action, wrap_action_ok, ◌>>=◌, ◌>>◌}
use sudharma.Transactions.Fee.{development_fee, mining_fee}
use sudharma.Transactions.Fee.Exact.{fee_split_exact}
use sudharma.Transactions.Record.{IsU64, Transaction}

-- `amount` where the addresses are the same.
abbrev pub at : Bytes → Bytes → ℕ → ℕ
at address j amount = if address == j then amount else 0

debit-at :
    (address j : Bytes) (amount : ℕ) (s t : State)
    → total s.balances < u64_mod
    → debit address amount s ≡ (ok tt, t)
    → (balance t j + at address j amount ≡ balance s j) × SameButBalances s t
unfolding debit balance
debit-at address j amount s t small h = ground (
  arith,
  get-insert 0 address j (sub64 (get 0 address s.balances) amount) s.balances,
  sub64_exact (get 0 address s.balances) amount,
  get-le-total address s.balances,
  bytes_eq_iff address j,
)

credit-at :
    (address j : Bytes) (amount : ℕ) (s t : State)
    → amount < u64_mod
    → credit address amount s ≡ (ok tt, t)
    → (balance t j ≡ balance s j + at address j amount) × SameButBalances s t
unfolding credit balance
credit-at address j amount s t fits h = ground (
  arith,
  get-insert 0 address j (add64 (get 0 address s.balances) amount) s.balances,
  add64_exact (get 0 address s.balances) amount,
  bytes_eq_iff address j,
)

-- The state that a successful move leaves.
pub record Moved (tx : Transaction) (address : Bytes) (s v : State) : Type 0 where
  pub every_balance :
      (j : Bytes)
      → balance v j + at tx.from j (tx.amount + tx.fee)
        ≡ balance s j + at tx.to j tx.amount + at address j (development_fee tx.amount)
  pub nonces : v.account_nonces ≡ insert tx.from tx.nonce s.account_nonces
  pub processed : v.processed_tx ≡ insert tx.id true s.processed_tx

paid_balances :
    (tx : Transaction) (address j : Bytes) (s t u v : State)
    → tx.amount < u64_mod
    → total s.balances < u64_mod
    → tx.amount + tx.fee < u64_mod
    → debit tx.from (add64 tx.amount tx.fee) s ≡ (ok tt, t)
    → credit tx.to tx.amount t ≡ (ok tt, u)
    → credit address (development_fee tx.amount) u ≡ (ok tt, v)
    → (balance v j + at tx.from j (tx.amount + tx.fee)
        ≡ balance s j + at tx.to j tx.amount + at address j (development_fee tx.amount))
      × SameButBalances s v
paid_balances tx address j s t u v fits small no_overflow h k l =
    let exact = add64_exact tx.amount tx.fee no_overflow in
    let parts = fee_split_exact tx.amount fits in
    let (a, same_a) = debit-at tx.from j (add64 tx.amount tx.fee) s t small h in
    let (b, same_b) = credit-at tx.to j tx.amount t u fits k in
    let (c, same_c) = credit-at address j (development_fee tx.amount) u v (omega arith) l in
    (omega (arith, rw exact at a), ground arith)

from-Moved :
    (tx : Transaction) (address : Bytes) (s t u w v : State)
    → ((j : Bytes)
        → balance t j + at tx.from j (tx.amount + tx.fee)
          ≡ balance s j + at tx.to j tx.amount + at address j (development_fee tx.amount))
    → SameButBalances s t
    → u ≡ record t { account_nonces = insert tx.from tx.nonce t.account_nonces }
    → w ≡ record u { processed_tx = insert tx.id true u.processed_tx }
    → w ≡ v
    → Moved tx address s v
unfolding balance
from-Moved tx address s t u w v all same e4 e5 e6 =
    let kept : v.balances ≡ t.balances = ground arith in
    record {
      every_balance = λ j.
          subst
            (λ (b : Dict Bytes ℕ).
              get 0 j b + at tx.from j (tx.amount + tx.fee)
              ≡ get 0 j s.balances
                + at tx.to j tx.amount
                + at address j (development_fee tx.amount))
            (sym kept) (all j);
      nonces = ground arith;
      processed = ground arith;
    }

move_funds_ok :
    (tx : Transaction) (address : Bytes) (s v : State) (n : ℕ)
    → tx.amount < u64_mod
    → total s.balances < u64_mod
    → tx.amount + tx.fee < u64_mod
    → move_funds tx address s ≡ (ok n, v)
    → Moved tx address s v
unfolding move_funds
move_funds_ok tx address s v n fits small no_overflow h =
    let mark = λ (_ : Unit {0}). mark_transaction_processed tx.id >> pure (mining_fee tx.amount) in
    let set = λ (_ : Unit {0}). set_account_nonce tx.from tx.nonce >>= mark in
    let treasury = λ (_ : Unit {0}).
      wrap_action treasury_credit (credit address (development_fee tx.amount)) >>= set in
    let receiver =
      λ (_ : Unit {0}). wrap_action receiver_credit (credit tx.to tx.amount) >>= treasury in
    let (_, s1, h1, k1) = bind_ok (debit tx.from (add64 tx.amount tx.fee)) receiver s h in
    let (_, s2, h2, k2) =
      bind_ok (wrap_action receiver_credit (credit tx.to tx.amount)) treasury s1 k1 in
    let (_, s3, h3, k3) =
      bind_ok (wrap_action treasury_credit (credit address (development_fee tx.amount))) set s2
        k2 in
    let (_, s4, h4, k4) = bind_ok (set_account_nonce tx.from tx.nonce) mark s3 k3 in
    let (_, s5, h5, k5) =
      bind_ok (mark_transaction_processed tx.id) (λ _. pure (mining_fee tx.amount)) s4 k4 in
    let r2 = wrap_action_ok receiver_credit (credit tx.to tx.amount) s1 h2 in
    let r3 = wrap_action_ok treasury_credit (credit address (development_fee tx.amount)) s2 h3 in
    let e4 = set_account_nonce_lem tx.from tx.nonce s3 s4 h4 in
    let e5 = mark_transaction_processed_lem tx.id s4 s5 h5 in
    let e6 : s5 ≡ v = ap (λ (p : Result ℕ × State). p.1) k5 in
    let all =
      λ (j : Bytes). paid_balances tx address j s s1 s2 s3 fits small no_overflow h1 r2 r3 in
    from-Moved tx address s s3 s4 s5 v (λ j. (all j).0) (all []).1 e4 e5 e6

module _ (crypto : Crypto) where
  committed :
      (s t : State) (r : Result ℕ) (w : State) (n : ℕ)
      → ◌≡◌ {A = Result ℕ × State}
          (elim r [ err e ↦ (err e, s) | ok f ↦ (ok f, replace_with w s) ])
          (ok n, t)
      → ◌≡◌ {A = Result ℕ × State} (r, w) (ok n, t)
  unfolding replace_with
  committed s t (ok m) w n h = h
  committed s t (err e) w n h = absurd (cc (ap (λ (p : Result ℕ × State). p.0) h))

  -- A transaction that was applied had passed the checks, and its mutations succeeded.
  pub apply_transaction_for_ok :
      (tx : Transaction) (network : Bytes) (s t : State) (n : ℕ)
      → apply_transaction_for crypto (some tx) network s ≡ (ok n, t)
      → (check_transaction crypto s tx network ≡ ok tt)
        × (move_funds tx s.development_address s ≡ (ok n, t))
  apply_transaction_for_ok tx network s t n h =
      elim (Result-cases (check_transaction crypto s tx network)) [
        | inl (u, e) ↦ (
          e,
          committed s t (move_funds tx s.development_address s).0
              (move_funds tx s.development_address s).1 n
              (sym (
                  apply_transaction_for_lem crypto s (some tx) network
                    (mutating_checked crypto s tx network e))
                ∙ h),
        )
        | inr (x, e) ↦ absurd (
            cc (
              ap (λ (p : Result ℕ × State). p.0)
                (sym (
                    apply_transaction_for_lem crypto s (some tx) network
                      (mutating_refused crypto s tx network e))
                  ∙ h)))
      ]

  -- When a transaction with uint64 numbers is applied to a sound state, then for every account,
  -- sender, receiver and treasury included and even where they coincide: the sender pays the amount
  -- and the fee, the receiver gets the amount and the treasury the development fee; the sender's nonce
  -- becomes the transaction's, its identifier is marked, and no other nonce or mark changes.
  pub apply_transaction_for-Moved :
      (fees n : ℕ) (tx : Transaction) (network : Bytes) (s t : State)
      → IsU64 tx
      → Backed fees s
      → apply_transaction_for crypto (some tx) network s ≡ (ok n, t)
      → Moved tx s.development_address s t
  apply_transaction_for-Moved fees n tx network s t fits backed h =
      let (checked, moved) = apply_transaction_for_ok tx network s t n h in
      let (exact, no_overflow) = check_fee crypto s tx network fits checked in
      move_funds_ok tx s.development_address s t n fits.amount_fits
        (omega (arith, max_supply_for-lt s.monetary_policy)) no_overflow moved
