-- ===== src/State/Balance.antt =====
-- The sum of all balances under the methods that change them.
use sudharma.Base.{
  Bytes, Result, add64, add64_exact, arith, bytes_keys, err, nat_keys, ok, sub64, sub64_exact,
  u64_mod, ℕ, ◌+◌, ◌-◌, ◌<◌, ◌≡◌,
}
use sudharma.Dict.{get, get-insert_self, get-le-total, insert_restores, total, total-insert}
use sudharma.State.Methods.{credit, debit, transfer}
use sudharma.State.Monad.{State}

-- All but the balances is the same.
pub record SameButBalances (s t : State) : Type 0 where
  pub same_processed : t.processed_tx ≡ s.processed_tx
  pub same_nonces : t.account_nonces ≡ s.account_nonces
  pub same_development : t.development_address ≡ s.development_address
  pub same_issued : t.issued_supply ≡ s.issued_supply
  pub same_policy : t.monetary_policy ≡ s.monetary_policy

-- A credit adds its amount to the sum, or fails and changes nothing.
abbrev pub Credits : ℕ → State → Result (Unit {0}) × State → Type 0
Credits amount s (ok _, t) = (total t.balances ≡ total s.balances + amount) × SameButBalances s t
Credits amount s (err _, t) = t ≡ s

pub credit-Credits :
    (address : Bytes) (amount : ℕ) (s : State)
    → amount < u64_mod
    → Credits amount s (credit address amount s)
unfolding credit
credit-Credits address amount s fits = ground (
  arith,
  total-insert address (add64 (get 0 address s.balances) amount) s.balances,
  add64_exact (get 0 address s.balances) amount,
)

-- A debit takes its amount from the sum, or fails and changes nothing.
abbrev pub Debits : ℕ → State → Result (Unit {0}) × State → Type 0
Debits amount s (ok _, t) = (total t.balances + amount ≡ total s.balances) × SameButBalances s t
Debits amount s (err _, t) = t ≡ s

pub debit-Debits :
    (address : Bytes) (amount : ℕ) (s : State)
    → total s.balances < u64_mod
    → Debits amount s (debit address amount s)
unfolding debit
debit-Debits address amount s fits = ground (
  arith,
  total-insert address (sub64 (get 0 address s.balances) amount) s.balances,
  sub64_exact (get 0 address s.balances) amount,
  get-le-total address s.balances,
)

-- Crediting a debited amount back restores the state.
debit-credit :
    (address : Bytes) (amount : ℕ) (s : State)
    → total s.balances < u64_mod
    → 0 < amount
    → (debit address amount s).0 ≡ ok tt
    → credit address amount (debit address amount s).1 ≡ (ok tt, s)
unfolding debit credit
debit-credit address amount s small some_amount paid = ground (
  arith,
  sub64_exact (get 0 address s.balances) amount,
  add64_exact (get 0 address s.balances - amount) amount,
  get-le-total address s.balances,
  get-insert_self 0 address (sub64 (get 0 address s.balances) amount) s.balances,
  insert_restores address (sub64 (get 0 address s.balances) amount) s.balances,
)

-- A transfer keeps the sum of the balances and everything else, or fails and changes nothing.
abbrev pub Transfers : State → Result (Unit {0}) × State → Type 0
Transfers s (ok _, t) = (total t.balances ≡ total s.balances) × SameButBalances s t
Transfers s (err _, t) = t ≡ s

-- `Transfer` of any uint64 amount, between any addresses, in a state whose balances sum to a uint64:
-- on success the sum of the balances is the same, and on failure, roll-back included, the state is.
pub transfer-Transfers :
    (from to : Bytes) (amount : ℕ) (s : State)
    → amount < u64_mod
    → total s.balances < u64_mod
    → Transfers s (transfer from to amount s)
unfolding transfer
transfer-Transfers from to amount s fits small = ground (
  arith,
  debit-Debits from amount s small,
  credit-Credits to amount (debit from amount s).1 fits,
  debit-credit from amount s small,
)
