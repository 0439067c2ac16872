-- ===== src/Ledger/Issuance.antt =====
-- The reward of a block issues the subsidy, cut off at the cap, and pays out the waiting fees.
use sudharma.Base.{
  Bool-cases, Bytes, Result-cases, add64, add64-lt, add64_exact, arith, inl, inr, ltb, ltb→ge,
  max_u64, min, ok, u64_mod, ℕ, ◌+◌, ◌-◌, ◌<◌, ◌≡◌, ◌≤◌,
}
use sudharma.Dict.{total}
use sudharma.Ledger.Conserve.{max_supply_for-lt}
use sudharma.Ledger.Rewards.{credit_total, mint_subsidy, pay_miner, state_remaining_supply_for}
use sudharma.Params.{max_supply_for, validate_monetary_policy}
use sudharma.State.Balance.{SameButBalances, credit-Credits}
use sudharma.State.Methods.{mint_supply_for}
use sudharma.State.Monad.{State}

pub record SameAccounts (s t : State) : Type 0 where
  pub same_accounts : t.balances ≡ s.balances
  pub same_rule : t.monetary_policy ≡ s.monetary_policy

-- What is issued of a subsidy where `left` is left below the cap.
abbrev pub granted : ℕ → ℕ → ℕ
granted subsidy left = min subsidy left

pub mint_subsidy_ok :
    (policy subsidy n : ℕ) (s t : State)
    → s.issued_supply ≤ max_supply_for policy
    → mint_subsidy policy subsidy s ≡ (ok n, t)
    → (n ≡ granted subsidy (max_supply_for policy - s.issued_supply))
      × (t.issued_supply ≡ s.issued_supply + n)
      × SameAccounts s t
unfolding mint_subsidy state_remaining_supply_for mint_supply_for
mint_subsidy_ok policy subsidy n s t capped h =
    elim (Result-cases (validate_monetary_policy policy)) [
      | inl (u, e) ↦ ground (
        arith,
        e,
        max_supply_for-lt policy,
        add64_exact s.issued_supply subsidy,
        add64_exact s.issued_supply (max_supply_for policy - s.issued_supply),
      )
      | inr (x, e) ↦ ground (arith, e)
    ]

credit_total_ok :
    (address : Bytes) (amount n : ℕ) (s t : State)
    → amount < u64_mod
    → credit_total address amount s ≡ (ok n, t)
    → (n ≡ amount) × (total t.balances ≡ total s.balances + amount) × SameButBalances s t
unfolding credit_total
credit_total_ok address amount n s t fits h = ground (arith, credit-Credits address amount s fits)

pub pay_miner_ok :
    (address : Bytes) (fees subsidy n : ℕ) (s t : State)
    → fees < u64_mod
    → pay_miner address fees subsidy s ≡ (ok n, t)
    → (n ≡ subsidy + fees) × (total t.balances ≡ total s.balances + n) × SameButBalances s t
unfolding pay_miner
pay_miner_ok address fees subsidy n s t fits h = elim (Bool-cases (ltb (max_u64 - fees) subsidy)) [
  | inl over ↦ absurd (ground (arith, over))
  | inr within ↦
      let no_wrap = ltb→ge (max_u64 - fees) subsidy within in
      let (p, q, same) =
        credit_total_ok address (add64 subsidy fees) n s t (add64-lt subsidy fees)
          (rw within at h) in
      let e = add64_exact subsidy fees (omega arith) in (omega arith, omega arith, same)
]
