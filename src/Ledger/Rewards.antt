-- ===== src/Ledger/Rewards.antt =====
-- blockchain/rewards.go: the subsidy, capped by the supply that is left, and the fees, credited to
-- the miner.
use sudharma.Base.{
  Bytes, add64, err, if◌then◌else◌, is_empty, leb, ltb, max_u64, miner_empty, nat_eq, ok,
  reward_overflow, ℕ, ◌-◌,
}
use sudharma.Consensus.Subsidy.{block_subsidy_for}
use sudharma.Params.{max_supply_for, policy_public_testnet}
use sudharma.State.Methods.{credit, mint_supply_for}
use sudharma.State.Monad.{Action, State, fail_action, lift, ◌>>=◌, ◌>>◌}

-- `stateRemainingSupplyFor`
unfoldable pub state_remaining_supply_for : State → ℕ → ℕ
state_remaining_supply_for s policy =
    if leb (max_supply_for policy) s.issued_supply
    then 0
    else max_supply_for policy - s.issued_supply

-- The block `if subsidy > 0 { ... }`; it returns the subsidy that was granted.
unfoldable pub mint_subsidy : ℕ → ℕ → Action ℕ
mint_subsidy policy subsidy s =
    let remaining = state_remaining_supply_for s policy in
    let granted = if ltb remaining subsidy then remaining else subsidy in
    if ltb 0 subsidy
    then (let (r, t) = mint_supply_for policy granted s in
        elim r [ ok _ ↦ (ok granted, t) | err e ↦ (err e, t) ])
    else (ok subsidy, s)

-- The end of `CreditMinerRewardFor`: nothing is credited where the reward is zero.
unfoldable pub credit_total : Bytes → ℕ → Action ℕ
credit_total miner_address total_reward s =
    if nat_eq total_reward 0
    then (ok 0, s)
    else (let (r, t) = credit miner_address total_reward s in
        elim r [ ok _ ↦ (ok total_reward, t) | err e ↦ (err e, t) ])

-- The part after the mint.
unfoldable pub pay_miner : Bytes → ℕ → ℕ → Action ℕ
pay_miner miner_address miner_fees subsidy = do
  fail_action (ltb (max_u64 - miner_fees) subsidy) reward_overflow
  credit_total miner_address (add64 subsidy miner_fees)

unfoldable pub credit_miner_reward_for : ℕ → ℕ → Bytes → ℕ → Action ℕ
credit_miner_reward_for policy block_height miner_address miner_fees = do
  fail_action (is_empty miner_address) miner_empty
  subsidy ← lift (block_subsidy_for policy block_height)
  granted ← mint_subsidy policy subsidy
  pay_miner miner_address miner_fees granted

-- `CreditMinerReward`
unfoldable pub credit_miner_reward : ℕ → Bytes → ℕ → Action ℕ
credit_miner_reward block_height miner_address miner_fees =
    credit_miner_reward_for policy_public_testnet block_height miner_address miner_fees
