-- ===== src/State/Methods.antt =====
-- The methods of `State`, in the order of the source.
use sudharma.Base.{
  Bool, Bytes, Result, [], add64, address_empty, balance_overflow, bytes_eq, bytes_keys, err,
  fail_if, false, if◌then◌else◌, insufficient_balance, is_empty, ltb, max_u64, nat_eq, nat_keys,
  nonce_overflow, not, ok, policy_mismatch, sub64, supply_exceeded, supply_exceeds_cap,
  transfer_amount_zero, true, tx_already_processed, tx_id_empty, ℕ, ◌-◌, ◌>>◌,
}
use sudharma.Dict.{get, insert}
use sudharma.Params.{
  development_treasury_address, max_supply_for, policy_public_testnet, validate_monetary_policy,
}
use sudharma.State.Monad.{Action, State}

-- `NewStateFor`, which panics on an unknown policy
unfoldable pub new_state_for : ℕ → Result State
new_state_for policy =
    validate_monetary_policy policy
    >> ok (record {
      balances = [];
      processed_tx = [];
      account_nonces = [];
      development_address = development_treasury_address;
      issued_supply = 0;
      monetary_policy = policy;
    })

-- `NewState`
unfoldable pub new_state : Result State
new_state = new_state_for policy_public_testnet

unfoldable pub ensure_monetary_policy : State → ℕ → Result (Unit {0})
ensure_monetary_policy s policy = do
  validate_monetary_policy policy
  fail_if (not (nat_eq s.monetary_policy policy)) policy_mismatch

unfoldable pub set_development_address : Bytes → State → State
set_development_address address s =
    if not (bytes_eq address development_treasury_address)
    then s
    else record s { development_address = address }

unfoldable pub balance : State → Bytes → ℕ
balance s address = get 0 address s.balances

unfoldable pub credit : Bytes → ℕ → Action (Unit {0})
credit address amount s =
    let current = get 0 address s.balances in
    if is_empty address
    then (err address_empty, s)
    else if nat_eq amount 0
    then (ok tt, s)
    else if ltb (max_u64 - amount) current
    then (err balance_overflow, s)
    else (ok tt, record s { balances = insert address (add64 current amount) s.balances })

unfoldable pub debit : Bytes → ℕ → Action (Unit {0})
debit address amount s =
    let current = get 0 address s.balances in
    if is_empty address
    then (err address_empty, s)
    else if ltb current amount
    then (err insufficient_balance, s)
    else (ok tt, record s { balances = insert address (sub64 current amount) s.balances })

-- `Transfer`: a failed credit is rolled back, with the error of the roll-back dropped.
unfoldable pub transfer : Bytes → Bytes → ℕ → Action (Unit {0})
transfer from to amount s =
    if nat_eq amount 0
    then (err transfer_amount_zero, s)
    else (let (r, s1) = debit from amount s in
        elim r [
          | err e ↦ (err e, s1)
          | ok _ ↦
              let (r', s2) = credit to amount s1 in
              elim r' [ ok _ ↦ (ok tt, s2) | err e ↦ (err e, (credit from amount s2).1) ]
        ])

unfoldable pub is_transaction_processed : State → Bytes → Bool
is_transaction_processed s tx_id = get false tx_id s.processed_tx

unfoldable pub mark_transaction_processed : Bytes → Action (Unit {0})
mark_transaction_processed tx_id s =
    if is_empty tx_id
    then (err tx_id_empty, s)
    else if get false tx_id s.processed_tx
    then (err tx_already_processed, s)
    else (ok tt, record s { processed_tx = insert tx_id true s.processed_tx })

unfoldable pub account_nonce : State → Bytes → ℕ
account_nonce s address = get 0 address s.account_nonces

unfoldable pub expected_nonce : State → Bytes → Result ℕ
expected_nonce s address =
    let current = get 0 address s.account_nonces in
    if nat_eq current max_u64 then err nonce_overflow else ok (add64 current 1)

unfoldable pub set_account_nonce : Bytes → ℕ → Action (Unit {0})
set_account_nonce address nonce s =
    if is_empty address
    then (err address_empty, s)
    else (ok tt, record s { account_nonces = insert address nonce s.account_nonces })

unfoldable pub mint_supply_for : ℕ → ℕ → Action (Unit {0})
mint_supply_for policy amount s = elim (validate_monetary_policy policy) [
  | err e ↦ (err e, s)
  | ok _ ↦
      if not (nat_eq s.monetary_policy policy)
      then (err policy_mismatch, s)
      else if nat_eq amount 0
      then (ok tt, s)
      else if ltb (max_supply_for policy) s.issued_supply
      then (err supply_exceeds_cap, s)
      else if ltb (max_supply_for policy - s.issued_supply) amount
      then (err supply_exceeded, s)
      else (ok tt, record s { issued_supply = add64 s.issued_supply amount })
]

-- `MintSupply`
unfoldable pub mint_supply : ℕ → Action (Unit {0})
unfolding mint_supply_for
mint_supply amount s = mint_supply_for s.monetary_policy amount s

unfoldable pub clone : State → State
clone s = record {
  balances = s.balances;
  processed_tx = s.processed_tx;
  account_nonces = s.account_nonces;
  development_address = s.development_address;
  issued_supply = s.issued_supply;
  monetary_policy = s.monetary_policy;
}

-- `s.ReplaceWith(other)` for an `other` that is not nil, which does not fail
unfoldable pub replace_with : State → State → State
replace_with other s = record s {
  balances = other.balances;
  processed_tx = other.processed_tx;
  account_nonces = other.account_nonces;
  development_address = other.development_address;
  issued_supply = other.issued_supply;
  monetary_policy = other.monetary_policy;
}
