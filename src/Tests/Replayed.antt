-- ===== src/Tests/Replayed.antt =====
-- A chain on which a payment is confirmed.
use sudharma.Base.{
  [], add64, bytes_eq, bytes_keys, if◌then◌else◌, mul64, nat_keys, ok, refl, sub64, true, ◌∷◌, ◌≡◌,
}
use sudharma.Blocks.Genesis.{new_genesis_block}
use sudharma.Chain.Confirmed.{build_state_from_chain_once, confirmed}
use sudharma.Chain.Record.{Chain, block_by_height, chain_height, chain_monetary_policy, last_block}
use sudharma.Chain.Reorg.{build_state_from_chain, replay_blocks}
use sudharma.Consensus.Subsidy.{block_subsidy_for, testnet_subsidy}
use sudharma.Crypto.{
  address_from_public_key, all_lower_hex, hex_encode, validate_address, verify_signature,
}
use sudharma.Dict.{get, insert}
use sudharma.Ledger.Apply.{check_transaction}
use sudharma.Ledger.Confirmed.{count_id}
use sudharma.Ledger.Mutate.{apply_transaction_for, apply_transaction_mutating, move_funds}
use sudharma.Ledger.Process.{
  check_block_context, process_block_for, process_transactions, process_working_state,
}
use sudharma.Ledger.Rewards.{
  credit_miner_reward_for, credit_total, mint_subsidy, pay_miner, state_remaining_supply_for,
}
use sudharma.Params.{
  development_treasury_address, max_supply_for, monetary_policy_for, network_for_monetary_policy,
  validate_monetary_policy,
}
use sudharma.State.Methods.{
  balance, clone, credit, debit, ensure_monetary_policy, expected_nonce, is_transaction_processed,
  mark_transaction_processed, mint_supply_for, new_state_for, replace_with, set_account_nonce,
}
use sudharma.State.Monad.{State}
use sudharma.Tests.Chains.{first_block, genesis_chain}
use sudharma.Tests.Fixtures.{alice, bob, payment, payment_block, toy_crypto}
use sudharma.Transactions.Fee.{calculate_fee, development_fee, mining_fee}
use sudharma.Transactions.Identity.{calculate_id}
use sudharma.Transactions.Record.{estimated_serialized_size, validate_resource_bounds}
use sudharma.Transactions.Signature.{signing_message, verify_for_network}

abbrev paid_chain : Chain
paid_chain = record genesis_chain {
  blocks =
      new_genesis_block
      ∷ record first_block { miner_address = alice }
      ∷ record payment_block { height = 2 }
      ∷ [];
  total_work = 3;
}

abbrev chain_state : State
chain_state = record {
  balances = (alice, 4998999000) ∷ (bob, 5001000900) ∷ (development_treasury_address, 100) ∷ [];
  processed_tx = (payment.id, true) ∷ [];
  account_nonces = (alice, 1) ∷ [];
  development_address = development_treasury_address;
  issued_supply = 10000000000;
  monetary_policy = 1;
}

paid_chain_state : build_state_from_chain toy_crypto paid_chain ≡ ok chain_state
unfolding build_state_from_chain chain_monetary_policy monetary_policy_for bytes_eq new_state_for
    validate_monetary_policy replay_blocks chain_height last_block block_by_height process_block_for
    check_block_context network_for_monetary_policy ensure_monetary_policy process_working_state
    process_transactions credit_miner_reward_for block_subsidy_for testnet_subsidy add64 get insert
    credit_total mint_subsidy pay_miner state_remaining_supply_for max_supply_for clone credit
    mint_supply_for replace_with apply_transaction_for apply_transaction_mutating check_transaction
    is_transaction_processed validate_resource_bounds validate_address estimated_serialized_size
    verify_for_network address_from_public_key hex_encode calculate_id signing_message
    verify_signature expected_nonce mul64 sub64 all_lower_hex calculate_fee development_fee
    mining_fee balance move_funds debit set_account_nonce mark_transaction_processed
paid_chain_state = refl

build_state_from_chain_once_example :
    count_id payment.id (confirmed paid_chain (chain_height paid_chain) 1)
    ≡ (if is_transaction_processed chain_state payment.id then 1 else 0)
build_state_from_chain_once_example =
    build_state_from_chain_once toy_crypto paid_chain chain_state payment.id paid_chain_state
