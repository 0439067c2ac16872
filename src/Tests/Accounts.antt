-- ===== src/Tests/Accounts.antt =====
-- Transactions and blocks on a small state.
use sudharma.Base.{
  [], add64, arith, bytes_eq, bytes_keys, codes, err, mul64, nat_keys, ok, refl, some, sub64,
  tx_already_processed, u64_mod, ◌++◌, ◌<◌, ◌∷◌, ◌≡◌,
}
use sudharma.Blocks.Record.{Block}
use sudharma.Crypto.{
  address_from_public_key, all_lower_hex, hex_digit, hex_encode, is_lower_hex, set_bytes,
  validate_address, verify_signature,
}
use sudharma.Dict.{get, insert, total}
use sudharma.Ledger.Apply.{check_transaction}
use sudharma.Ledger.Atomic.{Applies, apply_transaction_for-Applies}
use sudharma.Ledger.Blocks.{BlockOutcome}
use sudharma.Ledger.Effects.{Moved, apply_transaction_for-Moved, apply_transaction_for_ok}
use sudharma.Ledger.Lasting.{now, with_block, with_transaction}
use sudharma.Ledger.Mutate.{apply_transaction_for, apply_transaction_mutating, move_funds}
use sudharma.Ledger.Process.{process_block_for}
use sudharma.Ledger.Replay.{apply_transaction_for_once}
use sudharma.Ledger.Soundness.{process_block_for-BlockOutcome}
use sudharma.Params.{development_treasury_address, network_mainnet, network_public_testnet}
use sudharma.State.Balance.{Transfers, transfer-Transfers}
use sudharma.State.Methods.{
  balance, clone, credit, debit, expected_nonce, is_transaction_processed,
  mark_transaction_processed, replace_with, set_account_nonce, transfer,
}
use sudharma.State.Monad.{State}
use sudharma.Tests.Fixtures.{
  alice, bob, funded_state, funded_state-Backed, paid_state, payment, payment-IsU64, payment_block,
  toy_crypto,
}
use sudharma.Transactions.Fee.{basis_points_fee, calculate_fee, development_fee, mining_fee}
use sudharma.Transactions.Identity.{bar, calculate_id, decimal, emit_digits, id_preimage}
use sudharma.Transactions.Record.{estimated_serialized_size, validate_resource_bounds}
use sudharma.Transactions.Separation.{HasNoBar, signing_message_separates}
use sudharma.Transactions.Signature.{
  signature_domain_network_bound, signing_message, verify_for_network, verify_signature_domain,
}

payment_applies :
    apply_transaction_for toy_crypto (some payment) network_public_testnet funded_state
    ≡ (ok 900, paid_state)
unfolding apply_transaction_for apply_transaction_mutating check_transaction
    is_transaction_processed get clone validate_resource_bounds validate_address
    estimated_serialized_size verify_for_network bytes_eq address_from_public_key hex_encode
    calculate_id signing_message verify_signature expected_nonce add64 mul64 sub64 all_lower_hex
    hex_digit is_lower_hex set_bytes insert move_funds balance credit debit
    mark_transaction_processed replace_with set_account_nonce basis_points_fee calculate_fee
    development_fee mining_fee decimal emit_digits id_preimage verify_signature_domain
payment_applies = refl

payment_checks : check_transaction toy_crypto funded_state payment network_public_testnet ≡ ok tt
payment_checks =
    (apply_transaction_for_ok toy_crypto payment network_public_testnet funded_state paid_state 900
      payment_applies).0

apply_transaction_for-Applies_example :
    Applies toy_crypto 0 payment funded_state
      (apply_transaction_for toy_crypto (some payment) network_public_testnet funded_state)
apply_transaction_for-Applies_example =
    apply_transaction_for-Applies toy_crypto 0 payment network_public_testnet funded_state
      payment-IsU64 funded_state-Backed

apply_transaction_for-Moved_example :
    Moved payment development_treasury_address funded_state paid_state
apply_transaction_for-Moved_example =
    apply_transaction_for-Moved toy_crypto 0 900 payment network_public_testnet funded_state
      paid_state payment-IsU64 funded_state-Backed payment_applies

abbrev empty_block : Block
empty_block = record payment_block { transactions = [] }

abbrev later_state : State
later_state =
    (process_block_for toy_crypto 1 empty_block bob
      (apply_transaction_for toy_crypto (some payment) network_mainnet paid_state).1).1

apply_transaction_for_once_example :
    apply_transaction_for toy_crypto (some payment) network_mainnet later_state
    ≡ (err tx_already_processed, later_state)
apply_transaction_for_once_example =
    apply_transaction_for_once toy_crypto 900 payment payment network_public_testnet network_mainnet
      funded_state paid_state later_state payment_applies
      (with_block 1 empty_block bob (with_transaction (some payment) network_mainnet now)) refl

process_block_for-BlockOutcome_example :
    BlockOutcome toy_crypto 1 payment_block funded_state
      (process_block_for toy_crypto 1 payment_block bob funded_state)
process_block_for-BlockOutcome_example =
    process_block_for-BlockOutcome toy_crypto 1 payment_block bob funded_state (payment-IsU64, tt)
      funded_state-Backed

small_total : total funded_state.balances < u64_mod
unfolding total
small_total = omega arith

transfer-Transfers_example : Transfers funded_state (transfer alice bob 1234 funded_state)
transfer-Transfers_example =
    transfer-Transfers alice bob 1234 funded_state (omega arith) small_total

message_bound :
    signing_message signature_domain_network_bound network_public_testnet payment.id
    ≡ ok (codes "sudharma-tx-v2|" ++ (network_public_testnet ++ (bar ∷ payment.id)))
unfolding signing_message
message_bound = refl

-- The name of the public test network as the signing message holds it.
named-HasNoBar : HasNoBar network_public_testnet
named-HasNoBar = ground arith

signing_message_separates_example :
    (network_public_testnet ≡ network_public_testnet) × (payment.id ≡ payment.id)
signing_message_separates_example =
    signing_message_separates network_public_testnet network_public_testnet payment.id payment.id
      (codes "sudharma-tx-v2|" ++ (network_public_testnet ++ (bar ∷ payment.id))) named-HasNoBar
      named-HasNoBar message_bound message_bound
