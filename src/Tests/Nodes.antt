-- ===== src/Tests/Nodes.antt =====
-- A node that accepts a block, a download from a peer, and a candidate of the mempool.
use sudharma.Base.{rounds_used_up}
use sudharma.Base.{
  List, Option, Result, [], add64, arith, bytes_eq, bytes_keys, err, mul64, nat_keys, ok, pos, refl,
  some, sub64, u64_mod, ℕ, ◌+ℤ◌, ◌<◌, ◌>>=◌, ◌∷◌, ◌≡◌, ◌≢◌,
}
use sudharma.Blocks.Genesis.{genesis_block, genesis_for, new_genesis_block}
use sudharma.Blocks.Header.{big_endian, block_hash, header_bytes, unsigned64}
use sudharma.Blocks.Limits.{count_block_bytes, validate_block_transactions}
use sudharma.Blocks.Merkle.{calculate_merkle_root, empty_root, hex_decode, hex_value, leaves}
use sudharma.Blocks.Record.{Block}
use sudharma.Chain.Extend.{
  add_block, check_next_block, expected_genesis, new_chain_for, new_chain_for_with_consensus,
  new_chain_from_genesis_with_consensus,
}
use sudharma.Chain.Grow.{IsNumbered}
use sudharma.Chain.Policy.{
  legacy_only_pow_policy, legacy_proof_verifier, pow_policy_for_network,
  valid_block_proof_of_work_core, version_allowed,
}
use sudharma.Chain.Reachable.{IsValid, new_chain-IsValid}
use sudharma.Chain.Record.{
  Chain, block_by_height, chain_height, chain_monetary_policy, last_block, tip,
}
use sudharma.Chain.Reorg.{build_state_from_chain, replay_blocks}
use sudharma.Chain.Validate.{
  expected_next_difficulty, recent_block_intervals, validate_block_against_chain,
  validate_block_core_with_proof,
}
use sudharma.Consensus.Difficulty.{
  median_block_interval, next_difficulty, next_difficulty_from_history, valid_intervals,
}
use sudharma.Consensus.Subsidy.{block_subsidy_for, testnet_subsidy}
use sudharma.Consensus.Work.{target_from_difficulty, work_from_difficulty}
use sudharma.Crypto.{
  address_from_public_key, all_lower_hex, hex_digit, hex_encode, set_bytes, validate_address,
  verify_signature,
}
use sudharma.Dict.{get, insert}
use sudharma.Ledger.Apply.{check_transaction}
use sudharma.Ledger.Mutate.{apply_transaction_for, apply_transaction_mutating, move_funds}
use sudharma.Ledger.Process.{
  check_block_context, process_block_for, process_transactions, process_working_state,
}
use sudharma.Ledger.Rewards.{
  credit_miner_reward_for, credit_total, mint_subsidy, pay_miner, state_remaining_supply_for,
}
use sudharma.Mempool.Methods.{new_mempool}
use sudharma.Mempool.Order.{before_in_chain, insert_ordered, sort_slice}
use sudharma.Mempool.Queue.{PendingU64, Queued, validate_mempool_transaction_for-Queued}
use sudharma.Mempool.Validate.{
  collect_pending, replay_candidate, replay_pending, validate_mempool_transaction_for,
}
use sudharma.Node.Blocks.{accept_block, check_block, commit_block, process_working, remove_all}
use sudharma.Node.Consistent.{IsConsistent}
use sudharma.Node.Reach.{Runs-IsConsistent, accepted, started}
use sudharma.Node.Record.{Node, new_node, refresh_chain_status, set_chain, set_state, with_status}
use sudharma.Node.Sync.{
  add_batch, check_end, download_batches, download_candidate_chain, fetch_batch, request_blocks,
}
use sudharma.Node.Sync.Laws.{
  IsDownloaded, download_candidate_chain-IsDownloaded, download_candidate_chain_ends,
}
use sudharma.Params.{
  development_treasury_address, max_supply_for, monetary_policy_for, network_for_monetary_policy,
  network_public_testnet, validate_monetary_policy,
}
use sudharma.State.Methods.{
  account_nonce, balance, clone, credit, debit, ensure_monetary_policy, expected_nonce,
  is_transaction_processed, mark_transaction_processed, mint_supply_for, new_state_for,
  replace_with, set_account_nonce,
}
use sudharma.State.Monad.{State}
use sudharma.Tests.Chains.{
  first_block, genesis_chain, genesis_chain_made, longer_chain, mined_state, noon, toy_verifier,
  zero_hash,
}
use sudharma.Tests.Fixtures.{
  alice, bob, funded_state, funded_state-Backed, payment, payment-IsU64, toy_crypto,
}
use sudharma.Transactions.Fee.{calculate_fee, development_fee, mining_fee}
use sudharma.Transactions.Identity.{calculate_id}
use sudharma.Transactions.Record.{Transaction, estimated_serialized_size, validate_resource_bounds}
use sudharma.Transactions.Signature.{signing_message, verify_for_network}

abbrev empty_state : State
empty_state = record {
  balances = [];
  processed_tx = [];
  account_nonces = [];
  development_address = development_treasury_address;
  issued_supply = 0;
  monetary_policy = 1;
}

abbrev first_node : Node
first_node = record {
  node_id = alice;
  listen_address = bob;
  height = 0;
  tip_hash = zero_hash;
  mempool = new_mempool;
  state = some empty_state;
  chain = some genesis_chain;
}

first_node_started :
    (new_node alice bob 7 []
      >>= set_chain toy_crypto network_public_testnet (some genesis_chain)
      >>= set_state (some empty_state))
    ≡ ok first_node
unfolding new_node set_state set_chain ensure_monetary_policy validate_monetary_policy
    chain_monetary_policy monetary_policy_for bytes_eq with_status chain_height tip last_block
    new_genesis_block block_hash genesis_block hex_encode
first_node_started = refl

genesis_state : build_state_from_chain toy_crypto genesis_chain ≡ ok empty_state
unfolding build_state_from_chain chain_monetary_policy monetary_policy_for bytes_eq new_state_for
    validate_monetary_policy replay_blocks chain_height last_block new_genesis_block genesis_block
genesis_state = refl

genesis_chain-IsNumbered : IsNumbered genesis_chain
unfolding chain_height last_block new_genesis_block genesis_block
genesis_chain-IsNumbered = refl

genesis_chain-IsValid : IsValid toy_crypto genesis_chain
genesis_chain-IsValid =
    new_chain-IsValid toy_crypto network_public_testnet new_genesis_block legacy_only_pow_policy
      toy_verifier genesis_chain genesis_chain_made

-- The node takes the block.
first_block_accepted :
    (accept_block toy_crypto noon noon (some first_block) first_node).1.state ≡ some mined_state
unfolding accept_block check_block validate_block_against_chain expected_next_difficulty
    process_working commit_block remove_all refresh_chain_status with_status tip add_block
    last_block check_next_block next_difficulty_from_history next_difficulty median_block_interval
    recent_block_intervals new_genesis_block genesis_block validate_block_core_with_proof
    version_allowed legacy_only_pow_policy add64 bytes_eq block_hash hex_encode ◌+ℤ◌
    calculate_merkle_root empty_root hex_digit leaves count_block_bytes validate_block_transactions
    valid_intervals target_from_difficulty work_from_difficulty build_state_from_chain
    chain_monetary_policy monetary_policy_for new_state_for validate_monetary_policy replay_blocks
    chain_height block_by_height process_block_for check_block_context network_for_monetary_policy
    ensure_monetary_policy process_working_state process_transactions credit_miner_reward_for
    block_subsidy_for testnet_subsidy get insert credit_total mint_subsidy pay_miner
    state_remaining_supply_for max_supply_for clone credit mint_supply_for replace_with
first_block_accepted = refl

Runs-IsConsistent_example :
    IsConsistent toy_crypto (accept_block toy_crypto noon noon (some first_block) first_node).1
Runs-IsConsistent_example =
    Runs-IsConsistent toy_crypto (accept_block toy_crypto noon noon (some first_block) first_node).1
      (accepted noon noon (some first_block) (omega arith) (
        started alice bob [] network_public_testnet 7 genesis_chain empty_state
          genesis_chain-IsValid genesis_chain-IsNumbered genesis_state first_node_started))

abbrev downloaded : Chain
downloaded = record longer_chain { proof_verifier = legacy_proof_verifier toy_crypto }

abbrev answer : ℕ → ℕ → Result (List (Option Block))
answer start limit = ok (some first_block ∷ [])

first_block_downloaded :
    download_candidate_chain toy_crypto (λ i. noon) 1 answer (pos 5) zero_hash 2 ≡ ok downloaded
unfolding download_candidate_chain new_chain_for pow_policy_for_network new_chain_for_with_consensus
    genesis_for new_chain_from_genesis_with_consensus monetary_policy_for legacy_proof_verifier
    expected_genesis download_batches fetch_batch request_blocks add_batch sub64 check_end tip
    chain_height legacy_only_pow_policy valid_block_proof_of_work_core hex_decode hex_value
    set_bytes header_bytes big_endian unsigned64 add_block last_block check_next_block
    next_difficulty_from_history next_difficulty median_block_interval recent_block_intervals
    new_genesis_block genesis_block validate_block_core_with_proof version_allowed add64 bytes_eq
    block_hash hex_encode ◌+ℤ◌ calculate_merkle_root empty_root hex_digit leaves count_block_bytes
    validate_block_transactions valid_intervals target_from_difficulty work_from_difficulty
first_block_downloaded = refl

download_candidate_chain-IsDownloaded_example :
    IsDownloaded toy_crypto (λ i. noon) 1 zero_hash 2 downloaded
download_candidate_chain-IsDownloaded_example =
    download_candidate_chain-IsDownloaded toy_crypto (λ i. noon) 1 answer (pos 5) zero_hash 2
      downloaded (omega arith) first_block_downloaded

download_candidate_chain_ends_example :
    download_candidate_chain toy_crypto (λ i. noon) 1 answer (pos 5) zero_hash 2
    ≢ err rounds_used_up
download_candidate_chain_ends_example =
    download_candidate_chain_ends toy_crypto (λ i. noon) 1 answer (pos 5) zero_hash 2 (omega arith)

-- A pending transaction of another sender.
abbrev other_payment : Transaction
other_payment = record payment { id = bob; from = bob; to = alice; nonce = 3 }

abbrev waiting : List (Option Transaction)
waiting = some other_payment ∷ []

waiting-PendingU64 : PendingU64 waiting
unfolding PendingU64
waiting-PendingU64 =
    (record { amount_fits = omega arith; fee_fits = omega arith; nonce_fits = omega arith }, tt)

payment_valid :
    validate_mempool_transaction_for toy_crypto funded_state waiting
      (some payment)
      network_public_testnet
    ≡ ok tt
unfolding validate_mempool_transaction_for validate_resource_bounds collect_pending sort_slice
    insert_ordered before_in_chain replay_candidate replay_pending apply_transaction_for
    apply_transaction_mutating check_transaction is_transaction_processed get clone validate_address
    estimated_serialized_size verify_for_network bytes_eq address_from_public_key hex_encode
    calculate_id signing_message verify_signature expected_nonce add64 mul64 sub64 all_lower_hex
    calculate_fee development_fee mining_fee balance move_funds debit credit insert
    set_account_nonce mark_transaction_processed
payment_valid = refl

no_nonce_yet : account_nonce funded_state payment.from < u64_mod
unfolding account_nonce get
no_nonce_yet = omega arith

validate_mempool_transaction_for-Queued_example :
    Queued toy_crypto funded_state waiting payment network_public_testnet
validate_mempool_transaction_for-Queued_example =
    validate_mempool_transaction_for-Queued toy_crypto funded_state waiting payment
      network_public_testnet funded_state-Backed no_nonce_yet payment-IsU64 waiting-PendingU64
      payment_valid
