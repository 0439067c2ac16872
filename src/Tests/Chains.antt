-- ===== src/Tests/Chains.antt =====
-- Merkle roots, fork choice, replay and reorganization on short chains.
use sudharma.Base.{
  Bytes, [], add64, arith, bytes_eq, bytes_keys, false, length, min, nat_keys, none, ok, pos, refl,
  some, subst, suc, true, zero, ℕ, ℤ, ◌+ℤ◌, ◌+◌, ◌<◌, ◌↔◌, ◌∷◌, ◌≡◌, ◌≤◌,
}
use sudharma.Blocks.Genesis.{genesis_block, new_genesis_block}
use sudharma.Blocks.Header.{block_hash}
use sudharma.Blocks.Limits.{count_block_bytes, validate_block_transactions}
use sudharma.Blocks.Merkle.{
  calculate_merkle_root, empty_root, leaves, merkle_root_repeats_last, reduce_levels,
  reduce_levels_ends,
}
use sudharma.Blocks.Record.{AllU64, Block}
use sudharma.Chain.Adopt.{IsBetter, better_chain_iff}
use sudharma.Chain.Choice.{agree_at, better_chain, candidate_chain, last_common, reorg_depth}
use sudharma.Chain.Common.{reorg_depth_last_common}
use sudharma.Chain.Extend.{
  add_block, check_next_block, expected_genesis, new_chain_from_genesis_with_consensus,
}
use sudharma.Chain.Outcome.{Reorganizes, reorganize_to_candidate-Reorganizes}
use sudharma.Chain.Policy.{ProofVerifier, legacy_only_pow_policy, version_allowed}
use sudharma.Chain.Reachable.{IsValid, Reachable-IsValid, extended, made}
use sudharma.Chain.Record.{Chain, block_by_height, chain_height, chain_monetary_policy, last_block}
use sudharma.Chain.Reorg.{build_state_from_chain, reorganize_to_candidate, replay_blocks}
use sudharma.Chain.Replay.{ChainU64, build_state_from_chain-IsSound}
use sudharma.Chain.Schedule.{build_state_from_chain_issues_schedule}
use sudharma.Chain.Validate.{recent_block_intervals, validate_block_core_with_proof}
use sudharma.Consensus.Difficulty.{
  median_block_interval, next_difficulty, next_difficulty_from_history, valid_intervals,
}
use sudharma.Consensus.Emission.{cumulative_subsidy}
use sudharma.Consensus.Subsidy.{block_subsidy_for, testnet_subsidy}
use sudharma.Consensus.Work.{target_from_difficulty, work_from_difficulty}
use sudharma.Crypto.{hex_digit, hex_encode}
use sudharma.Dict.{get, insert}
use sudharma.Ledger.Blocks.{IsSound}
use sudharma.Ledger.Process.{
  check_block_context, process_block_for, process_transactions, process_working_state,
}
use sudharma.Ledger.Rewards.{
  credit_miner_reward_for, credit_total, mint_subsidy, pay_miner, state_remaining_supply_for,
}
use sudharma.Params.{
  development_treasury_address, max_supply_for, monetary_policy_for, network_for_monetary_policy,
  network_public_testnet, validate_monetary_policy,
}
use sudharma.State.Methods.{
  clone, credit, ensure_monetary_policy, mint_supply_for, new_state_for, replace_with,
}
use sudharma.State.Monad.{State}
use sudharma.Tests.Fixtures.{alice, bob, funded_state, payment, toy_crypto}

abbrev pub toy_verifier : ProofVerifier
toy_verifier = record { supports_version = λ version. true; verify_proof = λ b. true }

abbrev pub zero_hash : Bytes
zero_hash = payment.id

abbrev pub first_block : Block
first_block = record {
  version = 1;
  height = 1;
  timestamp = pos 1786924860;
  previous_hash = zero_hash;
  merkle_root = zero_hash;
  difficulty = 1;
  nonce = 0;
  miner_address = bob;
  transactions = [];
}

abbrev pub genesis_chain : Chain
genesis_chain = record {
  network = network_public_testnet;
  blocks = new_genesis_block ∷ [];
  total_work = 1;
  pow_policy = legacy_only_pow_policy;
  proof_verifier = toy_verifier;
}

abbrev pub longer_chain : Chain
longer_chain = record {
  network = network_public_testnet;
  blocks = new_genesis_block ∷ first_block ∷ [];
  total_work = 2;
  pow_policy = legacy_only_pow_policy;
  proof_verifier = toy_verifier;
}

abbrev pub mined_state : State
mined_state = record {
  balances = (bob, 5000000000) ∷ [];
  processed_tx = [];
  account_nonces = [];
  development_address = development_treasury_address;
  issued_supply = 5000000000;
  monetary_policy = 1;
}

abbrev pub noon : ℤ
noon = pos 1786924900

pub genesis_chain_made :
    new_chain_from_genesis_with_consensus toy_crypto network_public_testnet new_genesis_block
      legacy_only_pow_policy toy_verifier
    ≡ ok genesis_chain
unfolding new_chain_from_genesis_with_consensus monetary_policy_for bytes_eq legacy_only_pow_policy
    version_allowed new_genesis_block genesis_block expected_genesis block_hash hex_encode
    work_from_difficulty target_from_difficulty
genesis_chain_made = refl

pub first_block_added : add_block toy_crypto noon first_block genesis_chain ≡ ok longer_chain
unfolding add_block last_block check_next_block next_difficulty_from_history next_difficulty
    median_block_interval recent_block_intervals new_genesis_block genesis_block
    validate_block_core_with_proof version_allowed legacy_only_pow_policy add64 bytes_eq block_hash
    hex_encode ◌+ℤ◌ calculate_merkle_root empty_root hex_digit leaves count_block_bytes
    validate_block_transactions valid_intervals target_from_difficulty work_from_difficulty
first_block_added = refl

pub longer_chain_state : build_state_from_chain toy_crypto longer_chain ≡ ok mined_state
unfolding build_state_from_chain chain_monetary_policy monetary_policy_for bytes_eq new_state_for
    validate_monetary_policy replay_blocks chain_height last_block block_by_height process_block_for
    check_block_context network_for_monetary_policy ensure_monetary_policy process_working_state
    process_transactions credit_miner_reward_for block_subsidy_for testnet_subsidy add64 get insert
    credit_total mint_subsidy pay_miner state_remaining_supply_for max_supply_for clone credit
    mint_supply_for replace_with
longer_chain_state = refl

depth_one : reorg_depth toy_crypto longer_chain genesis_chain ≡ ok (1, 0)
unfolding reorg_depth last_common chain_height last_block new_genesis_block genesis_block agree_at
    block_by_height bytes_eq block_hash hex_encode
depth_one = refl

pub longer_chain-ChainU64 : ChainU64 longer_chain
unfolding block_by_height new_genesis_block genesis_block
longer_chain-ChainU64 zero b h =
    subst (λ o. AllU64 (elim o [ none ↦ [] | some first ↦ first.transactions ])) h tt
longer_chain-ChainU64 (suc zero) b h =
    subst (λ o. AllU64 (elim o [ none ↦ [] | some first ↦ first.transactions ])) h tt
longer_chain-ChainU64 (suc (suc n)) b h = absurd (cc h)

reduce_levels_ends_example : length (reduce_levels toy_crypto 3 (alice ∷ bob ∷ zero_hash ∷ [])) ≡ 1
reduce_levels_ends_example =
    reduce_levels_ends toy_crypto 3 (alice ∷ bob ∷ zero_hash ∷ []) (omega arith) (omega arith)

merkle_root_repeats_last_example :
    calculate_merkle_root toy_crypto
      (record first_block { transactions = some payment ∷ some payment ∷ some payment ∷ [] })
    ≡ calculate_merkle_root toy_crypto (record first_block {
      transactions = some payment ∷ some payment ∷ some payment ∷ some payment ∷ [];
    })
merkle_root_repeats_last_example =
    merkle_root_repeats_last toy_crypto first_block payment payment payment

better_chain_iff_example :
    (better_chain genesis_chain longer_chain ≡ ok candidate_chain)
    ↔ ((network_public_testnet ≡ network_public_testnet) × IsBetter genesis_chain longer_chain)
better_chain_iff_example = better_chain_iff genesis_chain longer_chain

reorg_depth_last_common_example :
    (agree_at toy_crypto longer_chain genesis_chain 0 ≡ true)
    × (0 ≤ chain_height genesis_chain)
    × (1 + 0 ≡ chain_height longer_chain)
    × ((height : ℕ)
        → 0 < height
        → height ≤ chain_height longer_chain
        → height ≤ chain_height genesis_chain
        → agree_at toy_crypto longer_chain genesis_chain height ≡ false)
reorg_depth_last_common_example =
    reorg_depth_last_common toy_crypto longer_chain genesis_chain 1 0 depth_one

build_state_from_chain-IsSound_example :
    IsSound mined_state × (chain_monetary_policy longer_chain ≡ ok 1)
build_state_from_chain-IsSound_example =
    build_state_from_chain-IsSound toy_crypto longer_chain mined_state longer_chain-ChainU64
      longer_chain_state

reorganize_to_candidate-Reorganizes_example :
    Reorganizes toy_crypto genesis_chain funded_state longer_chain (
      reorganize_to_candidate toy_crypto
        (λ i. noon)
        (λ i. noon)
        genesis_chain
        funded_state
        longer_chain)
reorganize_to_candidate-Reorganizes_example =
    reorganize_to_candidate-Reorganizes toy_crypto (λ i. noon) (λ i. noon) genesis_chain
      longer_chain funded_state

Reachable-IsValid_example : IsValid toy_crypto longer_chain
Reachable-IsValid_example = Reachable-IsValid toy_crypto longer_chain (
    extended noon first_block
      (made network_public_testnet new_genesis_block legacy_only_pow_policy toy_verifier
        genesis_chain_made)
      first_block_added)

public_testnet_policy : chain_monetary_policy longer_chain ≡ ok 1
unfolding chain_monetary_policy monetary_policy_for bytes_eq
public_testnet_policy = refl

build_state_from_chain_issues_schedule_example :
    mined_state.issued_supply
    ≡ min (max_supply_for 1) (cumulative_subsidy 1 (chain_height longer_chain))
build_state_from_chain_issues_schedule_example =
    build_state_from_chain_issues_schedule toy_crypto longer_chain mined_state 1
      longer_chain-ChainU64 public_testnet_policy longer_chain_state
