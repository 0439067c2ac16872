-- ===== src/Tests/Economics.antt =====
-- Fees, difficulty, work and emission at concrete numbers.
use sudharma.Base.{
  List, [], arith, codes, epoch_out_of_range, err, length, max, max_u32, ok, pos, ℤ, ◌*◌, ◌+◌, ◌/◌,
  ◌<◌, ◌∷◌, ◌≡◌, ◌≢◌, ◌≤ℤ◌, ◌≤◌, ◌⊎◌,
}
use sudharma.Consensus.Difficulty.{
  median_block_interval, next_difficulty, next_difficulty_from_history, valid_intervals,
}
use sudharma.Consensus.Emission.{
  cumulative_subsidy, mainnet_emission_capped, mainnet_emission_complete, mainnet_subsidy_total,
}
use sudharma.Consensus.Median.{
  count_above, count_below, median_resists_minority, steady_majority_keeps_difficulty,
}
use sudharma.Consensus.Retarget.{
  fast_blocks_raise_difficulty, next_difficulty_bounds, slow_blocks_lower_difficulty,
}
use sudharma.Consensus.Subsidy.{block_subsidy_for}
use sudharma.Consensus.Work.{work_from_difficulty}
use sudharma.Consensus.Work.Bounds.{work_near_difficulty}
use sudharma.Params.{mainnet_max_supply, network_mainnet, parse_network, policy_mainnet}
use sudharma.Params.Identity.{parse_network-ne-mainnet}
use sudharma.Transactions.Fee.{basis_points_fee, calculate_fee, development_fee, mining_fee}
use sudharma.Transactions.Fee.Exact.{basis_points_fee_exact, fee_split_exact}

basis_points_fee_exact_example : basis_points_fee 12345 10 ≡ 12345 * 10 / 10000
basis_points_fee_exact_example = basis_points_fee_exact 12345 10 (omega arith) (omega arith)

fee_split_exact_example :
    (development_fee 12345 + mining_fee 12345 ≡ calculate_fee 12345)
    × (calculate_fee 12345 * 1000 ≤ 12345)
fee_split_exact_example = fee_split_exact 12345 (omega arith)

parse_network-ne-mainnet_example : parse_network (codes "mainnet") ≢ ok network_mainnet
parse_network-ne-mainnet_example = parse_network-ne-mainnet (codes "mainnet")

mainnet_emission_complete_example : cumulative_subsidy policy_mainnet 6000000 ≡ mainnet_max_supply
mainnet_emission_complete_example = mainnet_emission_complete 6000000 (omega arith)

mainnet_emission_capped_example : cumulative_subsidy policy_mainnet 131491 ≤ mainnet_max_supply
mainnet_emission_capped_example = mainnet_emission_capped 131491

mainnet_subsidy_total_example : block_subsidy_for policy_mainnet 5259600 ≢ err epoch_out_of_range
mainnet_subsidy_total_example = mainnet_subsidy_total 5259600 epoch_out_of_range

next_difficulty_bounds_example :
    (1 ≤ next_difficulty 100 (pos 10))
    × (next_difficulty 100 (pos 10) ≤ max_u32)
    × (next_difficulty 100 (pos 10) ≤ max 100 1 + max (max 100 1 / 4) 1)
    × (max 100 1 ≤ next_difficulty 100 (pos 10) + max (max 100 1 / 5) 1)
next_difficulty_bounds_example = next_difficulty_bounds 100 (pos 10) (omega arith)

fast_blocks_raise_difficulty_example :
    (max 100 1 < next_difficulty 100 (pos 10)) ⊎ (next_difficulty 100 (pos 10) ≡ max_u32)
fast_blocks_raise_difficulty_example =
    fast_blocks_raise_difficulty 100 (pos 10) (omega arith) (omega arith)

slow_blocks_lower_difficulty_example :
    (next_difficulty 100 (pos 200) < max 100 1) ⊎ (next_difficulty 100 (pos 200) ≡ 1)
slow_blocks_lower_difficulty_example =
    slow_blocks_lower_difficulty 100 (pos 200) (omega arith) (omega arith)

abbrev intervals : List ℤ
intervals = pos 60 ∷ pos 1 ∷ pos 70 ∷ pos 65 ∷ pos 9999 ∷ []

few_below : 2 * count_below 30 (valid_intervals intervals) < length (valid_intervals intervals)
unfolding count_below valid_intervals
few_below = omega arith

few_above : 2 * count_above 120 (valid_intervals intervals) < length (valid_intervals intervals)
unfolding count_above valid_intervals
few_above = omega arith

median_resists_minority_example :
    (pos 30 ≤ℤ median_block_interval intervals) × (median_block_interval intervals ≤ℤ pos 120)
median_resists_minority_example = median_resists_minority intervals 30 120 few_below few_above

steady_majority_keeps_difficulty_example : next_difficulty_from_history 100 intervals ≡ 100
steady_majority_keeps_difficulty_example =
    steady_majority_keeps_difficulty 100 intervals (omega arith) few_below few_above

work_near_difficulty_example :
    (work_from_difficulty 100 ≤ 100) × (100 ≤ work_from_difficulty 100 + 1)
work_near_difficulty_example = work_near_difficulty 100 (omega arith) (omega arith)
