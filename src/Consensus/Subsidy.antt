-- ===== src/Consensus/Subsidy.antt =====
-- consensus/rewards.go: the subsidy of a block under a monetary policy. Halving is a right shift,
-- written as a division by a power of two.
use sudharma.Base.{
  Result, epoch_out_of_range, err, get_or, if◌then◌else◌, leb, ltb, nat_eq, ok, ℕ, ◌%◌, ◌+◌, ◌-◌,
  ◌/◌, ◌>>◌, ◌^◌, ◌||◌,
}
use sudharma.Params.{
  halving_interval, initial_block_reward, mainnet_epoch_length, mainnet_final_subsidy_height,
  policy_public_testnet, validate_monetary_policy,
}
use sudharma.Params.Emission.{mainnet_emission_epochs}

-- `params.MainnetEmissionEpochs[epochIndex].Issuance`, for an index that was checked
unfoldable pub epoch_issuance : ℕ → ℕ
epoch_issuance epoch_index = get_or mainnet_emission_epochs epoch_index 0

-- The public-testnet branch of `BlockSubsidyFor`.
unfoldable pub testnet_subsidy : ℕ → ℕ
testnet_subsidy height =
    let halvings = height / halving_interval in
    if leb 64 halvings then 0 else initial_block_reward / 2 ^ halvings

-- The mainnet branch. `height - 1` is computed for a positive height.
unfoldable pub mainnet_subsidy : ℕ → Result ℕ
mainnet_subsidy height =
    if nat_eq height 0 || ltb mainnet_final_subsidy_height height
    then ok 0
    else (let epoch_index = (height - 1) / mainnet_epoch_length in
        if leb 40 epoch_index
        then err epoch_out_of_range
        else (let base = epoch_issuance epoch_index / mainnet_epoch_length in
            let remainder = epoch_issuance epoch_index % mainnet_epoch_length in
            let offset = (height - 1) % mainnet_epoch_length in
            ok (if ltb offset remainder then base + 1 else base)))

unfoldable pub block_subsidy_for : ℕ → ℕ → Result ℕ
block_subsidy_for policy height = do
  validate_monetary_policy policy
  if nat_eq policy policy_public_testnet
      then ok (testnet_subsidy height)
      else mainnet_subsidy height

abbrev pub value_or_zero : Result ℕ → ℕ
value_or_zero (ok n) = n
value_or_zero (err e) = 0

-- `BlockSubsidy`: the public testnet's, with the error dropped.
unfoldable pub block_subsidy : ℕ → ℕ
block_subsidy height = value_or_zero (block_subsidy_for policy_public_testnet height)
