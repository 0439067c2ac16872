-- ===== src/Params.antt =====
-- params/monetary.go, params/network.go, params/network_policy.go, params/params.go and
-- params/resource_policy.go: the protocol constants, and the maps between the networks and their
-- monetary policies. `MonetaryPolicy` is a uint8 and `NetworkID` a string, so both keep their
-- unknown values.
pub mod Emission
pub mod Identity
use sudharma.Base.{
  Bool, Bytes, Result, bytes_eq, codes, err, false, if◌then◌else◌, is_empty, nat_eq,
  network_not_authorized, ok, unknown_network, unknown_policy, ℕ, ◌*◌, ◌||◌,
}

abbrev pub policy_public_testnet : ℕ
policy_public_testnet = 1

abbrev pub policy_mainnet : ℕ
policy_mainnet = 2

abbrev pub coin_decimals : ℕ
coin_decimals = 100000000

-- `MaxSupply`, the cap of the public testnet
abbrev pub max_supply : ℕ
max_supply = 51000000000 * coin_decimals

abbrev pub mainnet_max_supply : ℕ
mainnet_max_supply = 51000000 * coin_decimals

abbrev pub mainnet_final_subsidy_height : ℕ
mainnet_final_subsidy_height = 5259600

abbrev pub mainnet_epoch_length : ℕ
mainnet_epoch_length = 131490

abbrev pub target_block_time_seconds : ℕ
target_block_time_seconds = 60

abbrev pub max_automatic_reorg_depth : ℕ
max_automatic_reorg_depth = 120

abbrev pub initial_block_reward : ℕ
initial_block_reward = 50 * coin_decimals

abbrev pub halving_interval : ℕ
halving_interval = 1000000

abbrev pub development_treasury_address : Bytes
development_treasury_address = codes "16d7dc9ec0495109007860a584c7cf9055da9abf"

abbrev pub network_public_testnet : Bytes
network_public_testnet = codes "sudharma-testnet-1"

abbrev pub network_mainnet : Bytes
network_mainnet = codes "sudharma-mainnet-1"

abbrev pub mainnet_launch_authorized : Bool
mainnet_launch_authorized = false

abbrev pub min_transfer_amount : ℕ
min_transfer_amount = 1000

abbrev pub max_transaction_id_length : ℕ
max_transaction_id_length = 64

abbrev pub max_transaction_public_key_size : ℕ
max_transaction_public_key_size = 65

abbrev pub max_transaction_signature_size : ℕ
max_transaction_signature_size = 64

abbrev pub max_transaction_serialized_bytes : ℕ
max_transaction_serialized_bytes = 1024

abbrev pub max_mempool_transactions : ℕ
max_mempool_transactions = 4096

abbrev pub max_mempool_bytes : ℕ
max_mempool_bytes = 4194304

abbrev pub max_mempool_transactions_per_sender : ℕ
max_mempool_transactions_per_sender = 64

abbrev pub max_block_transactions : ℕ
max_block_transactions = 1000

abbrev pub max_block_transaction_bytes : ℕ
max_block_transaction_bytes = 1048576

-- `GPUV1ActivationDisabled`, `^uint64(0)`
abbrev pub gpu_v1_activation_disabled : ℕ
gpu_v1_activation_disabled = 18446744073709551615

abbrev pub gpu_v1_testnet_activation_height : ℕ
gpu_v1_testnet_activation_height = gpu_v1_activation_disabled

abbrev pub gpu_v1_mainnet_activation_height : ℕ
gpu_v1_mainnet_activation_height = gpu_v1_activation_disabled

unfoldable pub validate_monetary_policy : ℕ → Result (Unit {0})
validate_monetary_policy policy =
    if nat_eq policy policy_public_testnet || nat_eq policy policy_mainnet
    then ok tt
    else err unknown_policy

unfoldable pub max_supply_for : ℕ → ℕ
max_supply_for policy =
    if nat_eq policy policy_mainnet
    then mainnet_max_supply
    else if nat_eq policy policy_public_testnet
    then max_supply
    else 0

unfoldable pub parse_network : Bytes → Result Bytes
parse_network raw =
    if is_empty raw
      || bytes_eq raw (codes "public-testnet")
      || bytes_eq raw (codes "testnet")
      || bytes_eq raw network_public_testnet
    then ok network_public_testnet
    else if bytes_eq raw (codes "mainnet") || bytes_eq raw network_mainnet
    then (if mainnet_launch_authorized then ok network_mainnet else err network_not_authorized)
    else err unknown_network

unfoldable pub monetary_policy_for : Bytes → Result ℕ
monetary_policy_for network =
    if bytes_eq network network_public_testnet
    then ok policy_public_testnet
    else if bytes_eq network network_mainnet
    then ok policy_mainnet
    else err unknown_network

unfoldable pub network_for_monetary_policy : ℕ → Result Bytes
network_for_monetary_policy policy =
    if nat_eq policy policy_public_testnet
    then ok network_public_testnet
    else if nat_eq policy policy_mainnet
    then ok network_mainnet
    else err unknown_policy
