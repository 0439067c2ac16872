-- ===== src/Params/Identity.antt =====
-- Networks and monetary policies correspond, and mainnet cannot be selected.
use sudharma.Base.{Bytes, arith, bytes_eq_iff, ok, ℕ, ◌↔◌, ◌≡◌, ◌≢◌}
use sudharma.Params.{
  monetary_policy_for, network_for_monetary_policy, network_mainnet, network_public_testnet,
  parse_network,
}

-- A policy belongs to a network exactly when that network is the policy's: the two lookups of
-- params are inverse to each other wherever either answers.
pub policy_network_inverse :
    (network : Bytes) (policy : ℕ)
    → (monetary_policy_for network ≡ ok policy) ↔ (network_for_monetary_policy policy ≡ ok network)
unfolding monetary_policy_for network_for_monetary_policy
policy_network_inverse network policy =
    ground
      (arith, bytes_eq_iff network network_public_testnet, bytes_eq_iff network network_mainnet)

-- No operator input selects mainnet while its launch is not authorised.
pub parse_network-ne-mainnet : (raw : Bytes) → parse_network raw ≢ ok network_mainnet
unfolding parse_network
parse_network-ne-mainnet raw h = ground arith
