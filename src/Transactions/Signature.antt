-- ===== src/Transactions/Signature.antt =====
-- transactions/signature_domain.go, and signing and verification of transactions/transaction.go.
use sudharma.Base.{
  Bool, Bytes, Result, bytes_eq, codes, err, fail_if, false, if◌then◌else◌, is_empty, length,
  nat_eq, network_empty, not, ok, true, tx_id_empty, unknown_domain, ℕ, ◌++◌, ◌>>◌, ◌∷◌,
}
use sudharma.Crypto.{Crypto, address_from_public_key, verify_signature}
use sudharma.Params.{network_public_testnet}
use sudharma.Transactions.Identity.{bar, calculate_id}
use sudharma.Transactions.Record.{Transaction}

abbrev pub signature_domain_legacy : ℕ
signature_domain_legacy = 1

abbrev pub signature_domain_network_bound : ℕ
signature_domain_network_bound = 2

unfoldable pub signing_message : ℕ → Bytes → Bytes → Result Bytes
signing_message domain network tx_id =
    if nat_eq domain signature_domain_legacy
    then ok tx_id
    else if nat_eq domain signature_domain_network_bound
    then (do
      fail_if (is_empty network) network_empty
      fail_if (is_empty tx_id) tx_id_empty
      ok (codes "sudharma-tx-v2|" ++ (network ++ (bar ∷ tx_id))))
    else err unknown_domain

module _ (crypto : Crypto) where
  unfoldable pub verify_signature_domain : Transaction → Bytes → ℕ → Bool
  verify_signature_domain tx network domain = elim (signing_message domain network tx.id) [
    | ok message ↦ verify_signature crypto tx.public_key message tx.signature
    | err e ↦ false
  ]

  -- `VerifyForNetwork`
  unfoldable pub verify_for_network : Transaction → Bytes → Bool
  unfolding verify_signature_domain
  verify_for_network tx network =
      if nat_eq (length tx.public_key) 0
      then false
      else if nat_eq (length tx.signature) 0
      then false
      else if not (bytes_eq (address_from_public_key crypto tx.public_key) tx.from)
      then false
      else if not (bytes_eq (calculate_id crypto tx) tx.id)
      then false
      else if verify_signature_domain tx network signature_domain_network_bound
      then true
      else if bytes_eq network network_public_testnet
      then verify_signature_domain tx network signature_domain_legacy
      else false

  -- `Verify`
  unfoldable pub verify : Transaction → Bool
  unfolding verify_for_network
  verify tx = verify_for_network tx network_public_testnet
