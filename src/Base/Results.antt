-- ===== src/Base/Results.antt =====
-- A Go function that returns `(T, error)`, in a monad that stops at the first error. `Error` holds
-- the reasons that the modelled functions give; a wrapped error keeps its cause.
use mathlib.Core.Path.{◌≡◌, refl, ap}
use mathlib.Core.Logic.{◌⊎◌, inl, inr}
use mathlib.Core.Bool.{Bool, true, false}

pub data Error : Type 0 where
  -- params
  unknown_policy unknown_network network_not_authorized epoch_out_of_range : Error
  -- state
  address_empty balance_overflow insufficient_balance transfer_amount_zero : Error
  tx_id_empty tx_already_processed nonce_overflow policy_mismatch : Error
  supply_exceeds_cap supply_exceeded : Error
  -- transactions
  tx_nil tx_id_length invalid_address public_key_too_large signature_too_large tx_too_large : Error
  below_dust_minimum sender_empty receiver_empty amount_zero invalid_signature : Error
  wallet_mismatch unknown_domain network_empty sign_failed : Error
  -- pool
  login_missing worker_name_empty pool_difficulty_high pool_fee_high bad_scheme : Error
  share_below_pool work_missing rpc_url_missing invalid_cursor : Error
  invalid_nonce invalid_fee invalid_fee_distribution amount_overflow treasury_missing : Error
  -- blocks and chains
  block_nil miner_empty miner_fee_overflow reward_overflow : Error
  too_many_txs block_too_large invalid_version unsupported_version : Error
  invalid_height invalid_previous_hash timestamp_not_after timestamp_too_far : Error
  invalid_merkle_root invalid_proof invalid_difficulty no_genesis wrong_genesis : Error
  verifier_legacy_missing verifier_gpu_missing network_mismatch pow_policy_mismatch : Error
  no_common_genesis reorg_too_deep finalized_replaced block_missing above_tip : Error
  -- mempool
  tx_already_pending mempool_full mempool_bytes_full sender_full nonce_pending : Error
  -- node
  node_id_empty chain_missing state_missing namespace_mismatch already_confirmed : Error
  request_limit_zero request_limit_large request_failed peer_missing bad_work : Error
  no_cache_nodes no_blocks_returned rounds_used_up unexpected_height wrong_tip wrong_work
        wrong_end :
      Error
  -- `%w`
  receiver_credit treasury_credit tx_failed bad_block_tx bad_sender bad_receiver : Error → Error
  submit_failed state_failed index_rejected download_failed relay_failed : Error → Error
  rejected pending_invalid block_invalid source_invalid candidate_invalid replay_failed :
      Error → Error

-- A value or a non-nil error, never both.
pub data Result {ℓ} (T : Type ℓ) : Type ℓ where
  err : Error → Result T
  ok : T → Result T

infixl 5 ◌>>=◌ ◌>>◌
abbrev pub ◌>>=◌ {ℓ κ} : {T : Type ℓ} {U : Type κ} → Result T → (T → Result U) → Result U
err failure >>= next = err failure
ok value >>= next = next value

abbrev pub ◌>>◌ {κ} : {U : Type κ} → Result (Unit {0}) → Result U → Result U
check >> rest = check >>= λ _. rest

-- `if b { return e }`
abbrev pub fail_if : Bool → Error → Result (Unit {0})
fail_if true e = err e
fail_if false e = ok tt

-- `fmt.Errorf("...: %w", err)`
abbrev pub wrap {ℓ} : {T : Type ℓ} → (Error → Error) → Result T → Result T
wrap context (err failure) = err (context failure)
wrap context (ok value) = ok value

pub Result-cases {ℓ} :
    {T : Type ℓ} (r : Result T) → ((v : T) × (r ≡ ok v)) ⊎ ((e : Error) × (r ≡ err e))
Result-cases (err failure) = inr (failure, refl)
Result-cases (ok value) = inl (value, refl)

pub wrap-eq-ok {ℓ} :
    {T : Type ℓ} (context : Error → Error) (r : Result T) {v : T} → wrap context r ≡ ok v → r ≡ ok v
wrap-eq-ok context (err failure) h = cc
wrap-eq-ok context (ok value) h = h

-- A chain that succeeded: its first call did, and the rest did with its value.
pub >>=-eq-ok {ℓ κ} :
    {T : Type ℓ} {U : Type κ} (call : Result T) (next : T → Result U) {u : U}
    → (call >>= next) ≡ ok u
    → (v : T) × (call ≡ ok v) × (next v ≡ ok u)
>>=-eq-ok (err failure) next h = absurd (cc h)
>>=-eq-ok (ok value) next h = (value, refl, h)

pub fail_if-eq-ok : (b : Bool) (e : Error) {u : Unit {0}} → fail_if b e ≡ ok u → b ≡ false
fail_if-eq-ok true e h = cc
fail_if-eq-ok false e h = refl

pub ok_value {ℓ} : {T : Type ℓ} (v w : T) → ◌≡◌ {A = Result T} (ok v) (ok w) → v ≡ w
ok_value {T} v w h = ap (λ (r : Result T). elim r [ err _ ↦ v | ok value ↦ value ]) h
