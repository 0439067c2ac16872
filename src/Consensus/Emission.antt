-- ===== src/Consensus/Emission.antt =====
-- The mainnet emission over all heights: what the blocks up to a height issue together.
use sudharma.Base.{
  Error, ap, arith, err, if◌then◌else◌, ltb, min, ok, refl, subst, suc, zero, ℕ, ◌%◌, ◌*◌, ◌+◌, ◌-◌,
  ◌/◌, ◌<◌, ◌∙◌, ◌≡◌, ◌≢◌, ◌≤◌,
}
use sudharma.Consensus.Subsidy.{block_subsidy_for, epoch_issuance, mainnet_subsidy, value_or_zero}
use sudharma.Params.{
  mainnet_epoch_length, mainnet_final_subsidy_height, mainnet_max_supply, policy_mainnet,
  validate_monetary_policy,
}

-- The subsidies of blocks 1 to `height`.
unfoldable pub cumulative_subsidy : ℕ → ℕ → ℕ
cumulative_subsidy policy zero = 0
cumulative_subsidy policy (suc height) =
    cumulative_subsidy policy height + value_or_zero (block_subsidy_for policy (suc height))

-- What the first `epochs` epochs are to issue.
unfoldable pub scheduled : ℕ → ℕ
scheduled zero = 0
scheduled (suc epochs) = scheduled epochs + epoch_issuance epochs

-- The subsidy of the block at an offset inside an epoch.
subsidy_in_epoch :
    (k j : ℕ)
    → k < 40
    → j < mainnet_epoch_length
    → block_subsidy_for policy_mainnet (suc (k * mainnet_epoch_length + j))
      ≡ ok (
          if ltb j (epoch_issuance k % mainnet_epoch_length)
          then epoch_issuance k / mainnet_epoch_length + 1
          else epoch_issuance k / mainnet_epoch_length)
unfolding block_subsidy_for mainnet_subsidy validate_monetary_policy
subsidy_in_epoch k j hk hj =
    let index : (suc (k * mainnet_epoch_length + j) - 1) / mainnet_epoch_length ≡ k = omega arith in
    let offset : (suc (k * mainnet_epoch_length + j) - 1) % mainnet_epoch_length ≡ j =
      omega arith in
    ground arith

step_total :
    (c x j base rem : ℕ)
    → x ≡ c + j * base + min j rem
    → x + (if ltb j rem then base + 1 else base) ≡ c + suc j * base + min (suc j) rem
step_total c x j base rem h = ground arith

cumulative_in_epoch :
    (k j : ℕ)
    → k < 40
    → j ≤ mainnet_epoch_length
    → cumulative_subsidy policy_mainnet (k * mainnet_epoch_length + j)
      ≡ cumulative_subsidy policy_mainnet (k * mainnet_epoch_length)
        + j * (epoch_issuance k / mainnet_epoch_length)
        + min j (epoch_issuance k % mainnet_epoch_length)
unfolding cumulative_subsidy
cumulative_in_epoch k zero hk hj =
    let e : k * mainnet_epoch_length + 0 ≡ k * mainnet_epoch_length = omega arith in
    rw e (omega arith)
cumulative_in_epoch k (suc j) hk hj =
    let e : k * mainnet_epoch_length + suc j ≡ suc (k * mainnet_epoch_length + j) = omega arith in
    rw (e, subsidy_in_epoch k j hk hj)
      (step_total (cumulative_subsidy policy_mainnet (k * mainnet_epoch_length))
        (cumulative_subsidy policy_mainnet (k * mainnet_epoch_length + j)) j
        (epoch_issuance k / mainnet_epoch_length) (epoch_issuance k % mainnet_epoch_length)
        (cumulative_in_epoch k j hk (omega arith)))

-- A whole number of epochs issues exactly what is scheduled for them.
cumulative_epochs :
    (k : ℕ) → k ≤ 40 → cumulative_subsidy policy_mainnet (k * mainnet_epoch_length) ≡ scheduled k
unfolding scheduled
cumulative_epochs zero h = unfold cumulative_subsidy in refl
cumulative_epochs (suc k) h =
    let e : suc k * mainnet_epoch_length ≡ k * mainnet_epoch_length + mainnet_epoch_length =
      omega arith in
    rw e (
      omega (
        arith,
        cumulative_in_epoch k mainnet_epoch_length h (omega arith),
        cumulative_epochs k (omega arith),
      ))

scheduled_all : scheduled 40 ≡ mainnet_max_supply
unfolding scheduled epoch_issuance
scheduled_all = refl

cumulative_final :
    cumulative_subsidy policy_mainnet mainnet_final_subsidy_height ≡ mainnet_max_supply
cumulative_final = cumulative_epochs 40 (omega arith) ∙ scheduled_all

subsidy_after_final :
    (height : ℕ)
    → mainnet_final_subsidy_height < height
    → block_subsidy_for policy_mainnet height ≡ ok 0
unfolding block_subsidy_for mainnet_subsidy validate_monetary_policy
subsidy_after_final height h = ground arith

cumulative-suc :
    (policy height : ℕ)
    → cumulative_subsidy policy (suc height)
      ≡ cumulative_subsidy policy height + value_or_zero (block_subsidy_for policy (suc height))
unfolding cumulative_subsidy
cumulative-suc policy height = refl

cumulative_past_final :
    (height : ℕ)
    → mainnet_final_subsidy_height ≤ height
    → cumulative_subsidy policy_mainnet (suc height) ≡ cumulative_subsidy policy_mainnet height
cumulative_past_final height h = omega (
  arith,
  cumulative-suc policy_mainnet height,
  ap value_or_zero (subsidy_after_final (suc height) (omega arith)),
)

cumulative_after_final :
    (final d : ℕ)
    → mainnet_final_subsidy_height ≤ final
    → cumulative_subsidy policy_mainnet final ≡ mainnet_max_supply
    → cumulative_subsidy policy_mainnet (d + final) ≡ mainnet_max_supply
cumulative_after_final final zero h e = let z : 0 + final ≡ final = omega arith in rw z e
cumulative_after_final final (suc d) h e =
    let z : suc d + final ≡ suc (d + final) = omega arith in
    rw z (cumulative_past_final (d + final) (omega arith) ∙ cumulative_after_final final d h e)

-- The total subsidy grows with the height.
cumulative_mono :
    (policy d height : ℕ)
    → cumulative_subsidy policy height ≤ cumulative_subsidy policy (d + height)
cumulative_mono policy zero height = let e : 0 + height ≡ height = omega arith in rw e (omega arith)
cumulative_mono policy (suc d) height =
    let e : suc d + height ≡ suc (d + height) = omega arith in
    rw e (omega (arith, cumulative-suc policy (d + height), cumulative_mono policy d height))

-- From the final subsidy height on, the mainnet blocks have issued exactly the maximum supply.
pub mainnet_emission_complete :
    (height : ℕ)
    → mainnet_final_subsidy_height ≤ height
    → cumulative_subsidy policy_mainnet height ≡ mainnet_max_supply
mainnet_emission_complete height h =
    let e : height - mainnet_final_subsidy_height + mainnet_final_subsidy_height ≡ height =
      omega arith in
    subst (λ h. cumulative_subsidy policy_mainnet h ≡ mainnet_max_supply) e
      (cumulative_after_final mainnet_final_subsidy_height (height - mainnet_final_subsidy_height)
        (omega arith) cumulative_final)

-- At no height do the subsidies of the mainnet blocks so far exceed the maximum supply.
pub mainnet_emission_capped :
    (height : ℕ) → cumulative_subsidy policy_mainnet height ≤ mainnet_max_supply
mainnet_emission_capped height = omega (
  arith,
  cumulative_mono policy_mainnet mainnet_final_subsidy_height height,
  mainnet_emission_complete (mainnet_final_subsidy_height + height) (omega arith),
)

-- No height makes the mainnet subsidy fail: the epoch index is never out of range.
pub mainnet_subsidy_total :
    (height : ℕ) (e : Error) → block_subsidy_for policy_mainnet height ≢ err e
unfolding block_subsidy_for mainnet_subsidy validate_monetary_policy
mainnet_subsidy_total height e h = ground arith
