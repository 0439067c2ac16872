-- ===== src/Chain/Reorg.antt =====
-- blockchain/reorg.go: rebuilding the state of a chain, and moving to a better chain.
use sudharma.Base.{
  Bool, Option, Result, block_missing, candidate_invalid, err, false, if◌then◌else◌, is_empty,
  miner_empty, none, ok, replay_failed, some, source_invalid, suc, true, wrap, zero, ℕ, ℤ, ◌+◌,
  ◌>>=◌, ◌>>◌,
}
use sudharma.Chain.Choice.{
  better_chain, candidate_chain, current_chain, reorg_depth, validate_automatic_reorg_depth,
}
use sudharma.Chain.Extend.{replace_chain, validate_and_clone_chain}
use sudharma.Chain.Finality.{validate_finalized_reorg}
use sudharma.Chain.Record.{Chain, block_by_height, chain_height, chain_monetary_policy, clone_chain}
use sudharma.Crypto.{Crypto}
use sudharma.Ledger.Process.{process_block_for}
use sudharma.State.Methods.{ensure_monetary_policy, new_state_for, replace_with}
use sudharma.State.Monad.{Action, State}

-- `return state, nil`, where nothing failed
abbrev pub rebuilt : Result (Unit {0}) × State → Result State
rebuilt (err e, t) = err e
rebuilt (ok _, t) = ok t

module _ (crypto : Crypto) where
  -- The loop of `BuildStateFromChain`: `count` more blocks from `height` on.
  unfoldable pub replay_blocks : Chain → ℕ → ℕ → ℕ → Action (Unit {0})
  replay_blocks c policy zero height s = (ok tt, s)
  replay_blocks c policy (suc count) height s = elim (block_by_height c height) [
    | none ↦ (err block_missing, s)
    | some b ↦
        if is_empty b.miner_address
        then (err miner_empty, s)
        else (let (r, t) = process_block_for crypto policy b b.miner_address s in
            elim r [
              | err e ↦ (err (replay_failed e), t)
              | ok _ ↦ replay_blocks c policy count (height + 1) t
            ])
  ]

  -- `BuildStateFromChain`
  unfoldable pub build_state_from_chain : Chain → Result State
  build_state_from_chain c = do
    policy ← chain_monetary_policy c
    state ← new_state_for policy
    rebuilt (replay_blocks c policy (chain_height c) 1 state)

  -- The checks of `ReorganizeToCandidate` on a candidate that was validated and is preferred; they
  -- give its state.
  unfoldable pub check_reorg : Chain → Chain → Result State
  check_reorg current validated = do
    (depth, common_height) ← reorg_depth crypto current validated
    validate_finalized_reorg crypto current validated
    validate_automatic_reorg_depth depth
    wrap candidate_invalid (build_state_from_chain validated)

  -- From the validation to the choice: none where the current chain stays.
  unfoldable pub select_candidate : (ℕ → ℤ) → Chain → State → Chain → Result (Option Chain)
  select_candidate clock current current_state candidate = do
    policy ← chain_monetary_policy current
    wrap source_invalid (ensure_monetary_policy current_state policy)
    validated ← wrap candidate_invalid (validate_and_clone_chain crypto clock candidate)
    best ← better_chain current validated
    ok (elim best [ current_chain ↦ none | candidate_chain ↦ some validated ])

  -- `ReorganizeToCandidate`, with two readings of the clock, one for each validation. It leaves the
  -- current chain and state. `State.ReplaceWith` fails only for nil, so the roll-back after it is not
  -- reached.
  unfoldable pub reorganize_to_candidate :
      (ℕ → ℤ) → (ℕ → ℤ) → Chain → State → Chain → Result Bool × (Chain × State)
  reorganize_to_candidate clock later current current_state candidate =
      elim (select_candidate clock current current_state candidate) [
        | err e ↦ (err e, (current, current_state))
        | ok none ↦ (ok false, (current, current_state))
        | ok (some validated) ↦ elim (check_reorg current validated) [
          | err e ↦ (err e, (current, current_state))
          | ok candidate_state ↦ elim (clone_chain current) [
            | err e ↦ (err e, (current, current_state))
            | ok _ ↦ elim (replace_chain crypto later validated current) [
              | err e ↦ (err (candidate_invalid e), (current, current_state))
              | ok replaced ↦ (ok true, (replaced, replace_with candidate_state current_state))
            ]
          ]
        ]
      ]
