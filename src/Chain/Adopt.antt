-- ===== src/Chain/Adopt.antt =====
-- What a reorganization does: nothing, or it moves to a better chain and the state of that chain.
use sudharma.Base.{
  Option-cases, Result-cases, arith, bytes_eq_iff, inl, inr, ok, refl, some, suc, zero, ℕ, ℤ, ◌+◌,
  ◌<◌, ◌↔◌, ◌≡◌, ◌≤◌, ◌⊎◌,
}
use sudharma.Chain.Choice.{
  better_chain, candidate_chain, reorg_depth, validate_automatic_reorg_depth,
}
use sudharma.Chain.Extend.{replace_chain, revalidate, validate_and_clone_chain}
use sudharma.Chain.Finality.{finalized_height, validate_finalized_reorg}
use sudharma.Chain.Rebuild.{revalidate-Rebuilds, work_sum}
use sudharma.Chain.Record.{Chain, block_by_height, chain_height, chain_monetary_policy}
use sudharma.Chain.Reorg.{build_state_from_chain, check_reorg, replay_blocks, select_candidate}
use sudharma.Crypto.{Crypto}
use sudharma.Ledger.Process.{process_block_for}
use sudharma.Params.{max_automatic_reorg_depth, monetary_policy_for}
use sudharma.State.Methods.{new_state_for}
use sudharma.State.Monad.{State}

-- The fork-choice rule.
abbrev pub IsBetter : Chain → Chain → Type 0
IsBetter current candidate =
    (current.total_work < candidate.total_work)
    ⊎ ((current.total_work ≡ candidate.total_work)
        × (chain_height current < chain_height candidate))

-- A candidate is preferred exactly when it is of the same network and has more work, or as much work
-- and a greater height.
pub better_chain_iff :
    (current candidate : Chain)
    → (better_chain current candidate ≡ ok candidate_chain)
      ↔ ((current.network ≡ candidate.network) × IsBetter current candidate)
unfolding better_chain
better_chain_iff current candidate = ground (arith, bytes_eq_iff current.network candidate.network)

module _ (crypto : Crypto) where
  pub block_by_height_same :
      (c d : Chain) (height : ℕ)
      → c.blocks ≡ d.blocks
      → block_by_height c height ≡ block_by_height d height
  unfolding block_by_height
  block_by_height_same c d height e = rw e refl

  replay_blocks_same :
      (c d : Chain) (policy count height : ℕ) (s : State)
      → c.blocks ≡ d.blocks
      → replay_blocks crypto c policy count height s ≡ replay_blocks crypto d policy count height s
  unfolding replay_blocks
  replay_blocks_same c d policy zero height s e = refl
  replay_blocks_same c d policy (suc count) height s e =
      elim (Option-cases (block_by_height d height)) [
        | inl g ↦ ground (arith, g, block_by_height_same c d height e)
        | inr (b, g) ↦ elim (Result-cases (process_block_for crypto policy b b.miner_address s).0) [
          | inr (x, f) ↦ ground (arith, g, f, block_by_height_same c d height e)
          | inl (n, f) ↦ ground (
            arith,
            g,
            f,
            block_by_height_same c d height e,
            replay_blocks_same c d policy count (height + 1)
                (process_block_for crypto policy b b.miner_address s).1 e,
          )
        ]
      ]

  pub build_same :
      (c d : Chain)
      → c.blocks ≡ d.blocks
      → c.network ≡ d.network
      → build_state_from_chain crypto c ≡ build_state_from_chain crypto d
  unfolding build_state_from_chain chain_monetary_policy chain_height
  build_same c d e f = elim (Result-cases (monetary_policy_for d.network)) [
    | inr (x, g) ↦ ground (arith, g, f)
    | inl (p, g) ↦ elim (Result-cases (new_state_for p)) [
      | inr (x, k) ↦ ground (arith, g, f, k)
      | inl (start, k) ↦
          ground (arith, g, f, k, replay_blocks_same c d p (chain_height c) 1 start e)
    ]
  ]

  pub select_candidate_ok :
      (clock : ℕ → ℤ) (current candidate v : Chain) (s : State)
      → select_candidate crypto clock current s candidate ≡ ok (some v)
      → (validate_and_clone_chain crypto clock candidate ≡ ok v)
        × (better_chain current v ≡ ok candidate_chain)
  unfolding select_candidate
  select_candidate_ok clock current candidate v s h =
      elim (Result-cases (chain_monetary_policy current)) [
        | inr (x, e) ↦ absurd (ground (arith, e))
        | inl (p, e) ↦ elim (Result-cases (validate_and_clone_chain crypto clock candidate)) [
          | inr (x, f) ↦ absurd (ground (arith, e, f))
          | inl (w, f) ↦ elim (Result-cases (better_chain current w)) [
            | inr (x, g) ↦ absurd (ground (arith, e, f, g))
            | inl (best, g) ↦ (ground (arith, e, f, g), ground (arith, e, f, g))
          ]
        ]
      ]

  pub check_reorg_ok :
      (current v : Chain) (t : State)
      → check_reorg crypto current v ≡ ok t
      → (depth : ℕ) × (common : ℕ) × (reorg_depth crypto current v ≡ ok (depth, common))
        × (finalized_height current ≤ common)
        × (depth ≤ max_automatic_reorg_depth)
        × (build_state_from_chain crypto v ≡ ok t)
  unfolding check_reorg validate_finalized_reorg validate_automatic_reorg_depth
  check_reorg_ok current v t h = elim (Result-cases (reorg_depth crypto current v)) [
    | inr (x, e) ↦ absurd (ground (arith, e))
    | inl ((depth, common), e) ↦ elim (Result-cases (build_state_from_chain crypto v)) [
      | inr (x, f) ↦ absurd (ground (arith, e, f))
      | inl (u, f) ↦
          (depth, common, e, ground (arith, e, f), ground (arith, e, f), ground (arith, e, f))
    ]
  ]

  pub replace_chain_ok :
      (later : ℕ → ℤ) (v current c : Chain)
      → replace_chain crypto later v current ≡ ok c
      → (c.blocks ≡ v.blocks)
        × (c.total_work ≡ work_sum v.blocks)
        × (c.network ≡ current.network)
        × (c.pow_policy ≡ current.pow_policy)
        × (c.proof_verifier ≡ current.proof_verifier)
  unfolding replace_chain
  replace_chain_ok later v current c h =
      elim (Result-cases (
        revalidate crypto later current.network v.blocks current.pow_policy
          current.proof_verifier)) [
            | inr (x, e) ↦ absurd (ground (arith, e))
            | inl (w, e) ↦
                let r =
                  revalidate-Rebuilds crypto later current.network v.blocks current.pow_policy
                    current.proof_verifier w e in
                (
                  ground (arith, e),
                  ground (arith, e, r.recomputed_work),
                  ground (arith, e),
                  ground (arith, e),
                  ground (arith, e),
                )
          ]
