-- ===== src/Chain/Outcome.antt =====
-- The outcome of a reorganization on the current chain and state.
use sudharma.Base.{
  Bool, Error, Option-cases, Result, Result-cases, ap, arith, candidate_invalid, err, false, inl,
  inr, none, ok, refl, some, sym, true, ℕ, ℤ, ◌+◌, ◌∙◌, ◌≡◌, ◌≤◌,
}
use sudharma.Chain.Adopt.{
  IsBetter, better_chain_iff, block_by_height_same, build_same, check_reorg_ok, replace_chain_ok,
  select_candidate_ok,
}
use sudharma.Chain.Choice.{agree_at}
use sudharma.Chain.Common.{reorg_depth_last_common}
use sudharma.Chain.Extend.{replace_chain, validate_and_clone_chain}
use sudharma.Chain.Finality.{finalized_height}
use sudharma.Chain.Reachable.{IsValid, replace_chain-IsValid}
use sudharma.Chain.Rebuild.{revalidate-Rebuilds, work_sum}
use sudharma.Chain.Record.{Chain, block_by_height, chain_height, clone_chain}
use sudharma.Chain.Reorg.{
  build_state_from_chain, check_reorg, reorganize_to_candidate, select_candidate,
}
use sudharma.Crypto.{Crypto}
use sudharma.Params.{max_automatic_reorg_depth}
use sudharma.State.Methods.{replace_with}
use sudharma.State.Monad.{State}

module _ (crypto : Crypto) where
  -- The current chain and state after a candidate was adopted.
  pub record Adopted (current candidate c : Chain) (t : State) : Type 0 where
    pub new_blocks : c.blocks ≡ candidate.blocks
    pub own_work : c.total_work ≡ work_sum c.blocks
    pub valid : IsValid crypto c
    pub better : IsBetter current c
    pub network_kept : c.network ≡ current.network
    pub policy_kept : c.pow_policy ≡ current.pow_policy
    pub verifier_kept : c.proof_verifier ≡ current.proof_verifier
    pub branches_off :
        (common : ℕ) × (agree_at crypto current c common ≡ true)
        × (finalized_height current ≤ common)
        × (chain_height current ≤ common + max_automatic_reorg_depth)
    pub own_state : build_state_from_chain crypto c ≡ ok t

  -- Nothing has changed, or the candidate was adopted.
  unfoldable pub Reorganizes : Chain → State → Chain → Result Bool × (Chain × State) → Type 0
  Reorganizes current s candidate (err e, (c, t)) = (c ≡ current) × (t ≡ s)
  Reorganizes current s candidate (ok false, (c, t)) = (c ≡ current) × (t ≡ s)
  Reorganizes current s candidate (ok true, (c, t)) = Adopted current candidate c t

  failed-Reorganizes :
      (current candidate : Chain) (s : State) (e : Error)
      → Reorganizes current s candidate (err e, (current, s))
  unfolding Reorganizes
  failed-Reorganizes current candidate s e = (refl, refl)

  kept-Reorganizes :
      (current candidate : Chain) (s : State)
      → Reorganizes current s candidate (ok false, (current, s))
  unfolding Reorganizes
  kept-Reorganizes current candidate s = (refl, refl)

  agree_at_same :
      (current c v : Chain) (height : ℕ)
      → c.blocks ≡ v.blocks
      → agree_at crypto current c height ≡ agree_at crypto current v height
  unfolding agree_at
  agree_at_same current c v height e = elim (Option-cases (block_by_height current height)) [
    | inl g ↦ ground (arith, g)
    | inr (b, g) ↦ elim (Option-cases (block_by_height v height)) [
      | inl k ↦ ground (arith, g, k, block_by_height_same crypto c v height e)
      | inr (d, k) ↦ ground (arith, g, k, block_by_height_same crypto c v height e)
    ]
  ]

  chain_height_same : (c v : Chain) → c.blocks ≡ v.blocks → chain_height c ≡ chain_height v
  unfolding chain_height
  chain_height_same c v e = rw e refl

  same-IsBetter :
      (current v c : Chain)
      → c.total_work ≡ v.total_work
      → chain_height c ≡ chain_height v
      → IsBetter current v
      → IsBetter current c
  same-IsBetter current v c same_work same_height more = omega arith

  adopted :
      (clock later : ℕ → ℤ) (current candidate v c : Chain) (s t : State)
      → select_candidate crypto clock current s candidate ≡ ok (some v)
      → check_reorg crypto current v ≡ ok t
      → replace_chain crypto later v current ≡ ok c
      → Adopted current candidate c t
  unfolding validate_and_clone_chain
  adopted clock later current candidate v c s t h k l =
      let (validated, preferred) = select_candidate_ok crypto clock current candidate v s h in
      let (depth, common, found, final, shallow, built) = check_reorg_ok crypto current v t k in
      let (blocks, work, network, policy, verifier) = replace_chain_ok crypto later v current c l in
      let r =
        revalidate-Rebuilds crypto clock candidate.network candidate.blocks candidate.pow_policy
          candidate.proof_verifier v validated in
      let (same_network, more) = (better_chain_iff current v).0 preferred in
      let (agree, below, exact, above) =
        reorg_depth_last_common crypto current v depth common found in
      let same_work : c.total_work ≡ v.total_work =
        work ∙ ap work_sum r.same_blocks ∙ sym r.recomputed_work in
      let same_height = chain_height_same c v blocks in
      record {
        new_blocks = blocks ∙ r.same_blocks;
        own_work = work ∙ ap work_sum (sym blocks);
        valid = replace_chain-IsValid crypto later v current c l;
        better = same-IsBetter current v c same_work same_height more;
        network_kept = network;
        policy_kept = policy;
        verifier_kept = verifier;
        branches_off =
            (common, agree_at_same current c v common blocks ∙ agree, final, omega arith);
        own_state = build_same crypto c v blocks (network ∙ same_network) ∙ built;
      }

  adopted-Reorganizes :
      (clock later : ℕ → ℤ) (current candidate v c : Chain) (s t : State)
      → select_candidate crypto clock current s candidate ≡ ok (some v)
      → check_reorg crypto current v ≡ ok t
      → replace_chain crypto later v current ≡ ok c
      → Reorganizes current s candidate (ok true, (c, replace_with t s))
  unfolding Reorganizes replace_with
  adopted-Reorganizes = adopted

  -- For every candidate and any readings of the clock, a reorganization either leaves the current
  -- chain and state as they are, which it does whenever it fails, or the current chain has the
  -- candidate's blocks and their work, is valid, has more work than before or as much and a greater height, keeps
  -- its network, policy and verifier, shares a block with the old chain at a height that is final or
  -- above and at most 120 blocks below the old tip, and the state is the one rebuilt from the new chain.
  pub reorganize_to_candidate-Reorganizes :
      (clock later : ℕ → ℤ) (current candidate : Chain) (s : State)
      → Reorganizes current s candidate
          (reorganize_to_candidate crypto clock later current s candidate)
  unfolding reorganize_to_candidate
  reorganize_to_candidate-Reorganizes clock later current candidate s =
      elim (Result-cases (select_candidate crypto clock current s candidate)) [
        | inr (x, h) ↦ rw (h, reorganize_to_candidate) (failed-Reorganizes current candidate s x)
        | inl (none, h) ↦ rw (h, reorganize_to_candidate) (kept-Reorganizes current candidate s)
        | inl (some v, h) ↦ elim (Result-cases (check_reorg crypto current v)) [
          | inr (x, k) ↦
              rw (h, k, reorganize_to_candidate) (failed-Reorganizes current candidate s x)
          | inl (t, k) ↦ elim (Result-cases (clone_chain current)) [
            | inr (x, m) ↦
                rw (h, k, m, reorganize_to_candidate) (failed-Reorganizes current candidate s x)
            | inl (copy, m) ↦ elim (Result-cases (replace_chain crypto later v current)) [
              | inr (x, l) ↦
                  rw (h, k, m, l, reorganize_to_candidate)
                    (failed-Reorganizes current candidate s (candidate_invalid x))
              | inl (c, l) ↦
                  rw (h, k, m, l, reorganize_to_candidate)
                    (adopted-Reorganizes clock later current candidate v c s t h k l)
            ]
          ]
        ]
      ]
