-- ===== src/Chain/Rebuild.antt =====
-- A chain that was rebuilt from blocks has these blocks and their work.
use sudharma.Base.{
  Bytes, List, Option-cases, Result-cases, [], ap, append-nil, append_assoc, arith, inl, inr, ok,
  ok_value, refl, source_invalid, subst, sym, wrap-eq-ok, ℕ, ℤ, ◌++◌, ◌+◌, ◌∙◌, ◌∷◌, ◌≡◌,
}
use sudharma.Blocks.Record.{Block}
use sudharma.Chain.Extend.{
  add_block, add_blocks, check_next_block, expected_genesis, new_chain_from_genesis_with_consensus,
  revalidate,
}
use sudharma.Chain.Policy.{PoWPolicy, ProofVerifier}
use sudharma.Chain.Record.{Chain, last_block}
use sudharma.Consensus.Work.{work_from_difficulty}
use sudharma.Crypto.{Crypto}
use sudharma.Params.{monetary_policy_for}

-- The work of all blocks of a list.
unfoldable pub work_sum : List Block → ℕ
work_sum [] = 0
work_sum (b ∷ blocks) = work_from_difficulty b.difficulty + work_sum blocks

pub work_sum-append :
    (blocks more : List Block) → work_sum (blocks ++ more) ≡ work_sum blocks + work_sum more
unfolding work_sum
work_sum-append [] more = omega arith
work_sum-append (b ∷ blocks) more = omega (arith, work_sum-append blocks more)

-- What stays the same on a chain that grows.
pub record Extends (blocks : List Block) (c d : Chain) : Type 0 where
  pub appended : d.blocks ≡ c.blocks ++ blocks
  pub more_work : d.total_work ≡ c.total_work + work_sum blocks
  pub same_network : d.network ≡ c.network
  pub same_policy : d.pow_policy ≡ c.pow_policy
  pub same_verifier : d.proof_verifier ≡ c.proof_verifier

module _ (crypto : Crypto) where
  pub add_block-Extends :
      (now : ℤ) (b : Block) (c d : Chain) → add_block crypto now b c ≡ ok d → Extends (b ∷ []) c d
  unfolding add_block work_sum
  add_block-Extends now b c d h = elim (Option-cases (last_block c.blocks)) [
    | inl e ↦ absurd (ground (arith, e))
    | inr (previous, e) ↦ elim (Result-cases (check_next_block crypto now b previous c)) [
      | inr (x, f) ↦ absurd (ground (arith, e, f))
      | inl (u, f) ↦ record {
        appended = ground (arith, e, f);
        more_work = ground (arith, e, f);
        same_network = ground (arith, e, f);
        same_policy = ground (arith, e, f);
        same_verifier = ground (arith, e, f);
      }
    ]
  ]

  Extends-trans :
      (b : Block) (blocks : List Block) (c d e : Chain)
      → Extends (b ∷ []) c d
      → Extends blocks d e
      → Extends (b ∷ blocks) c e
  unfolding work_sum
  Extends-trans b blocks c d e p q = record {
    appended = rw (q.appended, p.appended) (append_assoc c.blocks (b ∷ []) blocks);
    more_work = omega (arith, q.more_work, p.more_work);
    same_network = q.same_network ∙ p.same_network;
    same_policy = q.same_policy ∙ p.same_policy;
    same_verifier = q.same_verifier ∙ p.same_verifier;
  }

  nothing-Extends : (c : Chain) → Extends [] c c
  unfolding work_sum
  nothing-Extends c = record {
    appended = sym (append-nil c.blocks);
    more_work = omega arith;
    same_network = refl;
    same_policy = refl;
    same_verifier = refl;
  }

  pub add_blocks-Extends :
      (clock : ℕ → ℤ) (i : ℕ) (blocks : List Block) (c d : Chain)
      → add_blocks crypto clock i blocks c ≡ ok d
      → Extends blocks c d
  unfolding add_blocks
  add_blocks-Extends clock i [] c d h = subst (Extends [] c) (ok_value c d h) (nothing-Extends c)
  add_blocks-Extends clock i (b ∷ blocks) c d h =
      elim (Result-cases (add_block crypto (clock i) b c)) [
        | inr (x, e) ↦ absurd (ground (arith, e))
        | inl (m, e) ↦
            Extends-trans b blocks c m d (add_block-Extends (clock i) b c m e)
              (add_blocks-Extends clock (i + 1) blocks m d (rw (e, add_blocks) at h))
      ]

  -- A chain that was made from a genesis block.
  pub record StartsWith (network : Bytes) (genesis : Block) (policy : PoWPolicy)
      (verifier : ProofVerifier) (c : Chain) : Type 0 where
    pub only_genesis : c.blocks ≡ genesis ∷ []
    pub genesis_work : c.total_work ≡ work_from_difficulty genesis.difficulty
    pub its_network : c.network ≡ network
    pub its_policy : c.pow_policy ≡ policy
    pub its_verifier : c.proof_verifier ≡ verifier

  pub new_chain-StartsWith :
      (network : Bytes) (genesis : Block) (policy : PoWPolicy) (verifier : ProofVerifier)
      (c : Chain)
      → new_chain_from_genesis_with_consensus crypto network genesis policy verifier ≡ ok c
      → StartsWith network genesis policy verifier c
  unfolding new_chain_from_genesis_with_consensus
  new_chain-StartsWith network genesis policy verifier c h =
      elim (Result-cases (monetary_policy_for network)) [
        | inr (x, e) ↦ absurd (ground (arith, e))
        | inl (p, e) ↦ elim (Result-cases (expected_genesis network)) [
          | inr (x, f) ↦ absurd (ground (arith, e, f))
          | inl (g, f) ↦ record {
            only_genesis = ground (arith, e, f);
            genesis_work = ground (arith, e, f);
            its_network = ground (arith, e, f);
            its_policy = ground (arith, e, f);
            its_verifier = ground (arith, e, f);
          }
        ]
      ]

  -- A chain that was revalidated from blocks.
  pub record Rebuilds (network : Bytes) (blocks : List Block) (policy : PoWPolicy)
      (verifier : ProofVerifier) (c : Chain) : Type 0 where
    pub same_blocks : c.blocks ≡ blocks
    pub recomputed_work : c.total_work ≡ work_sum blocks
    pub kept_network : c.network ≡ network
    pub kept_policy : c.pow_policy ≡ policy
    pub kept_verifier : c.proof_verifier ≡ verifier

  pub revalidate-Rebuilds :
      (clock : ℕ → ℤ) (network : Bytes) (blocks : List Block) (policy : PoWPolicy)
      (verifier : ProofVerifier) (c : Chain)
      → revalidate crypto clock network blocks policy verifier ≡ ok c
      → Rebuilds network blocks policy verifier c
  unfolding revalidate work_sum
  revalidate-Rebuilds clock network [] policy verifier c h = absurd (cc h)
  revalidate-Rebuilds clock network (genesis ∷ blocks) policy verifier c h =
      elim (Result-cases
        (new_chain_from_genesis_with_consensus crypto network genesis policy verifier)) [
          | inr (x, e) ↦ absurd (ground (arith, e))
          | inl (start, e) ↦
              let s = new_chain-StartsWith network genesis policy verifier start e in
              let grown = add_blocks-Extends clock 1 blocks start c (
                wrap-eq-ok source_invalid (add_blocks crypto clock 1 blocks start)
                  (rw (e, revalidate) at h)) in
              record {
                same_blocks =
                    grown.appended ∙ ap (λ (xs : List Block). xs ++ blocks) s.only_genesis;
                recomputed_work = omega (arith, grown.more_work, s.genesis_work);
                kept_network = grown.same_network ∙ s.its_network;
                kept_policy = grown.same_policy ∙ s.its_policy;
                kept_verifier = grown.same_verifier ∙ s.its_verifier;
              }
        ]
