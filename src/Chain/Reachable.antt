-- ===== src/Chain/Reachable.antt =====
-- Every chain that the program can make is valid.
use sudharma.Base.{
  Bytes, List, Result-cases, [], ap, arith, bytes_eq_iff, inl, inr, ok, ok_value, source_invalid,
  subst, sym, wrap-eq-ok, ℕ, ℤ, ◌++◌, ◌+◌, ◌∙◌, ◌∷◌, ◌≡◌,
}
use sudharma.Blocks.Header.{block_hash}
use sudharma.Blocks.Record.{Block}
use sudharma.Chain.Extend.{
  add_block, add_blocks, expected_genesis, new_chain_from_genesis_with_consensus, replace_chain,
  revalidate,
}
use sudharma.Chain.Policy.{PoWPolicy, ProofVerifier}
use sudharma.Chain.Rebuild.{
  Extends, add_block-Extends, new_chain-StartsWith, revalidate-Rebuilds, work_sum, work_sum-append,
}
use sudharma.Chain.Record.{Chain}
use sudharma.Chain.Valid.{Follows, Linked, add_block-Follows, append-Linked, nil-Linked}
use sudharma.Consensus.Work.{work_from_difficulty}
use sudharma.Crypto.{Crypto}
use sudharma.Params.{monetary_policy_for}

module _ (crypto : Crypto) where
  -- A chain starts with the genesis of its network, every other block follows those before it, and the
  -- total work is the sum over its blocks.
  pub record IsValid (c : Chain) : Type 0 where
    pub genesis : Block
    pub expected : Block
    pub rest : List Block
    pub starts : c.blocks ≡ genesis ∷ rest
    pub known_network : expected_genesis c.network ≡ ok expected
    pub same_genesis : block_hash crypto genesis ≡ block_hash crypto expected
    pub all_follow : Linked crypto c.pow_policy c.proof_verifier (genesis ∷ []) rest
    pub exact_work : c.total_work ≡ work_sum c.blocks

  -- The ways in which a chain object comes to be and changes.
  pub data Reachable : Chain → Type 0 where
    made :
        {c : Chain} (network : Bytes) (genesis : Block) (policy : PoWPolicy)
        (verifier : ProofVerifier)
        → new_chain_from_genesis_with_consensus crypto network genesis policy verifier ≡ ok c
        → Reachable c
    extended :
        {c d : Chain} (now : ℤ) (b : Block)
        → Reachable c
        → add_block crypto now b c ≡ ok d
        → Reachable d
    replaced :
        {c d : Chain} (clock : ℕ → ℤ) (candidate : Chain)
        → Reachable c
        → replace_chain crypto clock candidate c ≡ ok d
        → Reachable d

  genesis_checked :
      (network : Bytes) (genesis : Block) (policy : PoWPolicy) (verifier : ProofVerifier)
      (c : Chain)
      → new_chain_from_genesis_with_consensus crypto network genesis policy verifier ≡ ok c
      → (expected : Block) × (expected_genesis network ≡ ok expected)
        × (block_hash crypto genesis ≡ block_hash crypto expected)
  unfolding new_chain_from_genesis_with_consensus
  genesis_checked network genesis policy verifier c h =
      elim (Result-cases (monetary_policy_for network)) [
        | inr (x, e) ↦ absurd (ground (arith, e))
        | inl (p, e) ↦ elim (Result-cases (expected_genesis network)) [
          | inr (x, f) ↦ absurd (ground (arith, e, f))
          | inl (g, f) ↦ (
            g,
            f,
            ground (arith, e, f, bytes_eq_iff (block_hash crypto genesis) (block_hash crypto g)),
          )
        ]
      ]

  first_work :
      (c : Chain) (genesis : Block)
      → c.blocks ≡ genesis ∷ []
      → c.total_work ≡ work_from_difficulty genesis.difficulty
      → c.total_work ≡ work_sum c.blocks
  unfolding work_sum
  first_work c genesis blocks work = rw blocks (omega arith)

  pub new_chain-IsValid :
      (network : Bytes) (genesis : Block) (policy : PoWPolicy) (verifier : ProofVerifier)
      (c : Chain)
      → new_chain_from_genesis_with_consensus crypto network genesis policy verifier ≡ ok c
      → IsValid c
  new_chain-IsValid network genesis policy verifier c h =
      let s = new_chain-StartsWith crypto network genesis policy verifier c h in
      let (expected, known, same) = genesis_checked network genesis policy verifier c h in
      record {
        genesis = genesis;
        expected = expected;
        rest = [];
        starts = s.only_genesis;
        known_network = ap expected_genesis s.its_network ∙ known;
        same_genesis = same;
        all_follow = nil-Linked crypto c.pow_policy c.proof_verifier (genesis ∷ []);
        exact_work = first_work c genesis s.only_genesis s.genesis_work;
      }

  added_work :
      (c d : Chain) (b : Block)
      → Extends (b ∷ []) c d
      → c.total_work ≡ work_sum c.blocks
      → d.total_work ≡ work_sum d.blocks
  added_work c d b e exact =
      let sum : work_sum d.blocks ≡ work_sum c.blocks + work_sum (b ∷ []) =
        ap work_sum e.appended ∙ work_sum-append c.blocks (b ∷ []) in
      omega (arith, e.more_work)

  pub add_block-IsValid :
      (now : ℤ) (b : Block) (c d : Chain) → IsValid c → add_block crypto now b c ≡ ok d → IsValid d
  add_block-IsValid now b c d valid h =
      let f = add_block-Follows crypto now b c d h in
      let e = add_block-Extends crypto now b c d h in
      let g = valid.genesis in
      record {
        genesis = g;
        expected = valid.expected;
        rest = valid.rest ++ (b ∷ []);
        starts = e.appended ∙ ap (λ (xs : List Block). xs ++ (b ∷ [])) valid.starts;
        known_network = rw e.same_network valid.known_network;
        same_genesis = valid.same_genesis;
        all_follow =
            rw (e.same_policy, e.same_verifier)
              (append-Linked crypto c.pow_policy c.proof_verifier (g ∷ []) valid.rest b
                valid.all_follow
                (subst (λ xs. Follows crypto c.pow_policy c.proof_verifier xs b) valid.starts f));
        exact_work = added_work c d b e valid.exact_work;
      }

  add_blocks-IsValid :
      (clock : ℕ → ℤ) (i : ℕ) (blocks : List Block) (c d : Chain)
      → IsValid c
      → add_blocks crypto clock i blocks c ≡ ok d
      → IsValid d
  unfolding add_blocks
  add_blocks-IsValid clock i [] c d valid h = subst IsValid (ok_value c d h) valid
  add_blocks-IsValid clock i (b ∷ blocks) c d valid h =
      elim (Result-cases (add_block crypto (clock i) b c)) [
        | inr (x, e) ↦ absurd (ground (arith, e))
        | inl (m, e) ↦
            add_blocks-IsValid clock (i + 1) blocks m d (add_block-IsValid (clock i) b c m valid e)
              (rw (e, add_blocks) at h)
      ]

  -- A chain that was revalidated is valid.
  pub revalidate-IsValid :
      (clock : ℕ → ℤ) (network : Bytes) (blocks : List Block) (policy : PoWPolicy)
      (verifier : ProofVerifier) (c : Chain)
      → revalidate crypto clock network blocks policy verifier ≡ ok c
      → IsValid c
  unfolding revalidate
  revalidate-IsValid clock network [] policy verifier c h = absurd (cc h)
  revalidate-IsValid clock network (genesis ∷ blocks) policy verifier c h =
      elim (Result-cases
        (new_chain_from_genesis_with_consensus crypto network genesis policy verifier)) [
          | inr (x, e) ↦ absurd (ground (arith, e))
          | inl (start, e) ↦
              add_blocks-IsValid clock 1 blocks start c
                (new_chain-IsValid network genesis policy verifier start e)
                (wrap-eq-ok source_invalid (add_blocks crypto clock 1 blocks start)
                  (rw (e, revalidate) at h))
        ]

  same-IsValid :
      (w d : Chain)
      → d.blocks ≡ w.blocks
      → d.total_work ≡ w.total_work
      → d.network ≡ w.network
      → d.pow_policy ≡ w.pow_policy
      → d.proof_verifier ≡ w.proof_verifier
      → IsValid w
      → IsValid d
  same-IsValid w d blocks work network policy verifier valid = record {
    genesis = valid.genesis;
    expected = valid.expected;
    rest = valid.rest;
    starts = blocks ∙ valid.starts;
    known_network = rw network valid.known_network;
    same_genesis = valid.same_genesis;
    all_follow = rw (policy, verifier) valid.all_follow;
    exact_work = work ∙ valid.exact_work ∙ ap work_sum (sym blocks);
  }

  pub replace_chain-IsValid :
      (clock : ℕ → ℤ) (candidate c d : Chain)
      → replace_chain crypto clock candidate c ≡ ok d
      → IsValid d
  unfolding replace_chain
  replace_chain-IsValid clock candidate c d h =
      elim (Result-cases
        (revalidate crypto clock c.network candidate.blocks c.pow_policy c.proof_verifier)) [
          | inr (x, e) ↦ absurd (ground (arith, e))
          | inl (w, e) ↦
              let r =
                revalidate-Rebuilds crypto clock c.network candidate.blocks c.pow_policy
                  c.proof_verifier w e in
              same-IsValid w d (ground (arith, e, r.same_blocks)) (ground (arith, e))
                (ground (arith, e, r.kept_network)) (ground (arith, e, r.kept_policy))
                (ground (arith, e, r.kept_verifier))
                (revalidate-IsValid clock c.network candidate.blocks c.pow_policy c.proof_verifier w
                  e)
        ]

  -- Every chain that comes from a genesis block by adding blocks and by taking over other chains, valid
  -- or not, at any times, starts with the genesis of its network, each of its other blocks has the
  -- version, height, link, time, Merkle root, proof and difficulty that the blocks before it demand and
  -- transactions within the limits on their number, their bytes and each of them, and its total work is
  -- the sum over its blocks.
  pub Reachable-IsValid : (c : Chain) → Reachable c → IsValid c
  Reachable-IsValid c (made network genesis policy verifier h) =
      new_chain-IsValid network genesis policy verifier c h
  Reachable-IsValid d (extended {c} now b r h) =
      add_block-IsValid now b c d (Reachable-IsValid c r) h
  Reachable-IsValid d (replaced {c} clock candidate r h) =
      replace_chain-IsValid clock candidate c d h
