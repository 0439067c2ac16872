-- ===== src/Pow/Verifier.antt =====
-- pow/chain_verifier.go: the verifier of a chain, which keeps the cache of one epoch.
-- The fields that change.
use sudharma.Base.{
  Bool, Bool-cases, Bytes, List, Result, [], ap, ap₂, arith, err, false, if◌then◌else◌, inl, inr,
  length, map, nat_eq, no_cache_nodes, not, ok, refl, sym, true, ℕ, ◌&&◌, ◌<◌, ◌||◌, ◌∙◌, ◌∷◌, ◌≡◌,
}
use sudharma.Blocks.Record.{Block}
use sudharma.Chain.Policy.{PoWPolicy, version_allowed}
use sudharma.Crypto.{Crypto}
use sudharma.Pow.Cache.{build_cache, epoch_for_height, epoch_seed, length-build_cache}
use sudharma.Pow.Reference.{check_block_with_cache, check_legacy_block}

pub record VerifierCache : Type 0 where
  pub cache_set : Bool
  pub cache_epoch : ℕ
  pub cache : List Bytes

module _ (crypto : Crypto) (keccak512 : Bytes → Bytes) (policy : PoWPolicy)
    (cache_node_count : ℕ) where
  -- `newChainProofVerifier`
  unfoldable pub new_chain_proof_verifier : Result VerifierCache
  new_chain_proof_verifier =
      if nat_eq cache_node_count 0
      then err no_cache_nodes
      else ok (record { cache_set = false; cache_epoch = 0; cache = [] })

  -- `SupportsVersion`
  unfoldable pub supports_version_12 : ℕ → Bool
  supports_version_12 version = nat_eq version 1 || nat_eq version 2

  -- The cache of an epoch, built anew.
  unfoldable pub epoch_cache : ℕ → List Bytes
  epoch_cache epoch = build_cache keccak512 (epoch_seed crypto epoch) cache_node_count

  -- `cacheForHeight`
  unfoldable pub cache_for_height : ℕ → VerifierCache → List Bytes × VerifierCache
  cache_for_height height v =
      let epoch = epoch_for_height height in
      let built = epoch_cache epoch in
      if nat_eq cache_node_count 0
      then ([], v)
      else if not v.cache_set || not (nat_eq v.cache_epoch epoch)
      then (if nat_eq (length built) 0
          then ([], record v { cache_set = false; cache = built })
          else (built, record { cache_set = true; cache_epoch = epoch; cache = built }))
      else (v.cache, v)

  -- `Verify`
  unfoldable pub verify_block : Block → VerifierCache → Bool × VerifierCache
  verify_block b v =
      if not (version_allowed policy b.version b.height)
      then (false, v)
      else if nat_eq b.version 1
      then (check_legacy_block crypto b, v)
      else if nat_eq b.version 2
      then (let (cache, v') = cache_for_height b.height v in
          (check_block_with_cache crypto keccak512 b cache, v'))
      else (false, v)

  -- A sequence of calls, with the answers.
  unfoldable pub verify_blocks : List Block → VerifierCache → List Bool × VerifierCache
  verify_blocks [] v = ([], v)
  verify_blocks (b ∷ blocks) v =
      let (answer, v') = verify_block b v in
      let (answers, v'') = verify_blocks blocks v' in (answer ∷ answers, v'')

  -- `cachedEpochCount`
  unfoldable pub cached_epoch_count : VerifierCache → ℕ
  cached_epoch_count v = if v.cache_set then 1 else 0

  -- The answer without a kept cache.
  unfoldable pub proof_holds : Block → Bool
  proof_holds b =
      if not (version_allowed policy b.version b.height)
      then false
      else if nat_eq b.version 1
      then check_legacy_block crypto b
      else nat_eq b.version 2
        && check_block_with_cache crypto keccak512 b (epoch_cache (epoch_for_height b.height))

  -- What is kept is the cache of its epoch.
  abbrev IsFaithful : VerifierCache → Type 0
  IsFaithful v = v.cache_set ≡ true → v.cache ≡ epoch_cache v.cache_epoch

  cache_for_height-IsFaithful :
      (height : ℕ) (v : VerifierCache)
      → 0 < cache_node_count
      → IsFaithful v
      → ((cache_for_height height v).0 ≡ epoch_cache (epoch_for_height height))
        × IsFaithful (cache_for_height height v).1
  unfolding cache_for_height epoch_cache
  cache_for_height-IsFaithful height v some_nodes faithful =
      let built = epoch_cache (epoch_for_height height) in
      elim (Bool-cases (not v.cache_set || not (nat_eq v.cache_epoch (epoch_for_height height)))) [
        | inl e ↦ elim (Bool-cases (nat_eq (length built) 0)) [
          | inl f ↦ absurd (
              ground (
                arith,
                f,
                length-build_cache keccak512 (epoch_seed crypto (epoch_for_height height))
                    cache_node_count,
              ))
          | inr f ↦ (ground (arith, e, f), ground (arith, e, f))
        ]
        | inr e ↦ (ground (arith, e, faithful), ground (arith, e, faithful))
      ]

  verify_block-IsFaithful :
      (b : Block) (v : VerifierCache)
      → 0 < cache_node_count
      → IsFaithful v
      → ((verify_block b v).0 ≡ proof_holds b) × IsFaithful (verify_block b v).1
  unfolding verify_block proof_holds
  verify_block-IsFaithful b v some_nodes faithful =
      let (right, kept) = cache_for_height-IsFaithful b.height v some_nodes faithful in
      elim (Bool-cases (version_allowed policy b.version b.height)) [
        | inr e ↦ (ground (arith, e), rw (e, verify_block) faithful)
        | inl e ↦ elim (Bool-cases (nat_eq b.version 1)) [
          | inl f ↦ (ground (arith, e, f), rw (e, f, verify_block) faithful)
          | inr f ↦ elim (Bool-cases (nat_eq b.version 2)) [
            | inl g ↦ (
              rw (e, f, g, verify_block, proof_holds)
                  (ap (check_block_with_cache crypto keccak512 b) right),
              rw (e, f, g, verify_block) kept,
            )
            | inr g ↦ (ground (arith, e, f, g), rw (e, f, g, verify_block) faithful)
          ]
        ]
      ]

  answers-IsFaithful :
      (blocks : List Block) (v : VerifierCache)
      → 0 < cache_node_count
      → IsFaithful v
      → (verify_blocks blocks v).0 ≡ map proof_holds blocks
  unfolding verify_blocks
  answers-IsFaithful [] v some_nodes faithful = refl
  answers-IsFaithful (b ∷ blocks) v some_nodes faithful =
      let (right, kept) = verify_block-IsFaithful b v some_nodes faithful in
      ap₂ ◌∷◌ right (answers-IsFaithful blocks (verify_block b v).1 some_nodes kept)

  -- A new verifier answers every sequence of blocks, whatever their order and their epochs, as if it built
  -- the cache of each block's epoch anew.
  pub verify_blocks_uncached :
      (blocks : List Block) (v : VerifierCache)
      → new_chain_proof_verifier ≡ ok v
      → (verify_blocks blocks v).0 ≡ map proof_holds blocks
  unfolding new_chain_proof_verifier
  verify_blocks_uncached blocks v h =
      let unset : v.cache_set ≡ false = ground arith in
      answers-IsFaithful blocks v (ground arith) (λ e. absurd (cc (sym unset ∙ e)))
