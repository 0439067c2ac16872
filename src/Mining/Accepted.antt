-- ===== src/Mining/Accepted.antt =====
-- The candidate block on a chain is one that the chain adds, once its proof is found.
use sudharma.Base.{
  Bool-cases, Bytes, List, [], add64, ap, arith, bytes_eq_iff, false, if◌then◌else◌, inl, inr,
  leb_ℤ, ltb_ℤ, ok, pos, refl, some, suc, sym, true, u32_mod, zero, ℕ, ℤ, ◌++◌, ◌+ℤ◌, ◌+◌, ◌<◌, ◌∙◌,
  ◌∷◌, ◌≡◌,
}
use sudharma.Blocks.Header.{block_hash, header_bytes}
use sudharma.Blocks.Limits.{validate_block_transactions}
use sudharma.Blocks.Merkle.{calculate_merkle_root, update_merkle_root}
use sudharma.Blocks.Record.{Block}
use sudharma.Chain.Extend.{add_block, check_next_block}
use sudharma.Chain.Policy.{
  legacy_only_pow_policy, legacy_proof_verifier, valid_block_proof_of_work_core, version_allowed,
}
use sudharma.Chain.Record.{Chain, tip}
use sudharma.Chain.Validate.{
  expected_next_difficulty, max_future_block_seconds, recent_block_intervals,
  validate_block_core_with_proof,
}
use sudharma.Consensus.Difficulty.{median_block_interval, next_difficulty_from_history}
use sudharma.Consensus.Retarget.{next_difficulty_bounds}
use sudharma.Consensus.Work.{work_from_difficulty}
use sudharma.Crypto.{Crypto}
use sudharma.Mempool.Invariant.{Operation, perform_all}
use sudharma.Mempool.Listing.{all_transactions}
use sudharma.Mempool.Methods.{new_mempool}
use sudharma.Mempool.Record.{Mempool}
use sudharma.Mining.Bounded.{perform_all-InBounds, validate_block_transactions-select_pending}
use sudharma.Mining.Template.{candidate_block, mine, new_block_from_mempool, select_pending}
use sudharma.Pow.Legacy.{check_legacy_block_same}
use sudharma.Pow.Reference.{check_legacy_block, hash_block, valid_hash}

-- No int64 below the last one wraps when it is counted up.
next_second : (t : ℕ) → t + 1 < 9223372036854775808 → pos t +ℤ pos 1 ≡ pos (t + 1)
unfolding ◌+ℤ◌
next_second t h = ground arith

module _ (crypto : Crypto) where
  -- What the candidate is, on a chain with a tip.
  pub record IsCandidate (now : ℤ) (c : Chain) (previous : Block) (pool : Mempool) (b : Block)
      : Type 0 where
    pub its_version : b.version ≡ 1
    pub its_height : b.height ≡ add64 previous.height 1
    pub its_link : b.previous_hash ≡ block_hash crypto previous
    pub its_time :
        b.timestamp ≡ (if leb_ℤ now previous.timestamp then previous.timestamp +ℤ pos 1 else now)
    pub its_difficulty :
        b.difficulty
        ≡ next_difficulty_from_history previous.difficulty (recent_block_intervals c.blocks)
    pub its_transactions : b.transactions ≡ select_pending 0 0 (all_transactions pool)
    pub its_root : b.merkle_root ≡ calculate_merkle_root crypto b

  candidate_block-IsCandidate :
      (now : ℤ) (c : Chain) (previous : Block) (pool : Mempool) (miner_address : Bytes) (b : Block)
      → tip c ≡ some previous
      → candidate_block crypto now c pool miner_address ≡ ok b
      → IsCandidate now c previous pool b
  unfolding candidate_block new_block_from_mempool expected_next_difficulty tip update_merkle_root
      calculate_merkle_root
  candidate_block-IsCandidate now c previous pool miner_address b at_tip h = record {
    its_version = ground (arith, at_tip);
    its_height = ground (arith, at_tip);
    its_link = ground (arith, at_tip);
    its_time = ground (arith, at_tip);
    its_difficulty = ground (arith, at_tip);
    its_transactions = ground (arith, at_tip);
    its_root = ground (arith, at_tip);
  }

  -- The time of a candidate is after the tip's.
  candidate_after :
      (now : ℤ) (t : ℕ) (c : Chain) (previous : Block) (pool : Mempool) (b : Block)
      → previous.timestamp ≡ pos t
      → t + 1 < 9223372036854775808
      → IsCandidate now c previous pool b
      → leb_ℤ b.timestamp previous.timestamp ≡ false
  candidate_after now t c previous pool b at_time small i =
      elim (Bool-cases (leb_ℤ now previous.timestamp)) [
        | inl e ↦
            let later : b.timestamp ≡ pos (t + 1) =
              i.its_time ∙ rw e (ap (λ z. z +ℤ pos 1) at_time ∙ next_second t small) in
            rw (later, at_time) (ground arith)
        | inr e ↦ let now_is : b.timestamp ≡ now = i.its_time ∙ rw e refl in rw now_is e
      ]

  candidate_limits :
      (os : List Operation) (now : ℤ) (c : Chain) (previous b : Block)
      → IsCandidate now c previous (perform_all os new_mempool) b
      → validate_block_transactions b ≡ ok tt
  unfolding new_mempool all_transactions
  candidate_limits os now c previous b i =
      validate_block_transactions-select_pending (perform_all os new_mempool).pending b
        (perform_all-InBounds os new_mempool tt) i.its_transactions

  -- A candidate on a tip whose time is not negative and below the last int64, from a mempool after any
  -- calls, with a nonce that the verifier of the chain accepts, is added to the chain, while the policy of the chain allows version 1 at its height and its time is not
  -- too far in the future.
  pub add_block-candidate_block :
      (now later : ℤ) (t nonce : ℕ) (c : Chain) (previous : Block) (os : List Operation)
      (miner_address : Bytes) (b : Block)
      → tip c ≡ some previous
      → previous.timestamp ≡ pos t
      → t + 1 < 9223372036854775808
      → candidate_block crypto now c (perform_all os new_mempool) miner_address ≡ ok b
      → version_allowed c.pow_policy 1 b.height ≡ true
      → c.proof_verifier.supports_version 1 ≡ true
      → ltb_ℤ (later +ℤ pos max_future_block_seconds) b.timestamp ≡ false
      → c.proof_verifier.verify_proof (record b { nonce = nonce }) ≡ true
      → add_block crypto later (record b { nonce = nonce }) c
        ≡ ok (record c {
          blocks = c.blocks ++ (record b { nonce = nonce } ∷ []);
          total_work = c.total_work + work_from_difficulty b.difficulty;
        })
  unfolding add_block check_next_block validate_block_core_with_proof tip calculate_merkle_root
      validate_block_transactions
  add_block-candidate_block now later t nonce c previous os miner_address b at_tip at_time small h
        allowed supported near proven =
      let pool = perform_all os new_mempool in
      let i = candidate_block-IsCandidate now c previous pool miner_address b at_tip h in
      let after = candidate_after now t c previous pool b at_time small i in
      let limits = candidate_limits os now c previous b i in
      ground (
        arith,
        at_tip,
        i.its_version,
        i.its_height,
        i.its_link,
        i.its_difficulty,
        i.its_root,
        after,
        limits,
        allowed,
        supported,
        near,
        proven,
        bytes_eq_iff b.previous_hash (block_hash crypto previous),
        bytes_eq_iff b.merkle_root (calculate_merkle_root crypto b),
      )

  -- What `Mine` finds is the block with a nonce whose hash meets its target.
  mine_found :
      (b found : Block) (nonce attempts : ℕ)
      → mine crypto b nonce attempts ≡ some found
      → (n : ℕ) × (found ≡ record b { nonce = n })
        × (valid_hash (hash_block crypto b n) b.difficulty ≡ true)
  unfolding mine
  mine_found b found nonce zero h = absurd (cc h)
  mine_found b found nonce (suc attempts) h =
      elim (Bool-cases (valid_hash (hash_block crypto b nonce) b.difficulty)) [
        | inl e ↦ (nonce, ground (arith, e), e)
        | inr e ↦ mine_found b found (add64 nonce 1) attempts (ground (arith, e))
      ]

  -- The legacy verifier accepts a block of version 1 whose hash meets its target.
  legacy_accepts :
      (b : Block) (n : ℕ)
      → b.version ≡ 1
      → b.difficulty < u32_mod
      → valid_hash (hash_block crypto b n) b.difficulty ≡ true
      → (legacy_proof_verifier crypto).verify_proof (record b { nonce = n }) ≡ true
  unfolding legacy_proof_verifier check_legacy_block hash_block header_bytes
  legacy_accepts b n one fits met =
      let core : valid_block_proof_of_work_core crypto (record b { nonce = n }) ≡ true =
        sym (check_legacy_block_same crypto (record b { nonce = n }) fits) ∙ met in
      ground (arith, one, core)

  -- The candidate on a legacy chain whose tip has a uint32 difficulty and a time that is not negative and
  -- below the last int64, once `Mine` has found a nonce for it, is added to the chain, whatever calls the
  -- mempool has seen, while its time is not too far in the future.
  pub add_block-mine :
      (now later : ℤ) (t nonce attempts : ℕ) (c : Chain) (previous : Block) (os : List Operation)
      (miner_address : Bytes) (b found : Block)
      → tip c ≡ some previous
      → previous.timestamp ≡ pos t
      → t + 1 < 9223372036854775808
      → previous.difficulty < u32_mod
      → c.pow_policy ≡ legacy_only_pow_policy
      → c.proof_verifier ≡ legacy_proof_verifier crypto
      → candidate_block crypto now c (perform_all os new_mempool) miner_address ≡ ok b
      → mine crypto b nonce attempts ≡ some found
      → ltb_ℤ (later +ℤ pos max_future_block_seconds) b.timestamp ≡ false
      → add_block crypto later found c
        ≡ ok (record c {
          blocks = c.blocks ++ (found ∷ []);
          total_work = c.total_work + work_from_difficulty b.difficulty;
        })
  unfolding legacy_proof_verifier version_allowed legacy_only_pow_policy check_legacy_block
      next_difficulty_from_history
  add_block-mine now later t nonce attempts c previous os miner_address b found at_tip at_time small
        fits policy verifier h mined near =
      let (n, same, met) = mine_found b found nonce attempts mined in
      let i =
        candidate_block-IsCandidate now c previous (perform_all os new_mempool) miner_address b
          at_tip h in
      let bounds =
        next_difficulty_bounds previous.difficulty
          (median_block_interval (recent_block_intervals c.blocks)) (omega arith) in
      let difficulty_fits : b.difficulty < u32_mod = omega (arith, i.its_difficulty, bounds) in
      let proven : c.proof_verifier.verify_proof (record b { nonce = n }) ≡ true =
        rw verifier (legacy_accepts b n i.its_version difficulty_fits met) in
      rw same (
        add_block-candidate_block now later t n c previous os miner_address b at_tip at_time small h
          (rw policy (ground arith)) (rw verifier refl) near proven)
