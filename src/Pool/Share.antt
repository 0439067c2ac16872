-- ===== src/Pool/Share.antt =====
-- pool/share.go: what a nonce is worth.
-- `workUnits`
use sudharma.Base.{
  Bool-cases, Bytes, Option, Option-cases, Result, arith, block_nil, err, false, if◌then◌else◌, inl,
  inr, invalid_difficulty, ltb, max_u64, mul64, nat_eq, none, ok, pool_difficulty_high, some, true,
  ℕ, ◌/◌, ◌<◌, ◌||◌, ◌≡◌, ◌≤◌,
}
use sudharma.Blocks.Merkle.{hex_decode}
use sudharma.Blocks.Record.{Block}
use sudharma.Consensus.Work.{work_from_difficulty}
use sudharma.Consensus.Work.Bounds.{target_antitone}
use sudharma.Crypto.{Crypto}
use sudharma.Pool.Record.{ShareKind, ShareResult, share_block, share_invalid, share_valid}
use sudharma.Pow.Reference.{hash_block, valid_hash}

unfoldable pub work_units : ℕ → ℕ
work_units difficulty =
    let work = work_from_difficulty difficulty in if ltb max_u64 work then max_u64 else work

-- `ShareValue`
unfoldable pub share_value : ℕ → ℕ → ℕ → ℕ
share_value block_reward pool_difficulty block_difficulty =
    if nat_eq block_reward 0 || nat_eq pool_difficulty 0 || nat_eq block_difficulty 0
    then 0
    else mul64 block_reward pool_difficulty / block_difficulty

-- The kind of a hash.
unfoldable pub share_kind : Bytes → ℕ → ℕ → ShareKind
share_kind hash pool_difficulty block_difficulty =
    if valid_hash hash block_difficulty
    then share_block
    else if valid_hash hash pool_difficulty
    then share_valid
    else share_invalid

module _ (crypto : Crypto) where
  -- `ValidateShare`
  unfoldable pub validate_share : Option Block → ℕ → ℕ → ℕ → Result ShareResult
  validate_share none nonce pool_difficulty block_difficulty = err block_nil
  validate_share (some b) nonce pool_difficulty block_difficulty =
      let hash = hash_block crypto b nonce in
      if nat_eq pool_difficulty 0 || nat_eq block_difficulty 0
      then err invalid_difficulty
      else if ltb block_difficulty pool_difficulty
      then err pool_difficulty_high
      else ok (record {
        kind = share_kind hash pool_difficulty block_difficulty;
        hash = hash;
        nonce = nonce;
        pool_difficulty = pool_difficulty;
        block_difficulty = block_difficulty;
        share_work = work_units pool_difficulty;
        block_work = work_units block_difficulty;
      })

  -- What the kind of a validated share says.
  unfoldable pub Says : Bytes → ℕ → ℕ → ShareKind → Type 0
  Says hash pool block share_block = (valid_hash hash block ≡ true) × (valid_hash hash pool ≡ true)
  Says hash pool block share_valid = (valid_hash hash block ≡ false) × (valid_hash hash pool ≡ true)
  Says hash pool block share_invalid =
      (valid_hash hash block ≡ false) × (valid_hash hash pool ≡ false)

  -- A hash that meets a difficulty meets every lower one.
  valid_hash_lower :
      (hash : Bytes) (pool block : ℕ)
      → 0 < pool
      → pool ≤ block
      → valid_hash hash block ≡ true
      → valid_hash hash pool ≡ true
  unfolding valid_hash
  valid_hash_lower hash pool block some_difficulty le h = elim (Option-cases (hex_decode hash)) [
    | inl e ↦ ground (arith, e)
    | inr (bytes, e) ↦ ground (arith, e, target_antitone pool block some_difficulty le)
  ]

  kind-Says :
      (hash : Bytes) (pool block : ℕ)
      → 0 < pool
      → pool ≤ block
      → Says hash pool block (share_kind hash pool block)
  unfolding Says share_kind
  kind-Says hash pool block some_difficulty le = elim (Bool-cases (valid_hash hash block)) [
    | inl e ↦ rw (e, share_kind) (e, valid_hash_lower hash pool block some_difficulty le e)
    | inr e ↦ elim (Bool-cases (valid_hash hash pool)) [
      | inl f ↦ rw (e, f, share_kind) (e, f)
      | inr f ↦ rw (e, f, share_kind) (e, f)
    ]
  ]

  -- A share is a block exactly when its hash meets the block difficulty, and then it meets the pool
  -- difficulty too; it is valid when it meets only the latter, and otherwise invalid.
  pub validate_share-Says :
      (b : Block) (nonce pool block : ℕ) (r : ShareResult)
      → validate_share (some b) nonce pool block ≡ ok r
      → (r.hash ≡ hash_block crypto b nonce) × Says r.hash pool block r.kind
  unfolding validate_share
  validate_share-Says b nonce pool block r h =
      let hash_eq : r.hash ≡ hash_block crypto b nonce = ground arith in
      let kind_eq : r.kind ≡ share_kind (hash_block crypto b nonce) pool block = ground arith in
      (
        hash_eq,
        rw (hash_eq, kind_eq)
            (kind-Says (hash_block crypto b nonce) pool block (ground arith) (ground arith)),
      )
