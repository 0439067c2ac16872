-- ===== src/Chain/Valid.antt =====
-- What a block must satisfy to follow the blocks before it, and that the checks ensure it.
use sudharma.Base.{
  All, List, Option, Option-cases, Result-cases, [], add64, append-nil, append_assoc, arith,
  bytes_eq_iff, false, inl, inr, leb_ℤ, length, none, ok, some, subst, sym, true, ℕ, ℤ, ◌++◌, ◌+◌,
  ◌∷◌, ◌≡◌, ◌≤◌,
}
use sudharma.Blocks.Header.{block_hash}
use sudharma.Blocks.Limits.{count_block_bytes, validate_block_transactions}
use sudharma.Blocks.Merkle.{calculate_merkle_root}
use sudharma.Blocks.Record.{Block}
use sudharma.Chain.Extend.{add_block, check_next_block}
use sudharma.Chain.Policy.{PoWPolicy, ProofVerifier, version_allowed_iff, version_at_height}
use sudharma.Chain.Record.{Chain, last_block}
use sudharma.Chain.Validate.{recent_block_intervals, validate_block_core_with_proof}
use sudharma.Consensus.Difficulty.{next_difficulty_from_history}
use sudharma.Crypto.{Crypto}
use sudharma.Params.{max_block_transaction_bytes, max_block_transactions}
use sudharma.Transactions.Record.{Transaction, estimated_serialized_size, validate_resource_bounds}

-- The bytes of all transactions.
unfoldable pub payload_bytes : List (Option Transaction) → ℕ
payload_bytes [] = 0
payload_bytes (none ∷ txs) = payload_bytes txs
payload_bytes (some tx ∷ txs) = estimated_serialized_size tx + payload_bytes txs

-- A transaction that is there, and is within the resource bounds.
unfoldable pub IsPresentInBounds : Option Transaction → Type 0
IsPresentInBounds none = ⊥
IsPresentInBounds (some tx) = validate_resource_bounds tx ≡ ok tt

-- The transactions are within all limits of a block.
pub record FitsBlock (txs : List (Option Transaction)) : Type 0 where
  pub few : length txs ≤ max_block_transactions
  pub small : payload_bytes txs ≤ max_block_transaction_bytes
  pub each : All IsPresentInBounds txs

counted_bytes :
    (start total_bytes : ℕ) (txs : List (Option Transaction))
    → count_block_bytes start txs ≡ ok total_bytes
    → (start + payload_bytes txs ≡ total_bytes) × All IsPresentInBounds txs
unfolding count_block_bytes payload_bytes IsPresentInBounds
counted_bytes start total_bytes [] h = (ground arith, tt)
counted_bytes start total_bytes (none ∷ txs) h = absurd (cc h)
counted_bytes start total_bytes (some tx ∷ txs) h =
    elim (Result-cases (validate_resource_bounds tx)) [
      | inr (x, e) ↦ absurd (ground (arith, e))
      | inl (u, e) ↦
          let (rest, all) =
            counted_bytes (start + estimated_serialized_size tx) total_bytes txs
              (ground (arith, e)) in
          (omega (arith, rest), (e, all))
    ]

limits-FitsBlock : (b : Block) → validate_block_transactions b ≡ ok tt → FitsBlock b.transactions
unfolding validate_block_transactions
limits-FitsBlock b h = elim (Result-cases (count_block_bytes 0 b.transactions)) [
  | inr (x, e) ↦ absurd (ground (arith, e))
  | inl (n, e) ↦
      let (sum, all) = counted_bytes 0 n b.transactions e in
      record { few = ground (arith, e); small = ground (arith, e, sum); each = all }
]

module _ (crypto : Crypto) (policy : PoWPolicy) (verifier : ProofVerifier) where
  -- The block has the version of its height, follows the last block by height, hash and time, commits to
  -- its transactions, which are within all limits, proves its work at the difficulty of the history.
  pub record Follows (before : List Block) (b : Block) : Type 0 where
    pub previous : Block
    pub is_last : last_block before ≡ some previous
    pub next_height : b.height ≡ add64 previous.height 1
    pub right_version : b.version ≡ version_at_height policy b.height
    pub linked : b.previous_hash ≡ block_hash crypto previous
    pub later : leb_ℤ b.timestamp previous.timestamp ≡ false
    pub committed : b.merkle_root ≡ calculate_merkle_root crypto b
    pub bounded : FitsBlock b.transactions
    pub proven : verifier.verify_proof b ≡ true
    pub retargeted :
        b.difficulty
        ≡ next_difficulty_from_history previous.difficulty (recent_block_intervals before)

  -- Every block of a list follows those before it.
  unfoldable pub Linked : List Block → List Block → Type 0
  Linked before [] = Unit {0}
  Linked before (b ∷ blocks) = Follows before b × Linked (before ++ (b ∷ [])) blocks

  pub cons-Linked :
      (before blocks : List Block) (b : Block)
      → Follows before b
      → Linked (before ++ (b ∷ [])) blocks
      → Linked before (b ∷ blocks)
  unfolding Linked
  cons-Linked before blocks b f l = (f, l)

  pub nil-Linked : (before : List Block) → Linked before []
  unfolding Linked
  nil-Linked before = tt

  pub append-Linked :
      (before blocks : List Block) (b : Block)
      → Linked before blocks
      → Follows (before ++ blocks) b
      → Linked before (blocks ++ (b ∷ []))
  unfolding Linked
  append-Linked before [] b l f = (subst (λ xs. Follows xs b) (append-nil before) f, tt)
  append-Linked before (d ∷ blocks) b (g, l) f = (
    g,
    append-Linked (before ++ (d ∷ [])) blocks b l
        (subst (λ xs. Follows xs b) (sym (append_assoc before (d ∷ []) blocks)) f),
  )

  -- What the checks of one block ensure.
  core_checks :
      (now : ℤ) (b previous : Block)
      → validate_block_core_with_proof crypto now b previous policy verifier ≡ ok tt
      → (b.height ≡ add64 previous.height 1)
        × (b.version ≡ version_at_height policy b.height)
        × (b.previous_hash ≡ block_hash crypto previous)
        × (leb_ℤ b.timestamp previous.timestamp ≡ false)
        × (b.merkle_root ≡ calculate_merkle_root crypto b)
        × (validate_block_transactions b ≡ ok tt)
        × (verifier.verify_proof b ≡ true)
  unfolding validate_block_core_with_proof
  core_checks now b previous h = elim (Result-cases (validate_block_transactions b)) [
    | inr (x, e) ↦ absurd (ground (arith, e))
    | inl (u, e) ↦ ground (
      arith,
      e,
      version_allowed_iff policy b.version b.height,
      bytes_eq_iff b.previous_hash (block_hash crypto previous),
      bytes_eq_iff b.merkle_root (calculate_merkle_root crypto b),
    )
  ]

module _ (crypto : Crypto) where
  checked_next :
      (now : ℤ) (b previous : Block) (c : Chain)
      → check_next_block crypto now b previous c ≡ ok tt
      → (b.difficulty
          ≡ next_difficulty_from_history previous.difficulty (recent_block_intervals c.blocks))
        × (validate_block_core_with_proof crypto now b previous c.pow_policy c.proof_verifier
            ≡ ok tt)
  unfolding check_next_block
  checked_next now b previous c h =
      elim (Result-cases
        (validate_block_core_with_proof crypto now b previous c.pow_policy c.proof_verifier)) [
          | inl (u, e) ↦ (ground (arith, e), ground (arith, e))
          | inr (x, e) ↦ absurd (ground (arith, e))
        ]

  -- Whatever the clock reads, a block that is added to a chain follows the chain's blocks.
  pub add_block-Follows :
      (now : ℤ) (b : Block) (c d : Chain)
      → add_block crypto now b c ≡ ok d
      → Follows crypto c.pow_policy c.proof_verifier c.blocks b
  unfolding add_block
  add_block-Follows now b c d h = elim (Option-cases (last_block c.blocks)) [
    | inl e ↦ absurd (ground (arith, e))
    | inr (previous, e) ↦ elim (Result-cases (check_next_block crypto now b previous c)) [
      | inr (x, f) ↦ absurd (ground (arith, e, f))
      | inl (u, f) ↦
          let (difficulty, checked) = checked_next now b previous c f in
          let (height, version, hash, time, root, limits, proof) =
            core_checks crypto c.pow_policy c.proof_verifier now b previous checked in
          record {
            previous = previous;
            is_last = e;
            next_height = height;
            right_version = version;
            linked = hash;
            later = time;
            committed = root;
            bounded = limits-FitsBlock b limits;
            proven = proof;
            retargeted = difficulty;
          }
    ]
  ]
