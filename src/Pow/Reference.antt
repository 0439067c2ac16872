-- ===== src/Pow/Reference.antt =====
-- pow/gpu_pow_v1_reduce.go, pow/gpu_pow_v1_group.go, pow/gpu_pow_v1_final.go,
-- pow/gpu_pow_v1_reference.go and pow/pow.go: the digest of a version 2 block, the hash of a legacy
-- one, and the checks of both.
use sudharma.Base.{
  Bool, Bytes, List, [], codes, false, get_or, if◌then◌else◌, is_empty, leb, length, ltb, nat_eq,
  none, not, replicate, some, suc, take, zero, zeros, ℕ, ◌%◌, ◌&&◌, ◌++◌, ◌+◌, ◌-◌, ◌/◌, ◌||◌, ◌∷◌,
}
use sudharma.Blocks.Header.{big_endian, header_bytes}
use sudharma.Blocks.Merkle.{hex_decode}
use sudharma.Blocks.Record.{Block}
use sudharma.Consensus.Work.{target_from_difficulty}
use sudharma.Crypto.{Crypto, hex_encode, set_bytes}
use sudharma.Pow.Permutation.{set_at}
use sudharma.Pow.Program.{programmatic_lane_mix}
use sudharma.Pow.Rng.{fnv_offset_basis}
use sudharma.Pow.Words.{fnv1a, from_little_endian, little_endian}

abbrev pub num_lanes : ℕ
num_lanes = 16

abbrev pub program_period : ℕ
program_period = 3

-- `GPUV1ProgramForHeight`
unfoldable pub program_for_height : ℕ → ℕ
program_for_height height = height / program_period

-- `gpuV1ReduceLane`, from the digest so far
unfoldable pub reduce_lane : List ℕ → ℕ → ℕ
reduce_lane [] digest = digest
reduce_lane (value ∷ lane) digest = reduce_lane lane (fnv1a digest value)

-- The loop of `gpuV1ReduceLanes`, from a lane on.
unfoldable pub reduce_from : List (List ℕ) → ℕ → List ℕ → List ℕ
reduce_from [] lane digest = digest
reduce_from (registers ∷ lanes) lane digest =
    let word = lane % 8 in
    reduce_from lanes (lane + 1)
      (set_at digest word (fnv1a (get_or digest word 0) (reduce_lane registers fnv_offset_basis)))

-- `gpuV1ReduceLanes`
unfoldable pub reduce_lanes : List (List ℕ) → List ℕ
reduce_lanes lanes = reduce_from lanes 0 (replicate 8 fnv_offset_basis)

-- Words in little-endian order.
unfoldable pub words_bytes : List ℕ → Bytes
words_bytes [] = []
words_bytes (w ∷ ws) = little_endian 4 w ++ words_bytes ws

-- `ValidHash`
unfoldable pub valid_hash : Bytes → ℕ → Bool
valid_hash hash difficulty = if nat_eq difficulty 0 then false else elim (hex_decode hash) [
  | none ↦ false
  | some hash_bytes ↦ leb (set_bytes 0 hash_bytes) (target_from_difficulty difficulty)
]

module _ (crypto : Crypto) where
  -- `HashBlock`
  unfoldable pub hash_block : Block → ℕ → Bytes
  hash_block b nonce = hex_encode (crypto.sha256 (crypto.sha256 (header_bytes b nonce)))

  -- `CheckBlock`
  unfoldable pub check_legacy_block : Block → Bool
  check_legacy_block b = valid_hash (hash_block b b.nonce) b.difficulty

  -- `GPUV1ProgramSeed`
  unfoldable pub program_seed : ℕ → Bytes
  program_seed program =
      crypto.sha256 (codes "SUDHARMA-GPU-POW-V1-PROGRAM-SEED" ++ (0 ∷ big_endian 8 program))

  -- `gpuV1FinalizeDigest`
  unfoldable pub finalize_digest : Bytes → List ℕ → Bytes
  finalize_digest header_digest mix =
      crypto.sha256 (codes "SUDHARMA-GPU-POW-V1-FINAL" ++ (0 ∷ (header_digest ++ words_bytes mix)))

module _ (crypto : Crypto) (keccak512 : Bytes → Bytes) where
  -- The lanes of a group, `count` more from `lane` on.
  unfoldable pub lanes_from : ℕ → ℕ → ℕ → Bytes → List Bytes → List (List ℕ)
  lanes_from zero lane work_seed seed cache = []
  lanes_from (suc count) lane work_seed seed cache =
      programmatic_lane_mix keccak512 work_seed lane seed cache
      ∷ lanes_from count (lane + 1) work_seed seed cache

  -- `gpuV1ProgrammaticGroupDigest`
  unfoldable pub programmatic_group_digest : ℕ → Bytes → List Bytes → List ℕ
  programmatic_group_digest work_seed seed cache =
      reduce_lanes (lanes_from num_lanes 0 work_seed seed cache)

  -- `GPUV1ReferenceDigest`
  unfoldable pub reference_digest : Bytes → ℕ → ℕ → List Bytes → Bytes
  reference_digest header_prefix nonce height cache =
      let header_digest = crypto.sha256 (
        codes "SUDHARMA-GPU-POW-V1-REFERENCE-HEADER"
        ++ (0 ∷ (header_prefix ++ little_endian 8 nonce))) in
      let work_seed = from_little_endian (take 8 header_digest) in
      let mix =
        programmatic_group_digest work_seed (program_seed crypto (program_for_height height))
          cache in
      if nat_eq (length cache) 0 then zeros 32 else finalize_digest crypto header_digest mix

  -- `GPUV1HashBlockWithCache`
  unfoldable pub hash_block_with_cache : Block → ℕ → List Bytes → Bytes
  hash_block_with_cache b nonce cache =
      let header = header_bytes b 0 in
      if nat_eq (length cache) 0 || ltb (length header) 8
      then []
      else hex_encode (reference_digest (take (length header - 8) header) nonce b.height cache)

  -- `GPUV1CheckBlockWithCache`
  unfoldable pub check_block_with_cache : Block → List Bytes → Bool
  check_block_with_cache b cache =
      if not (nat_eq b.version 2) || nat_eq b.difficulty 0 || nat_eq (length cache) 0
      then false
      else (let hash = hash_block_with_cache b b.nonce cache in
          not (is_empty hash) && valid_hash hash b.difficulty)
