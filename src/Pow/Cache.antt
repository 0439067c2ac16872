-- ===== src/Pow/Cache.antt =====
-- pow/gpu_pow_v1_contract.go, pow/gpu_pow_v1_cache.go and pow/gpu_pow_v1_dataset.go: epochs, the cache
-- of an epoch, and the dataset items that are computed from it. A node is a string of 64 bytes.
use Prim.Native.Nat.{bit_xor}
use sudharma.Base.{
  Bytes, List, [], arith, codes, get_or, if◌then◌else◌, length, nat_eq, refl, suc, zero, zeros, ℕ,
  ◌%◌, ◌++◌, ◌+◌, ◌-◌, ◌/◌, ◌∙◌, ◌∷◌, ◌≡◌,
}
use sudharma.Blocks.Header.{big_endian}
use sudharma.Crypto.{Crypto}
use sudharma.Pow.Permutation.{length-set_at, set_at}
use sudharma.Pow.Words.{fnv, put_word, word_at}

abbrev pub epoch_length : ℕ
epoch_length = 7500

abbrev pub production_cache_nodes : ℕ
production_cache_nodes = 262144

abbrev pub cache_rounds : ℕ
cache_rounds = 3

abbrev pub dataset_parents : ℕ
dataset_parents = 512

-- `GPUV1EpochForHeight`
unfoldable pub epoch_for_height : ℕ → ℕ
epoch_for_height height = height / epoch_length

-- `gpuV1XORNode`
unfoldable pub xor_node : Bytes → Bytes → Bytes
xor_node [] bs = []
xor_node (a ∷ xs) [] = []
xor_node (a ∷ xs) (b ∷ bs) = bit_xor a b ∷ xor_node xs bs

-- `GPUV1EpochSeed`
unfoldable pub epoch_seed : Crypto → ℕ → Bytes
epoch_seed crypto epoch =
    crypto.sha256 (codes "SUDHARMA-GPU-POW-V1-EPOCH-SEED" ++ (0 ∷ big_endian 8 epoch))

-- The zero node.
abbrev pub zero_node : Bytes
zero_node = zeros 64

module _ (keccak512 : Bytes → Bytes) where
  -- The first loop: `count` more nodes, each the digest of the one before.
  unfoldable pub chain_nodes : ℕ → Bytes → List Bytes
  chain_nodes zero node = []
  chain_nodes (suc count) node = let digest = keccak512 node in digest ∷ chain_nodes count digest

  -- One round over the cache: `count` more nodes from `i` on.
  unfoldable pub mix_round : ℕ → ℕ → ℕ → List Bytes → List Bytes
  mix_round node_count zero i cache = cache
  mix_round node_count (suc count) i cache =
      let n = length cache in
      let prev = get_or cache ((i + n - 1) % n) [] in
      let v = word_at (get_or cache i []) 0 % node_count in
      let mixed = xor_node prev (get_or cache v []) in
      mix_round node_count count (i + 1) (set_at cache i (keccak512 mixed))

  unfoldable pub mix_rounds : ℕ → ℕ → List Bytes → List Bytes
  mix_rounds node_count zero cache = cache
  mix_rounds node_count (suc rounds) cache =
      mix_rounds node_count rounds (mix_round node_count (length cache) 0 cache)

  -- `GPUV1BuildCache`
  unfoldable pub build_cache : Bytes → ℕ → List Bytes
  build_cache seed node_count = mix_rounds node_count cache_rounds (chain_nodes node_count seed)

  -- The loop over the words of a node: `count` more from `word` on.
  unfoldable pub mix_words : ℕ → ℕ → Bytes → Bytes → Bytes
  mix_words zero word parent mix = mix
  mix_words (suc count) word parent mix =
      mix_words count (word + 1) parent
        (put_word mix word (fnv (word_at mix word) (word_at parent word)))

  -- The loop over the parents: `count` more from `parent` on.
  unfoldable pub mix_parents : List Bytes → ℕ → ℕ → ℕ → Bytes → Bytes
  mix_parents cache index zero parent mix = mix
  mix_parents cache index (suc count) parent mix =
      let selector = fnv (bit_xor index parent) (word_at mix (parent % 16)) in
      let node = get_or cache (selector % length cache) [] in
      mix_parents cache index count (parent + 1) (mix_words 16 0 node mix)

  -- `GPUV1DatasetItem`
  unfoldable pub dataset_item : List Bytes → ℕ → Bytes
  dataset_item cache index =
      let start = get_or cache (index % length cache) [] in
      let first = bit_xor (word_at start 0) index in
      let mix = mix_parents cache index dataset_parents 0 (keccak512 (put_word start 0 first)) in
      if nat_eq (length cache) 0 then zero_node else keccak512 mix

  length-chain_nodes : (count : ℕ) (node : Bytes) → length (chain_nodes count node) ≡ count
  unfolding chain_nodes
  length-chain_nodes zero node = refl
  length-chain_nodes (suc count) node = omega (arith, length-chain_nodes count (keccak512 node))

  length-mix_round :
      (node_count count i : ℕ) (cache : List Bytes)
      → length (mix_round node_count count i cache) ≡ length cache
  unfolding mix_round
  length-mix_round node_count zero i cache = refl
  length-mix_round node_count (suc count) i cache =
      let n = length cache in
      let prev = get_or cache ((i + n - 1) % n) [] in
      let v = word_at (get_or cache i []) 0 % node_count in
      let mixed = keccak512 (xor_node prev (get_or cache v [])) in
      length-mix_round node_count count (i + 1) (set_at cache i mixed) ∙ length-set_at cache i mixed

  length-mix_rounds :
      (node_count rounds : ℕ) (cache : List Bytes)
      → length (mix_rounds node_count rounds cache) ≡ length cache
  unfolding mix_rounds
  length-mix_rounds node_count zero cache = refl
  length-mix_rounds node_count (suc rounds) cache =
      length-mix_rounds node_count rounds (mix_round node_count (length cache) 0 cache)
      ∙ length-mix_round node_count (length cache) 0 cache

  -- The cache of an epoch has as many nodes as asked for.
  pub length-build_cache :
      (seed : Bytes) (node_count : ℕ) → length (build_cache seed node_count) ≡ node_count
  unfolding build_cache
  length-build_cache seed node_count =
      length-mix_rounds node_count cache_rounds (chain_nodes node_count seed)
      ∙ length-chain_nodes node_count seed
