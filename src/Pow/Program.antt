-- ===== src/Pow/Program.antt =====
-- pow/gpu_pow_v1_program_loop.go: the program of one lane over its registers.
use Prim.Native.Nat.{bit_xor}
use sudharma.Base.{
  Bytes, List, [], get_or, if◌then◌else◌, length, nat_eq, suc, zero, ℕ, ◌%◌, ◌*◌, ◌+◌, ◌/◌,
}
use sudharma.Pow.Cache.{dataset_item}
use sudharma.Pow.Permutation.{register_permutations, set_at}
use sudharma.Pow.Rng.{Kiss99, init_lane, new_kiss99, next, num_regs}
use sudharma.Pow.Words.{fnv, random_math, random_merge, word_at}

abbrev pub dag_rounds : ℕ
dag_rounds = 64

abbrev pub dag_loads : ℕ
dag_loads = 4

abbrev pub cache_accesses : ℕ
cache_accesses = 11

abbrev pub math_operations : ℕ
math_operations = 18

-- The registers and the generator.
pub record Lane : Type 0 where
  pub mix : List ℕ
  pub rng : Kiss99

abbrev reg : List ℕ → ℕ → ℕ
reg registers i = get_or registers i 0

-- Merge a word into a register, with the next number as the selector.
unfoldable pub merge_into : ℕ → ℕ → Lane → Lane
merge_into dst word l =
    let (selector, rng') = next l.rng in
    record { mix = set_at l.mix dst (random_merge (reg l.mix dst) word selector); rng = rng' }

-- The loop over the loads: `count` more from `load` on.
unfoldable pub load_dag : List ℕ → Bytes → ℕ → ℕ → ℕ → Lane → Lane
load_dag dst_perm dag_item round zero load l = l
load_dag dst_perm dag_item round (suc count) load l =
    let dst = reg dst_perm ((round * dag_loads + load) % num_regs) in
    load_dag dst_perm dag_item round count (load + 1) (merge_into dst (word_at dag_item load) l)

-- The loop over the cache accesses.
unfoldable pub access_cache : List Bytes → List ℕ → List ℕ → ℕ → ℕ → ℕ → Lane → Lane
access_cache cache dst_perm src_perm round zero access l = l
access_cache cache dst_perm src_perm round (suc count) access l =
    let src = reg src_perm ((round + access) % num_regs) in
    let (value, rng') = next l.rng in
    let selector = bit_xor (reg l.mix src) value in
    let node = get_or cache (selector % length cache) [] in
    let word = word_at node ((selector / 65536) % 16) in
    let dst = reg dst_perm ((round + dag_loads + access) % num_regs) in
    access_cache cache dst_perm src_perm round count (access + 1)
      (merge_into dst word (record { mix = l.mix; rng = rng' }))

-- The loop over the arithmetic operations.
unfoldable pub do_math : List ℕ → List ℕ → ℕ → ℕ → ℕ → Lane → Lane
do_math dst_perm src_perm round zero op l = l
do_math dst_perm src_perm round (suc count) op l =
    let dst = reg dst_perm ((round + dag_loads + cache_accesses + op) % num_regs) in
    let a = reg l.mix (reg src_perm ((round + op) % num_regs)) in
    let b = reg l.mix (reg src_perm ((round + op + 1) % num_regs)) in
    let (selector, rng') = next l.rng in
    do_math dst_perm src_perm round count (op + 1)
      (merge_into dst (random_math a b selector) (record { mix = l.mix; rng = rng' }))

module _ (keccak512 : Bytes → Bytes) where
  -- The loop over the rounds: `count` more from `round` on.
  unfoldable pub run_rounds : List Bytes → ℕ → List ℕ → List ℕ → ℕ → ℕ → Lane → Lane
  run_rounds cache lane dst_perm src_perm zero round l = l
  run_rounds cache lane dst_perm src_perm (suc count) round l =
      let (value, rng') = next l.rng in
      let dag_index = fnv (bit_xor (reg l.mix 0) round) (bit_xor lane value) in
      let dag_item = dataset_item keccak512 cache dag_index in
      let start : Lane = record { mix = l.mix; rng = rng' } in
      let loaded = load_dag dst_perm dag_item round dag_loads 0 start in
      let accessed = access_cache cache dst_perm src_perm round cache_accesses 0 loaded in
      run_rounds cache lane dst_perm src_perm count (round + 1)
        (do_math dst_perm src_perm round math_operations 0 accessed)

  -- `gpuV1ProgrammaticLaneMix`
  unfoldable pub programmatic_lane_mix : ℕ → ℕ → Bytes → List Bytes → List ℕ
  programmatic_lane_mix work_seed lane seed cache =
      let seed_lo = word_at seed 0 in
      let seed_hi = word_at seed 1 in
      let (dst_perm, src_perm) = register_permutations seed_lo seed_hi in
      let start : Lane = record {
        mix = init_lane work_seed lane;
        rng = new_kiss99 seed_lo seed_hi;
      } in
      if nat_eq (length cache) 0
      then init_lane work_seed lane
      else (run_rounds cache lane dst_perm src_perm dag_rounds 0 start).mix
