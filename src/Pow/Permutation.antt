-- ===== src/Pow/Permutation.antt =====
-- pow/gpu_pow_v1_permutation.go: the orders in which the program writes and reads the registers.
-- `a[i] = value`
use sudharma.Base.{
  List, [], arith, get_or, if◌then◌else◌, leb, length, ltb, nat_eq, refl, suc, zero, ℕ, ◌%◌, ◌&&◌,
  ◌+◌, ◌-◌, ◌<◌, ◌∙◌, ◌∷◌, ◌≡◌,
}
use sudharma.Pow.Rng.{Kiss99, new_kiss99, next, num_regs}

abbrev pub set_at {ℓ} : {A : Type ℓ} → List A → ℕ → A → List A
set_at [] i value = []
set_at (x ∷ xs) zero value = value ∷ xs
set_at (x ∷ xs) (suc i) value = x ∷ set_at xs i value

-- `a[i], a[j] = a[j], a[i]`
unfoldable pub swap : List ℕ → ℕ → ℕ → List ℕ
swap xs i j = set_at (set_at xs i (get_or xs j 0)) j (get_or xs i 0)

-- The numbers below `n`, from `i` on.
unfoldable pub counting : ℕ → ℕ → List ℕ
counting zero i = []
counting (suc n) i = i ∷ counting n (i + 1)

-- The loop, from `i` down to 1, on the two orders.
unfoldable pub shuffle : ℕ → Kiss99 → List ℕ → List ℕ → List ℕ × List ℕ
shuffle zero rng dst src = (dst, src)
shuffle (suc i) rng dst src =
    let (a, rng') = next rng in
    let (b, rng'') = next rng' in
    shuffle i rng'' (swap dst (suc i) (a % (suc i + 1))) (swap src (suc i) (b % (suc i + 1)))

-- `gpuV1RegisterPermutations`
unfoldable pub register_permutations : ℕ → ℕ → List ℕ × List ℕ
register_permutations seed_lo seed_hi =
    shuffle (num_regs - 1) (new_kiss99 seed_lo seed_hi) (counting num_regs 0) (counting num_regs 0)

-- How often a number occurs.
unfoldable pub occurrences : ℕ → List ℕ → ℕ
occurrences v [] = 0
occurrences v (x ∷ xs) = let rest = occurrences v xs in if nat_eq x v then suc rest else rest

pub length-set_at {ℓ} :
    {A : Type ℓ} (xs : List A) (i : ℕ) (value : A) → length (set_at xs i value) ≡ length xs
length-set_at [] i value = refl
length-set_at (x ∷ xs) zero value = refl
length-set_at (x ∷ xs) (suc i) value = omega (arith, length-set_at xs i value)

-- One where they are the same.
abbrev one_if : ℕ → ℕ → ℕ
one_if x v = if nat_eq x v then 1 else 0

occurrences-set_at :
    (xs : List ℕ) (i value v : ℕ)
    → i < length xs
    → occurrences v (set_at xs i value) + one_if (get_or xs i 0) v
      ≡ occurrences v xs + one_if value v
unfolding occurrences
occurrences-set_at [] i value v h = absurd (omega arith)
occurrences-set_at (x ∷ xs) zero value v h = ground arith
occurrences-set_at (x ∷ xs) (suc i) value v h =
    ground (arith, occurrences-set_at xs i value v (omega arith))

get_or-set_at :
    (xs : List ℕ) (i j value : ℕ)
    → i < length xs
    → get_or (set_at xs i value) j 0 ≡ (if nat_eq i j then value else get_or xs j 0)
get_or-set_at [] i j value h = absurd (omega arith)
get_or-set_at (x ∷ xs) zero zero value h = refl
get_or-set_at (x ∷ xs) zero (suc j) value h = ground arith
get_or-set_at (x ∷ xs) (suc i) zero value h = ground arith
get_or-set_at (x ∷ xs) (suc i) (suc j) value h =
    ground (arith, get_or-set_at xs i j value (omega arith))

occurrences-swap :
    (xs : List ℕ) (i j v : ℕ)
    → i < length xs
    → j < length xs
    → (occurrences v (swap xs i j) ≡ occurrences v xs) × (length (swap xs i j) ≡ length xs)
unfolding swap
occurrences-swap xs i j v hi hj =
    let ys = set_at xs i (get_or xs j 0) in
    let first = occurrences-set_at xs i (get_or xs j 0) v hi in
    let same = length-set_at xs i (get_or xs j 0) in
    let second = occurrences-set_at ys j (get_or xs i 0) v (omega arith) in
    let at_j = get_or-set_at xs i j (get_or xs j 0) hi in
    (ground (arith, first, second, at_j), omega (arith, length-set_at ys j (get_or xs i 0)))

occurrences-shuffle :
    (i v : ℕ) (rng : Kiss99) (dst src : List ℕ)
    → i < length dst
    → i < length src
    → (occurrences v (shuffle i rng dst src).0 ≡ occurrences v dst)
      × (occurrences v (shuffle i rng dst src).1 ≡ occurrences v src)
unfolding shuffle
occurrences-shuffle zero v rng dst src hd hs = (refl, refl)
occurrences-shuffle (suc i) v rng dst src hd hs =
    let a = (next rng).0 in
    let b = (next (next rng).1).0 in
    let (same_dst, long_dst) = occurrences-swap dst (suc i) (a % (suc i + 1)) v hd (omega arith) in
    let (same_src, long_src) = occurrences-swap src (suc i) (b % (suc i + 1)) v hs (omega arith) in
    let (rest_dst, rest_src) =
      occurrences-shuffle i v (next (next rng).1).1 (swap dst (suc i) (a % (suc i + 1)))
        (swap src (suc i) (b % (suc i + 1))) (omega arith) (omega arith) in
    (rest_dst ∙ same_dst, rest_src ∙ same_src)

occurrences-counting :
    (n i v : ℕ) → occurrences v (counting n i) ≡ (if leb i v && ltb v (i + n) then 1 else 0)
unfolding occurrences counting
occurrences-counting zero i v = ground arith
occurrences-counting (suc n) i v = ground (arith, occurrences-counting n (i + 1) v)

-- Whatever the seed, each of the two orders has every register below 32 exactly once, and nothing else.
pub register_permutations_once :
    (seed_lo seed_hi v : ℕ)
    → (occurrences v (register_permutations seed_lo seed_hi).0 ≡ (if ltb v num_regs then 1 else 0))
      × (occurrences v (register_permutations seed_lo seed_hi).1
          ≡ (if ltb v num_regs then 1 else 0))
unfolding register_permutations counting
register_permutations_once seed_lo seed_hi v =
    let rng = new_kiss99 seed_lo seed_hi in
    let (dst, src) =
      occurrences-shuffle 31 v rng (counting num_regs 0) (counting num_regs 0) (omega arith)
        (omega arith) in
    let start = occurrences-counting num_regs 0 v in
    (ground (arith, dst, start), ground (arith, src, start))
