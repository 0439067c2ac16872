-- ===== src/Consensus/Median.antt =====
-- The median block interval: fewer than half of the intervals cannot move it.
use sudharma.Base.{
  Bool-cases, List, [], arith, dec_le, false, get_or, if◌then◌else◌, inl, inr, leb, leb→gt, leb→le,
  length, ltb, nat_eq, negsuc, pos, refl, suc, zero, ℕ, ℤ, ◌*◌, ◌+◌, ◌/◌, ◌<◌, ◌∷◌, ◌≡◌, ◌≤ℤ◌, ◌≤◌,
}
use sudharma.Consensus.Difficulty.{
  insert_sorted, median_block_interval, middle, next_difficulty, next_difficulty_from_history, sort,
  valid_intervals,
}

-- How many entries are above `b`, and how many are below.
unfoldable pub count_above : ℕ → List ℕ → ℕ
count_above b [] = 0
count_above b (x ∷ xs) = if ltb b x then suc (count_above b xs) else count_above b xs

unfoldable pub count_below : ℕ → List ℕ → ℕ
count_below b [] = 0
count_below b (x ∷ xs) = if ltb x b then suc (count_below b xs) else count_below b xs

abbrev AllAbove : ℕ → List ℕ → Type 0
AllAbove a [] = Unit
AllAbove a (x ∷ xs) = (a ≤ x) × AllAbove a xs

abbrev IsSorted : List ℕ → Type 0
IsSorted [] = Unit
IsSorted (x ∷ xs) = AllAbove x xs × IsSorted xs

AllAbove-trans : (a b : ℕ) (xs : List ℕ) → a ≤ b → AllAbove b xs → AllAbove a xs
AllAbove-trans a b [] h k = tt
AllAbove-trans a b (x ∷ xs) h (p, q) = (omega arith, AllAbove-trans a b xs h q)

AllAbove-insert : (a b : ℕ) (xs : List ℕ) → a ≤ b → AllAbove a xs → AllAbove a (insert_sorted b xs)
unfolding insert_sorted
AllAbove-insert a b [] h k = (h, tt)
AllAbove-insert a b (x ∷ xs) h (p, q) = ground (arith, AllAbove-insert a b xs h q)

insert-IsSorted : (b : ℕ) (xs : List ℕ) → IsSorted xs → IsSorted (insert_sorted b xs)
unfolding insert_sorted
insert-IsSorted b [] h = (tt, tt)
insert-IsSorted b (x ∷ xs) (p, q) = elim (Bool-cases (leb b x)) [
  | inl e ↦ rw e ((leb→le b x e, AllAbove-trans b x xs (leb→le b x e) p), (p, q))
  | inr e ↦
      let lt = leb→gt b x e in rw e (AllAbove-insert x b xs (omega arith) p, insert-IsSorted b xs q)
]

sort-IsSorted : (xs : List ℕ) → IsSorted (sort xs)
unfolding sort
sort-IsSorted [] = tt
sort-IsSorted (x ∷ xs) = insert-IsSorted x (sort xs) (sort-IsSorted xs)

above-insert : (b a : ℕ) (xs : List ℕ) → count_above b (insert_sorted a xs) ≡ count_above b (a ∷ xs)
unfolding insert_sorted count_above
above-insert b a [] = refl
above-insert b a (x ∷ xs) = ground (arith, above-insert b a xs)

below-insert : (b a : ℕ) (xs : List ℕ) → count_below b (insert_sorted a xs) ≡ count_below b (a ∷ xs)
unfolding insert_sorted count_below
below-insert b a [] = refl
below-insert b a (x ∷ xs) = ground (arith, below-insert b a xs)

length-insert : (a : ℕ) (xs : List ℕ) → length (insert_sorted a xs) ≡ suc (length xs)
unfolding insert_sorted
length-insert a [] = refl
length-insert a (x ∷ xs) = ground (arith, length-insert a xs)

above-sort : (b : ℕ) (xs : List ℕ) → count_above b (sort xs) ≡ count_above b xs
unfolding sort count_above
above-sort b [] = refl
above-sort b (x ∷ xs) = ground (arith, above-insert b x (sort xs), above-sort b xs)

below-sort : (b : ℕ) (xs : List ℕ) → count_below b (sort xs) ≡ count_below b xs
unfolding sort count_below
below-sort b [] = refl
below-sort b (x ∷ xs) = ground (arith, below-insert b x (sort xs), below-sort b xs)

length-sort : (xs : List ℕ) → length (sort xs) ≡ length xs
unfolding sort
length-sort [] = refl
length-sort (x ∷ xs) = omega (arith, length-insert x (sort xs), length-sort xs)

above-all : (a b : ℕ) (xs : List ℕ) → b < a → AllAbove a xs → count_above b xs ≡ length xs
unfolding count_above
above-all a b [] h k = refl
above-all a b (x ∷ xs) h (p, q) = ground (arith, above-all a b xs h q)

-- In a sorted list, all from the entry at `i` on are at least that entry.
above_from :
    (xs : List ℕ) (i b : ℕ)
    → IsSorted xs
    → i < length xs
    → b < get_or xs i 0
    → length xs ≤ count_above b xs + i
unfolding count_above
above_from [] i b s h k = absurd (omega arith)
above_from (x ∷ xs) zero b (p, q) h k = ground (arith, above-all x b xs k p)
above_from (x ∷ xs) (suc i) b (p, q) h k = ground (arith, above_from xs i b q)

-- All up to the entry at `i` are at most that entry.
get-AllAbove : (a : ℕ) (xs : List ℕ) (i : ℕ) → AllAbove a xs → i < length xs → a ≤ get_or xs i 0
get-AllAbove a [] i h k = absurd (omega arith)
get-AllAbove a (x ∷ xs) zero (p, q) k = p
get-AllAbove a (x ∷ xs) (suc i) (p, q) k = get-AllAbove a xs i q (omega arith)

below_to :
    (xs : List ℕ) (i b : ℕ) → IsSorted xs → i < length xs → get_or xs i 0 < b → i < count_below b xs
unfolding count_below
below_to [] i b s h k = absurd (omega arith)
below_to (x ∷ xs) zero b (p, q) h k = ground arith
below_to (x ∷ xs) (suc i) b (p, q) h k =
    let le = get-AllAbove x xs i p (omega arith) in ground (arith, below_to xs i b q)

middle_ge : (a : ℕ) (v : List ℕ) → 2 * count_below a v < length v → a ≤ middle (sort v)
unfolding middle
middle_ge a v few = elim (dec_le a (get_or (sort v) (length (sort v) / 2) 0)) [
  | yes p ↦ p
  | no p ↦ absurd (
      omega (
        arith,
        below_to (sort v) (length (sort v) / 2) a (sort-IsSorted v) (omega (arith, length-sort v))
            (omega arith),
        below-sort a v,
        length-sort v,
      ))
]

middle_le : (b : ℕ) (v : List ℕ) → 2 * count_above b v < length v → middle (sort v) ≤ b
unfolding middle
middle_le b v few = elim (dec_le (get_or (sort v) (length (sort v) / 2) 0) b) [
  | yes p ↦ p
  | no p ↦ absurd (
      omega (
        arith,
        above_from (sort v) (length (sort v) / 2) b (sort-IsSorted v) (omega (arith, length-sort v))
            (omega arith),
        above-sort b v,
        length-sort v,
      ))
]

steady :
    (difficulty : ℕ) (time : ℤ)
    → 1 ≤ difficulty
    → pos 30 ≤ℤ time
    → time ≤ℤ pos 120
    → next_difficulty difficulty time ≡ difficulty
unfolding next_difficulty
steady difficulty (pos n) one lo hi = ground arith
steady difficulty (negsuc n) one lo hi = absurd (omega arith)

-- If fewer than half of the positive intervals are below `a` and fewer than half above `b`, the
-- median lies between `a` and `b`, whatever the others are.
pub median_resists_minority :
    (intervals : List ℤ) (a b : ℕ)
    → 2 * count_below a (valid_intervals intervals) < length (valid_intervals intervals)
    → 2 * count_above b (valid_intervals intervals) < length (valid_intervals intervals)
    → (pos a ≤ℤ median_block_interval intervals) × (median_block_interval intervals ≤ℤ pos b)
unfolding median_block_interval
median_resists_minority intervals a b few_below few_above =
    let v = valid_intervals intervals in
    let some_valid : nat_eq (length v) 0 ≡ false = ground arith in
    rw some_valid (omega (arith, middle_ge a v few_below), omega (arith, middle_le b v few_above))

-- While fewer than half of the recent positive intervals are shorter than half the target time and
-- fewer than half are longer than twice the target time, a difficulty above zero stays as it is.
pub steady_majority_keeps_difficulty :
    (difficulty : ℕ) (intervals : List ℤ)
    → 1 ≤ difficulty
    → 2 * count_below 30 (valid_intervals intervals) < length (valid_intervals intervals)
    → 2 * count_above 120 (valid_intervals intervals) < length (valid_intervals intervals)
    → next_difficulty_from_history difficulty intervals ≡ difficulty
unfolding next_difficulty_from_history
steady_majority_keeps_difficulty difficulty intervals one few_below few_above =
    let (lo, hi) = median_resists_minority intervals 30 120 few_below few_above in
    steady difficulty (median_block_interval intervals) one lo hi
