-- ===== src/Consensus/Retarget.antt =====
-- The difficulty rule stays in range, moves by bounded steps, and follows the block time.
use sudharma.Base.{
  add32, arith, max, max_u32, negsuc, pos, sub32, ℕ, ℤ, ◌+◌, ◌/◌, ◌<◌, ◌≡◌, ◌≤ℤ◌, ◌≤◌, ◌⊎◌,
}
use sudharma.Consensus.Difficulty.{next_difficulty}

-- From any uint32 difficulty, zero included, and for any block time, the next difficulty is a
-- uint32 of at least one that differs from the current one (zero counting as one) by at most a
-- quarter upwards and a fifth downwards, or by one where these round to zero.
pub next_difficulty_bounds :
    (difficulty : ℕ) (time : ℤ)
    → difficulty ≤ max_u32
    → (1 ≤ next_difficulty difficulty time)
      × (next_difficulty difficulty time ≤ max_u32)
      × (next_difficulty difficulty time ≤ max difficulty 1 + max (max difficulty 1 / 4) 1)
      × (max difficulty 1 ≤ next_difficulty difficulty time + max (max difficulty 1 / 5) 1)
unfolding next_difficulty add32 sub32
next_difficulty_bounds difficulty (pos n) h = ground arith
next_difficulty_bounds difficulty (negsuc n) h = ground arith

-- A longer block time never gives a higher difficulty.
pub next_difficulty_antitone :
    (difficulty : ℕ) (time later : ℤ)
    → difficulty ≤ max_u32
    → time ≤ℤ later
    → next_difficulty difficulty later ≤ next_difficulty difficulty time
unfolding next_difficulty add32 sub32
next_difficulty_antitone difficulty (pos n) (pos m) h le = ground arith
next_difficulty_antitone difficulty (pos n) (negsuc m) h le = ground arith
next_difficulty_antitone difficulty (negsuc n) (pos m) h le = ground arith
next_difficulty_antitone difficulty (negsuc n) (negsuc m) h le = ground arith

-- A block faster than half the target time raises the difficulty, up to the largest uint32.
pub fast_blocks_raise_difficulty :
    (difficulty : ℕ) (time : ℤ)
    → difficulty ≤ max_u32
    → time ≤ℤ pos 29
    → (max difficulty 1 < next_difficulty difficulty time)
      ⊎ (next_difficulty difficulty time ≡ max_u32)
unfolding next_difficulty add32
fast_blocks_raise_difficulty difficulty (pos n) h fast = ground arith
fast_blocks_raise_difficulty difficulty (negsuc n) h fast = ground arith

-- A block slower than twice the target time lowers the difficulty, down to one.
pub slow_blocks_lower_difficulty :
    (difficulty : ℕ) (time : ℤ)
    → difficulty ≤ max_u32
    → pos 121 ≤ℤ time
    → (next_difficulty difficulty time < max difficulty 1) ⊎ (next_difficulty difficulty time ≡ 1)
unfolding next_difficulty sub32
slow_blocks_lower_difficulty difficulty (pos n) h slow = ground arith
slow_blocks_lower_difficulty difficulty (negsuc n) h slow = absurd (omega arith)
