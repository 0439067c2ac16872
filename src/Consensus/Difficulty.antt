-- ===== src/Consensus/Difficulty.antt =====
-- consensus/difficulty.go and consensus/history_difficulty.go. A difficulty is a uint32, a block
-- time an int64; `sort.Slice` on plain integers is any sort, here by insertion.
use sudharma.Base.{
  List, [], add32, get_or, if◌then◌else◌, leb, length, ltb, ltb_ℤ, max_u32, nat_eq, negsuc, pos,
  sub32, suc, zero, ℕ, ℤ, ◌*◌, ◌-◌, ◌/◌, ◌∷◌,
}
use sudharma.Params.{target_block_time_seconds}

unfoldable pub next_difficulty : ℕ → ℤ → ℕ
next_difficulty difficulty actual_block_time_seconds =
    let current = if nat_eq difficulty 0 then 1 else difficulty in
    if ltb_ℤ actual_block_time_seconds (pos (target_block_time_seconds / 2))
    then (let increase = if nat_eq (current / 4) 0 then 1 else current / 4 in
        if ltb (max_u32 - increase) current then max_u32 else add32 current increase)
    else if ltb_ℤ (pos (target_block_time_seconds * 2)) actual_block_time_seconds
    then (let decrease = if nat_eq (current / 5) 0 then 1 else current / 5 in
        if leb current decrease
        then 1
        else if ltb (sub32 current decrease) 1
        then 1
        else sub32 current decrease)
    else current

abbrev pub difficulty_history_window : ℕ
difficulty_history_window = 11

-- The positive intervals, in order.
unfoldable pub valid_intervals : List ℤ → List ℕ
valid_intervals [] = []
valid_intervals (pos zero ∷ intervals) = valid_intervals intervals
valid_intervals (pos (suc n) ∷ intervals) = suc n ∷ valid_intervals intervals
valid_intervals (negsuc n ∷ intervals) = valid_intervals intervals

unfoldable pub insert_sorted : ℕ → List ℕ → List ℕ
insert_sorted a [] = a ∷ []
insert_sorted a (x ∷ xs) = if leb a x then a ∷ x ∷ xs else x ∷ insert_sorted a xs

unfoldable pub sort : List ℕ → List ℕ
unfolding insert_sorted
sort [] = []
sort (x ∷ xs) = insert_sorted x (sort xs)

-- `valid[len(valid)/2]`, of a list that is not empty
unfoldable pub middle : List ℕ → ℕ
middle valid = get_or valid (length valid / 2) 0

unfoldable pub median_block_interval : List ℤ → ℤ
unfolding valid_intervals sort middle
median_block_interval intervals =
    if nat_eq (length (valid_intervals intervals)) 0
    then pos target_block_time_seconds
    else pos (middle (sort (valid_intervals intervals)))

unfoldable pub next_difficulty_from_history : ℕ → List ℤ → ℕ
next_difficulty_from_history difficulty intervals =
    next_difficulty difficulty (median_block_interval intervals)
