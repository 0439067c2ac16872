-- ===== src/Consensus/Work.antt =====
-- consensus/work.go: targets and work, on big integers.
pub mod Bounds
use sudharma.Base.{if◌then◌else◌, leb, nat_eq, ℕ, ◌+◌, ◌-◌, ◌/◌, ◌^◌}

abbrev pub two_to_256 : ℕ
two_to_256 = 2 ^ 256

unfoldable pub target_from_difficulty : ℕ → ℕ
target_from_difficulty difficulty = if nat_eq difficulty 0 then 0 else (two_to_256 - 1) / difficulty

unfoldable pub work_from_difficulty : ℕ → ℕ
work_from_difficulty difficulty =
    if nat_eq difficulty 0
    then 0
    else if leb (target_from_difficulty difficulty) 0
    then 0
    else two_to_256 / (target_from_difficulty difficulty + 1)
