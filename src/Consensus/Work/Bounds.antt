-- ===== src/Consensus/Work/Bounds.antt =====
-- Work follows difficulty to within one, and a target falls as its difficulty grows.
use sudharma.Base.{arith, dec_le, max_u32, refl, u32_mod, ℕ, ◌*◌, ◌+◌, ◌-◌, ◌/◌, ◌<◌, ◌≡◌, ◌≤◌}
use sudharma.Consensus.Work.{target_from_difficulty, two_to_256, work_from_difficulty}

mul_le_right : (a b c : ℕ) → a ≤ b → a * c ≤ b * c
mul_le_right a b c h = grind arith

quotient_bounds : (a b : ℕ) → 0 < b → (a / b * b ≤ a) × (a < (a / b + 1) * b)
quotient_bounds a b h = grind arith

upper : (n d t w : ℕ) → n ≤ (t + 1) * d → 0 < n → w * (t + 1) ≤ n → w ≤ d
upper n d t w a b c = elim (dec_le w d) [
  | yes p ↦ p
  | no p ↦ absurd (omega (arith, mul_le_right (d + 1) w (t + 1) (omega arith)))
]

lower : (n d t w : ℕ) → t * d + 1 ≤ n → d ≤ t + 2 → n < (w + 1) * (t + 1) → d ≤ w + 1
lower n d t w a b c = elim (dec_le d (w + 1)) [
  | yes p ↦ p
  | no p ↦ absurd (omega (arith, mul_le_right (w + 2) d (t + 1) (omega arith)))
]

small : (n d t : ℕ) → n ≤ (t + 1) * d → d < u32_mod → u32_mod * u32_mod ≤ n → d ≤ t + 2
small n d t a b c = elim (dec_le d (t + 2)) [
  | yes p ↦ p
  | no p ↦ absurd (
      omega (
        arith,
        mul_le_right (t + 1) u32_mod d (omega arith),
        mul_le_right d u32_mod u32_mod (omega arith),
      ))
]

work_of_target :
    (n d : ℕ) (t w : ℕ)
    → t ≡ (n - 1) / d
    → w ≡ n / (t + 1)
    → 1 ≤ d
    → d < u32_mod
    → u32_mod * u32_mod ≤ n
    → (w ≤ d) × (d ≤ w + 1)
work_of_target n d t w et ew one fits big =
    let (below, above) = quotient_bounds (n - 1) d one in
    let (below', above') = quotient_bounds n (t + 1) (omega arith) in
    let e1 : t * d ≤ n - 1 = rw et below in
    let e2 : n - 1 < (t + 1) * d = rw et above in
    let e3 : w * (t + 1) ≤ n = rw ew below' in
    let e4 : n < (w + 1) * (t + 1) = rw ew above' in
    (
      upper n d t w (omega arith) (omega arith) e3,
      lower n d t w (omega arith) (small n d t (omega arith) fits big) e4,
    )

target_positive : (n d : ℕ) → 1 ≤ d → d ≤ n → 0 < n / d
target_positive n d one h =
    let (below, above) = quotient_bounds n d one in
    elim (dec_le 1 (n / d)) [
      | yes p ↦ p
      | no p ↦ absurd (
          let z : n / d ≡ 0 = omega arith in
          let above' : n < (0 + 1) * d = rw z at above in omega arith)
    ]

-- The chain work of a block is its difficulty, or one less, for every uint32 difficulty above zero.
pub work_near_difficulty :
    (difficulty : ℕ)
    → 1 ≤ difficulty
    → difficulty ≤ max_u32
    → (work_from_difficulty difficulty ≤ difficulty)
      × (difficulty ≤ work_from_difficulty difficulty + 1)
unfolding work_from_difficulty target_from_difficulty
work_near_difficulty difficulty one fits = ground (
  arith,
  work_of_target two_to_256 difficulty ((two_to_256 - 1) / difficulty)
      (two_to_256 / ((two_to_256 - 1) / difficulty + 1)) refl refl one (omega arith) (omega arith),
  target_positive (two_to_256 - 1) difficulty one (omega arith),
)

-- A block of any difficulty above zero adds work, so a longer chain of valid blocks has more.
pub work_positive :
    (difficulty : ℕ) → 1 ≤ difficulty → difficulty ≤ max_u32 → 1 ≤ work_from_difficulty difficulty
unfolding work_from_difficulty target_from_difficulty
work_positive difficulty one fits = elim (dec_le 2 difficulty) [
  | yes p ↦ omega (arith, work_near_difficulty difficulty one fits)
  | no p ↦ let e : difficulty ≡ 1 = omega arith in rw e (omega arith)
]

quotient_antitone : (n d e : ℕ) → 1 ≤ d → d ≤ e → n / e ≤ n / d
quotient_antitone n d e one h =
    let (below, above) = quotient_bounds n e (omega arith) in
    let (below', above') = quotient_bounds n d one in
    elim (dec_le (n / e) (n / d)) [
      | yes p ↦ p
      | no p ↦ absurd (
          omega
            (arith, mul_le_right (n / d + 1) (n / e) d (omega arith), mul_le_right d e (n / e) h))
    ]

-- What a harder target admits, an easier one admits too.
pub target_antitone :
    (d e : ℕ) → 1 ≤ d → d ≤ e → target_from_difficulty e ≤ target_from_difficulty d
unfolding target_from_difficulty
target_antitone d e one h = ground (arith, quotient_antitone (two_to_256 - 1) d e one h)
