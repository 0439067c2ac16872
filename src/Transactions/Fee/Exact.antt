-- ===== src/Transactions/Fee/Exact.antt =====
-- The fee arithmetic does not overflow, and its parts add up.
use sudharma.Base.{arith, u64_mod, ℕ, ◌%◌, ◌*◌, ◌+◌, ◌-◌, ◌/◌, ◌<◌, ◌≡◌, ◌≤◌}
use sudharma.Transactions.Fee.{basis_points_fee, calculate_fee, development_fee, mining_fee}

product_bounds : (w r p : ℕ) → p ≤ 10000 → (w * p ≤ w * 10000) × (r * p ≤ r * 10000)
product_bounds w r p hp = (grind arith, grind arith)

split : (amount w r p : ℕ) → amount ≡ w * 10000 + r → amount * p ≡ w * p * 10000 + r * p
split amount w r p e = rw e (omega arith)

-- For every uint64 amount and every rate up to 100%, the fee is the amount times the rate over
-- 10000, rounded down: the split computation never wraps.
pub basis_points_fee_exact :
    (amount basis_points : ℕ)
    → amount < u64_mod
    → basis_points ≤ 10000
    → basis_points_fee amount basis_points ≡ amount * basis_points / 10000
unfolding basis_points_fee
basis_points_fee_exact amount p h hp =
    let (b1, b2) = product_bounds (amount / 10000) (amount % 10000) p hp in
    let e = split amount (amount / 10000) (amount % 10000) p (omega arith) in omega arith

pub fee_parts :
    (amount : ℕ)
    → amount < u64_mod
    → (calculate_fee amount ≡ amount / 1000)
      × (development_fee amount ≡ amount / 10000)
      × (mining_fee amount ≡ amount / 1000 - amount / 10000)
unfolding calculate_fee development_fee mining_fee
fee_parts amount h = omega arith

-- For every uint64 amount the development part and the miner's part add up to the whole fee, and the
-- fee is at most a thousandth of the amount.
pub fee_split_exact :
    (amount : ℕ)
    → amount < u64_mod
    → (development_fee amount + mining_fee amount ≡ calculate_fee amount)
      × (calculate_fee amount * 1000 ≤ amount)
fee_split_exact amount h = omega (arith, fee_parts amount h)
