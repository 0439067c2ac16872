-- ===== src/Transactions/Fee.antt =====
-- transactions/transaction.go, the fees: `basisPointsFee` splits the amount so that no product
-- leaves the uint64 range. The arithmetic wraps here as it does there.
pub mod Exact
use sudharma.Base.{add64, mul64, sub64, ℕ, ◌%◌, ◌/◌}

abbrev pub total_fee_basis_points : ℕ
total_fee_basis_points = 10

abbrev pub development_fee_basis_points : ℕ
development_fee_basis_points = 1

abbrev pub fee_basis_points_divisor : ℕ
fee_basis_points_divisor = 10000

unfoldable pub basis_points_fee : ℕ → ℕ → ℕ
unfolding add64 mul64
basis_points_fee amount basis_points =
    let whole = amount / fee_basis_points_divisor in
    let remainder = amount % fee_basis_points_divisor in
    add64 (mul64 whole basis_points) (mul64 remainder basis_points / fee_basis_points_divisor)

unfoldable pub calculate_fee : ℕ → ℕ
unfolding basis_points_fee
calculate_fee amount = basis_points_fee amount total_fee_basis_points

unfoldable pub development_fee : ℕ → ℕ
unfolding basis_points_fee
development_fee amount = basis_points_fee amount development_fee_basis_points

-- `MiningFee`: the rest of the fee after the development part
unfoldable pub mining_fee : ℕ → ℕ
unfolding calculate_fee development_fee sub64
mining_fee amount = sub64 (calculate_fee amount) (development_fee amount)
