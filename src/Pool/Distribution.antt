-- ===== src/Pool/Distribution.antt =====
-- What a block pays to the shares of the window.
use native.Mathlib.Nat.{add-mul, le_of_mul-le-mul_right, mul-add}
use sudharma.Base.{
  Bool-cases, Bytes, List, [], add64, add64_exact, arith, bytes_keys, inl, inr, length, nat_eq,
  nat_keys, subst, sym, u64_mod, ℕ, ◌*◌, ◌+◌, ◌<◌, ◌||◌, ◌∙◌, ◌∷◌, ◌≡◌, ◌≤◌,
}
use sudharma.Dict.{Dict, get, get-le-total, insert, total, total-insert}
use sudharma.Pool.Payout.{apply_fee, distribute_pplns, pay_shares, total_work_of}
use sudharma.Pool.Record.{PayoutLedger, ShareCredit}

-- The work of the shares, without wrapping.
unfoldable pub work_total : List ShareCredit → ℕ
work_total [] = 0
work_total (item ∷ items) = item.work + work_total items

exact_total :
    (items : List ShareCredit) (start : ℕ)
    → start + work_total items < u64_mod
    → total_work_of items start ≡ start + work_total items
unfolding total_work_of work_total
exact_total [] start h = omega arith
exact_total (item ∷ items) start h =
    let step = add64_exact start item.work (omega arith) in
    let rest = exact_total items (add64 start item.work) (omega arith) in omega (arith, step, rest)

module _ (weigh : ℕ → ℕ → ℕ → ℕ) where
  -- The part of a share never exceeds its part by work.
  abbrev pub RoundsDown : Type 0
  RoundsDown = (reward work total : ℕ) → weigh reward work total * total ≤ reward * work

  -- What the shares are paid.
  unfoldable paid_total : ℕ → ℕ → List ShareCredit → ℕ
  paid_total reward total [] = 0
  paid_total reward total (item ∷ items) =
      weigh reward item.work total + paid_total reward total items

  paid-bound :
      (reward total : ℕ) (items : List ShareCredit)
      → RoundsDown
      → paid_total reward total items * total ≤ reward * work_total items
  unfolding paid_total work_total
  paid-bound reward total [] down = omega arith
  paid-bound reward total (item ∷ items) down =
      let rest = paid-bound reward total items down in
      let one = down reward item.work total in
      let w = weigh reward item.work total in
      let p = paid_total reward total items in
      rw (add-mul w p total, mul-add reward item.work (work_total items)) (omega arith)

  -- Without wrapping, the balances grow by what the shares are paid.
  paid_sum :
      (reward all : ℕ) (items : List ShareCredit) (balances : Dict Bytes ℕ)
      → total balances + paid_total reward all items < u64_mod
      → total (pay_shares weigh reward all items balances)
        ≡ total balances + paid_total reward all items
  unfolding pay_shares paid_total
  paid_sum reward all [] balances h = omega arith
  paid_sum reward all (item ∷ items) balances h =
      let address = item.worker.address in
      let w = weigh reward item.work all in
      let below = get-le-total address balances in
      let exact = add64_exact (get 0 address balances) w (omega arith) in
      let one = total-insert address (add64 (get 0 address balances) w) balances in
      let grown = insert address (add64 (get 0 address balances) w) balances in
      let up : total grown ≡ total balances + w = omega arith in
      paid_sum reward all items grown (omega arith) ∙ omega arith

  -- While the weights are rounded down and nothing wraps, a block pays the shares of the window together at
  -- most the reward less the pool's fee, and no balance but theirs changes the sum.
  pub distribute_pplns_bounded :
      (reward : ℕ) (l : PayoutLedger)
      → RoundsDown
      → work_total l.pending_ppln < u64_mod
      → total l.balances + apply_fee reward l.pool_fee_bps < u64_mod
      → (total l.balances ≤ total (distribute_pplns weigh reward l).balances)
        × (total (distribute_pplns weigh reward l).balances
            ≤ total l.balances + apply_fee reward l.pool_fee_bps)
  unfolding distribute_pplns
  distribute_pplns_bounded reward l down fits small =
      let items = l.pending_ppln in
      let all = total_work_of items 0 in
      let net = apply_fee reward l.pool_fee_bps in
      let exact : all ≡ work_total items = omega (arith, exact_total items 0 (omega arith)) in
      elim (Bool-cases (nat_eq (length items) 0 || nat_eq all 0)) [
        | inl e ↦ (ground (arith, e), ground (arith, e))
        | inr e ↦
            let some_work : 0 < all = ground (arith, e) in
            let bound : paid_total net all items * all ≤ net * all =
              subst (λ t. paid_total net all items * all ≤ net * t) (sym exact)
                (paid-bound net all items down) in
            let most = le_of_mul-le-mul_right bound some_work in
            let sum = paid_sum net all items l.balances (omega arith) in
            (ground (arith, e, sum), ground (arith, e, sum))
      ]
