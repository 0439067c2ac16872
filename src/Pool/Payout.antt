-- ===== src/Pool/Payout.antt =====
-- pool/payout.go: the ledger of a pool. `weigh reward work total` is the part of a reward that a share of
-- that work has in the total, which the source computes in floating point.
use native.Mathlib.Nat.{mul-le-mul_left}
use sudharma.Base.{
  Bytes, List, Result, [], add64, arith, bad_scheme, bytes_eq, bytes_keys, codes, drop, err, false,
  if◌then◌else◌, is_empty, leb, length, ltb, mul64, nat_eq, nat_keys, ok, pool_fee_high, u64_mod, ℕ,
  ◌*◌, ◌++◌, ◌-◌, ◌/◌, ◌<◌, ◌||◌, ◌∷◌, ◌≡◌, ◌≤◌,
}
use sudharma.Dict.{Dict, get, insert, total}
use sudharma.Pool.Record.{
  PayoutLedger, Scheme, ShareCredit, ShareKind, ShareResult, WorkerIdentity, fpps, is_block_kind,
  is_paid_kind, pplns, pps, solo,
}
use sudharma.Pool.Share.{share_value}
use sudharma.Pool.Worker.{to_lower, trim_space}

-- `NormalizePayoutScheme`
unfoldable pub normalize_payout_scheme : Bytes → Result Scheme
normalize_payout_scheme text =
    let name = to_lower (trim_space text) in
    if is_empty name || bytes_eq name (codes "pplns")
    then ok pplns
    else if bytes_eq name (codes "solo")
    then ok solo
    else if bytes_eq name (codes "pps")
    then ok pps
    else if bytes_eq name (codes "fpps")
    then ok fpps
    else err bad_scheme

-- `NewPayoutLedger`, for a normalized scheme; a window that is not positive is 0 here
unfoldable pub new_payout_ledger : Scheme → ℕ → ℕ → Result PayoutLedger
new_payout_ledger scheme pplns_window pool_fee_bps =
    if ltb 10000 pool_fee_bps
    then err pool_fee_high
    else ok (record {
      scheme = scheme;
      window = if nat_eq pplns_window 0 then 10000 else pplns_window;
      pool_fee_bps = pool_fee_bps;
      balances = [];
      pending_ppln = [];
      blocks_found = 0;
      shares_seen = 0;
    })

-- `applyFee`
unfoldable pub apply_fee : ℕ → ℕ → ℕ
apply_fee amount fee_bps =
    let fee = mul64 amount fee_bps / 10000 in
    if nat_eq amount 0 || nat_eq fee_bps 0
    then amount
    else if leb amount fee
    then 0
    else amount - fee

-- `l.balances[address] += amount`
unfoldable pub add_balance : Bytes → ℕ → PayoutLedger → PayoutLedger
add_balance address amount l = record l {
  balances = insert address (add64 (get 0 address l.balances) amount) l.balances;
}

-- `Balance`
unfoldable pub pool_balance : PayoutLedger → Bytes → ℕ
pool_balance l address = get 0 (to_lower (trim_space address)) l.balances

-- The loop that sums the work.
unfoldable pub total_work_of : List ShareCredit → ℕ → ℕ
total_work_of [] total = total
total_work_of (item ∷ items) total = total_work_of items (add64 total item.work)

-- The last `window` of the shares, if there are more.
unfoldable pub trim_window : ℕ → List ShareCredit → List ShareCredit
trim_window window shares =
    if ltb window (length shares) then drop (length shares - window) shares else shares

module _ (weigh : ℕ → ℕ → ℕ → ℕ) where
  -- The loop that pays the shares of the window.
  unfoldable pub pay_shares : ℕ → ℕ → List ShareCredit → Dict Bytes ℕ → Dict Bytes ℕ
  pay_shares reward total [] balances = balances
  pay_shares reward total (item ∷ items) balances =
      let address = item.worker.address in
      pay_shares reward total items
        (insert address (add64 (get 0 address balances) (weigh reward item.work total)) balances)

  -- `distributePPLNSLocked`
  unfoldable pub distribute_pplns : ℕ → PayoutLedger → PayoutLedger
  distribute_pplns block_reward l =
      let total = total_work_of l.pending_ppln 0 in
      if nat_eq (length l.pending_ppln) 0 || nat_eq total 0 then l else record l {
        balances =
            pay_shares (apply_fee block_reward l.pool_fee_bps) total l.pending_ppln l.balances;
      }

  -- The `switch` of `CreditShare`.
  unfoldable pub credit_scheme : Scheme → ℕ → ShareKind → ShareCredit → PayoutLedger → PayoutLedger
  credit_scheme solo block_reward kind credit l =
      if is_block_kind kind
      then add_balance credit.worker.address (apply_fee block_reward l.pool_fee_bps) l
      else l
  credit_scheme pps block_reward kind credit l =
      if is_paid_kind kind then add_balance credit.worker.address credit.value l else l
  credit_scheme fpps block_reward kind credit l =
      let paid =
        if is_paid_kind kind then add_balance credit.worker.address credit.value l else l in
      if is_block_kind kind
      then add_balance credit.worker.address (apply_fee block_reward l.pool_fee_bps) paid
      else paid
  credit_scheme pplns block_reward kind credit l =
      let kept =
        if is_paid_kind kind
        then record l { pending_ppln = trim_window l.window (l.pending_ppln ++ (credit ∷ [])) }
        else l in
      if is_block_kind kind then distribute_pplns block_reward kept else kept

  -- `CreditShare`
  unfoldable pub credit_share :
      ℕ → ShareResult → WorkerIdentity → Bytes → ℕ → PayoutLedger → ShareCredit × PayoutLedger
  credit_share block_reward share worker job_id height l =
      let credit : ShareCredit = record {
        worker = worker;
        work = share.share_work;
        value =
            apply_fee (share_value block_reward share.pool_difficulty share.block_difficulty)
              l.pool_fee_bps;
        job_id = job_id;
        height = height;
        is_block = false;
      } in
      let seen = record l { shares_seen = add64 l.shares_seen 1 } in
      let paid = credit_scheme l.scheme block_reward share.kind credit seen in
      (
        record credit { is_block = is_block_kind share.kind },
        if is_block_kind share.kind
            then record paid { blocks_found = add64 paid.blocks_found 1 }
            else paid,
      )

-- The fee never exceeds the amount, and where the product is a uint64 it is the rate of the amount, rounded
-- down.
pub apply_fee_exact :
    (amount fee_bps : ℕ)
    → fee_bps ≤ 10000
    → (apply_fee amount fee_bps ≤ amount)
      × (amount * fee_bps < u64_mod → apply_fee amount fee_bps ≡ amount - amount * fee_bps / 10000)
unfolding apply_fee mul64
apply_fee_exact amount fee_bps h =
    let whole : amount * fee_bps ≤ amount * 10000 = mul-le-mul_left amount h in
    let none : fee_bps ≡ 0 → amount * fee_bps ≡ 0 = λ e. rw e (omega arith) in
    let empty : amount ≡ 0 → amount * fee_bps ≡ 0 = λ e. rw e (omega arith) in
    (ground arith, λ fits. ground (arith, whole, none, empty))
