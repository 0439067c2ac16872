-- ===== src/Pool/Window.antt =====
-- The window of the shares that a block is distributed over.
use sudharma.Base.{
  Bytes, List, [], add64, arith, drop, false, length, refl, suc, zero, ℕ, ◌++◌, ◌-◌, ◌∷◌, ◌≡◌, ◌≤◌,
}
use sudharma.Pool.Payout.{
  add_balance, apply_fee, credit_scheme, credit_share, distribute_pplns, trim_window,
}
use sudharma.Pool.Record.{
  PayoutLedger, Scheme, ShareCredit, ShareKind, ShareResult, WorkerIdentity, fpps, pplns, pps,
  share_block, share_invalid, share_valid, solo,
}
use sudharma.Pool.Share.{share_value}
use sudharma.State.Methods.{credit}

length-drop : (n : ℕ) (xs : List ShareCredit) → length (drop n xs) ≡ length xs - n
length-drop zero xs = omega arith
length-drop (suc n) [] = omega arith
length-drop (suc n) (x ∷ xs) = omega (arith, length-drop n xs)

trimmed : (window : ℕ) (xs : List ShareCredit) → length (trim_window window xs) ≤ window
unfolding trim_window
trimmed window xs = ground (arith, length-drop (length xs - window) xs)

module _ (weigh : ℕ → ℕ → ℕ → ℕ) where
  -- The window is kept, and with it the limit and the fee.
  pub record InWindow (l m : PayoutLedger) : Type 0 where
    pub few : length m.pending_ppln ≤ m.window
    pub same_window : m.window ≡ l.window
    pub same_fee : m.pool_fee_bps ≡ l.pool_fee_bps
    pub same_scheme : m.scheme ≡ l.scheme

  distributed-InWindow :
      (reward : ℕ) (l m : PayoutLedger)
      → InWindow l m
      → InWindow l (distribute_pplns weigh reward m)
  unfolding distribute_pplns
  distributed-InWindow reward l m i = record {
    few = ground (arith, i.few);
    same_window = ground (arith, i.same_window);
    same_fee = ground (arith, i.same_fee);
    same_scheme = ground (arith, i.same_scheme);
  }

  added-InWindow :
      (address : Bytes) (amount : ℕ) (l m : PayoutLedger)
      → InWindow l m
      → InWindow l (add_balance address amount m)
  unfolding add_balance
  added-InWindow address amount l m i = record {
    few = i.few;
    same_window = i.same_window;
    same_fee = i.same_fee;
    same_scheme = i.same_scheme;
  }

  kept-InWindow :
      (credit : ShareCredit) (l : PayoutLedger)
      → InWindow l
          (record l { pending_ppln = trim_window l.window (l.pending_ppln ++ (credit ∷ [])) })
  kept-InWindow credit l = record {
    few = trimmed l.window (l.pending_ppln ++ (credit ∷ []));
    same_window = refl;
    same_fee = refl;
    same_scheme = refl;
  }

  scheme-InWindow :
      (scheme : Scheme) (reward : ℕ) (kind : ShareKind) (credit : ShareCredit) (l : PayoutLedger)
      → length l.pending_ppln ≤ l.window
      → InWindow l (credit_scheme weigh scheme reward kind credit l)
  unfolding credit_scheme
  scheme-InWindow scheme reward kind credit l h = go scheme kind
    where
      start : InWindow l l
      start = record { few = h; same_window = refl; same_fee = refl; same_scheme = refl }

      paid : (amount : ℕ) → InWindow l (add_balance credit.worker.address amount l)
      paid amount = added-InWindow credit.worker.address amount l l start

      go : (s : Scheme) (k : ShareKind) → InWindow l (credit_scheme weigh s reward k credit l)
      go solo share_invalid = start
      go solo share_valid = start
      go solo share_block = paid (apply_fee reward l.pool_fee_bps)
      go pps share_invalid = start
      go pps share_valid = paid credit.value
      go pps share_block = paid credit.value
      go fpps share_invalid = start
      go fpps share_valid = paid credit.value
      go fpps share_block =
          added-InWindow credit.worker.address (apply_fee reward l.pool_fee_bps) l
            (add_balance credit.worker.address credit.value l) (paid credit.value)
      go pplns share_invalid = start
      go pplns share_valid = kept-InWindow credit l
      go pplns share_block =
          distributed-InWindow reward l
            (record l { pending_ppln = trim_window l.window (l.pending_ppln ++ (credit ∷ [])) })
            (kept-InWindow credit l)

  -- Crediting a share of any kind keeps the number of remembered shares within the window, and leaves the
  -- window, the fee and the scheme as they are.
  pub credit_share-InWindow :
      (reward : ℕ) (share : ShareResult) (worker : WorkerIdentity) (job_id : Bytes) (height : ℕ)
      (l : PayoutLedger)
      → length l.pending_ppln ≤ l.window
      → InWindow l (credit_share weigh reward share worker job_id height l).1
  unfolding credit_share
  credit_share-InWindow reward share worker job_id height l h =
      let seen = record l { shares_seen = add64 l.shares_seen 1 } in
      let credit : ShareCredit = record {
        worker = worker;
        work = share.share_work;
        value =
            apply_fee (share_value reward share.pool_difficulty share.block_difficulty)
              l.pool_fee_bps;
        job_id = job_id;
        height = height;
        is_block = false;
      } in
      let i = scheme-InWindow l.scheme reward share.kind credit seen h in
      record {
        few = ground (arith, i.few);
        same_window = ground (arith, i.same_window);
        same_fee = ground (arith, i.same_fee);
        same_scheme = ground (arith, i.same_scheme);
      }
