-- ===== src/Chain/Schedule.antt =====
-- The supply of a rebuilt state is the one that the emission schedule gives for the chain's height.
use sudharma.Base.{
  >>=-eq-ok, Error, Option-cases, Result, Result-cases, ap, arith, block_missing, err, get_elem?,
  inl, inr, is_empty, min, miner_empty, ok, ok_value, replay_failed, some, subst, suc, sym, zero, ℕ,
  ◌+◌, ◌∙◌, ◌≡◌,
}
use sudharma.Blocks.Record.{Block}
use sudharma.Chain.Record.{Chain, block_by_height, chain_height, chain_monetary_policy}
use sudharma.Chain.Reorg.{build_state_from_chain, rebuilt, replay_blocks}
use sudharma.Chain.Replay.{ChainU64, block_grows, if_rule, new_state-IsSound, replay_step}
use sudharma.Consensus.Emission.{cumulative_subsidy}
use sudharma.Consensus.Subsidy.{block_subsidy_for, value_or_zero}
use sudharma.Crypto.{Crypto}
use sudharma.Ledger.Blocks.{BlockOutcome, IsSound}
use sudharma.Ledger.Process.{process_block_for}
use sudharma.Ledger.Soundness.{process_block_for-BlockOutcome}
use sudharma.Params.{max_supply_for, validate_monetary_policy}
use sudharma.State.Methods.{new_state_for}
use sudharma.State.Monad.{State}

module _ (crypto : Crypto) where
  -- The supply after the loop, where it does not fail.
  unfoldable pub OnSchedule : ℕ → ℕ → Result (Unit {0}) × State → Type 0
  OnSchedule policy height (ok _, t) =
      t.issued_supply ≡ min (max_supply_for policy) (cumulative_subsidy policy height)
  OnSchedule policy height (err _, t) = Unit {0}

  stopped-OnSchedule :
      (policy height : ℕ) (t : State) (e : Error) → OnSchedule policy height (err e, t)
  unfolding OnSchedule
  stopped-OnSchedule policy height t e = tt

  done-OnSchedule :
      (policy height : ℕ) (t : State)
      → t.issued_supply ≡ min (max_supply_for policy) (cumulative_subsidy policy height)
      → OnSchedule policy height (ok tt, t)
  unfolding OnSchedule
  done-OnSchedule policy height t e = e

  block_at_height :
      (c : Chain) (height : ℕ) (b : Block) → block_by_height c height ≡ some b → b.height ≡ height
  unfolding block_by_height
  block_at_height c height b h = elim (Option-cases (get_elem? c.blocks height)) [
    | inl e ↦ absurd (ground (arith, e))
    | inr (d, e) ↦ ground (arith, e)
  ]

  block_issues :
      (policy height n : ℕ) (b : Block) (s t : State)
      → b.height ≡ height + 1
      → s.issued_supply ≡ min (max_supply_for policy) (cumulative_subsidy policy height)
      → BlockOutcome crypto policy b s (ok n, t)
      → t.issued_supply ≡ min (max_supply_for policy) (cumulative_subsidy policy (height + 1))
  unfolding BlockOutcome cumulative_subsidy
  block_issues policy height n b s t at_height on
        (subsidy, fees, found, sum, sound, issued, paid, rule) =
      let step : height + 1 ≡ suc height = omega arith in
      let next : b.height ≡ suc height = omega (arith, at_height) in
      let value : value_or_zero (block_subsidy_for policy (suc height)) ≡ subsidy =
        ap value_or_zero (ap (block_subsidy_for policy) (sym next) ∙ found) in
      rw step (omega (arith, issued, on, value))

  round-OnSchedule :
      (c : Chain) (policy count height target : ℕ) (b : Block) (s : State) (r : Result ℕ)
      (t : State)
      → b.height ≡ height + 1
      → s.monetary_policy ≡ policy
      → s.issued_supply ≡ min (max_supply_for policy) (cumulative_subsidy policy height)
      → BlockOutcome crypto policy b s (r, t)
      → (IsSound t
          → t.monetary_policy ≡ policy
          → t.issued_supply ≡ min (max_supply_for policy) (cumulative_subsidy policy (height + 1))
          → OnSchedule policy target (replay_blocks crypto c policy count (height + 1 + 1) t))
      → OnSchedule policy target (elim r [
        | err e ↦ (err (replay_failed e), t)
        | ok _ ↦ replay_blocks crypto c policy count (height + 1 + 1) t
      ])
  round-OnSchedule c policy count height target b s (ok n) t at_height same on outcome rest =
      let (sound, grows, rule) = block_grows crypto policy n b s t outcome in
      rest sound (rule ∙ same) (block_issues policy height n b s t at_height on outcome)
  round-OnSchedule c policy count height target b s (err e) t at_height same on outcome rest =
      stopped-OnSchedule policy target t (replay_failed e)

  replay_blocks-OnSchedule :
      (c : Chain) (policy count height target : ℕ) (s : State)
      → height + count ≡ target
      → ChainU64 c
      → IsSound s
      → s.monetary_policy ≡ policy
      → s.issued_supply ≡ min (max_supply_for policy) (cumulative_subsidy policy height)
      → OnSchedule policy target (replay_blocks crypto c policy count (height + 1) s)
  unfolding replay_blocks
  replay_blocks-OnSchedule c policy zero height target s aim fits sound same on =
      let same_height : height ≡ target = omega arith in
      done-OnSchedule policy target s (
        subst (λ h. s.issued_supply ≡ min (max_supply_for policy) (cumulative_subsidy policy h))
          same_height on)
  replay_blocks-OnSchedule c policy (suc count) height target s aim fits sound same on =
      elim (Option-cases (block_by_height c (height + 1))) [
        | inl e ↦ rw (e, replay_blocks) (stopped-OnSchedule policy target s block_missing)
        | inr (b, e) ↦ rw (replay_step crypto c policy count (height + 1) b s e) (
            if_rule crypto (OnSchedule policy target) (is_empty b.miner_address)
              (stopped-OnSchedule policy target s miner_empty)
              (round-OnSchedule c policy count height target b s
                (process_block_for crypto policy b b.miner_address s).0
                (process_block_for crypto policy b b.miner_address s).1
                (block_at_height c (height + 1) b e) same on
                (process_block_for-BlockOutcome crypto policy b b.miner_address s
                  (fits (height + 1) b e) sound)
                (λ sound' same' on'.
                  replay_blocks-OnSchedule c policy count (height + 1) target
                    (process_block_for crypto policy b b.miner_address s).1 (omega arith) fits
                    sound' same' on')))
      ]

  new_state_issued : (policy : ℕ) (s : State) → new_state_for policy ≡ ok s → s.issued_supply ≡ 0
  unfolding new_state_for
  new_state_issued policy s h = elim (Result-cases (validate_monetary_policy policy)) [
    | inr (x, e) ↦ absurd (ground (arith, e))
    | inl (u, e) ↦ ground (arith, e)
  ]

  rebuilt-OnSchedule :
      (policy height : ℕ) (s : State) (o : Result (Unit {0}) × State)
      → rebuilt o ≡ ok s
      → OnSchedule policy height o
      → s.issued_supply ≡ min (max_supply_for policy) (cumulative_subsidy policy height)
  unfolding OnSchedule
  rebuilt-OnSchedule policy height s (ok u, t) h on =
      ap (λ (x : State). x.issued_supply) (sym (ok_value t s h)) ∙ on
  rebuilt-OnSchedule policy height s (err e, t) h on = absurd (cc h)

  empty_schedule : (policy : ℕ) → 0 ≡ min (max_supply_for policy) (cumulative_subsidy policy 0)
  unfolding cumulative_subsidy
  empty_schedule policy = omega arith

  -- The supply of a state rebuilt from a chain whose transactions carry uint64 numbers is the sum of the
  -- subsidies of the heights from 1 to the chain's, cut off at the cap, under the monetary policy of the
  -- chain's network.
  pub build_state_from_chain_issues_schedule :
      (c : Chain) (s : State) (policy : ℕ)
      → ChainU64 c
      → chain_monetary_policy c ≡ ok policy
      → build_state_from_chain crypto c ≡ ok s
      → s.issued_supply ≡ min (max_supply_for policy) (cumulative_subsidy policy (chain_height c))
  unfolding build_state_from_chain
  build_state_from_chain_issues_schedule c s policy fits named h =
      let (start, f, h2) =
        >>=-eq-ok (new_state_for policy)
          (λ state. rebuilt (replay_blocks crypto c policy (chain_height c) 1 state))
          (rw (named, build_state_from_chain) at h) in
      let (sound, same) = new_state-IsSound crypto policy start f in
      rebuilt-OnSchedule policy (chain_height c) s
        (replay_blocks crypto c policy (chain_height c) 1 start) h2
        (replay_blocks-OnSchedule c policy (chain_height c) 0 (chain_height c) start (omega arith)
          fits sound same (new_state_issued policy start f ∙ empty_schedule policy))
