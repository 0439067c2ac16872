-- ===== src/Chain/Replay.antt =====
-- The state that is rebuilt from a chain is sound, and depends on the blocks and the network alone.
use sudharma.Base.{
  >>=-eq-ok, Bool, Error, Option-cases, Result, Result-cases, arith, block_missing, err, false,
  if◌then◌else◌, inl, inr, is_empty, miner_empty, ok, ok_value, replay_failed, some, subst, suc,
  true, zero, ℕ, ◌+◌, ◌>>=◌, ◌∙◌, ◌≡◌, ◌≤◌,
}
use sudharma.Blocks.Record.{AllU64, Block}
use sudharma.Chain.Record.{Chain, block_by_height, chain_height, chain_monetary_policy}
use sudharma.Chain.Reorg.{build_state_from_chain, rebuilt, replay_blocks}
use sudharma.Crypto.{Crypto}
use sudharma.Dict.{total}
use sudharma.Ledger.Blocks.{BlockOutcome, IsSound}
use sudharma.Ledger.Process.{process_block_for}
use sudharma.Ledger.Soundness.{process_block_for-BlockOutcome}
use sudharma.Params.{validate_monetary_policy}
use sudharma.State.Methods.{new_state_for}
use sudharma.State.Monad.{State}

-- The numbers of every transaction in a chain are uint64.
abbrev pub ChainU64 : Chain → Type 0
ChainU64 c = (height : ℕ) (b : Block) → block_by_height c height ≡ some b → AllU64 b.transactions

module _ (crypto : Crypto) where
  -- What the loop leaves: where it does not fail, the books are in order.
  unfoldable pub Replayed : ℕ → State → Result (Unit {0}) × State → Type 0
  Replayed policy s (ok _, t) =
      IsSound t × (t.monetary_policy ≡ policy) × (s.issued_supply ≤ t.issued_supply)
  Replayed policy s (err _, t) = Unit {0}

  stopped-Replayed : (policy : ℕ) (s t : State) (e : Error) → Replayed policy s (err e, t)
  unfolding Replayed
  stopped-Replayed policy s t e = tt

  nothing-Replayed :
      (policy : ℕ) (s : State)
      → IsSound s
      → s.monetary_policy ≡ policy
      → Replayed policy s (ok tt, s)
  unfolding Replayed
  nothing-Replayed policy s sound same = (sound, same, omega arith)

  pub if_rule :
      (P : Result (Unit {0}) × State → Type 0) (b : Bool) {x y : Result (Unit {0}) × State}
      → P x
      → P y
      → P (if b then x else y)
  if_rule P true p q = p
  if_rule P false p q = q

  grows-Replayed :
      (policy : ℕ) (s t : State) (o : Result (Unit {0}) × State)
      → s.issued_supply ≤ t.issued_supply
      → Replayed policy t o
      → Replayed policy s o
  unfolding Replayed
  grows-Replayed policy s t (ok _, u) le (sound, same, more) = (sound, same, omega arith)
  grows-Replayed policy s t (err _, u) le r = tt

  pub block_grows :
      (policy n : ℕ) (b : Block) (s t : State)
      → BlockOutcome crypto policy b s (ok n, t)
      → IsSound t × (s.issued_supply ≤ t.issued_supply) × (t.monetary_policy ≡ s.monetary_policy)
  unfolding BlockOutcome
  block_grows policy n b s t (subsidy, fees, found, sum, sound, issued, reward, rule) =
      (sound, omega arith, rule)

  pub replay_step :
      (c : Chain) (policy count height : ℕ) (b : Block) (s : State)
      → block_by_height c height ≡ some b
      → replay_blocks crypto c policy (suc count) height s ≡ (
          if is_empty b.miner_address
          then (err miner_empty, s)
          else elim (process_block_for crypto policy b b.miner_address s).0 [
            | err e ↦
                (err (replay_failed e), (process_block_for crypto policy b b.miner_address s).1)
            | ok _ ↦
                replay_blocks crypto c policy count
                  (height + 1)
                  (process_block_for crypto policy b b.miner_address s).1
          ])
  unfolding replay_blocks
  replay_step c policy count height b s e = rw (e, replay_blocks)

  -- One round of the loop after the block was processed.
  round-Replayed :
      (c : Chain) (policy count height : ℕ) (b : Block) (s : State) (r : Result ℕ) (t : State)
      → s.monetary_policy ≡ policy
      → BlockOutcome crypto policy b s (r, t)
      → (IsSound t
          → t.monetary_policy ≡ policy
          → Replayed policy t (replay_blocks crypto c policy count height t))
      → Replayed policy s (elim r [
        | err e ↦ (err (replay_failed e), t)
        | ok _ ↦ replay_blocks crypto c policy count height t
      ])
  round-Replayed c policy count height b s (ok n) t same outcome rest =
      let (sound, grows, rule) = block_grows policy n b s t outcome in
      grows-Replayed policy s t (replay_blocks crypto c policy count height t) grows
        (rest sound (rule ∙ same))
  round-Replayed c policy count height b s (err e) t same outcome rest =
      stopped-Replayed policy s t (replay_failed e)

  pub replay_blocks-Replayed :
      (c : Chain) (policy count height : ℕ) (s : State)
      → ChainU64 c
      → IsSound s
      → s.monetary_policy ≡ policy
      → Replayed policy s (replay_blocks crypto c policy count height s)
  unfolding replay_blocks
  replay_blocks-Replayed c policy zero height s fits sound same =
      nothing-Replayed policy s sound same
  replay_blocks-Replayed c policy (suc count) height s fits sound same =
      elim (Option-cases (block_by_height c height)) [
        | inl e ↦ rw (e, replay_blocks) (stopped-Replayed policy s s block_missing)
        | inr (b, e) ↦ rw (replay_step c policy count height b s e) (
            if_rule (Replayed policy s) (is_empty b.miner_address)
              (stopped-Replayed policy s s miner_empty)
              (round-Replayed c policy count (height + 1) b s
                (process_block_for crypto policy b b.miner_address s).0
                (process_block_for crypto policy b b.miner_address s).1 same
                (process_block_for-BlockOutcome crypto policy b b.miner_address s (fits height b e)
                  sound)
                (λ sound' same'.
                  replay_blocks-Replayed c policy count (height + 1)
                    (process_block_for crypto policy b b.miner_address s).1 fits sound' same')))
      ]

  pub new_state-IsSound :
      (policy : ℕ) (s : State)
      → new_state_for policy ≡ ok s
      → IsSound s × (s.monetary_policy ≡ policy)
  unfolding new_state_for total
  new_state-IsSound policy s h = elim (Result-cases (validate_monetary_policy policy)) [
    | inr (x, e) ↦ absurd (ground (arith, e))
    | inl (u, e) ↦
        (record { covered = ground (arith, e); capped = ground (arith, e) }, ground (arith, e))
  ]

  rebuilt-IsSound :
      (policy : ℕ) (start s : State) (o : Result (Unit {0}) × State)
      → rebuilt o ≡ ok s
      → Replayed policy start o
      → IsSound s × (s.monetary_policy ≡ policy)
  unfolding Replayed
  rebuilt-IsSound policy start s (ok u, t) h (sound, same, more) =
      subst (λ x. IsSound x × (x.monetary_policy ≡ policy)) (ok_value t s h) (sound, same)
  rebuilt-IsSound policy start s (err e, t) h r = absurd (cc h)

  -- A state that is rebuilt from a chain whose transactions carry uint64 numbers is sound: its balances
  -- sum to its issued supply, which is within the cap of the monetary policy of the chain's network.
  pub build_state_from_chain-IsSound :
      (c : Chain) (s : State)
      → ChainU64 c
      → build_state_from_chain crypto c ≡ ok s
      → IsSound s × (chain_monetary_policy c ≡ ok s.monetary_policy)
  unfolding build_state_from_chain
  build_state_from_chain-IsSound c s fits h =
      let (policy, e, h1) =
        >>=-eq-ok (chain_monetary_policy c)
          (λ policy. new_state_for policy >>= λ state.
            rebuilt (replay_blocks crypto c policy (chain_height c) 1 state))
          h in
      let (start, f, h2) =
        >>=-eq-ok (new_state_for policy)
          (λ state. rebuilt (replay_blocks crypto c policy (chain_height c) 1 state)) h1 in
      let (sound, same) = new_state-IsSound policy start f in
      let (sound', same') =
        rebuilt-IsSound policy start s (replay_blocks crypto c policy (chain_height c) 1 start) h2
          (replay_blocks-Replayed c policy (chain_height c) 1 start fits sound same) in
      (sound', rw same' e)
