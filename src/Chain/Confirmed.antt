-- ===== src/Chain/Confirmed.antt =====
-- The transactions of a chain, against the identifiers that the rebuilt state has processed.
use sudharma.Base.{
  Bytes, List, Option, Option-cases, Result, Result-cases, [], ap, arith, bytes_keys, if◌then◌else◌,
  inl, inr, nat_keys, none, ok, refl, some, subst, suc, zero, ℕ, ◌++◌, ◌+◌, ◌≡◌,
}
use sudharma.Blocks.Record.{Block}
use sudharma.Chain.Grow.{built_parts}
use sudharma.Chain.Record.{Chain, block_by_height, chain_height}
use sudharma.Chain.Reorg.{build_state_from_chain, replay_blocks}
use sudharma.Crypto.{Crypto}
use sudharma.Dict.{get}
use sudharma.Ledger.Confirmed.{count_id, count_id-append, times-process_block_for, times}
use sudharma.Ledger.Process.{process_block_for}
use sudharma.Params.{validate_monetary_policy}
use sudharma.State.Methods.{is_transaction_processed, new_state_for}
use sudharma.State.Monad.{State}
use sudharma.Transactions.Record.{Transaction}

-- The transactions of `count` blocks from `height` on.
unfoldable pub confirmed : Chain → ℕ → ℕ → List (Option Transaction)
confirmed c zero height = []
confirmed c (suc count) height =
    let rest = confirmed c count (height + 1) in
    elim (block_by_height c height) [ none ↦ rest | some b ↦ b.transactions ++ rest ]

confirmed_found :
    (c : Chain) (count height : ℕ) (b : Block)
    → block_by_height c height ≡ some b
    → confirmed c (suc count) height ≡ b.transactions ++ confirmed c count (height + 1)
unfolding confirmed
confirmed_found c count height b e = rw (e, confirmed) refl

new_state_times :
    (policy : ℕ) (s : State) (id : Bytes) → new_state_for policy ≡ ok s → times s id ≡ 0
unfolding new_state_for is_transaction_processed get
new_state_times policy s id h = elim (Result-cases (validate_monetary_policy policy)) [
  | inr (x, e) ↦ absurd (ground (arith, e))
  | inl (u, e) ↦ let empty : s.processed_tx ≡ [] = ground (arith, e) in rw empty refl
]

module _ (crypto : Crypto) where
  replayed_times :
      (c : Chain) (policy rounds height : ℕ) (s t : State) (id : Bytes)
      → replay_blocks crypto c policy rounds height s ≡ (ok tt, t)
      → times t id ≡ times s id + count_id id (confirmed c rounds height)
  unfolding replay_blocks count_id confirmed
  replayed_times c policy zero height s t id h =
      let same : s ≡ t = ap (λ (p : Result (Unit {0}) × State). p.1) h in
      subst (λ x. times x id ≡ times s id + 0) same (omega arith)
  replayed_times c policy (suc rounds) height s t id h =
      elim (Option-cases (block_by_height c height)) [
        | inl g ↦ absurd (ground (arith, g))
        | inr (b, g) ↦ elim (Result-cases (process_block_for crypto policy b b.miner_address s).0) [
          | inr (x, f) ↦ absurd (ground (arith, g, f))
          | inl (m, f) ↦
              let u = (process_block_for crypto policy b b.miner_address s).1 in
              let one =
                times-process_block_for crypto policy m b b.miner_address s u id
                  (ap (λ (r : Result ℕ). (r, u)) f) in
              let more =
                replayed_times c policy rounds (height + 1) u t id (ground (arith, g, f)) in
              let split = count_id-append id b.transactions (confirmed c rounds (height + 1)) in
              rw (confirmed_found c rounds height b g) (omega (arith, one, more, split))
        ]
      ]

  -- In a chain whose state can be rebuilt, the transactions of the blocks above the genesis have an
  -- identifier exactly once where the state has processed it, and not at all where it has not: none is
  -- confirmed twice, and none is processed without a block that holds it.
  pub build_state_from_chain_once :
      (c : Chain) (s : State) (id : Bytes)
      → build_state_from_chain crypto c ≡ ok s
      → count_id id (confirmed c (chain_height c) 1)
        ≡ (if is_transaction_processed s id then 1 else 0)
  build_state_from_chain_once c s id h =
      let (policy, start, e, f, replayed) = built_parts crypto c s h in
      let empty = new_state_times policy start id f in
      let all = replayed_times c policy (chain_height c) 1 start s id replayed in
      omega (arith, empty, all)
