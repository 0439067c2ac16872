-- ===== src/Mempool/Queue.antt =====
-- What the validation of a candidate ensures: the pending transactions of its sender and then the
-- candidate apply to the confirmed state, one nonce after the other.
-- The number of pending transactions of a sender.
use sudharma.Base.{
  All, Bool-cases, Bytes, List, Option, Result, Result-cases, [], ap, arith, bytes_eq, bytes_eq_iff,
  bytes_keys, if◌then◌else◌, inl, inr, length, length-append, nat_keys, none, ok, ok_value,
  pending_invalid, refl, rejected, some, subst, suc, sym, true, u64_mod, ℕ, ◌++◌, ◌+◌, ◌<◌, ◌∷◌,
  ◌≡◌, ◌≤◌,
}
use sudharma.Crypto.{Crypto}
use sudharma.Dict.{get, get-insert_self}
use sudharma.Ledger.Atomic.{Applies, apply_transaction_for-Applies}
use sudharma.Ledger.Blocks.{IsSound}
use sudharma.Ledger.Checks.{Passes, check_transaction-Passes}
use sudharma.Ledger.Conserve.{Backed}
use sudharma.Ledger.Effects.{apply_transaction_for-Moved, apply_transaction_for_ok}
use sudharma.Ledger.Mutate.{apply_transaction_for}
use sudharma.Mempool.Order.{before_in_chain, sort_slice}
use sudharma.Mempool.Order.Laws.{length-sort_slice, sort_slice-All}
use sudharma.Mempool.Validate.{
  collect_pending, replay_candidate, replay_pending, validate_mempool_transaction_for,
}
use sudharma.Params.{min_transfer_amount}
use sudharma.State.Methods.{account_nonce, clone}
use sudharma.State.Monad.{State, bind_ok, wrap_action, wrap_action_ok}
use sudharma.Transactions.Fee.{calculate_fee}
use sudharma.Transactions.Record.{IsU64, Transaction, validate_resource_bounds}
use sudharma.Transactions.Signature.{verify_for_network}

unfoldable pub pending_of : Bytes → List (Option Transaction) → ℕ
pending_of sender [] = 0
pending_of sender (none ∷ pending) = pending_of sender pending
pending_of sender (some tx ∷ pending) =
    let rest = pending_of sender pending in if bytes_eq tx.from sender then suc rest else rest

-- The numbers of every transaction that is not nil are uint64.
unfoldable pub PendingU64 : List (Option Transaction) → Type 0
PendingU64 [] = Unit
PendingU64 (none ∷ pending) = PendingU64 pending
PendingU64 (some tx ∷ pending) = IsU64 tx × PendingU64 pending

-- A transaction of the sender, with uint64 numbers.
abbrev Owned : Bytes → Transaction → Type 0
Owned sender tx = IsU64 tx × (tx.from ≡ sender)

append-All :
    (P : Transaction → Type 0) (own : List Transaction) (tx : Transaction)
    → All P own
    → P tx
    → All P (own ++ (tx ∷ []))
append-All P [] tx a h = (h, tt)
append-All P (x ∷ own) tx (p, a) h = (p, append-All P own tx a h)

collected :
    (candidate : Transaction) (pending : List (Option Transaction)) (acc own : List Transaction)
    → PendingU64 pending
    → All (Owned candidate.from) acc
    → collect_pending candidate pending acc ≡ ok own
    → (length own ≡ length acc + pending_of candidate.from pending) × All (Owned candidate.from) own
unfolding collect_pending PendingU64 pending_of
collected candidate [] acc own u a h =
    let e = ok_value acc own h in (rw e (omega arith), subst (All (Owned candidate.from)) e a)
collected candidate (none ∷ pending) acc own u a h = absurd (cc h)
collected candidate (some tx ∷ pending) acc own (fits, u) a h =
    elim (Bool-cases (bytes_eq tx.from candidate.from)) [
      | inl e ↦
          let same = (bytes_eq_iff tx.from candidate.from).0 e in
          let (n, all) =
            collected candidate pending (acc ++ (tx ∷ [])) own u
              (append-All (Owned candidate.from) acc tx a (fits, same)) (ground (arith, e)) in
          (ground (arith, e, n, length-append acc (tx ∷ [])), all)
      | inr e ↦
          let (n, all) = collected candidate pending acc own u a (ground (arith, e)) in
          (ground (arith, e, n), all)
    ]

module _ (crypto : Crypto) where
  -- A sound state, up to the fees that wait, whose nonces are uint64.
  abbrev InStep : Bytes → ℕ → State → Type 0
  InStep sender fees s = Backed fees s × (account_nonce s sender < u64_mod)

  applied_next :
      (fees n : ℕ) (tx : Transaction) (sender network : Bytes) (s t : State)
      → Owned sender tx
      → InStep sender fees s
      → apply_transaction_for crypto (some tx) network s ≡ (ok n, t)
      → InStep sender (fees + n) t
        × (account_nonce t sender ≡ account_nonce s sender + 1)
        × (tx.nonce ≡ account_nonce s sender + 1)
        × Passes crypto s tx network
  unfolding account_nonce Applies
  applied_next fees n tx sender network s t (fits, same) (backed, below) h =
      let checked = (apply_transaction_for_ok crypto tx network s t n h).0 in
      let passes = check_transaction-Passes crypto s tx network fits (rw same below) checked in
      let moved = apply_transaction_for-Moved crypto fees n tx network s t fits backed h in
      let kept =
        subst (Applies crypto fees tx s) h
          (apply_transaction_for-Applies crypto fees tx network s fits backed) in
      let written : get 0 sender t.account_nonces ≡ tx.nonce =
        rw moved.nonces (rw (sym same) (get-insert_self 0 tx.from tx.nonce s.account_nonces)) in
      let next : tx.nonce ≡ get 0 sender s.account_nonces + 1 =
        rw (sym same) passes.next_in_order in
      ((kept.1, omega (arith, fits.nonce_fits)), omega arith, next, passes)

  replayed :
      (fees : ℕ) (txs : List Transaction) (sender network : Bytes) (s t : State)
      → All (Owned sender) txs
      → InStep sender fees s
      → replay_pending crypto txs network s ≡ (ok tt, t)
      → (fees' : ℕ) × InStep sender fees' t
        × (account_nonce t sender ≡ account_nonce s sender + length txs)
  unfolding replay_pending
  replayed fees [] sender network s t a step h =
      let e : s ≡ t = ap (λ (p : Result (Unit {0}) × State). p.1) h in
      (fees, subst (InStep sender fees) e step, rw (sym e) (omega arith))
  replayed fees (tx ∷ txs) sender network s t (p, a) step h =
      let (n, u, h1, h2) =
        bind_ok (wrap_action pending_invalid (apply_transaction_for crypto (some tx) network))
          (λ _. replay_pending crypto txs network) s h in
      let h3 =
        wrap_action_ok pending_invalid (apply_transaction_for crypto (some tx) network) s h1 in
      let (step', one, _, _) = applied_next fees n tx sender network s u p step h3 in
      let (fees', last, more) = replayed (fees + n) txs sender network u t a step' h2 in
      (fees', last, omega arith)

  -- What an accepted candidate satisfies.
  pub record Queued (s : State) (pending : List (Option Transaction)) (tx : Transaction)
      (network : Bytes) : Type 0 where
    pub in_order : tx.nonce ≡ account_nonce s tx.from + pending_of tx.from pending + 1
    pub signed_here : verify_for_network crypto tx network ≡ true
    pub dust_free : min_transfer_amount ≤ tx.amount
    pub whole_fee : tx.fee ≡ calculate_fee tx.amount

  candidate_replayed :
      (own : List Transaction) (pending : List (Option Transaction)) (tx : Transaction)
      (network : Bytes) (s t : State) (n : ℕ)
      → IsU64 tx
      → All (Owned tx.from) own
      → length own ≡ pending_of tx.from pending
      → InStep tx.from 0 s
      → replay_candidate crypto own tx network s ≡ (ok n, t)
      → Queued s pending tx network
  unfolding replay_candidate
  candidate_replayed own pending tx network s t n fits a count step h =
      let (_, u, h1, h2) =
        bind_ok (replay_pending crypto own network)
          (λ _. wrap_action rejected (apply_transaction_for crypto (some tx) network)) s h in
      let (fees, step', more) = replayed 0 own tx.from network s u a step h1 in
      let h3 = wrap_action_ok rejected (apply_transaction_for crypto (some tx) network) u h2 in
      let (_, _, next, passes) = applied_next fees n tx tx.from network u t (fits, refl) step' h3 in
      record {
        in_order = omega arith;
        signed_here = passes.authorised;
        dust_free = passes.above_dust;
        whole_fee = passes.exact_fee;
      }

  -- A transaction that the validation accepts, in a sound state and with uint64 numbers all over, has
  -- the nonce that follows the confirmed nonce of its sender and the sender's pending transactions, and
  -- is signed for the network, above the dust limit and with the exact fee.
  pub validate_mempool_transaction_for-Queued :
      (s : State) (pending : List (Option Transaction)) (tx : Transaction) (network : Bytes)
      → IsSound s
      → account_nonce s tx.from < u64_mod
      → IsU64 tx
      → PendingU64 pending
      → validate_mempool_transaction_for crypto s pending (some tx) network ≡ ok tt
      → Queued s pending tx network
  unfolding validate_mempool_transaction_for clone
  validate_mempool_transaction_for-Queued s pending tx network sound below fits u h =
      elim (Result-cases (validate_resource_bounds tx)) [
        | inr (x, e) ↦ absurd (ground (arith, e))
        | inl (v, e) ↦ elim (Result-cases (collect_pending tx pending [])) [
          | inr (x, f) ↦ absurd (ground (arith, e, f))
          | inl (own, f) ↦
              let (count, all) = collected tx pending [] own u tt f in
              let sorted = sort_slice before_in_chain own in
              elim (Result-cases (replay_candidate crypto sorted tx network s).0) [
                | inr (x, g) ↦ absurd (ground (arith, e, f, g))
                | inl (n, g) ↦
                    candidate_replayed sorted pending tx network s
                      (replay_candidate crypto sorted tx network s).1 n fits
                      (sort_slice-All before_in_chain (Owned tx.from) own all)
                      (omega (arith, length-sort_slice before_in_chain own)) (sound, below)
                      (ap (λ (r : Result ℕ). (r, (replay_candidate crypto sorted tx network s).1))
                        g)
              ]
        ]
      ]
