-- ===== src/Ledger/Soundness.antt =====
-- Processing a block keeps the books: the main invariant of the ledger.
use sudharma.Base.{
  Bool, Bytes, Error, Result, Result-cases, ap, arith, err, false, inl, inr, is_empty, min,
  miner_empty, ok, refl, subst, sym, true, ℕ, ◌+◌, ◌-◌, ◌∙◌, ◌≡◌, ◌≤◌,
}
use sudharma.Blocks.Record.{AllU64, Block}
use sudharma.Consensus.Subsidy.{block_subsidy_for}
use sudharma.Crypto.{Crypto}
use sudharma.Dict.{total}
use sudharma.Ledger.Blocks.{BlockOutcome, IsSound, Processes, process_transactions-Processes}
use sudharma.Ledger.Conserve.{Backed, max_supply_for-lt}
use sudharma.Ledger.Issuance.{mint_subsidy_ok, pay_miner_ok}
use sudharma.Ledger.Process.{
  check_block_context, process_block_for, process_transactions, process_working_state,
  total_miner_fees,
}
use sudharma.Ledger.Rewards.{credit_miner_reward_for, mint_subsidy, pay_miner}
use sudharma.Params.{max_supply_for, network_for_monetary_policy, validate_monetary_policy}
use sudharma.State.Methods.{clone, ensure_monetary_policy, replace_with}
use sudharma.State.Monad.{State, bind_ok, fail_action, lift, ◌>>=◌}

mint_pays :
    (policy subsidy fees n reward : ℕ) (address : Bytes) (s t u : State)
    → Backed fees s
    → s.monetary_policy ≡ policy
    → mint_subsidy policy subsidy s ≡ (ok n, t)
    → pay_miner address fees n t ≡ (ok reward, u)
    → IsSound u
      × (u.issued_supply ≡ s.issued_supply + min subsidy (max_supply_for policy - s.issued_supply))
      × (reward ≡ min subsidy (max_supply_for policy - s.issued_supply) + fees)
      × (u.monetary_policy ≡ s.monetary_policy)
mint_pays policy subsidy fees n reward address s t u backed e h k =
    let small = max_supply_for-lt s.monetary_policy in
    let cap : s.issued_supply ≤ max_supply_for policy =
      subst (λ p. s.issued_supply ≤ max_supply_for p) e backed.capped in
    let (n_eq, issued, same) = mint_subsidy_ok policy subsidy n s t cap h in
    let (r_eq, paid, same') = pay_miner_ok address fees n reward t u (omega arith) k in
    let rule : u.monetary_policy ≡ policy = same'.same_policy ∙ same.same_rule ∙ e in
    let accounts : total t.balances ≡ total s.balances = ap total same.same_accounts in
    let i = same'.same_issued in
    (
      record { covered = omega arith; capped = rw rule (omega arith) },
      omega arith,
      omega arith,
      rule ∙ sym e,
    )

fail_action_ok :
    (b : Bool) (e : Error) (s : State) {u : Unit {0}} {t : State}
    → ◌≡◌ {A = Result (Unit {0}) × State} (fail_action b e s) (ok u, t)
    → s ≡ t
fail_action_ok true e s h = absurd (cc (ap (λ (p : Result (Unit {0}) × State). p.0) h))
fail_action_ok false e s h = ap (λ (p : Result (Unit {0}) × State). p.1) h

lift_ok :
    {A : Type 0} (r : Result A) (s : State) {a : A} {t : State}
    → ◌≡◌ {A = Result A × State} (lift r s) (ok a, t)
    → (r ≡ ok a) × (s ≡ t)
lift_ok {A} r s h = (ap (λ (p : Result A × State). p.0) h, ap (λ (p : Result A × State). p.1) h)

reward_ok :
    (policy height fees reward : ℕ) (address : Bytes) (s u : State)
    → Backed fees s
    → s.monetary_policy ≡ policy
    → credit_miner_reward_for policy height address fees s ≡ (ok reward, u)
    → (subsidy : ℕ) × (block_subsidy_for policy height ≡ ok subsidy)
      × IsSound u
      × (u.issued_supply ≡ s.issued_supply + min subsidy (max_supply_for policy - s.issued_supply))
      × (reward ≡ min subsidy (max_supply_for policy - s.issued_supply) + fees)
      × (u.monetary_policy ≡ s.monetary_policy)
unfolding credit_miner_reward_for
reward_ok policy height fees reward address s u backed e h =
    let from_subsidy = λ (subsidy : ℕ). mint_subsidy policy subsidy >>= pay_miner address fees in
    let (_, s1, h1, k1) =
      bind_ok (fail_action (is_empty address) miner_empty)
        (λ _. lift (block_subsidy_for policy height) >>= from_subsidy) s h in
    let (subsidy, s2, h2, k2) =
      bind_ok (lift (block_subsidy_for policy height)) from_subsidy s1 k1 in
    let (n, t, h3, k3) = bind_ok (mint_subsidy policy subsidy) (pay_miner address fees) s2 k2 in
    let (found, same) = lift_ok (block_subsidy_for policy height) s1 h2 in
    let whole = fail_action_ok (is_empty address) miner_empty s h1 ∙ same in
    let (sound, issued, paid, rule) =
      mint_pays policy subsidy fees n reward address s t u backed e
        (subst (λ x. mint_subsidy policy subsidy x ≡ (ok n, t)) (sym whole) h3) k3 in
    (subsidy, found, sound, issued, paid, rule)

context_policy :
    (s : State) (policy : ℕ) (address : Bytes) {network : Bytes}
    → check_block_context s policy address ≡ ok network
    → s.monetary_policy ≡ policy
unfolding check_block_context ensure_monetary_policy
context_policy s policy address h = elim (Result-cases (validate_monetary_policy policy)) [
  | inr (x, e) ↦ absurd (ground (arith, e))
  | inl (u, e) ↦ elim (Result-cases (network_for_monetary_policy policy)) [
    | inr (x, f) ↦ absurd (ground (arith, e, f))
    | inl (n, f) ↦ ground (arith, e, f)
  ]
]

module _ (crypto : Crypto) where
  working_ok :
      (policy : ℕ) (network : Bytes) (block : Block) (address : Bytes) (s u : State) (reward : ℕ)
      → AllU64 block.transactions
      → IsSound s
      → s.monetary_policy ≡ policy
      → process_working_state crypto policy network block address s ≡ (ok reward, u)
      → BlockOutcome crypto policy block s (ok reward, u)
  unfolding process_working_state BlockOutcome Processes total_miner_fees
  working_ok policy network block address s u reward fits sound e h =
      let (fees, t, h1, k1) =
        bind_ok (process_transactions crypto block.transactions network 0)
          (credit_miner_reward_for policy block.height address) s h in
      let (backed, sum, issued, rule) =
        subst (Processes crypto block.transactions 0 s) h1
          (process_transactions-Processes crypto block.transactions network 0 s fits sound) in
      let (subsidy, found, sound', issued', paid, rule') =
        reward_ok policy block.height fees reward address t u backed (rule ∙ e) k1 in
      (subsidy, fees, found, sum, sound', (rw issued at issued'), (rw issued at paid), rule' ∙ rule)

  outcome :
      (policy : ℕ) (block : Block) (s : State) (r : Result ℕ) (t : State)
      → ((reward : ℕ) → r ≡ ok reward → BlockOutcome crypto policy block s (ok reward, t))
      → BlockOutcome crypto policy block s
          (elim r [ err e ↦ (err e, s) | ok reward ↦ (ok reward, replace_with t s) ])
  unfolding replace_with BlockOutcome
  outcome policy block s (ok n) t h = h n refl
  outcome policy block s (err e) t h = refl

  refused :
      (policy : ℕ) (block : Block) (s : State) (e : Error)
      → BlockOutcome crypto policy block s (err e, s)
  unfolding BlockOutcome
  refused policy block s e = refl

  pub process_block_for_lem :
      (policy : ℕ) (block : Block) (address : Bytes) (s : State) {network : Bytes}
      → check_block_context s policy address ≡ ok network
      → process_block_for crypto policy block address s
        ≡ elim (process_working_state crypto policy network block address s).0 [
          | err e ↦ (err e, s)
          | ok reward ↦ (
            ok reward,
            replace_with (process_working_state crypto policy network block address s).1 s,
          )
        ]
  unfolding process_block_for clone
  process_block_for_lem policy block address s {network} e =
      ap
        (λ (c : Result Bytes).
          let a : Result ℕ × State = elim c [
            | err x ↦ (err x, s)
            | ok n ↦ elim (process_working_state crypto policy n block address s).0 [
              | err x ↦ (err x, s)
              | ok reward ↦ (
                ok reward,
                replace_with (process_working_state crypto policy n block address s).1 s,
              )
            ]
          ] in
          a)
        e

  pub process_block_for_refused :
      (policy : ℕ) (block : Block) (address : Bytes) (s : State) {x : Error}
      → check_block_context s policy address ≡ err x
      → process_block_for crypto policy block address s ≡ (err x, s)
  unfolding process_block_for
  process_block_for_refused policy block address s e = rw (e, process_block_for)

  -- Processing a block whose transactions carry uint64 numbers, for any policy and miner, in a state
  -- whose balances sum to an issued supply within the cap: an error leaves the state as it was; on
  -- success the supply has grown by the subsidy of the height, cut off at the cap, the balances sum to
  -- it again, and the reward returned is what was issued and the fees that `TotalMinerFees` computes.
  pub process_block_for-BlockOutcome :
      (policy : ℕ) (block : Block) (address : Bytes) (s : State)
      → AllU64 block.transactions
      → IsSound s
      → BlockOutcome crypto policy block s (process_block_for crypto policy block address s)
  process_block_for-BlockOutcome policy block address s fits sound =
      elim (Result-cases (check_block_context s policy address)) [
        | inl (network, e) ↦ rw (process_block_for_lem policy block address s e) (
            outcome policy block s (process_working_state crypto policy network block address s).0
              (process_working_state crypto policy network block address s).1
              (λ reward r_eq.
                working_ok policy network block address s
                  (process_working_state crypto policy network block address s).1 reward fits sound
                  (context_policy s policy address e)
                  (ap (λ r. (r, (process_working_state crypto policy network block address s).1))
                    r_eq)))
        | inr (x, e) ↦
            rw (process_block_for_refused policy block address s e) (refused policy block s x)
      ]
