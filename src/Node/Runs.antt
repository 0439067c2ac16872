-- ===== src/Node/Runs.antt =====
-- Every node that the operations can make from a consistent one is consistent.
use sudharma.Base.{
  Bool, Option, Result, Result-cases, [], ap, arith, err, false, if◌then◌else◌, inl, inr, none, ok,
  refl, some, subst, sym, true, ℕ, ℤ, ◌∙◌, ◌≡◌,
}
use sudharma.Chain.Grow.{IsNumbered}
use sudharma.Chain.Outcome.{Adopted, Reorganizes, reorganize_to_candidate-Reorganizes}
use sudharma.Chain.Reachable.{IsValid}
use sudharma.Chain.Record.{Chain, chain_height, clone_chain}
use sudharma.Chain.Reorg.{build_state_from_chain, reorganize_to_candidate}
use sudharma.Crypto.{Crypto}
use sudharma.Mempool.Indexed.{IsKept, new_mempool-IsKept}
use sudharma.Mempool.Listing.{all_transactions}
use sudharma.Mempool.Methods.{add_transaction, new_mempool}
use sudharma.Mempool.Order.{before_in_snapshot, sort_slice}
use sudharma.Mempool.Record.{Mempool}
use sudharma.Node.Admission.{
  admit_transaction, admit_verified_transaction, check_untrusted, check_verified,
}
use sudharma.Node.Consistent.{IsConsistent, refresh-IsConsistent}
use sudharma.Node.Pool.{
  Unconfirmed, add_transaction-IsKept, add_transaction-Unconfirmed, new_mempool-Unconfirmed,
  recover_all-IsKept,
}
use sudharma.Node.Record.{Node, active_network}
use sudharma.Node.Recovery.{
  add_abandoned, add_pending, entries_of, rebuild_mempool, recover_all,
  reorganize_with_mempool_recovery,
}
use sudharma.State.Methods.{is_transaction_processed}
use sudharma.State.Monad.{State}
use sudharma.Transactions.Record.{Transaction, validate_resource_bounds}

module _ (crypto : Crypto) where
  -- The mempool of a node is replaced.
  pub pool-IsConsistent :
      (n : Node) (m : Mempool)
      → (i : IsConsistent crypto n) → IsKept m
      → Unconfirmed i.its_state m
      → IsConsistent crypto (record n { mempool = m })
  pool-IsConsistent n m i kept fresh = record {
    its_chain = i.its_chain;
    its_state = i.its_state;
    has_chain = i.has_chain;
    has_state = i.has_state;
    chain_valid = i.chain_valid;
    numbered = i.numbered;
    state_built = i.state_built;
    pool_kept = kept;
    unconfirmed = fresh;
    status = i.status;
  }

  verified_new :
      (tx : Transaction) (n : Node) (s : State)
      → n.state ≡ some s
      → check_verified crypto tx n ≡ ok tt
      → is_transaction_processed s tx.id ≡ false
  unfolding check_verified
  verified_new tx n s hs h = elim (Result-cases (validate_resource_bounds tx)) [
    | inr (x, e) ↦ absurd (ground (arith, e))
    | inl (u, e) ↦ ground (arith, e)
  ]

  pub admit_verified-IsConsistent :
      (tx : Option Transaction) (n : Node)
      → IsConsistent crypto n
      → IsConsistent crypto (admit_verified_transaction crypto tx n).1
  unfolding admit_verified_transaction
  admit_verified-IsConsistent none n i = i
  admit_verified-IsConsistent (some tx) n i = elim (Result-cases (check_verified crypto tx n)) [
    | inr (x, e) ↦ rw (e, admit_verified_transaction) i
    | inl (u, e) ↦
        rw (e, admit_verified_transaction)
          (pool-IsConsistent n (add_transaction (some tx) n.mempool).1 i
            (add_transaction-IsKept (some tx) n.mempool i.pool_kept)
            (add_transaction-Unconfirmed i.its_state tx n.mempool
              (verified_new tx n i.its_state i.has_state e) i.unconfirmed))
  ]

  pub admit_transaction-IsConsistent :
      (tx : Option Transaction) (n : Node)
      → IsConsistent crypto n
      → IsConsistent crypto (admit_transaction crypto tx n).1
  unfolding admit_transaction
  admit_transaction-IsConsistent none n i = i
  admit_transaction-IsConsistent (some tx) n i = elim (Result-cases (check_untrusted crypto tx n)) [
    | inr (x, e) ↦ rw (e, admit_transaction) i
    | inl (u, e) ↦ rw (e, admit_transaction) (admit_verified-IsConsistent (some tx) n i)
  ]

  rebuilt-IsConsistent :
      (old c : Chain) (s : State) (n : Node)
      → n.chain ≡ some c
      → n.state ≡ some s
      → IsValid crypto c
      → IsNumbered c
      → build_state_from_chain crypto c ≡ ok s
      → IsConsistent crypto (rebuild_mempool crypto old s n).1
  unfolding rebuild_mempool
  rebuilt-IsConsistent old c s n hc hs valid numbered built =
      let candidates =
        add_abandoned s old (chain_height old) 1 (add_pending (all_transactions n.mempool) []) in
      let ordered = sort_slice before_in_snapshot (entries_of candidates) in
      let (kept, fresh) =
        recover_all-IsKept crypto s (active_network n) ordered 0 new_mempool new_mempool-IsKept
          (new_mempool-Unconfirmed s) in
      refresh-IsConsistent crypto c s
        (record n { mempool = (recover_all crypto s (active_network n) ordered 0 new_mempool).1 })
        hc hs valid numbered built kept fresh

  Adopted-IsConsistent :
      (current candidate c : Chain) (t : State) (n : Node)
      → IsNumbered candidate
      → Adopted crypto current candidate c t
      → IsConsistent crypto
          (rebuild_mempool crypto current t (record n { chain = some c; state = some t })).1
  unfolding chain_height
  Adopted-IsConsistent current candidate c t n numbered a =
      rebuilt-IsConsistent current c t (record n { chain = some c; state = some t }) refl refl
        a.valid (rw a.new_blocks numbered) a.own_state

  -- The node after `ReorganizeToCandidate`, for its outcome.
  after : Chain → Node → Result Bool × (Chain × State) → Result (Bool × ℕ) × Node
  after old n (r, (c, t)) =
      let n' = record n { chain = some c; state = some t } in
      elim r [
        | err e ↦ (err e, n')
        | ok adopted ↦
            if adopted
            then (let (recovered, n'') = rebuild_mempool crypto old t n' in
                (ok (true, recovered), n''))
            else (ok (false, 0), n')
      ]

  unchanged-IsConsistent :
      (n : Node) (c current : Chain) (t s : State)
      → n.chain ≡ some current
      → n.state ≡ some s
      → c ≡ current
      → t ≡ s
      → IsConsistent crypto n
      → IsConsistent crypto (record n { chain = some c; state = some t })
  unchanged-IsConsistent n c current t s hc hs ec es i =
      let same_chain : some c ≡ n.chain = ap some ec ∙ sym hc in
      let same_state : some t ≡ n.state = ap some es ∙ sym hs in rw (same_chain, same_state) i

  after-IsConsistent :
      (current candidate : Chain) (s : State) (n : Node) (o : Result Bool × (Chain × State))
      → IsNumbered candidate
      → n.chain ≡ some current
      → n.state ≡ some s
      → IsConsistent crypto n
      → Reorganizes crypto current s candidate o
      → IsConsistent crypto (after current n o).1
  unfolding after Reorganizes
  after-IsConsistent current candidate s n (err e, (c, t)) numbered hc hs i (ec, es) =
      unchanged-IsConsistent n c current t s hc hs ec es i
  after-IsConsistent current candidate s n (ok false, (c, t)) numbered hc hs i (ec, es) =
      unchanged-IsConsistent n c current t s hc hs ec es i
  after-IsConsistent current candidate s n (ok true, (c, t)) numbered hc hs i a =
      Adopted-IsConsistent current candidate c t n numbered a

  cloned : (c old : Chain) → clone_chain c ≡ ok old → old ≡ c
  unfolding clone_chain
  cloned c old h = ground arith

  reorganized_node :
      (clock later : ℕ → ℤ) (candidate current : Chain) (s : State) (n : Node)
      → n.chain ≡ some current
      → n.state ≡ some s
      → clone_chain current ≡ ok current
      → reorganize_with_mempool_recovery crypto clock later (some candidate) n
        ≡ after current n (reorganize_to_candidate crypto clock later current s candidate)
  unfolding reorganize_with_mempool_recovery after
  reorganized_node clock later candidate current s n hc hs hk = ground (arith, hc, hs, hk)

  -- A reorganization to a candidate whose last height is its number of blocks less one keeps a node
  -- consistent, whether it is adopted, refused or failed.
  pub reorganize-IsConsistent :
      (clock later : ℕ → ℤ) (candidate : Chain) (n : Node)
      → IsNumbered candidate
      → IsConsistent crypto n
      → IsConsistent crypto
          (reorganize_with_mempool_recovery crypto clock later (some candidate) n).1
  unfolding reorganize_with_mempool_recovery
  reorganize-IsConsistent clock later candidate n numbered i =
      let c = i.its_chain in
      let s = i.its_state in
      elim (Result-cases (clone_chain c)) [
        | inr (x, e) ↦ rw (i.has_chain, i.has_state, e, reorganize_with_mempool_recovery) i
        | inl (old, e) ↦
            subst (λ (o : Result (Bool × ℕ) × Node). IsConsistent crypto o.1)
              (sym (
                reorganized_node clock later candidate c s n i.has_chain i.has_state
                  (e ∙ ap (λ (x : Chain). ok x) (cloned c old e))))
              (after-IsConsistent c candidate s n
                (reorganize_to_candidate crypto clock later c s candidate) numbered i.has_chain
                i.has_state i
                (reorganize_to_candidate-Reorganizes crypto clock later c candidate s))
      ]
