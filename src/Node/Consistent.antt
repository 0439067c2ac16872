-- ===== src/Node/Consistent.antt =====
-- A node is consistent: its chain is valid, its state is the one of its chain, its mempool is in order,
-- and no pending transaction is confirmed.
use sudharma.Base.{
  Bool-cases, Option, Result-cases, add64_exact, arith, false, inl, inr, is_empty, none, ok, refl,
  some, subst, sym, u64_mod, ℕ, ℤ, ◌+◌, ◌<◌, ◌∙◌, ◌≡◌,
}
use sudharma.Blocks.Header.{block_hash}
use sudharma.Blocks.Record.{Block}
use sudharma.Chain.Extend.{add_block}
use sudharma.Chain.Grow.{IsNumbered, build_state_grows}
use sudharma.Chain.Reachable.{IsValid, add_block-IsValid}
use sudharma.Chain.Rebuild.{add_block-Extends}
use sudharma.Chain.Record.{Chain, chain_height, chain_monetary_policy, last_block, tip}
use sudharma.Chain.Reorg.{build_state_from_chain}
use sudharma.Chain.Valid.{add_block-Follows}
use sudharma.Chain.Validate.{validate_block_against_chain}
use sudharma.Crypto.{Crypto}
use sudharma.Ledger.Marks.{process_block_for_marks}
use sudharma.Ledger.Process.{process_block_for}
use sudharma.Mempool.Indexed.{IsKept}
use sudharma.Mempool.Record.{Mempool}
use sudharma.Node.Blocks.{accept_block, check_block, commit_block, process_working, remove_all}
use sudharma.Node.Pool.{Unconfirmed, remove_all-IsKept, remove_all_entry}
use sudharma.Node.Record.{Node, refresh_chain_status, with_status}
use sudharma.State.Methods.{clone, ensure_monetary_policy, is_transaction_processed, replace_with}
use sudharma.State.Monad.{State}

module _ (crypto : Crypto) where
  -- The status is the one of the chain.
  abbrev pub HasStatus : Chain → Node → Type 0
  HasStatus c n =
      (n.height ≡ chain_height c)
      × ((b : Block) → tip c ≡ some b → n.tip_hash ≡ block_hash crypto b)

  pub record IsConsistent (n : Node) : Type 0 where
    pub its_chain : Chain
    pub its_state : State
    pub has_chain : n.chain ≡ some its_chain
    pub has_state : n.state ≡ some its_state
    pub chain_valid : IsValid crypto its_chain
    pub numbered : IsNumbered its_chain
    pub state_built : build_state_from_chain crypto its_chain ≡ ok its_state
    pub pool_kept : IsKept n.mempool
    pub unconfirmed : Unconfirmed its_state n.mempool
    pub status : HasStatus its_chain n

  with_status-HasStatus : (c : Chain) (n : Node) → HasStatus c (with_status crypto c n)
  unfolding with_status
  with_status-HasStatus c n = (refl, λ b h. ground (arith, h))

  refreshed :
      (c : Chain) (n : Node)
      → n.chain ≡ some c
      → refresh_chain_status crypto n ≡ with_status crypto c n
  unfolding refresh_chain_status
  refreshed c n h = ground (arith, h)

  -- A node whose status was refreshed, from its parts.
  pub refresh-IsConsistent :
      (c : Chain) (s : State) (n : Node)
      → n.chain ≡ some c
      → n.state ≡ some s
      → IsValid crypto c
      → IsNumbered c
      → build_state_from_chain crypto c ≡ ok s
      → IsKept n.mempool
      → Unconfirmed s n.mempool
      → IsConsistent (refresh_chain_status crypto n)
  unfolding with_status
  refresh-IsConsistent c s n hc hs valid numbered built kept fresh =
      subst IsConsistent (sym (refreshed c n hc)) (record {
        its_chain = c;
        its_state = s;
        has_chain = hc;
        has_state = hs;
        chain_valid = valid;
        numbered = numbered;
        state_built = built;
        pool_kept = kept;
        unconfirmed = fresh;
        status = with_status-HasStatus c n;
      })

  -- The checks of `AcceptBlock` that passed.
  checked_block :
      (now later : ℤ) (b : Block) (n : Node) (c d : Chain) (s t : State)
      → n.chain ≡ some c
      → n.state ≡ some s
      → check_block crypto now later b n ≡ ok (d, t)
      → (policy : ℕ) × (is_empty b.miner_address ≡ false)
        × (chain_monetary_policy c ≡ ok policy)
        × (process_working crypto s policy b ≡ ok t)
        × (add_block crypto later b c ≡ ok d)
  unfolding check_block
  checked_block now later b n c d s t hc hs h = elim (Result-cases (chain_monetary_policy c)) [
    | inr (x, e) ↦ absurd (ground (arith, e))
    | inl (policy, e) ↦ elim (Result-cases (ensure_monetary_policy s policy)) [
      | inr (x, f) ↦ absurd (ground (arith, e, f))
      | inl (u, f) ↦ elim (Result-cases (validate_block_against_chain crypto now c b)) [
        | inr (x, g) ↦ absurd (ground (arith, e, f, g))
        | inl (v, g) ↦ elim (Result-cases (process_working crypto s policy b)) [
          | inr (x, k) ↦ absurd (ground (arith, e, f, g, k))
          | inl (t', k) ↦ elim (Result-cases (add_block crypto later b c)) [
            | inr (x, l) ↦ absurd (ground (arith, e, f, g, k, l))
            | inl (d', l) ↦ (
              policy,
              ground (arith, e, f, g, k, l),
              e,
              ground (arith, e, f, g, k, l),
              ground (arith, e, f, g, k, l),
            )
          ]
        ]
      ]
    ]
  ]

  processed_working :
      (s t : State) (policy : ℕ) (b : Block)
      → process_working crypto s policy b ≡ ok t
      → (m : ℕ) × (process_block_for crypto policy b b.miner_address s ≡ (ok m, t))
  unfolding process_working clone replace_with
  processed_working s t policy b h =
      elim (Result-cases (process_block_for crypto policy b b.miner_address s).0) [
        | inr (x, e) ↦ absurd (ground (arith, e))
        | inl (m, e) ↦ (m, ground (arith, e))
      ]

  tip_height : (c : Chain) (b : Block) → last_block c.blocks ≡ some b → chain_height c ≡ b.height
  unfolding chain_height
  tip_height c b h = rw (h, chain_height) refl

  -- The height of a block that was added to a chain that is not at the last height.
  next_block_height :
      (later : ℤ) (b : Block) (c d : Chain)
      → chain_height c + 1 < u64_mod
      → add_block crypto later b c ≡ ok d
      → b.height ≡ chain_height c + 1
  next_block_height later b c d below h =
      let f = add_block-Follows crypto later b c d h in
      let at_tip = tip_height c f.previous f.is_last in
      f.next_height ∙ add64_exact f.previous.height 1 (omega arith) ∙ omega arith

  accepted-Unconfirmed :
      (policy m : ℕ) (b : Block) (s t : State) (pool : Mempool)
      → process_block_for crypto policy b b.miner_address s ≡ (ok m, t)
      → Unconfirmed s pool
      → Unconfirmed t (remove_all b.transactions pool)
  accepted-Unconfirmed policy m b s t pool done fresh id tx h =
      let (none_of, old) = remove_all_entry b.transactions pool id tx h in
      elim (Bool-cases (is_transaction_processed t id)) [
        | inr e ↦ e
        | inl e ↦ elim (process_block_for_marks crypto policy m b b.miner_address s t done id e) [
          | inl before ↦ absurd (cc (fresh id tx old))
          | inr has ↦ absurd (none_of has)
        ]
      ]

  -- Accepting a block keeps a node consistent, unless the chain is at the last height of a uint64.
  pub accept_block-IsConsistent :
      (now later : ℤ) (b : Option Block) (n : Node)
      → n.height + 1 < u64_mod
      → IsConsistent n
      → IsConsistent (accept_block crypto now later b n).1
  unfolding accept_block commit_block
  accept_block-IsConsistent now later none n below i = i
  accept_block-IsConsistent now later (some b) n below i =
      elim (Result-cases (check_block crypto now later b n)) [
        | inr (x, e) ↦ rw (e, accept_block) i
        | inl ((d, t), e) ↦
            let c = i.its_chain in
            let s = i.its_state in
            let (policy, paid, rules, worked, added) =
              checked_block now later b n c d s t i.has_chain i.has_state e in
            let (m, done) = processed_working s t policy b worked in
            let height = next_block_height later b c d (omega (arith, i.status.0)) added in
            let (numbered, built) =
              build_state_grows crypto c d b policy m s t i.numbered
                (add_block-Extends crypto later b c d added) height paid rules i.state_built done in
            rw (e, accept_block)
              (refresh-IsConsistent d t
                (record n {
                  chain = some d;
                  state = some t;
                  mempool = remove_all b.transactions n.mempool;
                })
                refl refl (add_block-IsValid crypto later b c d i.chain_valid added) numbered built
                (remove_all-IsKept b.transactions n.mempool i.pool_kept)
                (accepted-Unconfirmed policy m b s t n.mempool done i.unconfirmed))
      ]
