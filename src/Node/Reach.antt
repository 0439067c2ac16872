-- ===== src/Node/Reach.antt =====
-- p2p/node.go: a node from its start through every operation that changes its chain, its state or its
-- mempool.
use sudharma.Base.{
  >>=-eq-ok, Bytes, List, Option, Option-cases, Result, Result-cases, ap, arith, inl, inr, ok, refl,
  some, subst, sym, u64_mod, ℕ, ℤ, ◌+◌, ◌<◌, ◌>>=◌, ◌∙◌, ◌≡◌,
}
use sudharma.Blocks.Record.{Block}
use sudharma.Chain.Grow.{IsNumbered}
use sudharma.Chain.Reachable.{IsValid}
use sudharma.Chain.Record.{Chain, chain_monetary_policy}
use sudharma.Chain.Reorg.{build_state_from_chain}
use sudharma.Crypto.{Crypto}
use sudharma.Mempool.Indexed.{IsKept, new_mempool-IsKept}
use sudharma.Mempool.Methods.{new_mempool}
use sudharma.Node.Admission.{admit_transaction, admit_verified_transaction}
use sudharma.Node.Blocks.{accept_block}
use sudharma.Node.Consistent.{IsConsistent, accept_block-IsConsistent, refresh-IsConsistent}
use sudharma.Node.Pool.{Unconfirmed, new_mempool-Unconfirmed}
use sudharma.Node.Record.{Node, new_node, refresh_chain_status, set_chain, set_state, with_status}
use sudharma.Node.Recovery.{reorganize_with_mempool_recovery}
use sudharma.Node.Restored.{load_mempool-IsConsistent}
use sudharma.Node.Runs.{
  admit_transaction-IsConsistent, admit_verified-IsConsistent, reorganize-IsConsistent,
}
use sudharma.Node.Storage.{load_mempool}
use sudharma.Node.Sync.{PeerStatus, sync_from_peer}
use sudharma.Node.Sync.Adopted.{sync_from_peer-IsConsistent}
use sudharma.State.Methods.{ensure_monetary_policy}
use sudharma.State.Monad.{State}
use sudharma.Transactions.Record.{Transaction}

module _ (crypto : Crypto) where
  -- The start of a node, with a chain and its state, in the order in which the daemons attach them or in
  -- the other one, and the operations that follow.
  pub data Runs : Node → Type 0 where
    started :
        {n : Node} (node_id listen_address tip_hash local_network : Bytes) (height : ℕ) (c : Chain)
        (s : State)
        → IsValid crypto c
        → IsNumbered c
        → build_state_from_chain crypto c ≡ ok s
        → (new_node node_id listen_address height tip_hash
            >>= set_chain crypto local_network (some c)
            >>= set_state (some s))
          ≡ ok n
        → Runs n
    started_state_first :
        {n : Node} (node_id listen_address tip_hash local_network : Bytes) (height : ℕ) (c : Chain)
        (s : State)
        → IsValid crypto c
        → IsNumbered c
        → build_state_from_chain crypto c ≡ ok s
        → (new_node node_id listen_address height tip_hash
            >>= set_state (some s)
            >>= set_chain crypto local_network (some c))
          ≡ ok n
        → Runs n
    accepted :
        {n : Node} (now later : ℤ) (b : Option Block)
        → n.height + 1 < u64_mod
        → Runs n
        → Runs (accept_block crypto now later b n).1
    admitted :
        {n : Node} (tx : Option Transaction) → Runs n → Runs (admit_transaction crypto tx n).1
    gossiped :
        {n : Node} (tx : Option Transaction)
        → Runs n
        → Runs (admit_verified_transaction crypto tx n).1
    reorganized :
        {n : Node} (clock later : ℕ → ℤ) (candidate : Chain)
        → IsNumbered candidate
        → Runs n
        → Runs (reorganize_with_mempool_recovery crypto clock later (some candidate) n).1
    synced :
        {n : Node} (clock clock' later : ℕ → ℤ) (answer : ℕ → ℕ → Result (List (Option Block)))
        (timeout : ℤ) (peer : PeerStatus)
        → peer.height + 1 < u64_mod
        → Runs n
        → Runs (sync_from_peer crypto clock clock' later answer timeout (some peer) n).1
    restored :
        {n : Node} (version : ℕ) (txs : List (Option Transaction))
        → Runs n
        → Runs (load_mempool crypto version txs n).1

  set_chain_ok :
      (local_network : Bytes) (c : Chain) (n n' : Node)
      → set_chain crypto local_network (some c) n ≡ ok n'
      → n' ≡ refresh_chain_status crypto (record n { chain = some c })
  unfolding set_chain refresh_chain_status
  set_chain_ok local_network c n n' h = elim (Result-cases (chain_monetary_policy c)) [
    | inr (x, e) ↦ absurd (ground (arith, e))
    | inl (p, e) ↦ ground (arith, e)
  ]

  set_state_ok :
      (s : State) (n n' : Node) → set_state (some s) n ≡ ok n' → n' ≡ record n { state = some s }
  unfolding set_state
  set_state_ok s n n' h = elim (Option-cases n.chain) [
    | inl e ↦ ground (arith, e)
    | inr (c, e) ↦ elim (Result-cases (chain_monetary_policy c)) [
      | inr (x, f) ↦ absurd (ground (arith, e, f))
      | inl (p, f) ↦ elim (Result-cases (ensure_monetary_policy s p)) [
        | inr (x, g) ↦ absurd (ground (arith, e, f, g))
        | inl (u, g) ↦ ground (arith, e, f, g)
      ]
    ]
  ]

  new_node_pool :
      (node_id listen_address tip_hash : Bytes) (height : ℕ) (n : Node)
      → new_node node_id listen_address height tip_hash ≡ ok n
      → n.mempool ≡ new_mempool
  unfolding new_node
  new_node_pool node_id listen_address tip_hash height n h = ground arith

  state_attached :
      (c : Chain) (s : State) (n : Node)
      → record (refresh_chain_status crypto (record n { chain = some c })) { state = some s }
        ≡ refresh_chain_status crypto (record n { chain = some c; state = some s })
  unfolding refresh_chain_status with_status
  state_attached c s n = refl

  -- A new node with a chain and its state.
  attached-IsConsistent :
      (c : Chain) (s : State) (n : Node)
      → IsValid crypto c
      → IsNumbered c
      → build_state_from_chain crypto c ≡ ok s
      → n.mempool ≡ new_mempool
      → IsConsistent crypto
          (refresh_chain_status crypto (record n { chain = some c; state = some s }))
  attached-IsConsistent c s n valid numbered built pool =
      refresh-IsConsistent crypto c s (record n { chain = some c; state = some s }) refl refl valid
        numbered built (subst IsKept (sym pool) new_mempool-IsKept)
        (subst (Unconfirmed s) (sym pool) (new_mempool-Unconfirmed s))

  started-IsConsistent :
      (node_id listen_address tip_hash local_network : Bytes) (height : ℕ) (c : Chain) (s : State)
      (n : Node)
      → IsValid crypto c
      → IsNumbered c
      → build_state_from_chain crypto c ≡ ok s
      → (new_node node_id listen_address height tip_hash
          >>= set_chain crypto local_network (some c)
          >>= set_state (some s))
        ≡ ok n
      → IsConsistent crypto n
  started-IsConsistent node_id listen_address tip_hash local_network height c s n valid numbered
        built h =
      let made = new_node node_id listen_address height tip_hash in
      let (m, e, h1) =
        >>=-eq-ok (made >>= set_chain crypto local_network (some c)) (set_state (some s)) h in
      let (k, f, h2) = >>=-eq-ok made (set_chain crypto local_network (some c)) e in
      let with_chain = set_chain_ok local_network c k m h2 in
      let same = set_state_ok s m n h1 in
      subst (IsConsistent crypto)
        (sym
          (same ∙ ap (λ (x : Node). record x { state = some s }) with_chain ∙ state_attached c s k))
        (attached-IsConsistent c s k valid numbered built
          (new_node_pool node_id listen_address tip_hash height k f))

  state_first-IsConsistent :
      (node_id listen_address tip_hash local_network : Bytes) (height : ℕ) (c : Chain) (s : State)
      (n : Node)
      → IsValid crypto c
      → IsNumbered c
      → build_state_from_chain crypto c ≡ ok s
      → (new_node node_id listen_address height tip_hash
          >>= set_state (some s)
          >>= set_chain crypto local_network (some c))
        ≡ ok n
      → IsConsistent crypto n
  state_first-IsConsistent node_id listen_address tip_hash local_network height c s n valid numbered
        built h =
      let made = new_node node_id listen_address height tip_hash in
      let (m, e, h1) =
        >>=-eq-ok (made >>= set_state (some s)) (set_chain crypto local_network (some c)) h in
      let (k, f, h2) = >>=-eq-ok made (set_state (some s)) e in
      let with_state = set_state_ok s k m h2 in
      let same = set_chain_ok local_network c m n h1 in
      subst (IsConsistent crypto)
        (sym (
          same
          ∙ ap (λ (x : Node). refresh_chain_status crypto (record x { chain = some c }))
              with_state))
        (attached-IsConsistent c s k valid numbered built
          (new_node_pool node_id listen_address tip_hash height k f))

  -- Every node that was started on a valid chain with the state that is rebuilt from it, whichever of the
  -- two was attached first, after any blocks
  -- and transactions from peers, reorganizations, synchronizations and restored mempools, failed ones
  -- included, and below the last height of a uint64, has a valid chain, exactly the state that is rebuilt
  -- from this chain, the height and the hash of its tip, and a mempool in order that holds no
  -- transaction that the state has processed.
  pub Runs-IsConsistent : (n : Node) → Runs n → IsConsistent crypto n
  Runs-IsConsistent n
        (started node_id listen_address tip_hash local_network height c s valid numbered built h) =
      started-IsConsistent node_id listen_address tip_hash local_network height c s n valid numbered
        built h
  Runs-IsConsistent n
        (started_state_first node_id listen_address tip_hash local_network height c s valid numbered
          built h) =
      state_first-IsConsistent node_id listen_address tip_hash local_network height c s n valid
        numbered built h
  Runs-IsConsistent m (accepted {n} now later b below r) =
      accept_block-IsConsistent crypto now later b n below (Runs-IsConsistent n r)
  Runs-IsConsistent m (admitted {n} tx r) =
      admit_transaction-IsConsistent crypto tx n (Runs-IsConsistent n r)
  Runs-IsConsistent m (gossiped {n} tx r) =
      admit_verified-IsConsistent crypto tx n (Runs-IsConsistent n r)
  Runs-IsConsistent m (reorganized {n} clock later candidate numbered r) =
      reorganize-IsConsistent crypto clock later candidate n numbered (Runs-IsConsistent n r)
  Runs-IsConsistent m (synced {n} clock clock' later answer timeout peer small r) =
      sync_from_peer-IsConsistent crypto clock clock' later answer timeout peer n small
        (Runs-IsConsistent n r)
  Runs-IsConsistent m (restored {n} version txs r) =
      load_mempool-IsConsistent crypto version txs n (Runs-IsConsistent n r)
