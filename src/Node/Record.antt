-- ===== src/Node/Record.antt =====
-- p2p/node.go and p2p/chain_access.go: the part of a node that blocks and transactions change. The peers
-- are in Peers, the listener and the channels are left out.
use sudharma.Base.{
  Bytes, Error, Option, Result, address_empty, bytes_eq, chain_missing, err, fail_if, false,
  is_empty, namespace_mismatch, nat_eq, node_id_empty, none, not, ok, policy_mismatch, some,
  source_invalid, state_missing, wrap, ℕ, ◌>>=◌, ◌>>◌,
}
use sudharma.Blocks.Header.{block_hash}
use sudharma.Chain.Record.{Chain, chain_height, chain_monetary_policy, tip}
use sudharma.Crypto.{Crypto}
use sudharma.Mempool.Methods.{new_mempool}
use sudharma.Mempool.Record.{Mempool}
use sudharma.Params.{network_public_testnet}
use sudharma.State.Methods.{ensure_monetary_policy}
use sudharma.State.Monad.{State}

pub record Node : Type 0 where
  pub node_id : Bytes
  pub listen_address : Bytes
  pub height : ℕ
  pub tip_hash : Bytes
  pub mempool : Mempool
  pub state : Option State
  pub chain : Option Chain

-- `NewNode`
unfoldable pub new_node : Bytes → Bytes → ℕ → Bytes → Result Node
new_node node_id listen_address height tip_hash = do
  fail_if (is_empty node_id) node_id_empty
  fail_if (is_empty listen_address) address_empty
  ok (record {
    node_id = node_id;
    listen_address = listen_address;
    height = height;
    tip_hash = tip_hash;
    mempool = new_mempool;
    state = none;
    chain = none;
  })

-- `ActiveNetwork`
unfoldable pub active_network : Node → Bytes
active_network n = elim n.chain [ none ↦ network_public_testnet | some c ↦ c.network ]

-- `n.Chain()` and `n.State()`, where nil is an error
abbrev pub attached {ℓ} : {T : Type ℓ} → Error → Option T → Result T
attached missing none = err missing
attached missing (some v) = ok v

-- `SetState`
unfoldable pub set_state : Option State → Node → Result Node
set_state none n = err state_missing
set_state (some s) n = elim n.chain [
  | none ↦ ok (record n { state = some s })
  | some c ↦ (do
    policy ← wrap source_invalid (chain_monetary_policy c)
    wrap source_invalid (ensure_monetary_policy s policy)
    ok (record n { state = some s }))
]

module _ (crypto : Crypto) where
  -- The status that a chain gives a node.
  unfoldable pub with_status : Chain → Node → Node
  with_status c n = record n {
    height = chain_height c;
    tip_hash = elim (tip c) [ none ↦ n.tip_hash | some b ↦ block_hash crypto b ];
  }

  -- `RefreshChainStatus`
  unfoldable pub refresh_chain_status : Node → Node
  refresh_chain_status n = elim n.chain [ none ↦ n | some c ↦ with_status c n ]

  -- `SetChain`, in a process whose namespace is `local_network`
  unfoldable pub set_chain : Bytes → Option Chain → Node → Result Node
  set_chain local_network none n = err chain_missing
  set_chain local_network (some c) n = do
    policy ← wrap source_invalid (chain_monetary_policy c)
    fail_if (not (bytes_eq local_network c.network)) namespace_mismatch
    fail_if (elim n.state [ none ↦ false | some s ↦ not (nat_eq s.monetary_policy policy) ])
        policy_mismatch
    ok (with_status c (record n { chain = some c }))
