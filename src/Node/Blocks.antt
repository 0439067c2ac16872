-- ===== src/Node/Blocks.antt =====
-- p2p/block_handler.go: a block that a peer has sent.
-- The loop that removes the block's transactions from the mempool.
use sudharma.Base.{
  List, Option, Result, [], block_invalid, block_nil, chain_missing, err, fail_if, is_empty,
  miner_empty, none, ok, rejected, some, source_invalid, state_failed, state_missing, wrap, ℕ, ℤ,
  ◌>>=◌, ◌>>◌, ◌∷◌,
}
use sudharma.Blocks.Record.{Block}
use sudharma.Chain.Extend.{add_block}
use sudharma.Chain.Record.{Chain, chain_monetary_policy}
use sudharma.Chain.Validate.{validate_block_against_chain}
use sudharma.Crypto.{Crypto}
use sudharma.Ledger.Process.{process_block_for}
use sudharma.Mempool.Methods.{remove_transaction}
use sudharma.Mempool.Record.{Mempool}
use sudharma.Node.Record.{Node, attached, refresh_chain_status}
use sudharma.State.Methods.{clone, ensure_monetary_policy, replace_with}
use sudharma.State.Monad.{State}
use sudharma.Transactions.Record.{Transaction}

unfoldable pub remove_all : List (Option Transaction) → Mempool → Mempool
remove_all [] m = m
remove_all (none ∷ txs) m = remove_all txs m
remove_all (some tx ∷ txs) m = remove_all txs (remove_transaction tx.id m)

module _ (crypto : Crypto) where
  -- `ProcessBlockFor` on the working state, which it gives where it succeeds
  unfoldable pub process_working : State → ℕ → Block → Result State
  process_working s policy b =
      let (r, t) = process_block_for crypto policy b b.miner_address (clone s) in
      elim r [ err e ↦ err (state_failed e) | ok _ ↦ ok (replace_with t s) ]

  -- `AcceptBlock` up to `AddBlock`; the clock is read twice. It gives the new chain and the new state.
  unfoldable pub check_block : ℤ → ℤ → Block → Node → Result (Chain × State)
  check_block now later b n = do
    fail_if (is_empty b.miner_address) miner_empty
    c ← attached chain_missing n.chain
    s ← attached state_missing n.state
    policy ← wrap source_invalid (chain_monetary_policy c)
    wrap source_invalid (ensure_monetary_policy s policy)
    wrap block_invalid (validate_block_against_chain crypto now c b)
    t ← process_working s policy b
    d ← wrap rejected (add_block crypto later b c)
    ok (d, t)

  -- What `AcceptBlock` writes once everything has succeeded.
  unfoldable pub commit_block : Block → Chain → State → Node → Node
  commit_block b c s n =
      refresh_chain_status crypto
        (record n { chain = some c; state = some s; mempool = remove_all b.transactions n.mempool })

  -- `AcceptBlock`
  unfoldable pub accept_block : ℤ → ℤ → Option Block → Node → Result (Unit {0}) × Node
  accept_block now later none n = (err block_nil, n)
  accept_block now later (some b) n = elim (check_block now later b n) [
    | err e ↦ (err e, n)
    | ok (c, s) ↦ (ok tt, commit_block b c s n)
  ]
