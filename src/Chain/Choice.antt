-- ===== src/Chain/Choice.antt =====
-- blockchain/fork_choice.go and blockchain/reorg_depth.go.
use sudharma.Base.{
  Bool, Option, Result, bytes_eq, err, fail_if, false, if◌then◌else◌, leb, ltb, network_mismatch,
  no_common_genesis, none, not, ok, reorg_too_deep, some, suc, zero, ℕ, ◌-◌,
}
use sudharma.Blocks.Header.{block_hash}
use sudharma.Chain.Record.{Chain, block_by_height, chain_height}
use sudharma.Crypto.{Crypto}
use sudharma.Params.{max_automatic_reorg_depth}

-- Which of the two pointers `BetterChain` returns.
pub data Preferred : Type 0 where
  current_chain candidate_chain : Preferred

-- `BetterChain`
unfoldable pub better_chain : Chain → Chain → Result Preferred
better_chain current candidate =
    if not (bytes_eq current.network candidate.network)
    then err network_mismatch
    else if ltb current.total_work candidate.total_work
    then ok candidate_chain
    else if ltb candidate.total_work current.total_work
    then ok current_chain
    else if ltb (chain_height current) (chain_height candidate)
    then ok candidate_chain
    else ok current_chain

module _ (crypto : Crypto) where
  -- Both chains have a block at the height, with the same hash.
  unfoldable pub agree_at : Chain → Chain → ℕ → Bool
  agree_at current candidate height = elim (block_by_height current height) [
    | none ↦ false
    | some b ↦ elim (block_by_height candidate height) [
      | none ↦ false
      | some d ↦ bytes_eq (block_hash crypto b) (block_hash crypto d)
    ]
  ]

  -- The loop of `ReorgDepth`, downwards.
  unfoldable pub last_common : Chain → Chain → ℕ → Option ℕ
  last_common current candidate zero = if agree_at current candidate 0 then some 0 else none
  last_common current candidate (suc height) =
      let rest = last_common current candidate height in
      if agree_at current candidate (suc height) then some (suc height) else rest

  -- `ReorgDepth`: the depth and the common height
  unfoldable pub reorg_depth : Chain → Chain → Result (ℕ × ℕ)
  reorg_depth current candidate =
      let current_height = chain_height current in
      let candidate_height = chain_height candidate in
      let max_common =
        if ltb candidate_height current_height then candidate_height else current_height in
      elim (last_common current candidate max_common) [
        | none ↦ err no_common_genesis
        | some common_height ↦
            if leb current_height common_height
            then ok (0, common_height)
            else ok (current_height - common_height, common_height)
      ]

-- `ValidateAutomaticReorgDepth`
unfoldable pub validate_automatic_reorg_depth : ℕ → Result (Unit {0})
validate_automatic_reorg_depth depth = fail_if (ltb max_automatic_reorg_depth depth) reorg_too_deep
