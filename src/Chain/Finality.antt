-- ===== src/Chain/Finality.antt =====
-- blockchain/finality.go and blockchain/finality_reorg.go.
use sudharma.Base.{
  Bool, Result, above_tip, err, fail_if, finalized_replaced, if◌then◌else◌, leb, ltb, ok, ℕ, ◌+◌,
  ◌-◌, ◌>>=◌,
}
use sudharma.Chain.Choice.{reorg_depth}
use sudharma.Chain.Record.{Chain, chain_height}
use sudharma.Crypto.{Crypto}
use sudharma.Params.{max_automatic_reorg_depth}

-- `Confirmations`
unfoldable pub confirmations : Chain → ℕ → Result ℕ
confirmations c height =
    if ltb (chain_height c) height then err above_tip else ok (chain_height c - height + 1)

-- `FinalizedHeight`
unfoldable pub finalized_height : Chain → ℕ
finalized_height c =
    if leb (chain_height c) max_automatic_reorg_depth
    then 0
    else chain_height c - max_automatic_reorg_depth

-- `IsBlockFinalized`
unfoldable pub is_block_finalized : Chain → ℕ → Result Bool
is_block_finalized c height =
    if ltb (chain_height c) height then err above_tip else ok (leb height (finalized_height c))

-- `ValidateFinalizedReorg`
unfoldable pub validate_finalized_reorg : Crypto → Chain → Chain → Result (Unit {0})
validate_finalized_reorg crypto current candidate = do
  (_, common_height) ← reorg_depth crypto current candidate
  fail_if (ltb common_height (finalized_height current)) finalized_replaced
