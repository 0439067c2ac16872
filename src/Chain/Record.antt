-- ===== src/Chain/Record.antt =====
-- blockchain/chain.go: the record and its readers.
use sudharma.Base.{
  Bytes, List, Option, Result, [], err, get_elem?, if◌then◌else◌, length, nat_eq, no_genesis, none,
  not, ok, some, ℕ, ◌∷◌,
}
use sudharma.Blocks.Record.{Block}
use sudharma.Chain.Policy.{PoWPolicy, ProofVerifier}
use sudharma.Params.{monetary_policy_for}

pub record Chain : Type 0 where
  pub network : Bytes
  pub blocks : List Block
  pub total_work : ℕ
  pub pow_policy : PoWPolicy
  pub proof_verifier : ProofVerifier

-- `c.blocks[len(c.blocks)-1]`
unfoldable pub last_block : List Block → Option Block
last_block [] = none
last_block (b ∷ []) = some b
last_block (b ∷ c ∷ blocks) = last_block (c ∷ blocks)

-- `Tip`
unfoldable pub tip : Chain → Option Block
tip c = last_block c.blocks

-- `Height`
unfoldable pub chain_height : Chain → ℕ
chain_height c = elim (last_block c.blocks) [ none ↦ 0 | some b ↦ b.height ]

-- `BlockByHeight`
unfoldable pub block_by_height : Chain → ℕ → Option Block
block_by_height c height = elim (get_elem? c.blocks height) [
  | none ↦ none
  | some b ↦ if not (nat_eq b.height height) then none else some b
]

-- `MonetaryPolicy`
unfoldable pub chain_monetary_policy : Chain → Result ℕ
chain_monetary_policy c = monetary_policy_for c.network

-- `CloneChain`
unfoldable pub clone_chain : Chain → Result Chain
clone_chain source = if nat_eq (length source.blocks) 0 then err no_genesis else ok source
