-- ===== src/Blocks/Merkle.antt =====
-- blockchain/block.go, `CalculateMerkleRoot`. The loop over the levels runs on fuel, one unit for each
-- hash, and never uses it up.
use sudharma.Base.{
  Bytes, List, Option, [], arith, codes, if◌then◌else◌, leb, length, ltb, nat_eq, none, refl, some,
  suc, zero, ℕ, ◌&&◌, ◌*◌, ◌++◌, ◌+◌, ◌-◌, ◌∷◌, ◌≡◌, ◌≤◌,
}
use sudharma.Blocks.Record.{Block}
use sudharma.Crypto.{Crypto, hex_encode}
use sudharma.Transactions.Record.{Transaction}

-- One digit for `hex.DecodeString`, which takes both cases.
unfoldable pub hex_value : ℕ → Option ℕ
hex_value c =
    if leb b'0' c && leb c b'9'
    then some (c - b'0')
    else if leb b'a' c && leb c b'f'
    then some (c - b'a' + 10)
    else if leb b'A' c && leb c b'F'
    then some (c - b'A' + 10)
    else none

-- `hex.DecodeString`
unfoldable pub hex_decode : Bytes → Option Bytes
hex_decode [] = some []
hex_decode (c ∷ []) = none
hex_decode (c ∷ d ∷ cs) =
    let rest = hex_decode cs in
    elim (hex_value c) [
      | none ↦ none
      | some hi ↦ elim (hex_value d) [
        | none ↦ none
        | some lo ↦ elim rest [ none ↦ none | some bytes ↦ some ((hi * 16 + lo) ∷ bytes) ]
      ]
    ]

abbrev pub first_or_empty : List Bytes → Bytes
first_or_empty [] = []
first_or_empty (hash ∷ hashes) = hash

module _ (crypto : Crypto) where
  -- An identifier that is not hexadecimal counts by its digest.
  unfoldable pub leaf : Bytes → Bytes
  leaf id = elim (hex_decode id) [ none ↦ crypto.sha256 id | some hash ↦ hash ]

  -- The hashes of the transactions that are not nil.
  unfoldable pub leaves : List (Option Transaction) → List Bytes
  leaves [] = []
  leaves (none ∷ txs) = leaves txs
  leaves (some tx ∷ txs) = leaf tx.id ∷ leaves txs

  -- A hash without a partner is joined to itself.
  unfoldable pub next_level : List Bytes → List Bytes
  next_level [] = []
  next_level (left ∷ []) = crypto.sha256 (left ++ left) ∷ []
  next_level (left ∷ right ∷ hashes) = crypto.sha256 (left ++ right) ∷ next_level hashes

  -- `for len(hashes) > 1`
  unfoldable pub reduce_levels : ℕ → List Bytes → List Bytes
  reduce_levels zero hashes = hashes
  reduce_levels (suc fuel) hashes =
      let rest = reduce_levels fuel (next_level hashes) in
      if ltb 1 (length hashes) then rest else hashes

  unfoldable pub empty_root : Bytes
  empty_root = hex_encode (crypto.sha256 (codes "Sudharma Network Empty Transaction Set"))

  unfoldable pub calculate_merkle_root : Block → Bytes
  calculate_merkle_root b =
      let hashes = leaves b.transactions in
      if nat_eq (length hashes) 0
      then empty_root
      else hex_encode (first_or_empty (reduce_levels (length hashes) hashes))

  -- `UpdateMerkleRoot`
  unfoldable pub update_merkle_root : Block → Block
  update_merkle_root b = record b { merkle_root = calculate_merkle_root b }

  next_level-shrinks :
      (hashes : List Bytes)
      → (2 * length (next_level hashes) ≤ length hashes + 1)
        × (length hashes ≤ 2 * length (next_level hashes))
  unfolding next_level
  next_level-shrinks [] = omega arith
  next_level-shrinks (left ∷ []) = omega arith
  next_level-shrinks (left ∷ right ∷ hashes) = omega (arith, next_level-shrinks hashes)

  -- The loop over the levels ends: from any list of hashes that is not empty, with as much fuel as
  -- there are hashes or more, exactly one hash is left.
  pub reduce_levels_ends :
      (fuel : ℕ) (hashes : List Bytes)
      → 1 ≤ length hashes
      → length hashes ≤ fuel
      → length (reduce_levels fuel hashes) ≡ 1
  unfolding reduce_levels
  reduce_levels_ends zero hashes one enough = absurd (omega arith)
  reduce_levels_ends (suc fuel) hashes one enough =
      ground (arith, next_level-shrinks hashes, reduce_levels_ends fuel (next_level hashes))

  -- A block of three transactions and the same block with the third one repeated have the same Merkle
  -- root, so the root does not determine the transactions.
  pub merkle_root_repeats_last :
      (b : Block) (x y z : Transaction)
      → calculate_merkle_root (record b { transactions = some x ∷ some y ∷ some z ∷ [] })
        ≡ calculate_merkle_root (record b { transactions = some x ∷ some y ∷ some z ∷ some z ∷ [] })
  unfolding calculate_merkle_root leaves reduce_levels next_level
  merkle_root_repeats_last b x y z = refl
