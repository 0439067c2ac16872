-- ===== src/Chain/Common.antt =====
-- The depth of a reorganization and the height of the last common block.
use sudharma.Base.{
  Bool-cases, Option-cases, arith, dec_le, false, if◌then◌else◌, inl, inr, ltb, ok, some, suc, true,
  zero, ℕ, ◌+◌, ◌<◌, ◌≡◌, ◌≤◌,
}
use sudharma.Chain.Choice.{agree_at, last_common, reorg_depth}
use sudharma.Chain.Record.{Chain, chain_height}
use sudharma.Crypto.{Crypto}

module _ (crypto : Crypto) where
  last_common-Some :
      (current candidate : Chain) (from common : ℕ)
      → last_common crypto current candidate from ≡ some common
      → (common ≤ from)
        × (agree_at crypto current candidate common ≡ true)
        × ((height : ℕ)
            → common < height
            → height ≤ from
            → agree_at crypto current candidate height ≡ false)
  unfolding last_common
  last_common-Some current candidate zero common h =
      elim (Bool-cases (agree_at crypto current candidate 0)) [
        | inl e ↦
            let zero_common : common ≡ 0 = ground (arith, e) in
            (omega arith, rw zero_common e, λ height lt le. absurd (omega arith))
        | inr e ↦ absurd (ground (arith, e))
      ]
  last_common-Some current candidate (suc from) common h =
      elim (Bool-cases (agree_at crypto current candidate (suc from))) [
        | inl e ↦
            let top : common ≡ suc from = ground (arith, e) in
            (omega arith, rw top e, λ height lt le. absurd (omega arith))
        | inr e ↦
            let (le, agree, above) =
              last_common-Some current candidate from common (rw (e, last_common) at h) in
            (
              omega arith,
              agree,
              λ height lt le'. elim (dec_le height from) [
                | yes p ↦ above height lt p
                | no p ↦ (let top : height ≡ suc from = omega arith in rw top e)
              ],
            )
      ]

  -- When `ReorgDepth` answers, the chains have blocks with the same hash at the common height, which is
  -- at most the height of either chain; at no greater height that both chains reach do they agree; and
  -- the depth is the number of blocks of the current chain above the common height.
  pub reorg_depth_last_common :
      (current candidate : Chain) (depth common : ℕ)
      → reorg_depth crypto current candidate ≡ ok (depth, common)
      → (agree_at crypto current candidate common ≡ true)
        × (common ≤ chain_height candidate)
        × (depth + common ≡ chain_height current)
        × ((height : ℕ)
            → common < height
            → height ≤ chain_height current
            → height ≤ chain_height candidate
            → agree_at crypto current candidate height ≡ false)
  unfolding reorg_depth
  reorg_depth_last_common current candidate depth common h =
      let max_common =
        if ltb (chain_height candidate) (chain_height current)
        then chain_height candidate
        else chain_height current in
      elim (Option-cases (last_common crypto current candidate max_common)) [
        | inl e ↦ absurd (ground (arith, e))
        | inr (k, e) ↦
            let (le, agree, above) = last_common-Some current candidate max_common k e in
            let same : k ≡ common = ground (arith, e) in
            (
              rw same at agree,
              ground (arith, e),
              ground (arith, e),
              λ height lt hc hd. above height (omega arith) (ground arith),
            )
      ]
