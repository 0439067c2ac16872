-- ===== src/Chain/Grow.antt =====
-- The state of a chain to which a block was added: the state of the chain, and then the block.
-- The last block is at the index that its height says.
use sudharma.Base.{
  >>=-eq-ok, List, Option-cases, Result, Result-cases, [], ap, arith, err, false, get_elem?, inl,
  inr, is_empty, length, length-append, ok, ok_value, refl, some, subst, suc, sym, zero, ℕ, ◌++◌,
  ◌+◌, ◌<◌, ◌>>=◌, ◌∙◌, ◌∷◌, ◌≡◌,
}
use sudharma.Blocks.Record.{Block}
use sudharma.Chain.Rebuild.{Extends}
use sudharma.Chain.Record.{Chain, block_by_height, chain_height, chain_monetary_policy, last_block}
use sudharma.Chain.Reorg.{build_state_from_chain, rebuilt, replay_blocks}
use sudharma.Crypto.{Crypto}
use sudharma.Ledger.Process.{process_block_for}
use sudharma.State.Methods.{new_state_for}
use sudharma.State.Monad.{State}

abbrev pub IsNumbered : Chain → Type 0
IsNumbered c = length c.blocks ≡ chain_height c + 1

get_elem?-append :
    (blocks more : List Block) (i : ℕ)
    → i < length blocks
    → get_elem? (blocks ++ more) i ≡ get_elem? blocks i
get_elem?-append [] more i h = absurd (omega arith)
get_elem?-append (b ∷ blocks) more zero h = refl
get_elem?-append (b ∷ blocks) more (suc i) h = get_elem?-append blocks more i (omega arith)

get_elem?-append_end :
    (blocks : List Block) (b : Block) → get_elem? (blocks ++ (b ∷ [])) (length blocks) ≡ some b
get_elem?-append_end [] b = refl
get_elem?-append_end (x ∷ blocks) b = get_elem?-append_end blocks b

pub last_block-append : (blocks : List Block) (b : Block) → last_block (blocks ++ (b ∷ [])) ≡ some b
unfolding last_block
last_block-append [] b = refl
last_block-append (x ∷ []) b = refl
last_block-append (x ∷ y ∷ blocks) b = last_block-append (y ∷ blocks) b

same_rules :
    (c d : Chain) (p : ℕ)
    → d.network ≡ c.network
    → chain_monetary_policy c ≡ ok p
    → chain_monetary_policy d ≡ ok p
unfolding chain_monetary_policy
same_rules c d p e h = rw e h

rebuilt_ok : (o : Result (Unit {0}) × State) (s : State) → rebuilt o ≡ ok s → o ≡ (ok tt, s)
rebuilt_ok (ok u, t) s h = ap (λ (x : State). (ok tt, x)) (ok_value t s h)
rebuilt_ok (err e, t) s h = absurd (cc h)

module _ (crypto : Crypto) where
  -- The loop over heights at which two chains have the same blocks.
  replay_agree :
      (c d : Chain) (policy rounds height : ℕ) (s : State)
      → ((i : ℕ) → i < height + rounds → block_by_height c i ≡ block_by_height d i)
      → replay_blocks crypto c policy rounds height s
        ≡ replay_blocks crypto d policy rounds height s
  unfolding replay_blocks
  replay_agree c d policy zero height s e = refl
  replay_agree c d policy (suc rounds) height s e = elim (Option-cases (block_by_height d height)) [
    | inl g ↦ ground (arith, g, e height)
    | inr (b, g) ↦ elim (Result-cases (process_block_for crypto policy b b.miner_address s).0) [
      | inr (x, f) ↦ ground (arith, g, f, e height)
      | inl (n, f) ↦ ground (
        arith,
        g,
        f,
        e height,
        replay_agree c d policy rounds (height + 1)
            (process_block_for crypto policy b b.miner_address s).1 (λ i lt. e i (omega arith)),
      )
    ]
  ]

  -- One more round at the end.
  replay_more :
      (c : Chain) (policy rounds height n : ℕ) (b : Block) (s t u : State)
      → replay_blocks crypto c policy rounds height s ≡ (ok tt, t)
      → block_by_height c (height + rounds) ≡ some b
      → is_empty b.miner_address ≡ false
      → process_block_for crypto policy b b.miner_address t ≡ (ok n, u)
      → replay_blocks crypto c policy (suc rounds) height s ≡ (ok tt, u)
  unfolding replay_blocks
  replay_more c policy zero height n b s t u h found paid k =
      let e : s ≡ t = ap (λ (p : Result (Unit {0}) × State). p.1) h in
      let at_height : block_by_height c height ≡ some b =
        subst (λ i. block_by_height c i ≡ some b) (omega arith) found in
      let k' =
        subst (λ x. process_block_for crypto policy b b.miner_address x ≡ (ok n, u)) (sym e) k in
      ground (arith, at_height, k', paid)
  replay_more c policy (suc rounds) height n b s t u h found paid k =
      elim (Option-cases (block_by_height c height)) [
        | inl g ↦ absurd (ground (arith, g))
        | inr (a, g) ↦ elim (Result-cases (process_block_for crypto policy a a.miner_address s).0) [
          | inr (x, f) ↦ absurd (ground (arith, g, f))
          | inl (m, f) ↦
              let next = (process_block_for crypto policy a a.miner_address s).1 in
              ground (
                arith,
                g,
                f,
                replay_more c policy rounds (height + 1) n b next t u (ground (arith, g, f))
                    (subst (λ i. block_by_height c i ≡ some b) (omega arith) found) paid k,
              )
        ]
      ]

  heights_same :
      (c d : Chain) (b : Block) (i : ℕ)
      → d.blocks ≡ c.blocks ++ (b ∷ [])
      → i < length c.blocks
      → block_by_height c i ≡ block_by_height d i
  unfolding block_by_height
  heights_same c d b i e lt =
      let same : get_elem? d.blocks i ≡ get_elem? c.blocks i =
        ap (λ (xs : List Block). get_elem? xs i) e ∙ get_elem?-append c.blocks (b ∷ []) i lt in
      ground (arith, same)

  found_last :
      (c d : Chain) (b : Block)
      → d.blocks ≡ c.blocks ++ (b ∷ [])
      → b.height ≡ length c.blocks
      → block_by_height d b.height ≡ some b
  unfolding block_by_height
  found_last c d b e h = ground (
    arith,
    ap (λ (xs : List Block). get_elem? xs b.height) e,
    subst (λ i. get_elem? (c.blocks ++ (b ∷ [])) i ≡ some b) (sym h)
        (get_elem?-append_end c.blocks b),
  )

  pub height_last :
      (c d : Chain) (b : Block) → d.blocks ≡ c.blocks ++ (b ∷ []) → chain_height d ≡ b.height
  unfolding chain_height
  height_last c d b e =
      let found : last_block d.blocks ≡ some b = ap last_block e ∙ last_block-append c.blocks b in
      ground (arith, found)

  pub built_parts :
      (c : Chain) (s : State)
      → build_state_from_chain crypto c ≡ ok s
      → (policy : ℕ) × (start : State) × (chain_monetary_policy c ≡ ok policy)
        × (new_state_for policy ≡ ok start)
        × (replay_blocks crypto c policy (chain_height c) 1 start ≡ (ok tt, s))
  unfolding build_state_from_chain
  built_parts c s h =
      let (policy, e, h1) =
        >>=-eq-ok (chain_monetary_policy c)
          (λ policy. new_state_for policy >>= λ state.
            rebuilt (replay_blocks crypto c policy (chain_height c) 1 state))
          h in
      let (start, f, h2) =
        >>=-eq-ok (new_state_for policy)
          (λ state. rebuilt (replay_blocks crypto c policy (chain_height c) 1 state)) h1 in
      (
        policy,
        start,
        e,
        f,
        rebuilt_ok (replay_blocks crypto c policy (chain_height c) 1 start) s h2,
      )

  from_parts :
      (c : Chain) (policy : ℕ) (start s : State)
      → chain_monetary_policy c ≡ ok policy
      → new_state_for policy ≡ ok start
      → replay_blocks crypto c policy (chain_height c) 1 start ≡ (ok tt, s)
      → build_state_from_chain crypto c ≡ ok s
  unfolding build_state_from_chain
  from_parts c policy start s e f h = rw (e, f, h) refl

  -- The state of a numbered chain, processed with the block that is added, is the state of the new chain.
  pub build_state_grows :
      (c d : Chain) (b : Block) (policy n : ℕ) (s t : State)
      → IsNumbered c
      → Extends (b ∷ []) c d
      → b.height ≡ chain_height c + 1
      → is_empty b.miner_address ≡ false
      → chain_monetary_policy c ≡ ok policy
      → build_state_from_chain crypto c ≡ ok s
      → process_block_for crypto policy b b.miner_address s ≡ (ok n, t)
      → IsNumbered d × (build_state_from_chain crypto d ≡ ok t)
  build_state_grows c d b policy n s t numbered grown next paid same built done =
      let (p, start, e, f, h) = built_parts c s built in
      let same_policy : p ≡ policy = ok_value p policy (sym e ∙ same) in
      let rounds = chain_height c in
      let kept : chain_monetary_policy d ≡ ok p = same_rules c d p grown.same_network e in
      let prefix : replay_blocks crypto d p rounds 1 start ≡ (ok tt, s) =
        sym (
          replay_agree c d p rounds 1 start
            (λ i lt. heights_same c d b i grown.appended (omega arith)))
        ∙ h in
      let found : block_by_height d (1 + rounds) ≡ some b =
        subst (λ i. block_by_height d i ≡ some b) (omega arith)
          (found_last c d b grown.appended (omega arith)) in
      let whole = replay_more d p rounds 1 n b start s t prefix found paid (
        subst (λ q. process_block_for crypto q b b.miner_address s ≡ (ok n, t)) (sym same_policy)
          done) in
      let up : chain_height d ≡ suc rounds = height_last c d b grown.appended ∙ omega arith in
      (
        ap length grown.appended ∙ omega (arith, length-append c.blocks (b ∷ [])),
        from_parts d p start t kept f
            (subst (λ k. replay_blocks crypto d p k 1 start ≡ (ok tt, t)) (sym up) whole),
      )
