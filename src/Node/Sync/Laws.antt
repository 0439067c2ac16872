-- ===== src/Node/Sync/Laws.antt =====
-- A chain that was downloaded is valid and is what the peer has told; synchronization keeps the node
-- consistent.
use sudharma.Base.{rounds_used_up}
use sudharma.Base.{
  Bool-cases, Bytes, Error, List, Option, Option-cases, Result, Result-cases, [], add64,
  add64_exact, ap, arith, bytes_eq, bytes_eq_iff, err, inl, inr, length, length-append, ltb, min,
  nat_eq, none, ok, ok_value, refl, some, sub64, subst, suc, sym, u64_mod, zero, ℕ, ℤ, ◌+◌, ◌<◌,
  ◌∙◌, ◌∷◌, ◌≡◌, ◌≢◌, ◌≤◌,
}
use sudharma.Blocks.Genesis.{genesis_block, genesis_for, new_genesis_block}
use sudharma.Blocks.Header.{block_hash}
use sudharma.Blocks.Record.{Block}
use sudharma.Chain.Extend.{
  add_block, expected_genesis, new_chain_for, new_chain_for_with_consensus,
  new_chain_from_genesis_with_consensus,
}
use sudharma.Chain.Grow.{IsNumbered, height_last}
use sudharma.Chain.Policy.{legacy_proof_verifier, pow_policy_for_network, version_allowed}
use sudharma.Chain.Reachable.{IsValid, add_block-IsValid, new_chain-IsValid}
use sudharma.Chain.Rebuild.{add_block-Extends, new_chain-StartsWith}
use sudharma.Chain.Record.{Chain, chain_height, last_block, tip}
use sudharma.Crypto.{Crypto}
use sudharma.Node.Sync.{
  add_batch, check_end, download_batches, download_candidate_chain, fetch_batch,
  max_blocks_per_message, request_blocks,
}
use sudharma.Params.{monetary_policy_for, network_public_testnet}

module _ (crypto : Crypto) (clock : ℕ → ℤ) (remote_height : ℕ) where
  -- A candidate whose next height is `next`.
  pub record IsGrowing (next : ℕ) (c : Chain) : Type 0 where
    pub grown_valid : IsValid crypto c
    pub its_length : length c.blocks ≡ next
    pub its_height : chain_height c + 1 ≡ next

  start-IsGrowing : (c : Chain) → new_chain_for crypto network_public_testnet ≡ ok c → IsGrowing 1 c
  unfolding new_chain_for new_chain_for_with_consensus genesis_for bytes_eq chain_height last_block
      new_genesis_block genesis_block
  start-IsGrowing c h = elim (Result-cases (pow_policy_for_network network_public_testnet)) [
    | inr (x, e) ↦ absurd (ground (arith, e))
    | inl (policy, e) ↦
        let verifier = legacy_proof_verifier crypto in
        let made = rw (e, new_chain_for) at h in
        let s =
          new_chain-StartsWith crypto network_public_testnet new_genesis_block policy verifier c
            made in
        record {
          grown_valid =
              new_chain-IsValid crypto network_public_testnet new_genesis_block policy verifier c
                made;
          its_length = ap length s.only_genesis;
          its_height = rw s.only_genesis refl;
        }
  ]

  grown :
      (now : ℤ) (next : ℕ) (b : Block) (c d : Chain)
      → next + 1 < u64_mod
      → IsGrowing next c
      → b.height ≡ next
      → add_block crypto now b c ≡ ok d
      → IsGrowing (add64 next 1) d
  grown now next b c d below g at_next h =
      let e = add_block-Extends crypto now b c d h in
      let exact = add64_exact next 1 (omega arith) in
      record {
        grown_valid = add_block-IsValid crypto now b c d g.grown_valid h;
        its_length =
            ap length e.appended ∙ omega (arith, length-append c.blocks (b ∷ []), g.its_length);
        its_height = omega (arith, height_last crypto c d b e.appended);
      }

  -- What one batch leaves: the candidate has grown to a greater next height.
  batch_grows :
      (blocks : List (Option Block)) (next next' : ℕ) (c d : Chain)
      → remote_height + 1 < u64_mod
      → next ≤ remote_height
      → IsGrowing next c
      → add_batch crypto clock remote_height blocks next c ≡ ok (next', d)
      → IsGrowing next' d × (next + min (length blocks) 1 ≤ next') × (next' ≤ remote_height + 1)
  unfolding add_batch
  batch_grows [] next next' c d small le g h =
      let e = ok_value (next, c) (next', d) h in
      let same_next : next ≡ next' = ap (λ (p : ℕ × Chain). p.0) e in
      let same_chain : c ≡ d = ap (λ (p : ℕ × Chain). p.1) e in
      (rw (sym same_next, sym same_chain) g, omega arith, omega arith)
  batch_grows (none ∷ blocks) next next' c d small le g h = absurd (cc h)
  batch_grows (some b ∷ blocks) next next' c d small le g h =
      elim (Bool-cases (nat_eq b.height next)) [
        | inr e ↦ absurd (ground (arith, e))
        | inl e ↦ elim (Result-cases (add_block crypto (clock next) b c)) [
          | inr (x, f) ↦ absurd (ground (arith, e, f))
          | inl (m, f) ↦
              let exact = add64_exact next 1 (omega arith) in
              let g' = grown (clock next) next b c m (omega arith) g (ground (arith, e)) f in
              elim (Bool-cases (ltb remote_height (add64 next 1))) [
                | inl k ↦
                    let r = ok_value (add64 next 1, m) (next', d) (rw (e, f, k, add_batch) at h) in
                    let same_next : add64 next 1 ≡ next' = ap (λ (p : ℕ × Chain). p.0) r in
                    let same_chain : m ≡ d = ap (λ (p : ℕ × Chain). p.1) r in
                    (rw (sym same_next, sym same_chain) g', omega arith, omega arith)
                | inr k ↦
                    let (g'', more, most) =
                      batch_grows blocks (add64 next 1) next' m d small (ground (arith, k)) g'
                        (rw (e, f, k, add_batch) at h) in
                    (g'', omega arith, most)
              ]
        ]
      ]

  fetch_grows :
      (answer : ℕ → ℕ → Result (List (Option Block))) (timeout : ℤ) (next next' : ℕ) (c d : Chain)
      → remote_height + 1 < u64_mod
      → next ≤ remote_height
      → IsGrowing next c
      → fetch_batch crypto clock remote_height answer timeout next c ≡ ok (next', d)
      → IsGrowing next' d × (next < next') × (next' ≤ remote_height + 1)
  unfolding fetch_batch
  fetch_grows answer timeout next next' c d small le g h =
      let limit = min (add64 (sub64 remote_height next) 1) max_blocks_per_message in
      elim (Result-cases (request_blocks answer timeout next limit)) [
        | inr (x, e) ↦ absurd (ground (arith, e))
        | inl (blocks, e) ↦
            let (g', more, most) =
              batch_grows blocks next next' c d small le g (ground (arith, e)) in
            let some_blocks : 0 < length blocks = ground (arith, e) in (g', omega arith, most)
      ]

  download_grows :
      (answer : ℕ → ℕ → Result (List (Option Block))) (timeout : ℤ) (rounds next : ℕ) (c d : Chain)
      → remote_height + 1 < u64_mod
      → next ≤ remote_height + 1
      → IsGrowing next c
      → download_batches crypto clock remote_height answer timeout rounds next c ≡ ok d
      → (last : ℕ) × IsGrowing last d
  unfolding download_batches
  download_grows answer timeout zero next c d small le g h =
      let e : c ≡ d = ground arith in (next, rw (sym e) g)
  download_grows answer timeout (suc rounds) next c d small le g h =
      elim (Bool-cases (ltb remote_height next)) [
        | inl k ↦ let e : c ≡ d = ground (arith, k) in (next, rw (sym e) g)
        | inr k ↦
            elim (Result-cases (fetch_batch crypto clock remote_height answer timeout next c)) [
              | inr (x, f) ↦ absurd (ground (arith, k, f))
              | inl ((next', m), f) ↦
                  let (g', more, most) =
                    fetch_grows answer timeout next next' c m small (ground (arith, k)) g f in
                  download_grows answer timeout rounds next' m d small most g'
                    (rw (k, f, download_batches) at h)
            ]
      ]

  batch_error :
      (blocks : List (Option Block)) (next : ℕ) (c : Chain)
      → add_batch crypto clock remote_height blocks next c ≢ err rounds_used_up
  unfolding add_batch
  batch_error [] next c h = cc h
  batch_error (none ∷ blocks) next c h = cc h
  batch_error (some b ∷ blocks) next c h = elim (Result-cases (add_block crypto (clock next) b c)) [
    | inr (x, f) ↦ ground (arith, f)
    | inl (m, f) ↦ ground (arith, f, batch_error blocks (add64 next 1) m)
  ]

  fetch_error :
      (answer : ℕ → ℕ → Result (List (Option Block))) (timeout : ℤ) (next : ℕ) (c : Chain)
      → fetch_batch crypto clock remote_height answer timeout next c ≢ err rounds_used_up
  unfolding fetch_batch
  fetch_error answer timeout next c h =
      let limit = min (add64 (sub64 remote_height next) 1) max_blocks_per_message in
      elim (Result-cases (request_blocks answer timeout next limit)) [
        | inr (x, e) ↦ ground (arith, e)
        | inl (blocks, e) ↦ ground (arith, e, batch_error blocks next c)
      ]

  download_ends :
      (answer : ℕ → ℕ → Result (List (Option Block))) (timeout : ℤ) (rounds next : ℕ) (c : Chain)
      → remote_height + 1 < u64_mod
      → next ≤ remote_height + 1
      → remote_height < next + rounds
      → IsGrowing next c
      → download_batches crypto clock remote_height answer timeout rounds next c
        ≢ err rounds_used_up
  unfolding download_batches
  download_ends answer timeout zero next c small le enough g h = ground arith
  download_ends answer timeout (suc rounds) next c small le enough g h =
      elim (Bool-cases (ltb remote_height next)) [
        | inl k ↦ ground (arith, k)
        | inr k ↦
            elim (Result-cases (fetch_batch crypto clock remote_height answer timeout next c)) [
              | inr (x, f) ↦ fetch_error answer timeout next c (ground (arith, k, f))
              | inl ((next', m), f) ↦
                  let (g', more, most) =
                    fetch_grows answer timeout next next' c m small (ground (arith, k)) g f in
                  download_ends answer timeout rounds next' m small most (omega arith) g'
                    (rw (k, f, download_batches) at h)
            ]
      ]

  -- What a downloaded candidate is.
  pub record IsDownloaded (remote_tip : Bytes) (remote_work : ℕ) (c : Chain) : Type 0 where
    pub candidate_valid : IsValid crypto c
    pub candidate_numbered : IsNumbered c
    pub told_height : chain_height c ≡ remote_height
    pub told_tip : (b : Block) × (tip c ≡ some b) × (block_hash crypto b ≡ remote_tip)
    pub told_work : c.total_work ≡ remote_work

  ended :
      (remote_tip : Bytes) (remote_work last : ℕ) (c : Chain)
      → IsGrowing last c
      → check_end crypto clock remote_height remote_tip remote_work c ≡ ok tt
      → IsDownloaded remote_tip remote_work c
  unfolding check_end
  ended remote_tip remote_work last c g h = elim (Option-cases (tip c)) [
    | inl e ↦ absurd (ground (arith, e))
    | inr (b, e) ↦ record {
      candidate_valid = g.grown_valid;
      candidate_numbered = g.its_length ∙ sym g.its_height;
      told_height = ground (arith, e);
      told_tip = (b, e, ground (arith, e, bytes_eq_iff (block_hash crypto b) remote_tip));
      told_work = ground (arith, e);
    }
  ]

  -- A chain that was downloaded, from a peer that tells less than the last height, whatever it sends, is
  -- a valid chain with the height, the tip and the work that the peer has told.
  pub download_candidate_chain-IsDownloaded :
      (answer : ℕ → ℕ → Result (List (Option Block))) (timeout : ℤ) (remote_tip : Bytes)
      (remote_work : ℕ) (c : Chain)
      → remote_height + 1 < u64_mod
      → download_candidate_chain crypto clock remote_height answer timeout remote_tip remote_work
        ≡ ok c
      → IsDownloaded remote_tip remote_work c
  unfolding download_candidate_chain
  download_candidate_chain-IsDownloaded answer timeout remote_tip remote_work c small h =
      elim (Result-cases (new_chain_for crypto network_public_testnet)) [
        | inr (x, e) ↦ absurd (ground (arith, e))
        | inl (start, e) ↦
            elim (Result-cases
              (download_batches crypto clock remote_height answer timeout remote_height 1 start)) [
                | inr (x, f) ↦ absurd (ground (arith, e, f))
                | inl (d, f) ↦
                    elim (Result-cases
                      (check_end crypto clock remote_height remote_tip remote_work d)) [
                        | inr (x, k) ↦ absurd (ground (arith, e, f, k))
                        | inl (u, k) ↦
                            let (last, g) =
                              download_grows answer timeout remote_height 1 start d small
                                (omega arith) (start-IsGrowing start e) f in
                            let same : d ≡ c = ground (arith, e, f, k) in
                            subst (IsDownloaded remote_tip remote_work) same
                              (ended remote_tip remote_work last d g k)
                      ]
              ]
      ]

  start_error : (x : Error) → new_chain_for crypto network_public_testnet ≢ err x
  unfolding new_chain_for new_chain_for_with_consensus new_chain_from_genesis_with_consensus
      genesis_for bytes_eq pow_policy_for_network legacy_proof_verifier monetary_policy_for
      expected_genesis version_allowed new_genesis_block genesis_block
  start_error x h = ground (
    arith,
    bytes_eq_iff (block_hash crypto new_genesis_block) (block_hash crypto new_genesis_block),
  )

  -- The download from a peer that tells less than the last height ends, whatever the peer sends: as many
  -- rounds as the height that it tells are enough.
  pub download_candidate_chain_ends :
      (answer : ℕ → ℕ → Result (List (Option Block))) (timeout : ℤ) (remote_tip : Bytes)
      (remote_work : ℕ)
      → remote_height + 1 < u64_mod
      → download_candidate_chain crypto clock remote_height answer timeout remote_tip remote_work
        ≢ err rounds_used_up
  unfolding download_candidate_chain check_end
  download_candidate_chain_ends answer timeout remote_tip remote_work small h =
      elim (Result-cases (new_chain_for crypto network_public_testnet)) [
        | inr (x, e) ↦ absurd (start_error x e)
        | inl (start, e) ↦
            let never =
              download_ends answer timeout remote_height 1 start small (omega arith) (omega arith)
                (start-IsGrowing start e) in
            elim (Result-cases
              (download_batches crypto clock remote_height answer timeout remote_height 1 start)) [
                | inr (x, f) ↦ ground (arith, e, f, never)
                | inl (d, f) ↦ elim (Option-cases (tip d)) [
                  | inl k ↦ ground (arith, e, f, k)
                  | inr (b, k) ↦ ground (arith, e, f, k)
                ]
              ]
      ]
