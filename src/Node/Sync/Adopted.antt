-- ===== src/Node/Sync/Adopted.antt =====
-- Synchronization with a peer keeps a node consistent.
use sudharma.Base.{
  Bytes, List, Option, Option-cases, Result, Result-cases, arith, download_failed, false, inl, inr,
  none, ok, some, subst, true, u64_mod, wrap, ℕ, ℤ, ◌+◌, ◌<◌, ◌>>=◌, ◌≡◌,
}
use sudharma.Blocks.Record.{Block}
use sudharma.Chain.Choice.{better_chain, candidate_chain, current_chain}
use sudharma.Chain.Grow.{IsNumbered}
use sudharma.Chain.Record.{Chain}
use sudharma.Crypto.{Crypto}
use sudharma.Node.Consistent.{IsConsistent}
use sudharma.Node.Record.{Node}
use sudharma.Node.Runs.{reorganize-IsConsistent}
use sudharma.Node.Sync.{
  PeerStatus, download_candidate_chain, peer_chain_status, set_string, sync_candidate,
  sync_from_peer, worth_download,
}
use sudharma.Node.Sync.Laws.{download_candidate_chain-IsDownloaded}

module _ (crypto : Crypto) where
  told :
      (peer : PeerStatus) (height work : ℕ) (tip_hash : Bytes)
      → peer_chain_status (some peer) ≡ ok (height, tip_hash, work)
      → height ≡ peer.height
  unfolding peer_chain_status
  told peer height work tip_hash h = elim (Option-cases (set_string peer.total_work)) [
    | inl e ↦ absurd (ground (arith, e))
    | inr ((negative, value), e) ↦ ground (arith, e)
  ]

  -- The end of `sync_candidate`.
  downloaded-IsNumbered :
      (clock : ℕ → ℤ) (height : ℕ) (answer : ℕ → ℕ → Result (List (Option Block))) (timeout : ℤ)
      (tip_hash : Bytes) (work : ℕ) (c candidate : Chain)
      → height + 1 < u64_mod
      → (wrap download_failed
            (download_candidate_chain crypto clock height answer timeout tip_hash work)
          >>= λ downloaded. better_chain c downloaded >>= λ best.
              ok (elim best [ current_chain ↦ none | candidate_chain ↦ some downloaded ]))
        ≡ ok (some candidate)
      → IsNumbered candidate
  downloaded-IsNumbered clock height answer timeout tip_hash work c candidate small h =
      elim (Result-cases
        (download_candidate_chain crypto clock height answer timeout tip_hash work)) [
          | inr (x, e) ↦ absurd (ground (arith, e))
          | inl (d, e) ↦ elim (Result-cases (better_chain c d)) [
            | inr (x, f) ↦ absurd (ground (arith, e, f))
            | inl (best, f) ↦
                let same : d ≡ candidate = ground (arith, e, f) in
                subst IsNumbered same
                  (download_candidate_chain-IsDownloaded crypto clock height answer timeout tip_hash
                    work d small e).candidate_numbered
          ]
        ]

  -- The candidate was downloaded from the peer, below the last height.
  sync_candidate-IsNumbered :
      (clock : ℕ → ℤ) (answer : ℕ → ℕ → Result (List (Option Block))) (timeout : ℤ)
      (peer : PeerStatus) (n : Node) (candidate : Chain)
      → peer.height + 1 < u64_mod
      → sync_candidate crypto clock answer timeout (some peer) n ≡ ok (some candidate)
      → IsNumbered candidate
  unfolding sync_candidate
  sync_candidate-IsNumbered clock answer timeout peer n candidate small h =
      elim (Option-cases n.chain) [
        | inl e ↦ absurd (ground (arith, e))
        | inr (c, e) ↦ elim (Option-cases n.state) [
          | inl f ↦ absurd (ground (arith, e, f))
          | inr (s, f) ↦ elim (Result-cases (peer_chain_status (some peer))) [
            | inr (x, g) ↦ absurd (ground (arith, e, f, g))
            | inl ((height, tip_hash, work), g) ↦
                elim (Result-cases (worth_download crypto c height tip_hash work)) [
                  | inr (x, k) ↦ absurd (ground (arith, e, f, g, k))
                  | inl (false, k) ↦ absurd (ground (arith, e, f, g, k))
                  | inl (true, k) ↦
                      let below : height + 1 < u64_mod =
                        rw (told peer height work tip_hash g) small in
                      downloaded-IsNumbered clock height answer timeout tip_hash work c candidate
                        below (ground (arith, e, f, g, k))
                ]
          ]
        ]
      ]

  -- Synchronization with a peer that tells less than the last height keeps a node consistent, whatever the
  -- peer tells and sends.
  pub sync_from_peer-IsConsistent :
      (clock clock' later : ℕ → ℤ) (answer : ℕ → ℕ → Result (List (Option Block))) (timeout : ℤ)
      (peer : PeerStatus) (n : Node)
      → peer.height + 1 < u64_mod
      → IsConsistent crypto n
      → IsConsistent crypto
          (sync_from_peer crypto clock clock' later answer timeout (some peer) n).1
  unfolding sync_from_peer
  sync_from_peer-IsConsistent clock clock' later answer timeout peer n small i =
      elim (Result-cases (sync_candidate crypto clock answer timeout (some peer) n)) [
        | inr (x, e) ↦ rw (e, sync_from_peer) i
        | inl (none, e) ↦ rw (e, sync_from_peer) i
        | inl (some candidate, e) ↦
            rw (e, sync_from_peer)
              (reorganize-IsConsistent crypto clock' later candidate n
                (sync_candidate-IsNumbered clock answer timeout peer n candidate small e) i)
      ]
