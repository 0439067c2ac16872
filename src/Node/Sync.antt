-- ===== src/Node/Sync.antt =====
-- p2p/sync_handler.go: serving blocks, and synchronization with a peer. `answer` is what the peer
-- sends for a start height and a limit, or the failure of the request.
pub mod Laws
pub mod Adopted
use sudharma.Base.{
  Bool, Bytes, List, Option, Result, [], add64, bad_work, block_invalid, block_missing, block_nil,
  bytes_eq, candidate_invalid, chain_missing, download_failed, err, fail_if, false, if◌then◌else◌,
  is_empty, leb, leb_ℤ, length, ltb, min, nat_eq, no_blocks_returned, no_genesis, none, not, ok,
  peer_missing, pos, request_failed, request_limit_large, request_limit_zero, rounds_used_up, some,
  state_missing, sub64, suc, true, unexpected_height, wrap, wrong_end, wrong_tip, wrong_work, zero,
  ℕ, ℤ, ◌&&◌, ◌*◌, ◌+◌, ◌-◌, ◌>>=◌, ◌>>◌, ◌||◌, ◌∷◌,
}
use sudharma.Blocks.Header.{block_hash}
use sudharma.Blocks.Record.{Block}
use sudharma.Chain.Choice.{better_chain, candidate_chain, current_chain}
use sudharma.Chain.Extend.{add_block, new_chain_for}
use sudharma.Chain.Record.{Chain, block_by_height, chain_height, tip}
use sudharma.Crypto.{Crypto}
use sudharma.Node.Record.{Node, attached}
use sudharma.Node.Recovery.{reorganize_with_mempool_recovery}
use sudharma.Params.{network_public_testnet}

abbrev pub max_blocks_per_message : ℕ
max_blocks_per_message = 128

-- The loop of `blocksFromHeight`: up to `limit` more blocks from `height` on.
unfoldable pub collect_blocks : Chain → ℕ → ℕ → Result (List Block)
collect_blocks c zero height = ok []
collect_blocks c (suc limit) height =
    let rest = collect_blocks c limit (add64 height 1) in
    if ltb (chain_height c) height then ok [] else elim (block_by_height c height) [
      | none ↦ err block_missing
      | some b ↦ rest >>= λ blocks. ok (b ∷ blocks)
    ]

-- `blocksFromHeight`
unfoldable pub blocks_from_height : Node → ℕ → ℕ → Result (List Block)
blocks_from_height n start_height limit = do
  fail_if (nat_eq limit 0) request_limit_zero
  fail_if (ltb max_blocks_per_message limit) request_limit_large
  c ← attached chain_missing n.chain
  collect_blocks c limit start_height

-- What a peer has told of its chain.
pub record PeerStatus : Type 0 where
  pub height : ℕ
  pub tip_hash : Bytes
  pub total_work : Bytes

-- Decimal digits, read from the left onto `value`.
unfoldable pub read_digits : Bytes → ℕ → Option ℕ
read_digits [] value = some value
read_digits (c ∷ digits) value =
    let rest = read_digits digits (10 * value + (c - b'0')) in
    if leb b'0' c && leb c b'9' then rest else none

-- `SetString` of a number in base 10, which may have a sign: whether it is negative, and its size.
unfoldable pub set_string : Bytes → Option (Bool × ℕ)
set_string [] = none
set_string (c ∷ digits) =
    let signed = nat_eq c b'-' || nat_eq c b'+' in
    let body = if signed then digits else c ∷ digits in
    if is_empty body
    then none
    else elim (read_digits body 0) [ none ↦ none | some n ↦ some (nat_eq c b'-' && ltb 0 n, n) ]

-- `peerChainStatus`, for the connected peer of that name, if there is one
unfoldable pub peer_chain_status : Option PeerStatus → Result (ℕ × Bytes × ℕ)
peer_chain_status none = err peer_missing
peer_chain_status (some p) = elim (set_string p.total_work) [
  | none ↦ err bad_work
  | some (negative, work) ↦ if negative then err bad_work else ok (p.height, p.tip_hash, work)
]

-- `RequestBlocks`
unfoldable pub request_blocks :
    (ℕ → ℕ → Result (List (Option Block))) → ℤ → ℕ → ℕ → Result (List (Option Block))
request_blocks answer timeout start_height limit = do
  fail_if (leb_ℤ timeout (pos 0)) request_failed
  fail_if (nat_eq limit 0 || ltb max_blocks_per_message limit) request_limit_large
  answer start_height limit

module _ (crypto : Crypto) (clock : ℕ → ℤ) (remote_height : ℕ) where
  -- The loop over one batch: the next height, and the candidate.
  unfoldable pub add_batch : List (Option Block) → ℕ → Chain → Result (ℕ × Chain)
  add_batch [] next candidate = ok (next, candidate)
  add_batch (none ∷ blocks) next candidate = err block_nil
  add_batch (some b ∷ blocks) next candidate =
      if not (nat_eq b.height next)
      then err unexpected_height
      else elim (add_block crypto (clock next) b candidate) [
        | err e ↦ err (block_invalid e)
        | ok d ↦ elim (ltb remote_height (add64 next 1)) [
          | true ↦ ok (add64 next 1, d)
          | false ↦ add_batch blocks (add64 next 1) d
        ]
      ]

  -- One batch: the request, and the loop over the blocks.
  unfoldable pub fetch_batch :
      (ℕ → ℕ → Result (List (Option Block))) → ℤ → ℕ → Chain → Result (ℕ × Chain)
  fetch_batch answer timeout next candidate = do
    blocks ← wrap download_failed (
        request_blocks answer timeout next
          (min (add64 (sub64 remote_height next) 1) max_blocks_per_message))
    fail_if (nat_eq (length blocks) 0) no_blocks_returned
    add_batch blocks next candidate

  -- The loop over the batches, for at most `rounds` of them.
  unfoldable pub download_batches :
      (ℕ → ℕ → Result (List (Option Block))) → ℤ → ℕ → ℕ → Chain → Result Chain
  download_batches answer timeout zero next candidate =
      if leb next remote_height then err rounds_used_up else ok candidate
  download_batches answer timeout (suc rounds) next candidate =
      if ltb remote_height next
      then ok candidate
      else elim (fetch_batch answer timeout next candidate) [
        | err e ↦ err e
        | ok (next', d) ↦ download_batches answer timeout rounds next' d
      ]

  -- The comparison of the candidate with what the peer has told.
  unfoldable pub check_end : Bytes → ℕ → Chain → Result (Unit {0})
  check_end remote_tip remote_work candidate = do
    fail_if (not (nat_eq (chain_height candidate) remote_height)) wrong_end
    fail_if
        (elim (tip candidate) [
          | none ↦ true
          | some b ↦ not (bytes_eq (block_hash crypto b) remote_tip)
        ])
        wrong_tip
    fail_if (not (nat_eq candidate.total_work remote_work)) wrong_work

  -- `downloadCandidateChain`; every batch has a block, so there are at most as many as the peer's height.
  unfoldable pub download_candidate_chain :
      (ℕ → ℕ → Result (List (Option Block))) → ℤ → Bytes → ℕ → Result Chain
  download_candidate_chain answer timeout remote_tip remote_work = do
    start ← new_chain_for crypto network_public_testnet
    candidate ← download_batches answer timeout remote_height 1 start
    check_end remote_tip remote_work candidate
    ok candidate

module _ (crypto : Crypto) where
  -- `SyncFromPeer` up to the download: whether the peer's chain may be better.
  unfoldable pub worth_download : Chain → ℕ → Bytes → ℕ → Result Bool
  worth_download c remote_height remote_tip remote_work = elim (tip c) [
    | none ↦ err no_genesis
    | some b ↦
        let same =
          nat_eq (chain_height c) remote_height && bytes_eq (block_hash crypto b) remote_tip in
        let worse = ltb remote_work c.total_work in
        let no_better = nat_eq remote_work c.total_work && leb remote_height (chain_height c) in
        ok (not (same || worse || no_better))
  ]

  -- The candidate that `SyncFromPeer` reorganizes to, if any.
  unfoldable pub sync_candidate :
      (ℕ → ℤ)
      → (ℕ → ℕ → Result (List (Option Block)))
      → ℤ
      → Option PeerStatus
      → Node
      → Result (Option Chain)
  sync_candidate clock answer timeout peer n = do
    fail_if (leb_ℤ timeout (pos 0)) request_failed
    c ← attached chain_missing n.chain
    _ ← attached state_missing n.state
    (remote_height, remote_tip, remote_work) ← peer_chain_status peer
    worth ← worth_download c remote_height remote_tip remote_work
    elim worth [
      | false ↦ ok none
      | true ↦ (do
        candidate ← wrap download_failed (
            download_candidate_chain crypto clock remote_height answer timeout remote_tip
              remote_work)
        best ← better_chain c candidate
        ok (elim best [ current_chain ↦ none | candidate_chain ↦ some candidate ]))
    ]

  -- `SyncFromPeer`, with the clock of the download and those of the reorganization. The chain that it
  -- leaves has a tip, as it is valid.
  unfoldable pub sync_from_peer :
      (ℕ → ℤ)
      → (ℕ → ℤ)
      → (ℕ → ℤ)
      → (ℕ → ℕ → Result (List (Option Block)))
      → ℤ
      → Option PeerStatus
      → Node
      → Result (Unit {0}) × Node
  sync_from_peer clock clock' later answer timeout peer n =
      elim (sync_candidate clock answer timeout peer n) [
        | err e ↦ (err e, n)
        | ok none ↦ (ok tt, n)
        | ok (some candidate) ↦
            let (r, n') = reorganize_with_mempool_recovery crypto clock' later (some candidate) n in
            (elim r [ err e ↦ err (candidate_invalid e) | ok _ ↦ ok tt ], n')
      ]
