-- ===== src/Tests/Policies.antt =====
-- Proofs, pools, peers and cursors on concrete data.
use sudharma.Base.{
  Bytes, List, Result, [], arith, bytes_keys, codes, false, if◌then◌else◌, ltb, map, mul64,
  nat_keys, none, ok, pos, refl, replicate, some, true, u64_mod, zeros, ℕ, ◌*◌, ◌+◌, ◌/◌, ◌<◌, ◌∷◌,
  ◌≡◌,
}
use sudharma.Blocks.Merkle.{hex_decode, hex_value}
use sudharma.Blocks.Record.{Block}
use sudharma.Chain.Policy.{legacy_only_pow_policy, valid_block_proof_of_work_core}
use sudharma.Consensus.Work.{target_from_difficulty, work_from_difficulty}
use sudharma.Crypto.{Crypto, all_lower_hex, hex_encode, is_lower_hex, set_bytes}
use sudharma.Dict.{get, total}
use sudharma.Peers.Diverse.{IsDiverse, PeerEvent, arrived, left, peers_after, peers_after-IsDiverse}
use sudharma.Peers.Scoring.{
  IsScore, apply_events, apply_events-IsScore, penalized, reward, rewarded, score, should_avoid,
  should_disconnect,
}
use sudharma.Peers.Table.{NetPackage, PeerConnection}
use sudharma.Pool.Engine.{Engine, Job, submit_repeatedly, submit_repeatedly_pays}
use sudharma.Pool.Payout.{apply_fee}
use sudharma.Pool.Record.{
  PayoutLedger, ShareCredit, ShareResult, WorkerIdentity, pplns, pps, share_valid,
}
use sudharma.Pool.Share.{
  Says, share_kind, share_value, validate_share, validate_share-Says, work_units,
}
use sudharma.Pow.Legacy.{check_legacy_block_same}
use sudharma.Pow.Permutation.{occurrences, register_permutations, register_permutations_once}
use sudharma.Pow.Reference.{check_legacy_block, hash_block, valid_hash}
use sudharma.Pow.Rng.{num_regs}
use sudharma.Pow.Verifier.{
  VerifierCache, new_chain_proof_verifier, proof_holds, verify_blocks, verify_blocks_uncached,
}
use sudharma.Rpc.Cursor.{
  ExplorerCursor, IsWellFormed, decode_explorer_cursor,
  decode_explorer_cursor-encode_explorer_cursor, encode_explorer_cursor,
}
use sudharma.Tests.Chains.{first_block, zero_hash}
use sudharma.Tests.Fixtures.{alice, bob, payment_block, toy_crypto}

abbrev toy_keccak : Bytes → Bytes
toy_keccak bytes = zeros 64

abbrev new_verifier : VerifierCache
new_verifier = record { cache_set = false; cache_epoch = 0; cache = [] }

new_verifier_made :
    new_chain_proof_verifier toy_crypto toy_keccak legacy_only_pow_policy 1 ≡ ok new_verifier
unfolding new_chain_proof_verifier
new_verifier_made = refl

verify_blocks_uncached_example :
    (verify_blocks toy_crypto toy_keccak legacy_only_pow_policy 1
      (first_block ∷ payment_block ∷ first_block ∷ [])
      new_verifier).0
    ≡ map
        (proof_holds toy_crypto toy_keccak legacy_only_pow_policy 1)
        (first_block ∷ payment_block ∷ first_block ∷ [])
verify_blocks_uncached_example =
    verify_blocks_uncached toy_crypto toy_keccak legacy_only_pow_policy 1
      (first_block ∷ payment_block ∷ first_block ∷ []) new_verifier new_verifier_made

register_permutations_once_example :
    (occurrences 5 (register_permutations 1 2).0 ≡ (if ltb 5 num_regs then 1 else 0))
    × (occurrences 5 (register_permutations 1 2).1 ≡ (if ltb 5 num_regs then 1 else 0))
register_permutations_once_example = register_permutations_once 1 2 5

check_legacy_block_same_example :
    check_legacy_block toy_crypto first_block
    ≡ valid_block_proof_of_work_core toy_crypto first_block
check_legacy_block_same_example = check_legacy_block_same toy_crypto first_block (omega arith)

abbrev first_cursor : ExplorerCursor
first_cursor = record { height = 907; offset = 12; block_hash = zero_hash }

first_cursor-IsWellFormed : IsWellFormed first_cursor
unfolding all_lower_hex is_lower_hex
first_cursor-IsWellFormed = record {
  height_fits = omega arith;
  offset_fits = omega arith;
  hash_long = refl;
  hash_hex = refl;
}

decode_explorer_cursor-encode_explorer_cursor_example :
    decode_explorer_cursor (encode_explorer_cursor first_cursor) ≡ ok first_cursor
decode_explorer_cursor-encode_explorer_cursor_example =
    decode_explorer_cursor-encode_explorer_cursor first_cursor first_cursor-IsWellFormed

-- Every address is of one group.
abbrev toy_net : NetPackage
toy_net = record {
  split_host_port = λ address. some address;
  parse_ip = λ host. some (10 ∷ 1 ∷ 2 ∷ 3 ∷ []);
}

abbrev connection_from : Bytes → PeerConnection
connection_from id = record {
  node_id = id;
  listen_address = codes "10.1.2.3:1";
  remote_address = codes "10.1.2.3:2";
  connection = 4;
}

abbrev connections : List PeerEvent
connections =
    arrived (connection_from alice)
    ∷ arrived (connection_from bob)
    ∷ arrived (connection_from zero_hash)
    ∷ left (connection_from alice)
    ∷ arrived (connection_from [])
    ∷ []

peers_after-IsDiverse_example : IsDiverse toy_net alice (peers_after toy_net alice connections [])
peers_after-IsDiverse_example = peers_after-IsDiverse toy_net alice connections

apply_events-IsScore_example :
    IsScore (score (apply_events (penalized alice (pos 70) ∷ rewarded bob (pos 400) ∷ []) []) alice)
    × (should_disconnect
            (apply_events (penalized alice (pos 70) ∷ rewarded bob (pos 400) ∷ []) [])
            alice
          ≡ true
        → should_avoid
            (apply_events (penalized alice (pos 70) ∷ rewarded bob (pos 400) ∷ []) [])
            alice
          ≡ true)
apply_events-IsScore_example =
    apply_events-IsScore (penalized alice (pos 70) ∷ rewarded bob (pos 400) ∷ []) alice

-- Every digest is 32 bytes of 128: of difficulty 1 and not of difficulty 4.
abbrev half_crypto : Crypto
half_crypto = record toy_crypto { sha256 = λ bytes. replicate 32 128 }

abbrev half_share : ShareResult
half_share = record {
  kind = share_valid;
  hash = codes "8080808080808080808080808080808080808080808080808080808080808080";
  nonce = 9;
  pool_difficulty = 1;
  block_difficulty = 4;
  share_work = 1;
  block_work = 4;
}

half_share_valid : validate_share half_crypto (some first_block) 9 1 4 ≡ ok half_share
unfolding validate_share share_kind hash_block work_units valid_hash hex_encode work_from_difficulty
    hex_decode target_from_difficulty hex_value set_bytes
half_share_valid = refl

validate_share-Says_example :
    (half_share.hash ≡ hash_block half_crypto first_block 9)
    × Says half_crypto half_share.hash 1 4 half_share.kind
validate_share-Says_example =
    validate_share-Says half_crypto first_block 9 1 4 half_share half_share_valid

abbrev worker : WorkerIdentity
worker = record { address = alice; worker_name = []; login = alice }

abbrev credit_of : ℕ → ShareCredit
credit_of work = record {
  worker = worker;
  work = work;
  value = 0;
  job_id = [];
  height = 1;
  is_block = false;
}

abbrev shares_ledger : PayoutLedger
shares_ledger = record {
  scheme = pplns;
  window = 10;
  pool_fee_bps = 100;
  balances = [];
  pending_ppln = credit_of 2 ∷ credit_of 3 ∷ [];
  blocks_found = 0;
  shares_seen = 2;
}

abbrev weigh_down : ℕ → ℕ → ℕ → ℕ
weigh_down reward work total = reward * work / total

abbrev paying_engine : Engine
paying_engine = record {
  cfg = record {
    network = codes "public-testnet";
    rpc_url = codes "http://127.0.0.1:8545";
    rpc_urls = [];
    payout_address = bob;
    payout_scheme = codes "pps";
    pool_difficulty = 1;
    fee_bps = 100;
    pplns_window = 10;
    stratum_listen = codes ":3333";
    work_poll_seconds = 5;
    expected_network = codes "sudharma";
  };
  ledger = record shares_ledger { scheme = pps };
  current = none;
  block_seq = 0;
}

abbrev first_job : Job
first_job = record {
  id = codes "sudh-1-1";
  height = 1;
  block_difficulty = 4;
  pool_difficulty = 1;
  block_reward = 4000;
  block = first_block;
}

abbrev take_block : Block → Result (Unit {0})
take_block b = ok tt

share_worth : 990 ≡ apply_fee (share_value 4000 1 4) 100
unfolding apply_fee share_value mul64
share_worth = refl

small_pay : get 0 alice paying_engine.ledger.balances + 3 * 990 < u64_mod
unfolding get
small_pay = omega arith

submit_repeatedly_pays_example :
    get 0 alice
      (submit_repeatedly half_crypto weigh_down take_block first_job worker 9 3
        paying_engine).ledger.balances
    ≡ get 0 alice paying_engine.ledger.balances + 3 * 990
submit_repeatedly_pays_example =
    submit_repeatedly_pays half_crypto weigh_down take_block first_job worker 9 3 990 paying_engine
      half_share half_share_valid refl refl share_worth small_pay
