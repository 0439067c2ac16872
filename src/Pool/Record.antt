-- ===== src/Pool/Record.antt =====
-- pool/payout.go, pool/share.go and pool/worker.go: the records.
use sudharma.Base.{Bool, Bytes, List, false, true, ℕ}
use sudharma.Dict.{Dict}

pub data Scheme : Type 0 where
  solo pps pplns fpps : Scheme

pub record WorkerIdentity : Type 0 where
  pub address : Bytes
  pub worker_name : Bytes
  pub login : Bytes

pub data ShareKind : Type 0 where
  share_invalid share_valid share_block : ShareKind

pub record ShareResult : Type 0 where
  pub kind : ShareKind
  pub hash : Bytes
  pub nonce : ℕ
  pub pool_difficulty : ℕ
  pub block_difficulty : ℕ
  pub share_work : ℕ
  pub block_work : ℕ

pub record ShareCredit : Type 0 where
  pub worker : WorkerIdentity
  pub work : ℕ
  pub value : ℕ
  pub job_id : Bytes
  pub height : ℕ
  pub is_block : Bool

pub record PayoutLedger : Type 0 where
  pub scheme : Scheme
  pub window : ℕ
  pub pool_fee_bps : ℕ
  pub balances : Dict Bytes ℕ
  pub pending_ppln : List ShareCredit
  pub blocks_found : ℕ
  pub shares_seen : ℕ

-- `kind == ShareBlock`, and `kind == ShareValid || kind == ShareBlock`
abbrev pub is_block_kind : ShareKind → Bool
is_block_kind share_block = true
is_block_kind share_valid = false
is_block_kind share_invalid = false

abbrev pub is_paid_kind : ShareKind → Bool
is_paid_kind share_invalid = false
is_paid_kind share_valid = true
is_paid_kind share_block = true
