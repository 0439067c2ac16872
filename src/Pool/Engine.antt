-- ===== src/Pool/Engine.antt =====
-- pool/config.go and pool/engine.go: the configuration, jobs, and the submission of a share. What a
-- work source answers is an argument.
use native.Mathlib.Nat.{suc-mul}
use sudharma.Base.{
  Bytes, List, Option, Result, add64, add64_exact, address_empty, ap, arith, bytes_keys, codes, err,
  fail_if, false, if◌then◌else◌, is_empty, length, nat_eq, nat_keys, none, ok, refl,
  rpc_url_missing, share_below_pool, some, submit_failed, suc, sym, true, u64_mod, work_missing,
  wrap, zero, ℕ, ◌&&◌, ◌*◌, ◌++◌, ◌+◌, ◌<◌, ◌>>=◌, ◌>>◌, ◌∙◌, ◌∷◌, ◌≡◌,
}
use sudharma.Blocks.Record.{Block}
use sudharma.Crypto.{Crypto}
use sudharma.Dict.{get, get-insert_self}
use sudharma.Pool.Payout.{
  add_balance, apply_fee, credit_scheme, credit_share, new_payout_ledger, normalize_payout_scheme,
}
use sudharma.Pool.Record.{
  PayoutLedger, Scheme, ShareCredit, ShareResult, WorkerIdentity, is_block_kind, is_paid_kind, pps,
  share_valid,
}
use sudharma.Pool.Share.{share_value, validate_share}
use sudharma.Pool.Worker.{parse_worker_identity, trim_space}
use sudharma.State.Methods.{credit}
use sudharma.Transactions.Identity.{decimal}

pub record Config : Type 0 where
  pub network : Bytes
  pub rpc_url : Bytes
  pub rpc_urls : List Bytes
  pub payout_address : Bytes
  pub payout_scheme : Bytes
  pub pool_difficulty : ℕ
  pub fee_bps : ℕ
  pub pplns_window : ℕ
  pub stratum_listen : Bytes
  pub work_poll_seconds : ℕ
  pub expected_network : Bytes

abbrev or_default : Bytes → Bytes → Bytes
or_default s d = if is_empty (trim_space s) then d else s

-- `ResolveConfig`; an integer that is not positive is 0 here. It gives the scheme that it normalized too.
unfoldable pub resolve_config : Config → Result (Config × Scheme)
resolve_config c = do
  fail_if (is_empty (trim_space c.payout_address)) address_empty
  identity ← parse_worker_identity c.payout_address
  scheme ← normalize_payout_scheme c.payout_scheme
  fail_if (is_empty (trim_space c.rpc_url) && nat_eq (length c.rpc_urls) 0) rpc_url_missing
  ok (
    record c {
      payout_address = identity.address;
      pool_difficulty = if nat_eq c.pool_difficulty 0 then 1 else c.pool_difficulty;
      pplns_window = if nat_eq c.pplns_window 0 then 10000 else c.pplns_window;
      stratum_listen = or_default c.stratum_listen (codes ":3333");
      work_poll_seconds = if nat_eq c.work_poll_seconds 0 then 5 else c.work_poll_seconds;
      expected_network = or_default c.expected_network (codes "sudharma");
      network = or_default c.network (codes "public-testnet");
    },
    scheme,
  )

-- The fields of a job that a share depends on.
pub record Job : Type 0 where
  pub id : Bytes
  pub height : ℕ
  pub block_difficulty : ℕ
  pub pool_difficulty : ℕ
  pub block_reward : ℕ
  pub block : Block

pub record Engine : Type 0 where
  pub cfg : Config
  pub ledger : PayoutLedger
  pub current : Option Job
  pub block_seq : ℕ

-- `NewEngine`
unfoldable pub new_engine : Config → Result Engine
new_engine c = do
  (cfg, scheme) ← resolve_config c
  ledger ← new_payout_ledger scheme cfg.pplns_window cfg.fee_bps
  ok (record { cfg = cfg; ledger = ledger; current = none; block_seq = 0 })

-- What a work source has to offer.
pub record Work : Type 0 where
  pub height : ℕ
  pub block_reward : ℕ
  pub block : Option Block

-- `RefreshWork`, with the work that the source gives for the payout address
unfoldable pub refresh_work : Result Work → Engine → Result Job × Engine
refresh_work work e = elim work [
  | err x ↦ (err x, e)
  | ok w ↦ elim w.block [
    | none ↦ (err work_missing, e)
    | some b ↦
        let seq = add64 e.block_seq 1 in
        let job : Job = record {
          id = codes "sudh-" ++ (decimal w.height ++ (b'-' ∷ decimal seq));
          height = w.height;
          block_difficulty = b.difficulty;
          pool_difficulty = e.cfg.pool_difficulty;
          block_reward = w.block_reward;
          block = b;
        } in
        (ok job, record e { current = some job; block_seq = seq })
  ]
]

module _ (crypto : Crypto) (weigh : ℕ → ℕ → ℕ → ℕ) where
  -- `SubmitShare`, with what the source answers to a submitted block
  unfoldable pub submit_share :
      (Block → Result (Unit {0}))
      → Job
      → WorkerIdentity
      → ℕ
      → Engine
      → Result (ShareResult × ShareCredit) × Engine
  submit_share submit_block job worker nonce e =
      elim (validate_share crypto (some job.block) nonce job.pool_difficulty job.block_difficulty) [
        | err x ↦ (err x, e)
        | ok result ↦ elim (is_paid_kind result.kind) [
          | false ↦ (err share_below_pool, e)
          | true ↦
              let (credit, ledger) =
                credit_share weigh job.block_reward result worker job.id job.height e.ledger in
              let found = record job.block {
                nonce = nonce;
                miner_address = e.cfg.payout_address;
              } in
              let submitted : Result (Unit {0}) =
                if is_block_kind result.kind
                then wrap submit_failed (submit_block found)
                else ok tt in
              (submitted >>= λ _. ok (result, credit), record e { ledger = ledger })
        ]
      ]

  -- The same share, submitted again and again.
  unfoldable pub submit_repeatedly :
      (Block → Result (Unit {0})) → Job → WorkerIdentity → ℕ → ℕ → Engine → Engine
  submit_repeatedly submit_block job worker nonce zero e = e
  submit_repeatedly submit_block job worker nonce (suc times) e =
      submit_repeatedly submit_block job worker nonce times
        (submit_share submit_block job worker nonce e).1

  -- One submission of a share that is valid but no block, where shares are paid.
  once_paid :
      (submit_block : Block → Result (Unit {0})) (job : Job) (worker : WorkerIdentity) (nonce : ℕ)
      (e : Engine) (r : ShareResult)
      → validate_share crypto (some job.block) nonce job.pool_difficulty job.block_difficulty ≡ ok r
      → r.kind ≡ share_valid
      → e.ledger.scheme ≡ pps
      → (get 0 worker.address (submit_share submit_block job worker nonce e).1.ledger.balances
          ≡ add64 (get 0 worker.address e.ledger.balances) (
              apply_fee
                (share_value job.block_reward r.pool_difficulty r.block_difficulty)
                e.ledger.pool_fee_bps))
        × ((submit_share submit_block job worker nonce e).1.ledger.scheme ≡ pps)
        × ((submit_share submit_block job worker nonce e).1.ledger.pool_fee_bps
            ≡ e.ledger.pool_fee_bps)
  unfolding submit_share credit_share credit_scheme add_balance
  once_paid submit_block job worker nonce e r h valid paid =
      let is_paid : is_paid_kind r.kind ≡ true = ap is_paid_kind valid in
      let no_block : is_block_kind r.kind ≡ false = ap is_block_kind valid in
      rw (h, is_paid, no_block, paid, is_paid, submit_share, credit_share, credit_scheme)
        (
          get-insert_self 0 worker.address
              (add64 (get 0 worker.address e.ledger.balances) (
                apply_fee (share_value job.block_reward r.pool_difficulty r.block_difficulty)
                  e.ledger.pool_fee_bps))
              e.ledger.balances,
          refl,
          refl,
        )

  -- Under the scheme that pays for shares, the same nonce of a worker, valid for the pool and no block, is
  -- paid its whole value each time that it is submitted, as long as the balance does not wrap.
  pub submit_repeatedly_pays :
      (submit_block : Block → Result (Unit {0})) (job : Job) (worker : WorkerIdentity)
      (nonce times value : ℕ) (e : Engine) (r : ShareResult)
      → validate_share crypto (some job.block) nonce job.pool_difficulty job.block_difficulty ≡ ok r
      → r.kind ≡ share_valid
      → e.ledger.scheme ≡ pps
      → value
        ≡ apply_fee
            (share_value job.block_reward r.pool_difficulty r.block_difficulty)
            e.ledger.pool_fee_bps
      → get 0 worker.address e.ledger.balances + times * value < u64_mod
      → get 0 worker.address
          (submit_repeatedly submit_block job worker nonce times e).ledger.balances
        ≡ get 0 worker.address e.ledger.balances + times * value
  unfolding submit_repeatedly
  submit_repeatedly_pays submit_block job worker nonce zero value e r h valid paid v fits =
      omega arith
  submit_repeatedly_pays submit_block job worker nonce (suc times) value e r h valid paid v fits =
      let e' = (submit_share submit_block job worker nonce e).1 in
      let (more, paid', fee) = once_paid submit_block job worker nonce e r h valid paid in
      let split : suc times * value ≡ times * value + value = suc-mul times value in
      let exact = add64_exact (get 0 worker.address e.ledger.balances) value (omega arith) in
      let grown : get 0 worker.address e'.ledger.balances
          ≡ get 0 worker.address e.ledger.balances + value =
        more ∙ rw (sym v) exact in
      let same : value
          ≡ apply_fee (share_value job.block_reward r.pool_difficulty r.block_difficulty)
              e'.ledger.pool_fee_bps =
        rw fee v in
      submit_repeatedly_pays submit_block job worker nonce times value e' r h valid paid' same
        (omega arith)
      ∙ omega arith
