-- ===== src/Transactions/Identity.antt =====
-- transactions/transaction.go, `NewTransaction` and `calculateID`: the identifier is the digest of
-- the fields joined by bars, numbers in decimal.
use sudharma.Base.{
  Bytes, Option, [], if◌then◌else◌, nat_eq, none, some, suc, zero, ℕ, ◌%◌, ◌++◌, ◌+◌, ◌/◌, ◌∷◌,
}
use sudharma.Crypto.{Crypto, hex_encode}
use sudharma.Transactions.Fee.{calculate_fee}
use sudharma.Transactions.Record.{Transaction}

-- The decimal digits of a number of at most `rounds` digits, before `out`.
unfoldable pub emit_digits : ℕ → ℕ → Bytes → Bytes
emit_digits zero n out = out
emit_digits (suc rounds) n out =
    let rest = emit_digits rounds (n / 10) ((b'0' + n % 10) ∷ out) in
    if nat_eq (n / 10) 0 then (b'0' + n % 10) ∷ out else rest

-- `%d` of a uint64, which has at most 20 digits
unfoldable pub decimal : ℕ → Bytes
unfolding emit_digits
decimal n = emit_digits 20 n []

abbrev pub bar : ℕ
bar = b'|'

-- `fmt.Sprintf("%s|%s|%d|%d|%d", ...)`
unfoldable pub id_preimage : Transaction → Bytes
id_preimage tx =
    tx.from
    ++ (bar ∷ tx.to
        ++ (bar ∷ decimal tx.amount ++ (bar ∷ decimal tx.fee ++ (bar ∷ decimal tx.nonce))))

module _ (crypto : Crypto) where
  unfoldable pub calculate_id : Transaction → Bytes
  calculate_id tx = hex_encode (crypto.sha256 (id_preimage tx))

  -- The variadic nonce is 0 where it is left out.
  unfoldable pub new_transaction : Bytes → Bytes → ℕ → Option ℕ → Transaction
  new_transaction from to amount nonce =
      let tx_nonce : ℕ = elim nonce [ none ↦ 0 | some n ↦ n ] in
      let tx : Transaction = record {
        id = [];
        from = from;
        to = to;
        amount = amount;
        fee = calculate_fee amount;
        nonce = tx_nonce;
        public_key = [];
        signature = [];
      } in
      record tx { id = calculate_id tx }
