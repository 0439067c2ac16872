-- ===== src/Tests/Fixtures.antt =====
-- The data of the concrete runs: a stand-in for the cryptography, accounts, a transaction, a block.
-- Every digest is 32 zero bytes, so the sender's address is forty zeros.
use sudharma.Base.{Bytes, [], arith, codes, pos, refl, some, suc, true, zero, ℕ, ◌∷◌}
use sudharma.Blocks.Record.{Block}
use sudharma.Crypto.{Crypto}
use sudharma.Dict.{total}
use sudharma.Ledger.Conserve.{Backed}
use sudharma.Params.{development_treasury_address, max_supply_for}
use sudharma.State.Monad.{State}
use sudharma.Transactions.Record.{IsU64, Transaction}

abbrev pub zero_bytes : ℕ → Bytes
zero_bytes zero = []
zero_bytes (suc n) = 0 ∷ zero_bytes n

abbrev pub toy_crypto : Crypto
toy_crypto = record {
  sha256 = λ bytes. zero_bytes 32;
  unmarshal = λ public_key. some (1, 2);
  ecdsa_verify = λ point digest r s. true;
}

abbrev pub alice : Bytes
alice = codes "0000000000000000000000000000000000000000"

abbrev pub bob : Bytes
bob = codes "1111111111111111111111111111111111111111"

abbrev pub payment : Transaction
payment = record {
  id = codes "0000000000000000000000000000000000000000000000000000000000000000";
  from = alice;
  to = bob;
  amount = 1000000;
  fee = 1000;
  nonce = 1;
  public_key = zero_bytes 65;
  signature = zero_bytes 64;
}

abbrev pub funded_state : State
funded_state = record {
  balances = (alice, 5000000) ∷ [];
  processed_tx = [];
  account_nonces = [];
  development_address = development_treasury_address;
  issued_supply = 5000000;
  monetary_policy = 1;
}

abbrev pub paid_state : State
paid_state = record {
  balances = (alice, 3999000) ∷ (bob, 1000000) ∷ (development_treasury_address, 100) ∷ [];
  processed_tx = (payment.id, true) ∷ [];
  account_nonces = (alice, 1) ∷ [];
  development_address = development_treasury_address;
  issued_supply = 5000000;
  monetary_policy = 1;
}

abbrev pub payment_block : Block
payment_block = record {
  version = 1;
  height = 1;
  timestamp = pos 1786924860;
  previous_hash = alice;
  merkle_root = [];
  difficulty = 1;
  nonce = 0;
  miner_address = bob;
  transactions = some payment ∷ [];
}

pub payment-IsU64 : IsU64 payment
payment-IsU64 = record {
  amount_fits = omega arith;
  fee_fits = omega arith;
  nonce_fits = omega arith;
}

pub funded_state-Backed : Backed 0 funded_state
unfolding total max_supply_for
funded_state-Backed = record { covered = refl; capped = omega arith }
