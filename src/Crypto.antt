-- ===== src/Crypto.antt =====
-- What the program calls of Go's crypto packages, and the encodings around it: crypto/sha256,
-- crypto/ecdsa over P-256 and crypto/elliptic are a parameter; encoding/hex and big-endian integers
-- are defined. wallet/wallet.go and wallet/address.go derive and check addresses and signatures.
use sudharma.Base.{
  Bool, Bytes, Option, Result, [], drop, err, false, if◌then◌else◌, invalid_address, leb, length,
  ltb, nat_eq, none, not, ok, some, take, true, ℕ, ◌%◌, ◌&&◌, ◌*◌, ◌+◌, ◌-◌, ◌/◌, ◌||◌, ◌∷◌,
}

pub record Crypto : Type 0 where
  -- `sha256.Sum256`
  pub sha256 : Bytes → Bytes
  -- `elliptic.Unmarshal`: the point of an encoded public key
  pub unmarshal : Bytes → Option (ℕ × ℕ)
  -- `ecdsa.Verify` of a point, a digest, and `r` and `s`
  pub ecdsa_verify : ℕ × ℕ → Bytes → ℕ → ℕ → Bool

unfoldable pub hex_digit : ℕ → ℕ
hex_digit n = if ltb n 10 then b'0' + n else b'a' + (n - 10)

-- `hex.EncodeToString`
unfoldable pub hex_encode : Bytes → Bytes
unfolding hex_digit
hex_encode [] = []
hex_encode (b ∷ bs) = hex_digit (b / 16) ∷ hex_digit (b % 16) ∷ hex_encode bs

-- `new(big.Int).SetBytes`
unfoldable pub set_bytes : ℕ → Bytes → ℕ
set_bytes acc [] = acc
set_bytes acc (b ∷ bs) = set_bytes (acc * 256 + b) bs

-- `^[0-9a-f]$`
unfoldable pub is_lower_hex : ℕ → Bool
is_lower_hex c = (leb b'0' c && leb c b'9') || (leb b'a' c && leb c b'f')

unfoldable pub all_lower_hex : Bytes → Bool
unfolding is_lower_hex
all_lower_hex [] = true
all_lower_hex (c ∷ cs) = is_lower_hex c && all_lower_hex cs

-- `ValidateAddress` of wallet/address.go: the pattern `^[0-9a-f]{40}$`
unfoldable pub validate_address : Bytes → Result (Unit {0})
unfolding all_lower_hex
validate_address address =
    if nat_eq (length address) 40 && all_lower_hex address then ok tt else err invalid_address

module _ (crypto : Crypto) where
  -- `AddressFromPublicKey`
  unfoldable pub address_from_public_key : Bytes → Bytes
  address_from_public_key public_key = hex_encode (take 20 (crypto.sha256 public_key))

  -- `VerifySignature`
  unfoldable pub verify_signature : Bytes → Bytes → Bytes → Bool
  verify_signature public_key message signature =
      if not (nat_eq (length signature) 64) then false else elim (crypto.unmarshal public_key) [
        | none ↦ false
        | some point ↦
            crypto.ecdsa_verify point (crypto.sha256 message) (set_bytes 0 (take 32 signature))
              (set_bytes 0 (drop 32 signature))
      ]
