-- ===== src/Rpc/Base64.antt =====
-- `base64.RawURLEncoding` of Go's encoding/base64: the URL alphabet, without padding.
use sudharma.Base.{
  All, Bytes, List, Option, [], ap, ap₂, arith, if◌then◌else◌, leb, length, ltb, nat_eq, none, refl,
  some, ℕ, ◌%◌, ◌&&◌, ◌*◌, ◌+◌, ◌-◌, ◌/◌, ◌<◌, ◌∷◌, ◌≡◌, ◌≤◌,
}

unfoldable pub symbol : ℕ → ℕ
symbol n =
    if ltb n 26
    then b'A' + n
    else if ltb n 52
    then b'a' + (n - 26)
    else if ltb n 62
    then b'0' + (n - 52)
    else if nat_eq n 62
    then b'-'
    else b'_'

unfoldable pub symbol_value : ℕ → Option ℕ
symbol_value c =
    if leb b'A' c && leb c b'Z'
    then some (c - b'A')
    else if leb b'a' c && leb c b'z'
    then some (c - b'a' + 26)
    else if leb b'0' c && leb c b'9'
    then some (c - b'0' + 52)
    else if nat_eq c b'-'
    then some 62
    else if nat_eq c b'_'
    then some 63
    else none

-- `EncodeToString`
unfoldable pub base64_encode : Bytes → Bytes
base64_encode [] = []
base64_encode (a ∷ []) = symbol (a / 4) ∷ symbol (a % 4 * 16) ∷ []
base64_encode (a ∷ b ∷ []) =
    symbol (a / 4) ∷ symbol (a % 4 * 16 + b / 16) ∷ symbol (b % 16 * 4) ∷ []
base64_encode (a ∷ b ∷ c ∷ rest) =
    symbol (a / 4)
    ∷ symbol (a % 4 * 16 + b / 16)
    ∷ symbol (b % 16 * 4 + c / 64)
    ∷ symbol (c % 64)
    ∷ base64_encode rest

-- The values of all symbols, if each is one.
unfoldable pub symbol_values : Bytes → Option (List ℕ)
symbol_values [] = some []
symbol_values (c ∷ cs) =
    let rest = symbol_values cs in
    elim (symbol_value c) [
      | none ↦ none
      | some v ↦ elim rest [ none ↦ none | some vs ↦ some (v ∷ vs) ]
    ]

-- The bytes of the values; bits that are left over are dropped, as the decoder is not strict.
unfoldable pub pack : List ℕ → Option Bytes
pack [] = some []
pack (v ∷ []) = none
pack (v ∷ w ∷ []) = some ((v * 4 + w / 16) ∷ [])
pack (v ∷ w ∷ x ∷ []) = some ((v * 4 + w / 16) ∷ (w % 16 * 16 + x / 4) ∷ [])
pack (v ∷ w ∷ x ∷ y ∷ rest) =
    let more = pack rest in
    elim more [
      | none ↦ none
      | some bytes ↦ some ((v * 4 + w / 16) ∷ (w % 16 * 16 + x / 4) ∷ (x % 4 * 64 + y) ∷ bytes)
    ]

-- `DecodeString`; line breaks, which the decoder skips, are left out
unfoldable pub base64_decode : Bytes → Option Bytes
base64_decode text = elim (symbol_values text) [ none ↦ none | some values ↦ pack values ]

-- Every entry is a byte.
abbrev pub AreBytes : Bytes → Type 0
AreBytes bytes = All (λ b. b < 256) bytes

symbol_value-symbol : (n : ℕ) → n < 64 → symbol_value (symbol n) ≡ some n
unfolding symbol_value symbol
symbol_value-symbol n h = ground arith

-- The values that the encoder writes.
unfoldable sextets : Bytes → List ℕ
sextets [] = []
sextets (a ∷ []) = (a / 4) ∷ (a % 4 * 16) ∷ []
sextets (a ∷ b ∷ []) = (a / 4) ∷ (a % 4 * 16 + b / 16) ∷ (b % 16 * 4) ∷ []
sextets (a ∷ b ∷ c ∷ rest) =
    (a / 4) ∷ (a % 4 * 16 + b / 16) ∷ (b % 16 * 4 + c / 64) ∷ (c % 64) ∷ sextets rest

values_encoded :
    (bytes : Bytes) → AreBytes bytes → symbol_values (base64_encode bytes) ≡ some (sextets bytes)
unfolding symbol_values base64_encode sextets
values_encoded [] h = refl
values_encoded (a ∷ []) (p, _) =
    rw
      (
        symbol_value-symbol (a / 4) (omega arith),
        symbol_value-symbol (a % 4 * 16) (omega arith),
        symbol_values,
      )
      refl
values_encoded (a ∷ b ∷ []) (p, (q, _)) =
    rw
      (
        symbol_value-symbol (a / 4) (omega arith),
        symbol_value-symbol (a % 4 * 16 + b / 16) (omega arith),
        symbol_value-symbol (b % 16 * 4) (omega arith),
        symbol_values,
      )
      refl
values_encoded (a ∷ b ∷ c ∷ rest) (p, (q, (r, h))) =
    rw
      (
        symbol_value-symbol (a / 4) (omega arith),
        symbol_value-symbol (a % 4 * 16 + b / 16) (omega arith),
        symbol_value-symbol (b % 16 * 4 + c / 64) (omega arith),
        symbol_value-symbol (c % 64) (omega arith),
        values_encoded rest h,
        symbol_values,
      )
      refl

pack-sextets : (bytes : Bytes) → AreBytes bytes → pack (sextets bytes) ≡ some bytes
unfolding pack sextets
pack-sextets [] h = refl
pack-sextets (a ∷ []) (p, _) = ap (λ x. some (x ∷ [])) (omega arith)
pack-sextets (a ∷ b ∷ []) (p, (q, _)) = ap₂ (λ x y. some (x ∷ y ∷ [])) (omega arith) (omega arith)
pack-sextets (a ∷ b ∷ c ∷ rest) (p, (q, (r, h))) =
    let first : a / 4 * 4 + (a % 4 * 16 + b / 16) / 16 ≡ a = omega arith in
    let second : (a % 4 * 16 + b / 16) % 16 * 16 + (b % 16 * 4 + c / 64) / 4 ≡ b = omega arith in
    let third : (b % 16 * 4 + c / 64) % 4 * 64 + c % 64 ≡ c = omega arith in
    rw (pack-sextets rest h, first, second, third, pack) refl

-- What was encoded is decoded to the same bytes.
pub base64_decode-base64_encode :
    (bytes : Bytes) → AreBytes bytes → base64_decode (base64_encode bytes) ≡ some bytes
unfolding base64_decode
base64_decode-base64_encode bytes h =
    rw (values_encoded bytes h, base64_decode) (pack-sextets bytes h)

pub length-base64_encode : (bytes : Bytes) → length (base64_encode bytes) ≤ 2 * length bytes
unfolding base64_encode
length-base64_encode [] = omega arith
length-base64_encode (a ∷ []) = omega arith
length-base64_encode (a ∷ b ∷ []) = omega arith
length-base64_encode (a ∷ b ∷ c ∷ rest) = omega (arith, length-base64_encode rest)
