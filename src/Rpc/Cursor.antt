-- ===== src/Rpc/Cursor.antt =====
-- rpc/explorer_cursor.go: the cursor of a page.
use sudharma.Rpc.Base64.{
  base64_decode, base64_decode-base64_encode, base64_encode, length-base64_encode,
}
use sudharma.Base.{
  All, Bytes, List, Result, [], ap, arith, err, false, if◌then◌else◌, invalid_cursor, is_empty,
  length, length-append, ltb, nat_eq, none, not, ok, refl, some, true, u64_mod, ℕ, ◌++◌, ◌<◌, ◌||◌,
  ◌∙◌, ◌∷◌, ◌≡◌, ◌≤◌,
}
use sudharma.Crypto.{all_lower_hex, is_lower_hex}
use sudharma.Rpc.Base64.{
  base64_decode, base64_decode-base64_encode, base64_encode, length-base64_encode,
}
use sudharma.Rpc.Decimal.{decimal-IsDigit, length-decimal, parse_uint, parse_uint-decimal}
use sudharma.Transactions.Identity.{decimal}

abbrev pub max_explorer_cursor_bytes : ℕ
max_explorer_cursor_bytes = 256

pub record ExplorerCursor : Type 0 where
  pub height : ℕ
  pub offset : ℕ
  pub block_hash : Bytes

abbrev colon : ℕ
colon = b':'

unfoldable pub cursor_payload : ExplorerCursor → Bytes
cursor_payload c = decimal c.height ++ (colon ∷ (decimal c.offset ++ (colon ∷ c.block_hash)))

-- `encodeExplorerCursor`
unfoldable pub encode_explorer_cursor : ExplorerCursor → Bytes
encode_explorer_cursor c = base64_encode (cursor_payload c)

-- `strings.Split(payload, ":")`: the first part, and the others
unfoldable pub split_colons : Bytes → Bytes × List Bytes
split_colons [] = ([], [])
split_colons (c ∷ cs) =
    let (part, parts) = split_colons cs in
    if nat_eq c colon then ([], part ∷ parts) else (c ∷ part, parts)

-- The parts of a payload, if they are well-formed.
unfoldable pub read_parts : Bytes × List Bytes → Result ExplorerCursor
read_parts (a, b ∷ c ∷ []) =
    if not (nat_eq (length c) 64) || not (all_lower_hex c)
    then err invalid_cursor
    else elim (parse_uint a) [
      | none ↦ err invalid_cursor
      | some height ↦ elim (parse_uint b) [
        | none ↦ err invalid_cursor
        | some offset ↦ ok (record { height = height; offset = offset; block_hash = c })
      ]
    ]
read_parts (a, []) = err invalid_cursor
read_parts (a, b ∷ []) = err invalid_cursor
read_parts (a, b ∷ c ∷ d ∷ rest) = err invalid_cursor

-- `decodeExplorerCursor`
unfoldable pub decode_explorer_cursor : Bytes → Result ExplorerCursor
decode_explorer_cursor raw =
    if is_empty raw || ltb max_explorer_cursor_bytes (length raw)
    then err invalid_cursor
    else elim (base64_decode raw) [
      | none ↦ err invalid_cursor
      | some payload ↦
          if nat_eq (length payload) 0 || ltb max_explorer_cursor_bytes (length payload)
          then err invalid_cursor
          else read_parts (split_colons payload)
    ]

-- A cursor as the explorer makes them: of uint64 numbers and a block hash.
pub record IsWellFormed (c : ExplorerCursor) : Type 0 where
  pub height_fits : c.height < u64_mod
  pub offset_fits : c.offset < u64_mod
  pub hash_long : length c.block_hash ≡ 64
  pub hash_hex : all_lower_hex c.block_hash ≡ true

-- Text without a colon.
abbrev NoColon : Bytes → Type 0
NoColon text = All (λ c. (nat_eq c colon ≡ false) × (c < 256)) text

digits-NoColon : (text : Bytes) → All (λ c. (b'0' ≤ c) × (c ≤ b'9')) text → NoColon text
digits-NoColon [] h = tt
digits-NoColon (c ∷ text) ((p, q), h) = ((ground arith, omega arith), digits-NoColon text h)

hex-NoColon : (text : Bytes) → all_lower_hex text ≡ true → NoColon text
unfolding all_lower_hex is_lower_hex
hex-NoColon [] h = tt
hex-NoColon (c ∷ text) h = ((ground arith, ground arith), hex-NoColon text (ground arith))

split_colons-part :
    (text rest : Bytes)
    → NoColon text
    → split_colons (text ++ (colon ∷ rest)) ≡ (text, (split_colons rest).0 ∷ (split_colons rest).1)
unfolding split_colons
split_colons-part [] rest h = refl
split_colons-part (c ∷ text) rest ((p, _), h) = rw (p, split_colons-part text rest h) refl

split_colons-last : (text : Bytes) → NoColon text → split_colons text ≡ (text, [])
unfolding split_colons
split_colons-last [] h = refl
split_colons-last (c ∷ text) ((p, _), h) = rw (p, split_colons-last text h) refl

NoColon-append :
    (text rest : Bytes) → NoColon text → All (λ c. c < 256) rest → All (λ c. c < 256) (text ++ rest)
NoColon-append [] rest h k = k
NoColon-append (c ∷ text) rest ((_, p), h) k = (p, NoColon-append text rest h k)

NoColon-bytes : (text : Bytes) → NoColon text → All (λ c. c < 256) text
NoColon-bytes [] h = tt
NoColon-bytes (c ∷ text) ((_, p), h) = (p, NoColon-bytes text h)

payload_parts :
    (c : ExplorerCursor)
    → IsWellFormed c
    → split_colons (cursor_payload c) ≡ (decimal c.height, decimal c.offset ∷ c.block_hash ∷ [])
unfolding cursor_payload
payload_parts c w =
    let last = split_colons-last c.block_hash (hex-NoColon c.block_hash w.hash_hex) in
    let middle =
      split_colons-part (decimal c.offset) c.block_hash
        (digits-NoColon (decimal c.offset) (decimal-IsDigit c.offset)) in
    let first =
      split_colons-part (decimal c.height) (decimal c.offset ++ (colon ∷ c.block_hash))
        (digits-NoColon (decimal c.height) (decimal-IsDigit c.height)) in
    rw (first, middle, last) refl

payload_bytes : (c : ExplorerCursor) → IsWellFormed c → All (λ b. b < 256) (cursor_payload c)
unfolding cursor_payload
payload_bytes c w =
    NoColon-append (decimal c.height) _
      (digits-NoColon (decimal c.height) (decimal-IsDigit c.height))
      (
        omega arith,
        NoColon-append (decimal c.offset) _
            (digits-NoColon (decimal c.offset) (decimal-IsDigit c.offset))
            (omega arith, NoColon-bytes c.block_hash (hex-NoColon c.block_hash w.hash_hex)),
      )

payload_length :
    (c : ExplorerCursor)
    → IsWellFormed c
    → (length (cursor_payload c) ≤ 106) × (0 < length (cursor_payload c))
unfolding cursor_payload
payload_length c w =
    let inner = colon ∷ c.block_hash in
    let tail = colon ∷ (decimal c.offset ++ inner) in
    let a = length-append (decimal c.height) tail in
    let b = length-append (decimal c.offset) inner in
    let p = length-decimal c.height in
    let q = length-decimal c.offset in let l = w.hash_long in (omega arith, omega arith)

parts_read :
    (c : ExplorerCursor)
    → IsWellFormed c
    → read_parts (decimal c.height, decimal c.offset ∷ c.block_hash ∷ []) ≡ ok c
unfolding read_parts
parts_read c w = ground (
  arith,
  parse_uint-decimal c.height w.height_fits,
  parse_uint-decimal c.offset w.offset_fits,
  w.hash_long,
  w.hash_hex,
)

encoded_some : (bytes : Bytes) → 0 < length bytes → is_empty (base64_encode bytes) ≡ false
unfolding base64_encode
encoded_some [] h = absurd (omega arith)
encoded_some (a ∷ []) h = refl
encoded_some (a ∷ b ∷ []) h = refl
encoded_some (a ∷ b ∷ c ∷ rest) h = refl

-- A cursor of uint64 numbers and a hash of 64 lower-case hexadecimal digits is decoded to itself.
pub decode_explorer_cursor-encode_explorer_cursor :
    (c : ExplorerCursor) → IsWellFormed c → decode_explorer_cursor (encode_explorer_cursor c) ≡ ok c
unfolding decode_explorer_cursor encode_explorer_cursor
decode_explorer_cursor-encode_explorer_cursor c w =
    let payload = cursor_payload c in
    let (short, some_bytes) = payload_length c w in
    let raw_length = length-base64_encode payload in
    let decoded = base64_decode-base64_encode payload (payload_bytes c w) in
    let parts : read_parts (split_colons payload) ≡ ok c =
      ap read_parts (payload_parts c w) ∙ parts_read c w in
    ground (arith, encoded_some payload some_bytes, decoded, parts)
