-- ===== src/Blocks/Header.antt =====
-- blockchain/block.go: the header bytes and the double-SHA256 hash.
use sudharma.Base.{Bytes, [], max_u64, negsuc, pos, suc, zero, ℕ, ℤ, ◌%◌, ◌++◌, ◌-◌, ◌/◌, ◌^◌, ◌∷◌}
use sudharma.Blocks.Record.{Block}
use sudharma.Crypto.{Crypto, hex_encode}

-- `binary.BigEndian.PutUint32` and `PutUint64`: the lowest `width` bytes of a number, highest first.
unfoldable pub big_endian : ℕ → ℕ → Bytes
big_endian zero value = []
big_endian (suc width) value = value / 256 ^ width % 256 ∷ big_endian width value

-- `uint64(t)` of an int64
unfoldable pub unsigned64 : ℤ → ℕ
unsigned64 (pos n) = n
unsigned64 (negsuc n) = max_u64 - n

-- `HeaderBytes`
unfoldable pub header_bytes : Block → ℕ → Bytes
header_bytes b nonce =
    big_endian 4 b.version
    ++ (big_endian 8 b.height
        ++ (big_endian 8 (unsigned64 b.timestamp)
            ++ (b.previous_hash
                ++ (b.merkle_root
                    ++ (b.miner_address ++ (big_endian 4 b.difficulty ++ big_endian 8 nonce))))))

module _ (crypto : Crypto) where
  -- `Hash`
  unfoldable pub block_hash : Block → Bytes
  block_hash b = hex_encode (crypto.sha256 (crypto.sha256 (header_bytes b b.nonce)))
