-- ===== src/Pow/Words.antt =====
-- pow/gpu_pow_v1_mix.go: arithmetic on uint32, as GPUs do it, and little-endian words.
use Prim.Native.Nat.{bit_xor, bit_and, bit_or}
use sudharma.Base.{
  Bytes, [], add32, drop, if◌then◌else◌, ltb, nat_eq, suc, take, u32_mod, zero, ℕ, ◌%◌, ◌*◌, ◌++◌,
  ◌+◌, ◌-◌, ◌/◌, ◌^◌, ◌∷◌,
}

unfoldable pub mul32 : ℕ → ℕ → ℕ
mul32 a b = (a * b) % u32_mod

-- `bits.RotateLeft32` by an amount below 32
unfoldable pub rotate_left32 : ℕ → ℕ → ℕ
rotate_left32 value amount = (value * 2 ^ amount) % u32_mod + value / 2 ^ (32 - amount)

-- `gpuV1RotateLeft32` and `gpuV1RotateRight32`; the mask takes the amount modulo 32
unfoldable pub gpu_rotate_left32 : ℕ → ℕ → ℕ
gpu_rotate_left32 value amount = rotate_left32 value (amount % 32)

unfoldable pub gpu_rotate_right32 : ℕ → ℕ → ℕ
gpu_rotate_right32 value amount = rotate_left32 value ((32 - amount % 32) % 32)

-- `gpuV1MulHi32`
unfoldable pub mul_hi32 : ℕ → ℕ → ℕ
mul_hi32 a b = (a * b) / u32_mod

-- `bits.Len32`, for a number of at most `width` bits
unfoldable pub bit_length : ℕ → ℕ → ℕ
bit_length zero value = 0
bit_length (suc width) value =
    let rest = bit_length width (value / 2) in if nat_eq value 0 then 0 else suc rest

-- `gpuV1CLZ32`
unfoldable pub clz32 : ℕ → ℕ
clz32 value = 32 - bit_length 32 value

-- `bits.OnesCount32`, for a number of at most `width` bits
unfoldable pub ones : ℕ → ℕ → ℕ
ones zero value = 0
ones (suc width) value = value % 2 + ones width (value / 2)

-- `gpuV1PopCount32`
unfoldable pub pop_count32 : ℕ → ℕ
pop_count32 value = ones 32 value

-- `gpuV1FNV1a`
unfoldable pub fnv1a : ℕ → ℕ → ℕ
fnv1a a b = mul32 (bit_xor a b) 0x01000193

-- `gpuV1FNV`
unfoldable pub fnv : ℕ → ℕ → ℕ
fnv a b = bit_xor (mul32 a 0x01000193) b

-- `gpuV1RandomMath`
unfoldable pub random_math : ℕ → ℕ → ℕ → ℕ
random_math a b selector =
    let which = selector % 11 in
    if nat_eq which 0
    then add32 a b
    else if nat_eq which 1
    then mul32 a b
    else if nat_eq which 2
    then mul_hi32 a b
    else if nat_eq which 3
    then (if ltb a b then a else b)
    else if nat_eq which 4
    then gpu_rotate_left32 a b
    else if nat_eq which 5
    then gpu_rotate_right32 a b
    else if nat_eq which 6
    then bit_and a b
    else if nat_eq which 7
    then bit_or a b
    else if nat_eq which 8
    then bit_xor a b
    else if nat_eq which 9
    then clz32 a + clz32 b
    else pop_count32 a + pop_count32 b

-- `gpuV1RandomMerge`
unfoldable pub random_merge : ℕ → ℕ → ℕ → ℕ
random_merge a b selector =
    let x = (selector / 65536) % 31 + 1 in
    let which = selector % 4 in
    if nat_eq which 0
    then add32 (mul32 a 33) b
    else if nat_eq which 1
    then mul32 (bit_xor a b) 33
    else if nat_eq which 2
    then bit_xor (gpu_rotate_left32 a x) b
    else bit_xor (gpu_rotate_right32 a x) b

-- `binary.LittleEndian.PutUint32` and `PutUint64`: the lowest `width` bytes, lowest first
unfoldable pub little_endian : ℕ → ℕ → Bytes
little_endian zero value = []
little_endian (suc width) value = value % 256 ∷ little_endian width (value / 256)

-- `binary.LittleEndian.Uint32` and `Uint64` of as many bytes
unfoldable pub from_little_endian : Bytes → ℕ
from_little_endian [] = 0
from_little_endian (b ∷ bs) = b + 256 * from_little_endian bs

-- `gpuV1Word`: the word at an index of a node of 64 bytes
unfoldable pub word_at : Bytes → ℕ → ℕ
word_at node word = from_little_endian (take 4 (drop (word * 4) node))

-- `gpuV1PutWord`
unfoldable pub put_word : Bytes → ℕ → ℕ → Bytes
put_word node word value =
    take (word * 4) node ++ (little_endian 4 value ++ drop (word * 4 + 4) node)
