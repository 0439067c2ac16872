-- ===== src/Pow/Rng.antt =====
-- pow/gpu_pow_v1_rng.go: the KISS99 generator, and the registers of a lane that it fills
-- (pow/gpu_pow_v1_lane.go).
use Prim.Native.Nat.{bit_xor}
use sudharma.Base.{List, [], add32, suc, u32_mod, zero, ℕ, ◌%◌, ◌/◌, ◌^◌, ◌∷◌}
use sudharma.Pow.Words.{fnv1a, mul32}

abbrev pub fnv_offset_basis : ℕ
fnv_offset_basis = 0x811c9dc5

abbrev pub num_regs : ℕ
num_regs = 32

pub record Kiss99 : Type 0 where
  pub z : ℕ
  pub w : ℕ
  pub jsr : ℕ
  pub jcong : ℕ

-- `gpuV1NewKISS99`
unfoldable pub new_kiss99 : ℕ → ℕ → Kiss99
new_kiss99 seed_lo seed_hi =
    let z = fnv1a fnv_offset_basis seed_lo in
    let w = fnv1a z seed_hi in
    let jsr = fnv1a w seed_lo in
    let jcong = fnv1a jsr seed_hi in record { z = z; w = w; jsr = jsr; jcong = jcong }

-- `x << k` and `x >> k` of a uint32
abbrev shift_left32 : ℕ → ℕ → ℕ
shift_left32 value k = mul32 value (2 ^ k)

-- `next`: the number, and the generator that it leaves
unfoldable pub next : Kiss99 → ℕ × Kiss99
next r =
    let z = add32 (mul32 36969 (r.z % 65536)) (r.z / 65536) in
    let w = add32 (mul32 18000 (r.w % 65536)) (r.w / 65536) in
    let jcong = add32 (mul32 69069 r.jcong) 1234567 in
    let jsr1 = bit_xor r.jsr (shift_left32 r.jsr 17) in
    let jsr2 = bit_xor jsr1 (jsr1 / 2 ^ 13) in
    let jsr = bit_xor jsr2 (shift_left32 jsr2 5) in
    (
      add32 (bit_xor (add32 (shift_left32 z 16) w) jcong) jsr,
      record { z = z; w = w; jsr = jsr; jcong = jcong },
    )

-- The next numbers, as many as asked for.
unfoldable pub fill : ℕ → Kiss99 → List ℕ
fill zero r = []
fill (suc n) r = let (value, r') = next r in value ∷ fill n r'

-- `gpuV1InitLane`
unfoldable pub init_lane : ℕ → ℕ → List ℕ
init_lane seed lane = fill num_regs (record {
  z = fnv1a fnv_offset_basis (seed % u32_mod);
  w = fnv1a fnv_offset_basis (seed / u32_mod);
  jsr = fnv1a fnv_offset_basis lane;
  jcong = fnv1a fnv_offset_basis lane;
})
