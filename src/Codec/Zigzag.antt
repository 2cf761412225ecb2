-- ===== src/Codec/Zigzag.antt =====
-- The zigzag code of signed integers.
use link_server.Base.{
  ℕ, ◌+◌, ◌-◌, ◌*◌, ◌/◌, ◌%◌, ◌^◌, ◌≤◌, ◌<◌, ◌≡◌, ◌⊎◌, inl, inr, arith, ltb, if◌then◌else◌,
  le-or-lt,
}
use link_server.Base.Bits.{bit_xor-ones, bit_xor-zero}
use link_server.Codec.{encode_zigzag32, decode_zigzag32, encode_zigzag64, decode_zigzag64}

-- Non-negative numbers go to the even numbers and negative ones to the odd numbers, by size.
pub encode_zigzag32-eq :
    (v : ℕ)
    → v < 2 ^ 32
    → encode_zigzag32 v ≡ (if ltb v (2 ^ 31) then 2 * v else 2 * (2 ^ 32 - v) - 1)
unfolding encode_zigzag32
encode_zigzag32-eq v h = ground (
  arith,
  bit_xor-ones 32 (v * 2 % 2 ^ 32) (omega arith),
  bit_xor-zero 32 (v * 2 % 2 ^ 32) (omega arith),
)

decode_zigzag32-eq :
    (w : ℕ) → w < 2 ^ 32 → decode_zigzag32 w ≡ (if ltb 0 (w % 2) then 2 ^ 32 - 1 - w / 2 else w / 2)
unfolding decode_zigzag32
decode_zigzag32-eq w h = elim (le-or-lt (w % 2) 0) [
  | inl even ↦
      let e : (2 ^ 32 - w % 2) % 2 ^ 32 ≡ 0 = omega arith in
      ground (arith, e, bit_xor-zero 32 (w / 2) (omega arith))
  | inr odd ↦
      let e : (2 ^ 32 - w % 2) % 2 ^ 32 ≡ 2 ^ 32 - 1 = omega arith in
      ground (arith, e, bit_xor-ones 32 (w / 2) (omega arith))
]

-- Decoding undoes encoding on every 32-bit integer.
pub decode_zigzag32-encode_zigzag32 : (v : ℕ) → v < 2 ^ 32 → decode_zigzag32 (encode_zigzag32 v) ≡ v
decode_zigzag32-encode_zigzag32 v h =
    rw (encode_zigzag32-eq v h)
      (ground (arith, decode_zigzag32-eq (2 * v), decode_zigzag32-eq (2 * (2 ^ 32 - v) - 1)))

-- The integers of 64 bits that fit in 32, as bit patterns.
abbrev pub Is32Bit : ℕ → Type 0
Is32Bit v = (v < 2 ^ 31) ⊎ ((2 ^ 64 - 2 ^ 31 ≤ v) × (v < 2 ^ 64))

encode_zigzag64-eq :
    (v : ℕ)
    → Is32Bit v
    → encode_zigzag64 v ≡ (if ltb v (2 ^ 63) then 2 * v else 2 * (2 ^ 64 - v) - 1)
unfolding encode_zigzag64
encode_zigzag64-eq v (inl h) =
    let e : v / 2 ^ 31 ≡ 0 = omega arith in
    ground (arith, e, bit_xor-zero 64 (v * 2 % 2 ^ 64) (omega arith))
encode_zigzag64-eq v (inr (lo, hi)) =
    let e : 2 ^ 64 - 2 ^ 33 + v / 2 ^ 31 ≡ 2 ^ 64 - 1 = omega arith in
    ground (arith, e, bit_xor-ones 64 (v * 2 % 2 ^ 64) (omega arith))

decode_zigzag64-eq :
    (w : ℕ) → w < 2 ^ 64 → decode_zigzag64 w ≡ (if ltb 0 (w % 2) then 2 ^ 64 - 1 - w / 2 else w / 2)
unfolding decode_zigzag64
decode_zigzag64-eq w h = elim (le-or-lt (w % 2) 0) [
  | inl even ↦
      let e : (2 ^ 64 - w % 2) % 2 ^ 64 ≡ 0 = omega arith in
      ground (arith, e, bit_xor-zero 64 (w / 2) (omega arith))
  | inr odd ↦
      let e : (2 ^ 64 - w % 2) % 2 ^ 64 ≡ 2 ^ 64 - 1 = omega arith in
      ground (arith, e, bit_xor-ones 64 (w / 2) (omega arith))
]

-- Decoding undoes encoding on the 64-bit integers that fit in 32 bits.
pub decode_zigzag64-encode_zigzag64 : (v : ℕ) → Is32Bit v → decode_zigzag64 (encode_zigzag64 v) ≡ v
decode_zigzag64-encode_zigzag64 v h =
    rw (encode_zigzag64-eq v h)
      (ground (arith, decode_zigzag64-eq (2 * v), decode_zigzag64-eq (2 * (2 ^ 64 - v) - 1)))
