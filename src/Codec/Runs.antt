-- ===== src/Codec/Runs.antt =====
-- Concrete runs of the codecs, and the theorems at concrete inputs.
use link_server.Base.{◌+◌, ◌^◌, ◌≡◌, refl, [], ◌∷◌, arith, ok, none, ◌>>=◌}
use link_server.ByteArray.{ByteArray, big, little, set_position}
use link_server.ByteArray.Invariant.{IsValid}
use link_server.Codec.{
  encode_zigzag32, decode_zigzag32, encode_zigzag64, decode_zigzag64, varint, byteswap, write_fixed,
  read_fixed, write_uint32, read_uint32,
}
use link_server.Codec.Zigzag.{decode_zigzag32-encode_zigzag32}
use link_server.Codec.Varint.{read_uint32-write_uint32}
use link_server.Codec.Fixed.{byteswap-byteswap, read_fixed-write_fixed}

-- An empty buffer with blocks of one byte.
abbrev unit_blocks : ByteArray
unit_blocks = record {
  base_size = 1;
  position = 0;
  capacity = 1;
  size = 0;
  endian = big;
  nodes = (none ∷ []) ∷ [];
  cur = 0;
}

unit_blocks-IsValid : IsValid unit_blocks
unit_blocks-IsValid = omega arith

varint_300 : varint 5 300 ≡ ok (0xac ∷ 0x02 ∷ [])
unfolding varint
varint_300 = refl

zigzag_minus_one : encode_zigzag32 0xffff_ffff ≡ 1
unfolding encode_zigzag32
zigzag_minus_one = refl

-- 2 ^ 40 does not survive the 64-bit code: the shift is that of the 32-bit one.
zigzag64_wide : decode_zigzag64 (encode_zigzag64 (2 ^ 40)) ≡ 2 ^ 40 + 256
unfolding encode_zigzag64 decode_zigzag64
zigzag64_wide = refl

decode_zigzag32-encode_zigzag32_example :
    decode_zigzag32 (encode_zigzag32 0xffff_fffe) ≡ 0xffff_fffe
decode_zigzag32-encode_zigzag32_example = decode_zigzag32-encode_zigzag32 0xffff_fffe (omega arith)

byteswap-byteswap_example : byteswap 2 (byteswap 2 0x1234) ≡ 0x1234
byteswap-byteswap_example = byteswap-byteswap 2 0x1234 (omega arith)

read_fixed-write_fixed_example :
    (do
      b1 ← write_fixed little unit_blocks 4 70000
      b2 ← set_position b1 0
      (x, b3) ← read_fixed little b2 4
      ok x)
    ≡ ok 70000
read_fixed-write_fixed_example =
    read_fixed-write_fixed little unit_blocks 4 70000 unit_blocks-IsValid (omega arith)
      (omega arith) (omega arith)

read_uint32-write_uint32_example :
    (do
      b1 ← write_uint32 unit_blocks 300
      b2 ← set_position b1 0
      (x, b3) ← read_uint32 little b2
      ok x)
    ≡ ok 300
read_uint32-write_uint32_example =
    read_uint32-write_uint32 little 300 unit_blocks unit_blocks-IsValid refl (omega arith)
      (omega arith)
