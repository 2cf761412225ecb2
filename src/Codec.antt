-- ===== src/Codec.antt =====
-- linko/bytearray.cc and linko/endian.h: the typed reads and writes of `ByteArray`. A signed
-- integer is its two's complement bit pattern; `x & (2^k - 1)` is `x % 2 ^ k`, `x >> k` is
-- `x / 2 ^ k`. `host` is the byte order of the machine (`LINKO_BYTE_ORDER`).
pub mod Zigzag
pub mod Stream
pub mod Varint
pub mod Fixed
mod Runs
use Prim.Native.Nat.{bit_or, bit_xor}
use mathlib.Core.List.{reverse}
use link_server.Base.{
  ℕ, zero, suc, ◌+◌, ◌-◌, ◌*◌, ◌/◌, ◌%◌, ◌^◌, List, [], ◌∷◌, Bool, true, false, none, some, ltb,
  leb, if◌then◌else◌, length, Result, ok, err, ◌>>=◌, out_of_bounds, uninitialised,
}
use link_server.ByteArray.{ByteArray, Cell, Endian, little, big, write, read}

-- Zigzag: `v >> 31` of an `int32_t` is 0 or all ones.
unfoldable pub encode_zigzag32 : ℕ → ℕ
encode_zigzag32 v = bit_xor (v * 2 % 2 ^ 32) (if ltb v (2 ^ 31) then 0 else 2 ^ 32 - 1)

unfoldable pub decode_zigzag32 : ℕ → ℕ
decode_zigzag32 v = bit_xor (v / 2) ((2 ^ 32 - v % 2) % 2 ^ 32)

-- `v >> 31` of an `int64_t`, as the source has it: the sign fills the 31 highest bits.
unfoldable pub encode_zigzag64 : ℕ → ℕ
encode_zigzag64 v =
    bit_xor (v * 2 % 2 ^ 64) (if ltb v (2 ^ 63) then v / 2 ^ 31 else 2 ^ 64 - 2 ^ 33 + v / 2 ^ 31)

unfoldable pub decode_zigzag64 : ℕ → ℕ
decode_zigzag64 v = bit_xor (v / 2) ((2 ^ 64 - v % 2) % 2 ^ 64)

-- The loop that fills `tmp`, whose size is the first argument: a byte too many is a fault.
unfoldable pub varint : ℕ → ℕ → Result (List ℕ)
varint zero value = err out_of_bounds
varint (suc room) value =
    let more = do rest ← varint room (value / 2 ^ 7); ok (bit_or (value % 2 ^ 7) 0x80 ∷ rest)
    in if leb 0x80 value then more else ok (value ∷ [])

unfoldable pub write_uint32 : ByteArray → ℕ → Result ByteArray
write_uint32 b value = do tmp ← varint 5 value; write b tmp

unfoldable pub write_uint64 : ByteArray → ℕ → Result ByteArray
write_uint64 b value = do tmp ← varint 10 value; write b tmp

unfoldable pub write_int32 : ByteArray → ℕ → Result ByteArray
write_int32 b value = write_uint32 b (encode_zigzag32 value)

unfoldable pub write_int64 : ByteArray → ℕ → Result ByteArray
write_int64 b value = write_uint64 b (encode_zigzag64 value)

-- Using a byte that nothing has written is a fault.
unfoldable pub defined : List Cell → Result (List ℕ)
defined [] = ok []
defined (none ∷ cells) = err uninitialised
defined (some x ∷ cells) = do xs ← defined cells; ok (x ∷ xs)

unfoldable pub read_bytes : ByteArray → ℕ → Result (List ℕ × ByteArray)
read_bytes b size = do (cells, b') ← read b size; bytes ← defined cells; ok (bytes, b')

-- The integer in memory, lowest byte first on a little-endian host, and back.
unfoldable pub to_le : ℕ → ℕ → List ℕ
to_le zero v = []
to_le (suc n) v = v % 256 ∷ to_le n (v / 256)

unfoldable pub of_le : List ℕ → ℕ
of_le [] = 0
of_le (x ∷ xs) = x + 256 * of_le xs

unfoldable pub byteswap : ℕ → ℕ → ℕ
byteswap n v = of_le (reverse (to_le n v))

abbrev pub same_order : Endian → Endian → Bool
same_order little little = true
same_order little big = false
same_order big little = false
same_order big big = true

unfoldable pub to_memory : Endian → ℕ → ℕ → List ℕ
to_memory little n v = to_le n v
to_memory big n v = reverse (to_le n v)

unfoldable pub of_memory : Endian → List ℕ → ℕ
of_memory little bytes = of_le bytes
of_memory big bytes = of_le (reverse bytes)

module _ (host : Endian) where
  -- `writeFint16` to `writeFuint64`, for an integer of `n` bytes, and `writeFint8`, `writeFuint8`.
  unfoldable pub write_fixed : ByteArray → ℕ → ℕ → Result ByteArray
  write_fixed b n value =
      write b (to_memory host n (if same_order b.endian host then value else byteswap n value))

  unfoldable pub write_fuint8 : ByteArray → ℕ → Result ByteArray
  write_fuint8 b value = write b (to_memory host 1 value)

  unfoldable pub read_fixed : ByteArray → ℕ → Result (ℕ × ByteArray)
  read_fixed b n = do
    (bytes, b') ← read_bytes b n
    let v = of_memory host bytes
    ok (if same_order b.endian host then v else byteswap n v, b')

  unfoldable pub read_fuint8 : ByteArray → Result (ℕ × ByteArray)
  read_fuint8 b = do (bytes, b') ← read_bytes b 1; ok (of_memory host bytes, b')

  -- The loop of `readUint32` and `readUint64`: `rounds` is the number of values of `i` to come,
  -- `width` the number of bits of `result`.
  unfoldable pub read_varint : ℕ → ℕ → ByteArray → ℕ → ℕ → Result (ℕ × ByteArray)
  read_varint zero width b i result = ok (result, b)
  read_varint (suc rounds) width b i result = do
    (x, b') ← read_fuint8 b
    let more = read_varint rounds width b' (i + 7) (bit_or result (x % 2 ^ 7 * 2 ^ i % 2 ^ width))
    if ltb x 0x80 then ok (bit_or result (x * 2 ^ i % 2 ^ width), b') else more

  unfoldable pub read_uint32 : ByteArray → Result (ℕ × ByteArray)
  read_uint32 b = read_varint 5 32 b 0 0

  unfoldable pub read_uint64 : ByteArray → Result (ℕ × ByteArray)
  read_uint64 b = read_varint 10 64 b 0 0

  unfoldable pub read_int32 : ByteArray → Result (ℕ × ByteArray)
  read_int32 b = do (v, b') ← read_uint32 b; ok (decode_zigzag32 v, b')

  unfoldable pub read_int64 : ByteArray → Result (ℕ × ByteArray)
  read_int64 b = do (v, b') ← read_uint64 b; ok (decode_zigzag64 v, b')

  -- `writeFloat` and `writeDouble` on the bits of the value; the reads take a varint.
  unfoldable pub write_float : ByteArray → ℕ → Result ByteArray
  write_float b bits = write_fixed b 4 bits

  unfoldable pub write_double : ByteArray → ℕ → Result ByteArray
  write_double b bits = write_fixed b 8 bits

  unfoldable pub read_float : ByteArray → Result (ℕ × ByteArray)
  read_float b = read_uint32 b

  unfoldable pub read_double : ByteArray → Result (ℕ × ByteArray)
  read_double b = read_uint64 b

  -- The strings with a length of `n` bytes in front: `writeStringF16`, `F32`, `F64`; and
  -- `writeStringVint`, which writes the length in eight bytes too.
  unfoldable pub write_string : ByteArray → ℕ → List ℕ → Result ByteArray
  write_string b n value = do b' ← write_fixed b n (length value % 256 ^ n); write b' value

  unfoldable pub write_string_vint : ByteArray → List ℕ → Result ByteArray
  write_string_vint b value = write_string b 8 value

  unfoldable pub read_string : ByteArray → ℕ → Result (List ℕ × ByteArray)
  read_string b n = do (len, b') ← read_fixed b n; read_bytes b' len

  unfoldable pub read_string_vint : ByteArray → Result (List ℕ × ByteArray)
  read_string_vint b = do (len, b') ← read_uint64 b; read_bytes b' len

unfoldable pub write_string_without_length : ByteArray → List ℕ → Result ByteArray
write_string_without_length b value = write b value
