-- ===== src/Codec/Varint.antt =====
-- `writeUint32`, `readUint32` and their 64-bit and signed kin: seven bits a byte.
use Prim.Native.Nat.{bit_or}
use mathlib.Core.List.{append-nil}
use native.Mathlib.Nat.{div-add-mod, pow-suc, mul-le-mul_right, mod-eq_of_lt}
use native.Mathlib.Numerals.{towards_suc}
use link_server.Base.{
  ℕ, zero, suc, ◌+◌, ◌*◌, ◌/◌, ◌%◌, ◌^◌, ◌≤◌, ◌<◌, ◌≡◌, ap, List, [], ◌∷◌, ◌++◌, arith, inl, inr,
  length, leb, ltb, le-or-lt, subst, ok, true, false, ◌>>=◌,
}
use link_server.Base.Bits.{bit_or-shifted}
use link_server.ByteArray.{ByteArray, Endian, little, write, set_position}
use link_server.ByteArray.Invariant.{IsValid}
use link_server.ByteArray.RoundTrip.{write-rewind}
use link_server.ByteArray.Write.{write_lem}
use link_server.Codec.{
  varint, read_varint, write_uint32, read_uint32, write_uint64, read_uint64, encode_zigzag32,
  write_int32, read_int32,
}
use link_server.Codec.Stream.{Holds, read_fuint8_lem, Rewound-Holds}
use link_server.Codec.Zigzag.{encode_zigzag32-eq, decode_zigzag32-encode_zigzag32}

set_top : (v : ℕ) → bit_or (v % 2 ^ 7) 0x80 ≡ v % 128 + 128
set_top v = bit_or-shifted 7 (v % 2 ^ 7) 1 (omega arith)

shift_seven : (i : ℕ) → 2 ^ (i + 7) ≡ 128 * 2 ^ i
shift_seven i = simp towards_suc (omega arith)

-- The lowest seven bits of `v` and the others, shifted by `i`.
split_group : (v i : ℕ) → v * 2 ^ i ≡ v % 128 * 2 ^ i + v / 128 * 2 ^ (i + 7)
split_group v i = omega (
  arith,
  ap (λ (t : ℕ). t * 2 ^ i) (div-add-mod v 128),
  ap (λ (t : ℕ). v / 128 * t) (shift_seven i),
)

group_small : (v i acc : ℕ) → acc < 2 ^ i → acc + v % 128 * 2 ^ i < 2 ^ (i + 7)
group_small v i acc h =
    omega (arith, shift_seven i, mul-le-mul_right {m = v % 128} {n = 127} (2 ^ i) (omega arith))

-- A group of bits joins those below it.
join_group :
    (g i acc width : ℕ)
    → acc < 2 ^ i
    → acc + g * 2 ^ i < 2 ^ width
    → bit_or acc (g * 2 ^ i % 2 ^ width) ≡ acc + g * 2 ^ i
join_group g i acc width low fits =
    let e : g * 2 ^ i % 2 ^ width ≡ g * 2 ^ i = mod-eq_of_lt (omega arith) in
    rw e (bit_or-shifted i acc g low)

module _ (host : Endian) where
  abbrev Reads : ℕ → ℕ → ByteArray → ℕ → ℕ → ℕ → List ℕ → Type 0
  Reads rounds width b i acc value ys =
      (b' : ByteArray) × (read_varint host rounds width b i acc ≡ ok (value, b')) × Holds b' ys

  last_byte :
      (rounds width i acc v : ℕ) (b : ByteArray) (ys : List ℕ)
      → v < 128
      → acc < 2 ^ i
      → acc + v * 2 ^ i < 2 ^ width
      → Holds b (v ∷ ys)
      → Reads (suc rounds) width b i acc (acc + v * 2 ^ i) ys
  unfolding read_varint
  last_byte rounds width i acc v b ys small low fits h =
      let (b', got, rest) = read_fuint8_lem host b v ys h in
      let test : ltb v 0x80 ≡ true = ground arith in
      (b', rw (got, test, join_group v i acc width low fits), rest)

  inner_byte :
      (rounds width i acc v value : ℕ) (b : ByteArray) (zs ys : List ℕ)
      → acc < 2 ^ i
      → acc + v % 128 * 2 ^ i < 2 ^ width
      → ((b' : ByteArray)
          → Holds b' zs
          → Reads rounds width b' (i + 7) (acc + v % 128 * 2 ^ i) value ys)
      → Holds b ((v % 128 + 128) ∷ zs)
      → Reads (suc rounds) width b i acc value ys
  unfolding read_varint
  inner_byte rounds width i acc v value b zs ys low fits more h =
      let (b1, got, rest) = read_fuint8_lem host b (v % 128 + 128) zs h in
      let (b', run, after) = more b1 rest in
      let test : ltb (v % 128 + 128) 0x80 ≡ false = ground arith in
      let group : (v % 128 + 128) % 2 ^ 7 ≡ v % 128 = omega arith in
      (b', rw (got, test, group, join_group (v % 128) i acc width low fits, run), after)

  -- The bytes `bytes` are read back as `v`, whatever stands behind them.
  abbrev ReadsBack : ℕ → ℕ → List ℕ → Type 0
  ReadsBack k v bytes =
      (width i acc : ℕ) (ys : List ℕ) (b : ByteArray)
      → acc < 2 ^ i
      → acc + v * 2 ^ i < 2 ^ width
      → Holds b (bytes ++ ys)
      → Reads (suc k) width b i acc (acc + v * 2 ^ i) ys

  abbrev Encodes : ℕ → ℕ → Type 0
  Encodes k v =
      (bytes : List ℕ) × (varint (suc k) v ≡ ok bytes)
      × (0 < length bytes)
      × (length bytes ≤ suc k)
      × ReadsBack k v bytes

  encode_last : (k v : ℕ) → v < 128 → Encodes k v
  unfolding varint
  encode_last k v small =
      let test : leb 0x80 v ≡ false = ground arith in
      (
        v ∷ [],
        rw test,
        omega arith,
        omega arith,
        λ width i acc ys b low fits h. last_byte k width i acc v b ys small low fits h,
      )

  encode_more : (k v : ℕ) → 128 ≤ v → Encodes k (v / 128) → Encodes (suc k) v
  unfolding varint
  encode_more k v large (rest, e, some_bytes, few, back) =
      let test : leb 0x80 v ≡ true = ground arith in
      (
        (v % 128 + 128) ∷ rest,
        rw (test, e, set_top v),
        omega arith,
        omega arith,
        λ width i acc ys b low fits h.
            let whole = split_group v i in
            inner_byte (suc k) width i acc v (acc + v * 2 ^ i) b (rest ++ ys) ys low (omega arith)
              (λ b' h'.
                let value : acc + v % 128 * 2 ^ i + v / 128 * 2 ^ (i + 7) ≡ acc + v * 2 ^ i =
                  omega arith in
                subst (λ t. Reads (suc k) width b' (i + 7) (acc + v % 128 * 2 ^ i) t ys) value
                  (back width (i + 7) (acc + v % 128 * 2 ^ i) ys b' (group_small v i acc low)
                    (omega arith) h'))
              h,
      )

  -- The loop of `writeUint32` fits in a `tmp` of `k + 1` bytes if the value has at most seven bits
  -- for each, and what it writes is read back.
  encode_lem : (k v : ℕ) → v < 128 ^ suc k → Encodes k v
  encode_lem zero v h = encode_last zero v (omega arith)
  encode_lem (suc k) v h = elim (le-or-lt 128 v) [
    | inl large ↦
        encode_more k v large (encode_lem k (v / 128) (omega (arith, pow-suc 128 (suc k))))
    | inr small ↦ encode_last (suc k) v small
  ]

  -- The steps of writing a varint of at most `k + 1` bytes and reading it back.
  abbrev Stored : ℕ → ℕ → ℕ → ByteArray → Type 0
  Stored k width v b =
      (tmp : List ℕ) × (b1 : ByteArray) × (b2 : ByteArray) × (b3 : ByteArray) × (varint (suc k) v
        ≡ ok tmp)
      × (write b tmp ≡ ok b1)
      × (set_position b1 b.position ≡ ok b2)
      × (read_varint host (suc k) width b2 0 0 ≡ ok (v, b3))

  stored :
      (k width v : ℕ) (b : ByteArray)
      → IsValid b
      → b.base_size ≡ 1
      → v < 128 ^ suc k
      → v < 2 ^ width
      → b.position + suc k + 1 < 2 ^ 64
      → Stored k width v b
  stored k width v b valid unit small fits room =
      let (bytes, e, some_bytes, few, back) = encode_lem k v small in
      let (b1, wrote, (b2, moved, rewound)) = write-rewind b bytes valid (omega (arith, unit)) in
      let plain : 0 + v * 2 ^ 0 ≡ v = omega arith in
      let next : Holds b2 (bytes ++ []) = rw append-nil (Rewound-Holds b b2 bytes rewound unit) in
      let (b3, got, _) = back width 0 0 [] b2 (omega arith) (rw plain fits) next in
      (bytes, b1, b2, b3, e, wrote, moved, rw plain at got)

  -- On a valid buffer with blocks of one byte and room below 2 ^ 64, a 32-bit integer written by
  -- `writeUint32` is what `readUint32` returns from where it was written.
  pub read_uint32-write_uint32 :
      (v : ℕ) (b : ByteArray)
      → IsValid b
      → b.base_size ≡ 1
      → v < 2 ^ 32
      → b.position + 6 < 2 ^ 64
      → (do
        b1 ← write_uint32 b v
        b2 ← set_position b1 b.position
        (x, b3) ← read_uint32 host b2
        ok x)
        ≡ ok v
  unfolding write_uint32 read_uint32
  read_uint32-write_uint32 v b valid unit fits room =
      let (tmp, b1, b2, b3, e, wrote, moved, got) =
        stored 4 32 v b valid unit (omega arith) fits (omega arith) in
      rw (e, wrote, moved, got)

  -- On a valid buffer with blocks of one byte and room below 2 ^ 64, a 64-bit integer written by
  -- `writeUint64` is what `readUint64` returns from where it was written.
  pub read_uint64-write_uint64 :
      (v : ℕ) (b : ByteArray)
      → IsValid b
      → b.base_size ≡ 1
      → v < 2 ^ 64
      → b.position + 11 < 2 ^ 64
      → (do
        b1 ← write_uint64 b v
        b2 ← set_position b1 b.position
        (x, b3) ← read_uint64 host b2
        ok x)
        ≡ ok v
  unfolding write_uint64 read_uint64
  read_uint64-write_uint64 v b valid unit fits room =
      let (tmp, b1, b2, b3, e, wrote, moved, got) =
        stored 9 64 v b valid unit (omega arith) fits (omega arith) in
      rw (e, wrote, moved, got)

  -- On a valid buffer with blocks of one byte and room below 2 ^ 64, the bit pattern of a signed
  -- 32-bit integer written by `writeInt32` is what `readInt32` returns from where it was written.
  pub read_int32-write_int32 :
      (v : ℕ) (b : ByteArray)
      → IsValid b
      → b.base_size ≡ 1
      → v < 2 ^ 32
      → b.position + 6 < 2 ^ 64
      → (do
        b1 ← write_int32 b v
        b2 ← set_position b1 b.position
        (x, b3) ← read_int32 host b2
        ok x)
        ≡ ok v
  unfolding write_int32 read_int32 write_uint32 read_uint32
  read_int32-write_int32 v b valid unit fits room =
      let w = encode_zigzag32 v in
      let small : w < 2 ^ 32 = ground (arith, encode_zigzag32-eq v fits) in
      let (tmp, b1, b2, b3, e, wrote, moved, got) =
        stored 4 32 w b valid unit (omega arith) small (omega arith) in
      rw (e, wrote, moved, got) (ap ok (decode_zigzag32-encode_zigzag32 v fits))

-- On a valid buffer with room below 2 ^ 64 `writeUint32` of a 32-bit integer succeeds, keeps the
-- buffer valid, and advances the position by one to five bytes; `tmp` does not overflow.
pub write_uint32_lem :
    (v : ℕ) (b : ByteArray)
    → IsValid b
    → v < 2 ^ 32
    → b.position + 5 + b.base_size < 2 ^ 64
    → (b' : ByteArray) × (write_uint32 b v ≡ ok b')
      × IsValid b'
      × (b.position < b'.position)
      × (b'.position ≤ b.position + 5)
unfolding write_uint32
write_uint32_lem v b valid fits room =
    let (bytes, e, some_bytes, few, _) = encode_lem little 4 v (omega arith) in
    let (b', wrote, w) = write_lem b bytes valid (omega arith) in
    (b', rw (e, wrote), w.valid, omega (arith, w.position_eq), omega (arith, w.position_eq))
