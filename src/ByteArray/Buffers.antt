-- ===== src/ByteArray/Buffers.antt =====
-- `getReadBuffers` and `getWriteBuffers` of linko/bytearray.cc: the `iovec`s that stand for a part
-- of the buffer. A pointer into a block is the block's index with an offset.
use mathlib.Core.Path.{subst₂}
use native.Mathlib.Nat.{lt_of_mul-lt-mul_right}
use link_server.Base.{
  min, ℕ, zero, suc, false, ◌+◌, ◌-◌, ◌*◌, ◌/◌, ◌^◌, ◌≤◌, ◌<◌, ◌≡◌, refl, ap, List, [], ◌∷◌, none,
  some, arith, inl, inr, length, drop, leb, ltb, le-or-lt, ◌==◌, if◌then◌else◌, Result, ok, err,
  ◌>>=◌, null_deref, no_fuel, get_elem?,
}
use link_server.ByteArray.{ByteArray, Node, sub_size, get_read_size, offset, add_capacity}
use link_server.ByteArray.Invariant.{IsValid, IsUniform, IsUniform-drop}
use link_server.ByteArray.Blocks.{offset_lem, room_eq}
use link_server.ByteArray.Capacity.{add_capacity_lem}

pub record Iovec : Type 0 where
  pub block : ℕ
  pub start : ℕ
  pub len : ℕ

-- The loop of both `getReadBuffers`, in which `cur` stays where it is. Each round takes at least
-- one byte from `len`, so that `len` rounds are enough.
unfoldable pub read_iovecs : ℕ → ℕ → ℕ → ℕ → ℕ → ℕ → Result (List Iovec)
read_iovecs zero cur size npos ncap len = err no_fuel
read_iovecs (suc rounds) cur size npos ncap len =
    let more = do
      rest ← read_iovecs rounds cur size 0 size (len - ncap)
      ok (record { block = cur; start = npos; len = ncap } ∷ rest)
    in if leb len ncap then ok (record { block = cur; start = npos; len = len } ∷ []) else more

-- `cur` with its size, or a fault where it is null.
abbrev block_size : List Node → ℕ → Result ℕ
block_size nodes cur = elim (get_elem? nodes cur) [ none ↦ err null_deref | some n ↦ ok (length n) ]

abbrev pub clip : ByteArray → ℕ → ℕ
clip b len = if ltb (get_read_size b) len then get_read_size b else len

unfoldable pub get_read_buffers : ByteArray → ℕ → Result (ℕ × List Iovec)
get_read_buffers b len =
    let found = do
      npos ← offset b b.position
      size ← block_size b.nodes b.cur
      iovecs ← read_iovecs (clip b len) b.cur size npos (sub_size size npos) (clip b len)
      ok (clip b len, iovecs)
    in if clip b len == 0 then ok (0, []) else found

unfoldable pub get_read_buffers_at : ByteArray → ℕ → ℕ → Result (ℕ × List Iovec)
get_read_buffers_at b len position =
    let found = do
      npos ← offset b position
      let cur = position / b.base_size
      size ← block_size b.nodes cur
      iovecs ← read_iovecs (clip b len) cur size npos (sub_size size npos) (clip b len)
      ok (clip b len, iovecs)
    in if clip b len == 0 then ok (0, []) else found

-- The loop of `getWriteBuffers` over the blocks from the `cur`-th on.
unfoldable pub write_iovecs : List Node → ℕ → ℕ → ℕ → Result (List Iovec)
write_iovecs [] cur npos len = err null_deref
write_iovecs (n ∷ ns) cur npos len =
    let ncap = sub_size (length n) npos in
    let more = do
      rest ← write_iovecs ns (suc cur) 0 (len - ncap)
      ok (record { block = cur; start = npos; len = ncap } ∷ rest)
    in if leb len ncap then ok (record { block = cur; start = npos; len = len } ∷ []) else more

unfoldable pub get_write_buffers : ByteArray → ℕ → Result (ℕ × List Iovec × ByteArray)
get_write_buffers b len =
    let found = do
      b' ← add_capacity b len
      npos ← offset b' b'.position
      iovecs ← write_iovecs (drop b'.cur b'.nodes) b'.cur npos len
      ok (len, iovecs, b')
    in if len == 0 then ok (0, [], b) else found

-- The pieces lie within blocks of size `base`, and follow one another from index `p` of the whole
-- memory to index `q`.
abbrev pub Covers : ℕ → ℕ → List Iovec → ℕ → Type 0
Covers base p [] q = p ≡ q
Covers base p (v ∷ vs) q =
    (v.block * base + v.start ≡ p) × (v.start + v.len ≤ base) × Covers base (p + v.len) vs q

write_iovecs_lem :
    (base : ℕ) (ns : List Node) (cur npos len : ℕ)
    → IsUniform base ns
    → base < 2 ^ 64
    → npos < base
    → npos + len ≤ length ns * base
    → 0 < len
    → (vs : List Iovec) × (write_iovecs ns cur npos len ≡ ok vs)
      × Covers base (cur * base + npos) vs (cur * base + npos + len)
unfolding write_iovecs
write_iovecs_lem base [] cur npos len u small inside room pos = absurd (omega arith)
write_iovecs_lem base (n ∷ ns) cur npos len (e, u) small inside room pos =
    elim (le-or-lt (npos + len) base) [
      | inl fit ↦
          (record { block = cur; start = npos; len = len } ∷ [], ground arith, (refl, fit, refl))
      | inr over ↦
          let (vs, run, c) =
            write_iovecs_lem base ns (suc cur) 0 (len - (base - npos)) u small (omega arith)
              (omega arith) (omega arith) in
          let from : suc cur * base + 0 ≡ cur * base + npos + (base - npos) = omega arith in
          let to : suc cur * base + 0 + (len - (base - npos)) ≡ cur * base + npos + len =
            omega arith in
          (
            record { block = cur; start = npos; len = base - npos } ∷ vs,
            ground (arith, run),
            (refl, omega arith, subst₂ (λ p q. Covers base p vs q) from to c),
          )
    ]

cur-lt : (b : ByteArray) → IsValid b → b.position < b.capacity → b.cur < length b.nodes
cur-lt b v h = lt_of_mul-lt-mul_right b.base_size (omega (arith, v.cur_lo, v.capacity_eq))

-- On a valid buffer with room below 2 ^ 64 `getWriteBuffers` succeeds, and its pieces are the
-- memory from the position on, `len` bytes of it, in the buffer that it leaves, which is valid.
pub get_write_buffers_lem :
    (b : ByteArray) (len : ℕ)
    → IsValid b
    → 0 < len
    → b.position + len + b.base_size < 2 ^ 64
    → (b' : ByteArray) × (vs : List Iovec) × (get_write_buffers b len ≡ ok (len, vs, b'))
      × Covers b.base_size b.position vs (b.position + len)
      × IsValid b'
      × (b.position + len ≤ b'.capacity)
unfolding get_write_buffers
get_write_buffers_lem b len v pos fits =
    let (b1, grow, g) = add_capacity_lem b len v fits in
    let u = g.valid in
    let start : b1.cur * b1.base_size + (b1.position - b1.cur * b1.base_size) ≡ b.position =
      omega (arith, u.cur_lo, g.position_eq) in
    let (vs, run, c) =
      write_iovecs_lem b1.base_size (drop b1.cur b1.nodes) b1.cur
        (b1.position - b1.cur * b1.base_size) len
        (IsUniform-drop b1.base_size b1.cur b1.nodes u.uniform) (omega (arith, fits, g.base_eq))
        (omega (arith, u.cur_lo, u.cur_hi))
        (omega (arith, room_eq b1 u, u.cur_lo, g.room, g.position_eq)) pos in
    (
      b1,
      vs,
      ground (arith, grow, offset_lem b1 u, run),
      subst₂ (λ base p. Covers base p vs (p + len)) g.base_eq start c,
      u,
      g.room,
    )

-- All pieces lie in the block `cur`, and have `len` bytes together.
abbrev pub InBlock : ℕ → List Iovec → ℕ → Type 0
InBlock cur [] len = len ≡ 0
InBlock cur (v ∷ vs) len = (v.block ≡ cur) × (v.len ≤ len) × InBlock cur vs (len - v.len)

read_iovecs_lem :
    (rounds cur size npos ncap len : ℕ)
    → len ≤ rounds
    → 0 < len
    → 0 < ncap
    → 0 < size
    → (vs : List Iovec) × (read_iovecs rounds cur size npos ncap len ≡ ok vs) × InBlock cur vs len
unfolding read_iovecs
read_iovecs_lem zero cur size npos ncap len enough pos some_room block_pos = absurd (omega arith)
read_iovecs_lem (suc rounds) cur size npos ncap len enough pos some_room block_pos =
    elim (le-or-lt len ncap) [
      | inl fit ↦ (
        record { block = cur; start = npos; len = len } ∷ [],
        ground arith,
        (refl, omega arith, omega arith),
      )
      | inr over ↦
          let (vs, run, c) =
            read_iovecs_lem rounds cur size 0 size (len - ncap) (omega arith) (omega arith)
              block_pos block_pos in
          (
            record { block = cur; start = npos; len = ncap } ∷ vs,
            ground (arith, run),
            (refl, omega arith, c),
          )
    ]

block_size_lem :
    (base : ℕ) (ns : List Node) (cur : ℕ)
    → IsUniform base ns
    → cur < length ns
    → block_size ns cur ≡ ok base
block_size_lem base [] cur u h = absurd (omega arith)
block_size_lem base (n ∷ ns) zero (e, u) h = ap ok e
block_size_lem base (n ∷ ns) (suc cur) (e, u) h = block_size_lem base ns cur u (omega arith)

found :
    (b : ByteArray) (len n npos : ℕ) (vs : List Iovec)
    → 0 < n
    → clip b len ≡ n
    → offset b b.position ≡ ok npos
    → block_size b.nodes b.cur ≡ ok b.base_size
    → read_iovecs n b.cur b.base_size npos (sub_size b.base_size npos) n ≡ ok vs
    → get_read_buffers b len ≡ ok (n, vs)
unfolding get_read_buffers
found b len n npos vs pos clipped at size run =
    let test : (n == 0) ≡ false = ground arith in rw (clipped, test, at, size, run)

-- On a valid buffer with data left `getReadBuffers` succeeds and its pieces have as many bytes as
-- it says, the smaller of `len` and what is left; but all of them lie in the block of the position.
pub get_read_buffers_lem :
    (b : ByteArray) (len : ℕ)
    → IsValid b
    → 0 < len
    → b.position < b.size
    → (vs : List Iovec) × (get_read_buffers b len ≡ ok (min len (b.size - b.position), vs))
      × InBlock b.cur vs (min len (b.size - b.position))
get_read_buffers_lem b len v pos left =
    let n = min len (b.size - b.position) in
    let clipped : clip b len ≡ n = ground (arith, v.size_le, v.capacity_lt) in
    let size_lt : b.base_size < 2 ^ 64 =
      let rooted = v.rooted in
      let e : b.base_size ≤ length b.nodes * b.base_size = grind arith in
      omega (arith, v.capacity_eq, v.capacity_lt) in
    let npos = b.position - b.cur * b.base_size in
    let room : 0 < sub_size b.base_size npos = omega (arith, v.cur_lo, v.cur_hi) in
    let (vs, run, c) =
      read_iovecs_lem n b.cur b.base_size npos (sub_size b.base_size npos) n (omega arith)
        (omega arith) room v.base_pos in
    let block =
      block_size_lem b.base_size b.nodes b.cur v.uniform (cur-lt b v (omega (arith, v.size_le))) in
    (vs, found b len n npos vs (omega arith) clipped (offset_lem b v) block run, c)
