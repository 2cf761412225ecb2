-- ===== src/ByteArray.antt =====
-- linko/bytearray.h and linko/bytearray.cc: the chunked buffer. The singly linked list of memory
-- blocks is a list of nodes, and a pointer into it is an index; the index past the end is the
-- null pointer. `size_t` is a number below 2 ^ 64 whose sums and differences wrap.
pub mod Invariant
pub mod Blocks
pub mod Capacity
pub mod Position
pub mod Copy
pub mod Read
pub mod Write
pub mod RoundTrip
pub mod Reread
pub mod Buffers
mod Runs
use link_server.Base.{
  ℕ, zero, suc, ◌+◌, ◌-◌, ◌/◌, ◌%◌, ◌^◌, List, [], ◌∷◌, ◌++◌, map, Option, none, some, Bool, true,
  false, ltb, leb, ◌==◌, if◌then◌else◌, length, take, drop, replicate, Result, ok, err,
  out_of_range, null_deref, div_by_zero, out_of_bounds, ◌>>=◌,
}

abbrev pub add_size : ℕ → ℕ → ℕ
add_size a b = (a + b) % 2 ^ 64

abbrev pub sub_size : ℕ → ℕ → ℕ
sub_size a b = (a + 2 ^ 64 - b) % 2 ^ 64

-- A byte of memory, or `none` where `new char[s]` has left it unwritten.
abbrev pub Cell : Type 0
Cell = Option ℕ

-- `ByteArray::Node`: its bytes; `size` is their number.
abbrev pub Node : Type 0
Node = List Cell

pub data Endian : Type 0 where
  little big : Endian

pub record ByteArray : Type 0 where
  pub base_size : ℕ
  pub position : ℕ
  pub capacity : ℕ
  pub size : ℕ
  pub endian : Endian
  pub nodes : List Node
  pub cur : ℕ

abbrev pub new_node : ℕ → Node
new_node s = replicate s none

unfoldable pub make : ℕ → ByteArray
make base_size = record {
  base_size = base_size;
  position = 0;
  capacity = base_size;
  size = 0;
  endian = big;
  nodes = new_node base_size ∷ [];
  cur = 0;
}

unfoldable pub is_little_endian : ByteArray → Bool
is_little_endian b = elim b.endian [ little ↦ true | big ↦ false ]

unfoldable pub set_is_little_endian : ByteArray → Bool → ByteArray
set_is_little_endian b val = record b { endian = if val then little else big }

-- The space between the position and the capacity, and the bytes between it and the size.
abbrev pub get_capacity : ByteArray → ℕ
get_capacity b = sub_size b.capacity b.position

abbrev pub get_read_size : ByteArray → ℕ
get_read_size b = sub_size b.size b.position

unfoldable pub clear : ByteArray → ByteArray
clear b = record b {
  position = 0;
  capacity = b.base_size;
  size = 0;
  nodes = take 1 b.nodes;
  cur = 0;
}

-- `p % m_baseSize`.
abbrev pub offset : ByteArray → ℕ → Result ℕ
offset b p = if b.base_size == 0 then err div_by_zero else ok (p % b.base_size)

-- The number of blocks for `size` more bytes.
unfoldable pub block_count : ℕ → ℕ → ℕ
block_count size base = size / base + (if ltb 0 (size % base) then 1 else 0)

-- `count` blocks behind the last one, with the capacity added up block by block.
unfoldable pub append_blocks : ℕ → ByteArray → ByteArray
append_blocks zero b = b
append_blocks (suc count) b = append_blocks count (record b {
  nodes = b.nodes ++ (new_node b.base_size ∷ []);
  capacity = add_size b.capacity b.base_size;
})

-- `m_cur = first` where no space was left: `first` is the block behind the old last one, and
-- null if no block was added.
unfoldable pub add_capacity : ByteArray → ℕ → Result ByteArray
add_capacity b size =
    let old_cap = get_capacity b in
    let grown = append_blocks (block_count (sub_size size old_cap) b.base_size) b in
    if size == 0
    then ok b
    else if leb size old_cap
    then ok b
    else if b.base_size == 0
    then err div_by_zero
    else ok (if old_cap == 0 then record grown { cur = length b.nodes } else grown)

-- `xs` with `ys` written over it from index `p` on.
abbrev pub splice {ℓ} : {A : Type ℓ} → ℕ → List A → List A → List A
splice p ys xs = take p xs ++ (ys ++ drop (p + length ys) xs)

-- `memcpy` into a block and out of one.
unfoldable pub memcpy_to : Node → ℕ → List Cell → Result Node
memcpy_to n npos buf =
    if leb (npos + length buf) (length n) then ok (splice npos buf n) else err out_of_bounds

unfoldable pub memcpy_from : Node → ℕ → ℕ → Result (List Cell)
memcpy_from n npos size =
    if leb (npos + size) (length n) then ok (take size (drop npos n)) else err out_of_bounds

-- What the loop of `write` leaves: the blocks from `m_cur` on, how often `m_cur` moved to the
-- next block, and `m_position`.
pub record Written : Type 0 where
  pub nodes : List Node
  pub moves : ℕ
  pub position : ℕ

unfoldable pub write_loop : List Node → ℕ → ℕ → List Cell → Result Written
write_loop [] npos pos buf = err null_deref
write_loop (n ∷ ns) npos pos buf =
    let ncap = sub_size (length n) npos in
    let last = do
      n' ← memcpy_to n npos buf
      ok (record {
        nodes = n' ∷ ns;
        moves = if length n == npos + length buf then 1 else 0;
        position = add_size pos (length buf);
      })
    in let more = do
      n' ← memcpy_to n npos (take ncap buf)
      r ← write_loop ns 0 (add_size pos ncap) (drop ncap buf)
      ok (record { nodes = n' ∷ r.nodes; moves = suc r.moves; position = r.position })
      in if leb (length buf) ncap then last else more

unfoldable pub write : ByteArray → List ℕ → Result ByteArray
write b buf =
    let written = do
      b' ← add_capacity b (length buf)
      npos ← offset b' b'.position
      r ← write_loop (drop b'.cur b'.nodes) npos b'.position (map some buf)
      ok (record b' {
        nodes = take b'.cur b'.nodes ++ r.nodes;
        cur = b'.cur + r.moves;
        position = r.position;
        size = if ltb b'.size r.position then r.position else b'.size;
      })
    in if length buf == 0 then ok b else written

-- What the loop of `read` leaves: the bytes copied, the moves of `m_cur`, and `m_position`.
-- The last round adds the whole rest of the block to the position, as the source does.
pub record Copied : Type 0 where
  pub cells : List Cell
  pub moves : ℕ
  pub position : ℕ

unfoldable pub read_loop : List Node → ℕ → ℕ → ℕ → Result Copied
read_loop [] npos pos size = err null_deref
read_loop (n ∷ ns) npos pos size =
    let ncap = sub_size (length n) npos in
    let last = do
      cells ← memcpy_from n npos size
      ok (record {
        cells = cells;
        moves = if length n == npos + size then 1 else 0;
        position = add_size pos ncap;
      })
    in let more = do
      cells ← memcpy_from n npos ncap
      r ← read_loop ns 0 (add_size pos ncap) (size - ncap)
      ok (record { cells = cells ++ r.cells; moves = suc r.moves; position = r.position })
      in if leb size ncap then last else more

-- `m_cur->size` is read before the loop, which runs only for `size > 0`.
abbrev pub copy_from : List Node → ℕ → ℕ → ℕ → Result Copied
copy_from [] npos pos size = err null_deref
copy_from (n ∷ ns) npos pos size =
    if size == 0
    then ok (record { cells = []; moves = 0; position = pos })
    else read_loop (n ∷ ns) npos pos size

unfoldable pub read : ByteArray → ℕ → Result (List Cell × ByteArray)
read b size =
    let copied = do
      npos ← offset b b.position
      r ← copy_from (drop b.cur b.nodes) npos b.position size
      ok (r.cells, record b { cur = b.cur + r.moves; position = r.position })
    in if ltb (get_read_size b) size then err out_of_range else copied

-- `read(buf, size, position) const`: the block is that of `m_cur`, whatever the position.
unfoldable pub read_at : ByteArray → ℕ → ℕ → Result (List Cell)
read_at b size position =
    let copied = do
      npos ← offset b position
      r ← copy_from (drop b.cur b.nodes) npos position size
      ok r.cells
    in if ltb (get_read_size b) size then err out_of_range else copied

-- The walk of `setPosition` from the root: the index of the block that `v` stands in.
unfoldable pub seek : List Node → ℕ → Result ℕ
seek [] v = err null_deref
seek (n ∷ ns) v =
    let rest = do i ← seek ns (v - length n); ok (suc i)
    in if ltb (length n) v then rest else ok (if v == length n then 1 else 0)

unfoldable pub set_position : ByteArray → ℕ → Result ByteArray
set_position b v =
    let moved = do
      cur ← seek b.nodes v
      ok (record b { position = v; size = if ltb b.size v then v else b.size; cur = cur })
    in if ltb b.capacity v then err out_of_range else moved

unfoldable pub to_string : ByteArray → Result (List Cell)
to_string b = if get_read_size b == 0 then ok [] else read_at b (get_read_size b) b.position
