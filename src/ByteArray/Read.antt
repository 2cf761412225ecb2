-- ===== src/ByteArray/Read.antt =====
-- `read`: the bytes that it copies are those at the position. The position that it leaves is the
-- end of the last block that it read from.
use link_server.Base.{
  ℕ, ◌+◌, ◌-◌, ◌*◌, ◌^◌, ◌≤◌, ◌<◌, ◌≡◌, refl, sym, ap, ◌∙◌, List, [], ◌∷◌, arith, length, take,
  drop, ok, err, inl, inr, out_of_range, drop-append_ge, le-or-lt,
}
use link_server.ByteArray.{
  ByteArray, Node, Copied, read_loop, copy_from, read, get_read_size, read_at, to_string,
}
use link_server.ByteArray.Blocks.{offset_lem, length-before, contents_split, room_eq, same_block}
use link_server.ByteArray.Copy.{CopiedFrom, CopyOk, read_loop_lem}
use link_server.ByteArray.Invariant.{IsValid, IsUniform-drop, concat, contents}

-- What `read` leaves of the buffer `b` after `size` bytes: `m_position` is the first block boundary
-- at or past the end of the data read, and `m_cur` is the block of that end.
pub record ReadFrom (b : ByteArray) (size : ℕ) (b' : ByteArray) : Type 0 where
  pub base_eq : b'.base_size ≡ b.base_size
  pub endian_eq : b'.endian ≡ b.endian
  pub nodes_eq : b'.nodes ≡ b.nodes
  pub capacity_eq : b'.capacity ≡ b.capacity
  pub size_eq : b'.size ≡ b.size
  pub blocks : ℕ
  pub position_eq : b'.position ≡ blocks * b.base_size
  pub position_lo : b.position + size ≤ b'.position
  pub position_hi : b'.position < b.position + size + b.base_size
  pub cur_lo : b'.cur * b.base_size ≤ b.position + size
  pub cur_hi : b.position + size < b'.cur * b.base_size + b.base_size

abbrev after_copy : ByteArray → Copied → ByteArray
after_copy b r = record b { cur = b.cur + r.moves; position = r.position }

module _ (b : ByteArray) (size : ℕ) (v : IsValid b) (some_bytes : 0 < size)
    (within : b.position + size ≤ b.size) where
  open b use {base_size, position, nodes, cur}

  abbrev start : ℕ
  start = position - cur * base_size

  block_fits : base_size < 2 ^ 64
  block_fits =
      let e : base_size ≤ length nodes * base_size = let p = v.rooted in grind arith in
      omega (arith, v.capacity_eq, v.capacity_lt)

  pub copy_here : CopyOk base_size (drop cur nodes) start position size
  copy_here =
      read_loop_lem base_size (drop cur nodes) start position size
        (IsUniform-drop base_size cur nodes v.uniform) block_fits
        (omega (arith, v.cur_lo, v.cur_hi)) some_bytes
        (omega (arith, room_eq b v, v.cur_lo, v.size_le))
        (omega (arith, room_eq b v, v.cur_lo, v.capacity_lt))

  -- The cells at the position, seen from the block of the position and from the root.
  pub here_eq : drop start (concat (drop cur nodes)) ≡ drop position (contents b)
  here_eq =
      let e : position ≡ length (concat (take cur nodes)) + start =
        omega (arith, length-before b v, v.cur_lo) in
      sym (
        ap (drop position) (contents_split b v)
        ∙ drop-append_ge position start (concat (take cur nodes)) (concat (drop cur nodes)) e)

  module _ (r : Copied) (w : CopiedFrom base_size (drop cur nodes) start position size r) where
    after_copy-ReadFrom : ReadFrom b size (after_copy b r)
    after_copy-ReadFrom = record {
      base_eq = refl;
      endian_eq = refl;
      nodes_eq = refl;
      capacity_eq = refl;
      size_eq = refl;
      blocks = cur + w.blocks;
      position_eq = omega (arith, w.position_eq, v.cur_lo);
      position_lo = omega (arith, w.position_eq, w.blocks_lo, v.cur_lo);
      position_hi = omega (arith, w.position_eq, w.blocks_hi, v.cur_lo);
      cur_lo = omega (arith, w.moves_lo, v.cur_lo);
      cur_hi = omega (arith, w.moves_hi, v.cur_lo);
    }

pub copy_from_lem :
    (ns : List Node) (npos pos size : ℕ) (r : Copied)
    → 0 < size
    → read_loop ns npos pos size ≡ ok r
    → copy_from ns npos pos size ≡ ok r
copy_from_lem [] npos pos size r some_bytes run = unfold read_loop in cc run
copy_from_lem (n ∷ ns) npos pos size r some_bytes run = ground (arith, run)

read_runs :
    (b : ByteArray) (size : ℕ) (r : Copied)
    → IsValid b
    → 0 < size
    → b.position + size ≤ b.size
    → read_loop (drop b.cur b.nodes) (b.position - b.cur * b.base_size) b.position size ≡ ok r
    → read b size ≡ ok (r.cells, after_copy b r)
unfolding read
read_runs b size r v some_bytes within run =
    ground (arith, offset_lem b v, copy_from_lem _ _ _ size r some_bytes run)

-- On a valid buffer that holds `size` more bytes, one or more, `read` succeeds, returns the cells from the
-- position on, changes no data, and leaves the position at the end of the last block it read from.
pub read_lem :
    (b : ByteArray) (size : ℕ)
    → IsValid b
    → 0 < size
    → b.position + size ≤ b.size
    → (b' : ByteArray) × (read b size ≡ ok (take size (drop b.position (contents b)), b'))
      × ReadFrom b size b'
read_lem b size v some_bytes within =
    let (r, run, w) = copy_here b size v some_bytes within in
    let e : r.cells ≡ take size (drop b.position (contents b)) =
      w.cells_eq ∙ ap (take size) (here_eq b size v some_bytes within) in
    (
      after_copy b r,
      read_runs b size r v some_bytes within run ∙ ap (λ c. ok (c, after_copy b r)) e,
      after_copy-ReadFrom b size v some_bytes within r w,
    )

-- On a valid buffer `read` throws for more bytes than are left, and so does `read_at` wherever it reads.
pub read_throws :
    (b : ByteArray) (size position : ℕ)
    → IsValid b
    → b.size < b.position + size
    → (read b size ≡ err out_of_range) × (read_at b size position ≡ err out_of_range)
unfolding read read_at
read_throws b size position v beyond = (ground arith, ground arith)

ReadFrom-IsValid :
    (b b' : ByteArray) (size : ℕ)
    → IsValid b
    → b.position + size ≤ b.size
    → ReadFrom b size b'
    → b'.position ≡ b.position + size
    → IsValid b'
ReadFrom-IsValid b b' size v within r arrived = record {
  base_pos = rw r.base_eq v.base_pos;
  rooted = rw r.nodes_eq v.rooted;
  uniform = rw (r.base_eq, r.nodes_eq) v.uniform;
  capacity_eq = rw (r.capacity_eq, r.base_eq, r.nodes_eq) v.capacity_eq;
  capacity_lt = omega (arith, r.capacity_eq, v.capacity_lt);
  position_le = omega (arith, r.size_eq);
  size_le = omega (arith, r.size_eq, r.capacity_eq, v.size_le);
  cur_lo = rw (r.base_eq, arrived) r.cur_lo;
  cur_hi = rw (r.base_eq, arrived) r.cur_hi;
}

-- On a valid buffer a `read` of what is left that ends at the end of a block (the `k`-th) succeeds,
-- keeps the buffer valid and its data as they were, and advances the position by the bytes read.
pub read-IsValid :
    (b : ByteArray) (size k : ℕ)
    → IsValid b
    → 0 < size
    → b.position + size ≤ b.size
    → b.position + size ≡ k * b.base_size
    → (b' : ByteArray) × (read b size ≡ ok (take size (drop b.position (contents b)), b'))
      × IsValid b'
      × (b'.position ≡ b.position + size)
      × ReadFrom b size b'
read-IsValid b size k v some_bytes within boundary =
    let (b', run, r) = read_lem b size v some_bytes within in
    let exact : k ≡ r.blocks =
      same_block k r.blocks b.base_size (omega (arith, r.position_eq, r.position_lo, boundary))
        (omega (arith, r.position_eq, r.position_hi, boundary)) in
    let arrived : b'.position ≡ b.position + size = r.position_eq ∙ rw (← exact) (sym boundary) in
    (b', run, ReadFrom-IsValid b b' size v within r arrived, arrived, r)

to_string_none :
    (b : ByteArray)
    → IsValid b
    → b.size ≤ b.position
    → to_string b ≡ ok (take (b.size - b.position) (drop b.position (contents b)))
unfolding to_string
to_string_none b v done =
    let e : b.size - b.position ≡ 0 = omega arith in
    let e' : get_read_size b ≡ 0 = omega (arith, v.position_le) in rw (e, e')

to_string_some :
    (b : ByteArray)
    → IsValid b
    → b.position < b.size
    → to_string b ≡ ok (take (b.size - b.position) (drop b.position (contents b)))
unfolding to_string read_at
to_string_some b v left =
    let left_eq : get_read_size b ≡ b.size - b.position =
      omega (arith, v.position_le, v.size_le, v.capacity_lt) in
    let within : b.position + (b.size - b.position) ≤ b.size = omega arith in
    let (r, run, w) = copy_here b (b.size - b.position) v (omega arith) within in
    let e =
      w.cells_eq
      ∙ ap (take (b.size - b.position)) (here_eq b (b.size - b.position) v (omega arith) within) in
    ground (
      arith,
      left_eq,
      offset_lem b v,
      copy_from_lem _ _ _ (b.size - b.position) r (omega arith) run,
      e,
    )

-- On a valid buffer `toString` returns all that is left to read.
pub to_string_lem :
    (b : ByteArray)
    → IsValid b
    → to_string b ≡ ok (take (b.size - b.position) (drop b.position (contents b)))
to_string_lem b v = elim (le-or-lt b.size b.position) [
  | inl done ↦ ground (arith, to_string_none b v done)
  | inr left ↦ to_string_some b v left
]
