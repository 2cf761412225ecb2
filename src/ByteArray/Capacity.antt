-- ===== src/ByteArray/Capacity.antt =====
-- `addCapacity`: the blocks that it adds are enough, and it changes nothing else.
use mathlib.Core.List.{append-nil, append_assoc}
use native.Mathlib.Nat.{div-add-mod, mod-lt}
use link_server.Base.{
  ℕ, zero, suc, ◌+◌, ◌-◌, ◌*◌, ◌^◌, ◌≤◌, ◌<◌, ◌≡◌, refl, sym, ap, ◌∙◌, List, [], ◌∷◌, ◌++◌, ◌⊎◌,
  arith, length, length-append, length-replicate, replicate, ok, Bool-cases, inl, inr, leb,
}
use link_server.ByteArray.{
  ByteArray, Node, Cell, new_node, append_blocks, block_count, add_capacity, sub_size, get_capacity,
}
use link_server.ByteArray.Blocks.{same_block}
use link_server.ByteArray.Invariant.{
  IsValid, IsUniform, IsUniform-append, concat, contents, concat-append, unwritten,
}

block_count_bounds :
    (size base : ℕ)
    → 0 < base
    → (size ≤ block_count size base * base) × (block_count size base * base < size + base)
unfolding block_count
block_count_bounds size base h = ground (arith, div-add-mod size base, mod-lt size h)

abbrev blocks : ℕ → ℕ → List Node
blocks count base = replicate count (new_node base)

blocks-IsUniform : (count base : ℕ) → IsUniform base (blocks count base)
blocks-IsUniform zero base = tt
blocks-IsUniform (suc count) base = (length-replicate base unwritten, blocks-IsUniform count base)

replicate-add : (m n : ℕ) (c : Cell) → replicate (m + n) c ≡ replicate m c ++ replicate n c
replicate-add zero n c = ap (λ k. replicate k c) (omega arith)
replicate-add (suc m) n c =
    let e : suc m + n ≡ suc (m + n) = omega arith in rw e (ap (λ t. c ∷ t) (replicate-add m n c))

concat-blocks : (count base : ℕ) → concat (blocks count base) ≡ replicate (count * base) unwritten
concat-blocks zero base = let e : zero * base ≡ 0 = omega arith in rw e
concat-blocks (suc count) base =
    let e : suc count * base ≡ base + count * base = omega arith in
    rw (e, replicate-add base (count * base) unwritten, concat-blocks count base)

append_blocks_lem :
    (count : ℕ) (b : ByteArray)
    → b.capacity + count * b.base_size < 2 ^ 64
    → append_blocks count b ≡ record b {
      nodes = b.nodes ++ blocks count b.base_size;
      capacity = b.capacity + count * b.base_size;
    }
unfolding append_blocks
append_blocks_lem zero b h = ground (arith, append-nil b.nodes)
append_blocks_lem (suc count) b h =
    append_blocks_lem count _ (omega arith)
    ∙ ground (arith, append_assoc b.nodes (new_node b.base_size ∷ []) (blocks count b.base_size))

-- What `add_capacity` leaves: the same buffer with blocks behind the old ones.
pub record Grown (b : ByteArray) (size : ℕ) (b' : ByteArray) : Type 0 where
  pub valid : IsValid b'
  pub base_eq : b'.base_size ≡ b.base_size
  pub position_eq : b'.position ≡ b.position
  pub size_eq : b'.size ≡ b.size
  pub cur_eq : b'.cur ≡ b.cur
  pub endian_eq : b'.endian ≡ b.endian
  pub extra : ℕ
  pub contents_eq : contents b' ≡ contents b ++ replicate extra unwritten
  pub room : b.position + size ≤ b'.capacity
  pub no_more : (b'.capacity ≡ b.capacity) ⊎ (b'.capacity < b.position + size + b.base_size)

module _ (b : ByteArray) (size : ℕ) (v : IsValid b)
    (fits : b.position + size + b.base_size < 2 ^ 64) where
  abbrev missing : ℕ
  missing = size - (b.capacity - b.position)

  abbrev count : ℕ
  count = block_count missing b.base_size

  abbrev grown : ByteArray
  grown = record b {
    nodes = b.nodes ++ blocks count b.base_size;
    capacity = b.capacity + count * b.base_size;
  }

  get_capacity_lem : get_capacity b ≡ b.capacity - b.position
  get_capacity_lem = let u = v in omega arith

  length-grown : length grown.nodes * b.base_size ≡ b.capacity + count * b.base_size
  length-grown =
      let u = v in
      let e : length grown.nodes ≡ length b.nodes + count = omega (
        arith,
        length-append b.nodes (blocks count b.base_size),
        length-replicate count (new_node b.base_size),
      ) in
      rw e (omega arith)

  grown-Grown : b.capacity - b.position < size → Grown b size grown
  grown-Grown small =
      let (lo, hi) = block_count_bounds missing b.base_size v.base_pos in
      record {
        valid = record {
          base_pos = v.base_pos;
          rooted = omega (arith, v.rooted, length-append b.nodes (blocks count b.base_size));
          uniform =
              IsUniform-append b.base_size b.nodes (blocks count b.base_size) v.uniform
                (blocks-IsUniform count b.base_size);
          capacity_eq = sym length-grown;
          capacity_lt = omega (arith, v.position_le, v.size_le, v.capacity_lt);
          position_le = v.position_le;
          size_le = omega (arith, v.size_le);
          cur_lo = v.cur_lo;
          cur_hi = v.cur_hi;
        };
        base_eq = refl;
        position_eq = refl;
        size_eq = refl;
        cur_eq = refl;
        endian_eq = refl;
        extra = count * b.base_size;
        contents_eq =
            rw (concat-append b.nodes (blocks count b.base_size), concat-blocks count b.base_size);
        room = omega (arith, v.position_le, v.size_le);
        no_more = inr (omega (arith, v.position_le, v.size_le));
      }

  enough : size ≤ b.capacity - b.position → Grown b size b
  enough h = record {
    valid = v;
    base_eq = refl;
    position_eq = refl;
    size_eq = refl;
    cur_eq = refl;
    endian_eq = refl;
    extra = 0;
    contents_eq = sym (append-nil (contents b));
    room = omega (arith, v.position_le, v.size_le);
    no_more = inl refl;
  }

  cur-full : b.capacity - b.position ≡ 0 → b.cur ≡ length b.nodes
  cur-full e =
      same_block b.cur (length b.nodes) b.base_size
        (omega (arith, v.cur_lo, v.capacity_eq, v.position_le, v.size_le))
        (omega (arith, v.cur_hi, v.capacity_eq, v.position_le, v.size_le))

  added : b.capacity - b.position < size → append_blocks count b ≡ grown
  added small = append_blocks_lem count b ((grown-Grown small).valid.capacity_lt)

  sub_size_lem : b.capacity - b.position < size → sub_size size (b.capacity - b.position) ≡ missing
  sub_size_lem small = omega arith

  grow : b.capacity - b.position < size → add_capacity b size ≡ ok grown
  unfolding add_capacity
  grow small =
      ground (arith, get_capacity_lem, sub_size_lem small, added small, cur-full, v.base_pos)

  pub add_capacity_lem : (b' : ByteArray) × (add_capacity b size ≡ ok b') × Grown b size b'
  unfolding add_capacity
  add_capacity_lem = elim (Bool-cases (leb size (b.capacity - b.position))) [
    | inl fit ↦ (b, ground (arith, get_capacity_lem), enough (ground arith))
    | inr small ↦ (grown, grow (ground arith), grown-Grown (ground arith))
  ]
