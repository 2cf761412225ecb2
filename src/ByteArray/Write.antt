-- ===== src/ByteArray/Write.antt =====
-- `write`: it succeeds, keeps the invariant, and writes its bytes over the contents at the position.
use mathlib.Core.List.{append-nil}
use link_server.Base.{
  ℕ, suc, ◌+◌, ◌-◌, ◌*◌, ◌^◌, ◌≤◌, ◌<◌, ◌≡◌, refl, sym, ap, ap₂, ◌∙◌, List, [], ◌∷◌, ◌++◌, map,
  arith, length, take, drop, length-append, length-take, length-drop, ok, Bool-cases, inl, inr, leb,
  ltb, ◌==◌, if◌then◌else◌, some, length-map, replicate, take-append-drop,
}
use link_server.ByteArray.{
  ByteArray, Node, Cell, splice, memcpy_to, Written, write_loop, write, add_capacity, sub_size,
}
use link_server.ByteArray.Invariant.{
  IsValid, IsUniform, IsUniform-append, IsUniform-take, IsUniform-drop, concat, contents,
  concat-append, length-splice, splice-append_le, splice-append_ge, splice_across, unwritten,
}
use link_server.ByteArray.Blocks.{cur-le, offset_lem, length-before, contents_split, room_eq}
use link_server.ByteArray.Capacity.{Grown, add_capacity_lem}

-- What the loop leaves when it starts at index `npos` of the first of the blocks `ns`.
record Wrote (base : ℕ) (ns : List Node) (npos pos : ℕ) (buf : List Cell) (r : Written)
    : Type 0 where
  bytes : concat r.nodes ≡ splice npos buf (concat ns)
  uniform : IsUniform base r.nodes
  length_eq : length r.nodes ≡ length ns
  position_eq : r.position ≡ pos + length buf
  moves_lo : r.moves * base ≤ npos + length buf
  moves_hi : npos + length buf < r.moves * base + base

abbrev WriteOk : ℕ → List Node → ℕ → ℕ → List Cell → Type 0
WriteOk base ns npos pos buf =
    (r : Written) × (write_loop ns npos pos buf ≡ ok r) × Wrote base ns npos pos buf r

write_loop_last :
    (base : ℕ) (n : Node) (ns : List Node) (npos pos : ℕ) (buf : List Cell)
    → IsUniform base (n ∷ ns)
    → base < 2 ^ 64
    → npos < base
    → pos + length buf < 2 ^ 64
    → npos + length buf ≤ base
    → WriteOk base (n ∷ ns) npos pos buf
unfolding write_loop memcpy_to
write_loop_last base n ns npos pos buf (e, u) small inside nowrap fit = (
  record {
    nodes = splice npos buf n ∷ ns;
    moves = if length n == npos + length buf then 1 else 0;
    position = pos + length buf;
  },
  ground arith,
  record {
    bytes = sym (splice-append_le npos buf n (concat ns) (omega arith));
    uniform = (omega (arith, length-splice npos buf n), u);
    length_eq = refl;
    position_eq = refl;
    moves_lo = ground arith;
    moves_hi = ground arith;
  },
)

write_loop_more :
    (base : ℕ) (n : Node) (ns : List Node) (npos pos : ℕ) (buf : List Cell)
    → IsUniform base (n ∷ ns)
    → base < 2 ^ 64
    → npos < base
    → base < npos + length buf
    → pos + length buf < 2 ^ 64
    → WriteOk base ns 0 (pos + (base - npos)) (drop (base - npos) buf)
    → WriteOk base (n ∷ ns) npos pos buf
unfolding write_loop memcpy_to
write_loop_more base n ns npos pos buf (e, u) small inside over nowrap (r, run, w) =
    let count : length (take (base - npos) buf) ≡ base - npos =
      omega (arith, length-take (base - npos) buf) in
    let rest : length (drop (base - npos) buf) ≡ length buf - (base - npos) =
      omega (arith, length-drop (base - npos) buf) in
    let room : sub_size (length n) npos ≡ base - npos = omega arith in
    (
      record {
        nodes = splice npos (take (base - npos) buf) n ∷ r.nodes;
        moves = suc r.moves;
        position = r.position;
      },
      ground (arith, run),
      record {
        bytes =
            rw w.bytes
              (splice_across npos (base - npos) buf n (concat ns) (omega arith) (omega arith));
        uniform = (omega (arith, length-splice npos (take (base - npos) buf) n), w.uniform);
        length_eq = ap suc w.length_eq;
        position_eq = omega (arith, w.position_eq);
        moves_lo = omega (arith, w.moves_lo);
        moves_hi = omega (arith, w.moves_hi);
      },
    )

write_loop_lem :
    (base : ℕ) (ns : List Node) (npos pos : ℕ) (buf : List Cell)
    → IsUniform base ns
    → base < 2 ^ 64
    → npos < base
    → pos + length buf < 2 ^ 64
    → 0 < length buf
    → npos + length buf ≤ length ns * base
    → WriteOk base ns npos pos buf
write_loop_lem base [] npos pos buf u small inside nowrap some_bytes room = absurd (omega arith)
write_loop_lem base (n ∷ ns) npos pos buf (e, u) small inside nowrap some_bytes room =
    elim (Bool-cases (leb (npos + length buf) base)) [
      | inl fit ↦ write_loop_last base n ns npos pos buf (e, u) small inside nowrap (ground arith)
      | inr over ↦
          let rest : length (drop (base - npos) buf) ≡ length buf - (base - npos) =
            omega (arith, length-drop (base - npos) buf) in
          let over' : base < npos + length buf = ground arith in
          write_loop_more base n ns npos pos buf (e, u) small inside over' nowrap
            (write_loop_lem base ns 0 (pos + (base - npos)) (drop (base - npos) buf) u small
              (omega arith) (omega arith) (omega arith) (omega arith))
    ]

-- What `write` leaves of the buffer `b`.
pub record WroteTo (b : ByteArray) (buf : List ℕ) (b' : ByteArray) : Type 0 where
  pub valid : IsValid b'
  pub base_eq : b'.base_size ≡ b.base_size
  pub endian_eq : b'.endian ≡ b.endian
  pub position_eq : b'.position ≡ b.position + length buf
  pub size_eq : b'.size ≡ (if ltb b.size b'.position then b'.position else b.size)
  pub extra : ℕ
  pub contents_eq :
      contents b' ≡ splice b.position (map some buf) (contents b ++ replicate extra unwritten)

-- The buffer after the loop of `write`.
abbrev after_loop : ByteArray → Written → ByteArray
after_loop b r = record b {
  nodes = take b.cur b.nodes ++ r.nodes;
  cur = b.cur + r.moves;
  position = r.position;
  size = if ltb b.size r.position then r.position else b.size;
}

module _ (b : ByteArray) (buf : List ℕ) (v : IsValid b) (some_bytes : 0 < length buf)
    (room : b.position + length buf ≤ b.capacity) where
  open b use {base_size, position, nodes, cur}

  abbrev start : ℕ
  start = position - cur * base_size

  count : length (map some buf) ≡ length buf
  count = length-map buf some

  block_fits : base_size < 2 ^ 64
  block_fits =
      let e : base_size ≤ length nodes * base_size = let p = v.rooted in grind arith in
      omega (arith, v.capacity_eq, v.capacity_lt)

  write_here : WriteOk base_size (drop cur nodes) start position (map some buf)
  write_here =
      write_loop_lem base_size (drop cur nodes) start position (map some buf)
        (IsUniform-drop base_size cur nodes v.uniform) block_fits
        (omega (arith, v.cur_lo, v.cur_hi)) (omega (arith, count, v.capacity_lt))
        (omega (arith, count)) (omega (arith, count, room_eq b v, v.cur_lo))

  module _ (r : Written)
      (w : Wrote base_size (drop cur nodes) start position (map some buf) r) where
    after_loop-nodes : length (after_loop b r).nodes ≡ length nodes
    after_loop-nodes = omega (
      arith,
      length-append (take cur nodes) r.nodes,
      length-take cur nodes,
      length-drop cur nodes,
      w.length_eq,
      cur-le b v,
    )

    after_loop-IsValid : IsValid (after_loop b r)
    after_loop-IsValid = record {
      base_pos = v.base_pos;
      rooted = omega (arith, after_loop-nodes, v.rooted);
      uniform =
          IsUniform-append base_size (take cur nodes) r.nodes
            (IsUniform-take base_size cur nodes v.uniform) w.uniform;
      capacity_eq = rw after_loop-nodes v.capacity_eq;
      capacity_lt = v.capacity_lt;
      position_le = ground arith;
      size_le = ground (arith, count, w.position_eq, v.size_le);
      cur_lo = omega (arith, w.moves_lo, w.position_eq, v.cur_lo);
      cur_hi = omega (arith, w.moves_hi, w.position_eq, v.cur_lo);
    }

    after_loop-contents : contents (after_loop b r) ≡ splice position (map some buf) (contents b)
    after_loop-contents =
        let e : position ≡ length (concat (take cur nodes)) + start =
          omega (arith, length-before b v, v.cur_lo) in
        concat-append (take cur nodes) r.nodes
        ∙ ap (λ t. concat (take cur nodes) ++ t) w.bytes
        ∙ sym (
            splice-append_ge start (map some buf) (concat (take cur nodes))
              (concat (drop cur nodes)))
        ∙ ap₂ (λ p t. splice p (map some buf) t) (sym e) (sym (contents_split b v))

splice-nil {ℓ} : {A : Type ℓ} (p : ℕ) (xs : List A) → splice p [] xs ≡ xs
splice-nil p xs = let e : p + 0 ≡ p = omega arith in rw e (take-append-drop p xs)

write_none : (b : ByteArray) → IsValid b → WroteTo b [] b
write_none b v = record {
  valid = v;
  base_eq = refl;
  endian_eq = refl;
  position_eq = omega arith;
  size_eq = ground arith;
  extra = 0;
  contents_eq = sym (splice-nil b.position (contents b ++ []) ∙ append-nil (contents b));
}

write_some :
    (b b1 : ByteArray) (buf : List ℕ) (some_bytes : 0 < length buf) (g : Grown b (length buf) b1)
    (room : b1.position + length buf ≤ b1.capacity) (r : Written)
    → Wrote b1.base_size
        (drop b1.cur b1.nodes)
        (b1.position - b1.cur * b1.base_size)
        b1.position
        (map some buf)
        r
    → WroteTo b buf (after_loop b1 r)
write_some b b1 buf some_bytes g room r w = record {
  valid = after_loop-IsValid b1 buf g.valid some_bytes room r w;
  base_eq = g.base_eq;
  endian_eq = g.endian_eq;
  position_eq = omega (arith, w.position_eq, g.position_eq, length-map buf some);
  size_eq = ap (λ k. if ltb k r.position then r.position else k) g.size_eq;
  extra = g.extra;
  contents_eq =
      after_loop-contents b1 buf g.valid some_bytes room r w
      ∙ ap₂ (λ p t. splice p (map some buf) t) g.position_eq g.contents_eq;
}

write_runs :
    (b b1 : ByteArray) (buf : List ℕ) (r : Written)
    → 0 < length buf
    → add_capacity b (length buf) ≡ ok b1
    → IsValid b1
    → write_loop
        (drop b1.cur b1.nodes)
        (b1.position - b1.cur * b1.base_size)
        b1.position
        (map some buf)
      ≡ ok r
    → write b buf ≡ ok (after_loop b1 r)
unfolding write
write_runs b b1 buf r some_bytes grow v run = ground (arith, grow, offset_lem b1 v, run)

-- On a valid buffer, with the new position and one block more below 2 ^ 64, `write` succeeds; it keeps the buffer valid, advances the position by the
-- bytes written, raises the size to the position where it was below, and leaves the old contents,
-- with new blocks behind them, except for its bytes at the old position.
pub write_lem :
    (b : ByteArray) (buf : List ℕ)
    → IsValid b
    → b.position + length buf + b.base_size < 2 ^ 64
    → (b' : ByteArray) × (write b buf ≡ ok b') × WroteTo b buf b'
write_lem b [] v fits = (b, unfold write in refl, write_none b v)
write_lem b (x ∷ xs) v fits =
    let (b1, grow, g) = add_capacity_lem b (length (x ∷ xs)) v fits in
    let some_bytes : 0 < length (x ∷ xs) = omega arith in
    let room : b1.position + length (x ∷ xs) ≤ b1.capacity = omega (arith, g.room, g.position_eq) in
    let (r, run, w) = write_here b1 (x ∷ xs) g.valid some_bytes room in
    (
      after_loop b1 r,
      write_runs b b1 (x ∷ xs) r some_bytes grow g.valid run,
      write_some b b1 (x ∷ xs) some_bytes g room r w,
    )
