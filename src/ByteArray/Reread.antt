-- ===== src/ByteArray/Reread.antt =====
-- Two faults of `read`: the position that it leaves inside a block, and a read at the very end.
use native.Mathlib.Nat.{lt_of_mul-lt-mul_right}
use link_server.Base.{
  suc, ◌+◌, ◌-◌, ◌*◌, ◌%◌, ◌^◌, ◌<◌, ◌≡◌, ◌≢◌, ap, ◌∙◌, List, [], arith, length, take, drop,
  drop_all, ok, err, ◌>>=◌, null_deref, Result, leb, true,
}
use link_server.ByteArray.{ByteArray, Cell, read, get_read_size}
use link_server.ByteArray.Invariant.{IsValid, IsUniform-drop, contents, concat}
use link_server.ByteArray.Blocks.{offset_lem, room_eq, same_block, mod_in_block}
use link_server.ByteArray.Copy.{CopyOk, read_loop_lem}
use link_server.ByteArray.Read.{ReadFrom, read_lem, copy_from_lem, here_eq}

-- On a valid buffer whose position is its capacity, reading no bytes reads through a null pointer.
pub read_none_at_end :
    (b : ByteArray) → IsValid b → b.position ≡ b.capacity → read b 0 ≡ err null_deref
unfolding read
read_none_at_end b v e =
    let last : b.cur ≡ length b.nodes =
      same_block b.cur (length b.nodes) b.base_size (omega (arith, v.cur_lo, v.capacity_eq))
        (omega (arith, v.cur_hi, v.capacity_eq)) in
    let gone : drop b.cur b.nodes ≡ [] = drop_all b.cur b.nodes (omega arith) in
    ground (arith, gone, offset_lem b v)

-- Two reads of one byte.
abbrev pub read_twice : ByteArray → Result (List Cell × List Cell)
read_twice b = do (c1, b1) ← read b 1; (c2, b2) ← read b1 1; ok (c1, c2)

module _ (b : ByteArray) (v : IsValid b) (wide : 1 < b.base_size)
    (at_start : b.position ≡ b.cur * b.base_size) (left : b.position < b.size)
    (unlike : b.size ≢ b.position + b.base_size) (nowrap : b.capacity + b.base_size < 2 ^ 64) where
  open b use {base_size, position, nodes, cur}

  abbrev pub first : List Cell
  first = take 1 (drop position (contents b))

  module _ (b1 : ByteArray) (r : ReadFrom b 1 b1) where
    same_data : (b1.nodes ≡ nodes) × (b1.base_size ≡ base_size) × (b1.size ≡ b.size)
    same_data = (r.nodes_eq, r.base_eq, r.size_eq)

    stays : b1.cur ≡ cur
    stays =
        let lo : b1.cur < suc cur =
          lt_of_mul-lt-mul_right base_size (omega (arith, r.cur_lo, at_start, wide)) in
        let hi : cur < suc b1.cur =
          lt_of_mul-lt-mul_right base_size (omega (arith, r.cur_hi, at_start, wide)) in
        omega arith

    skipped : b1.position ≡ position + base_size
    skipped =
        let lo : cur < r.blocks =
          lt_of_mul-lt-mul_right base_size
            (omega (arith, r.position_eq, r.position_lo, at_start)) in
        let hi : r.blocks < suc (suc cur) =
          lt_of_mul-lt-mul_right base_size
            (omega (arith, r.position_eq, r.position_hi, at_start, wide)) in
        let e : r.blocks ≡ suc cur = omega arith in r.position_eq ∙ rw e (omega (arith, at_start))

    again : CopyOk base_size (drop cur nodes) 0 (position + base_size) 1
    again =
        let room = room_eq b v in
        read_loop_lem base_size (drop cur nodes) 0 (position + base_size) 1
          (IsUniform-drop base_size cur nodes v.uniform) (omega (arith, nowrap)) v.base_pos
          (omega arith) (omega (arith, v.size_le, left, at_start, wide))
          (omega (arith, at_start, nowrap))

    second : (b2 : ByteArray) × (read b1 1 ≡ ok (first, b2))
    unfolding read
    second =
        let (c, run, w) = again in
        let origin : 0 ≡ position - cur * base_size = omega (arith, at_start) in
        let cells : c.cells ≡ first =
          w.cells_eq
          ∙ ap (λ k. take 1 (drop k (concat (drop cur nodes)))) origin
          ∙ ap (take 1) (here_eq b 1 v (omega arith) (omega arith)) in
        let zero_offset : (position + base_size) % base_size ≡ 0 =
          mod_in_block (suc cur) (position + base_size) base_size (omega (arith, at_start))
            (omega (arith, at_start, v.base_pos))
          ∙ omega (arith, at_start) in
        let enough : leb 1 (get_read_size b1) ≡ true =
          ground (arith, skipped, r.size_eq, unlike, v.size_le, nowrap) in
        (
          record b1 { cur = b1.cur + c.moves; position = c.position },
          ground (
            arith,
            enough,
            skipped,
            stays,
            same_data,
            zero_offset,
            v.base_pos,
            cells,
            copy_from_lem (drop cur nodes) 0 (position + base_size) 1 c (omega arith) run,
          ),
        )

  -- On a valid buffer with blocks of two bytes or more, at the start of a block, with data left
  -- that does not end exactly with that block, two reads of one byte return the same byte.
  pub read-reread : read_twice b ≡ ok (first, first)
  read-reread =
      let (b1, got, r) = read_lem b 1 v (omega arith) (omega arith) in
      let (b2, got2) = second b1 r in rw (got, got2)
