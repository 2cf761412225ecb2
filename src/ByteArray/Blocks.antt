-- ===== src/ByteArray/Blocks.antt =====
-- Where the position of a valid buffer stands: in the block `m_cur`, at `m_position % m_baseSize`.
use native.Mathlib.Nat.{lt_of_mul-lt-mul_right, div-eq_of_lt-le, mod-eq-sub-div-mul}
use link_server.Base.{
  ℕ, suc, ◌+◌, ◌-◌, ◌*◌, ◌%◌, ◌≤◌, ◌<◌, ◌≡◌, sym, ap, ◌∙◌, ◌++◌, arith, length, take, drop,
  length-take, length-drop, ok, take-append-drop,
}
use link_server.ByteArray.{ByteArray, offset}
use link_server.ByteArray.Invariant.{
  IsValid, IsUniform-take, concat, contents, concat-append, length-concat,
}

pub block_le : (c l base : ℕ) → c * base ≤ l * base → 0 < base → c ≤ l
block_le c l base h pos =
    let below : c < suc l = lt_of_mul-lt-mul_right base (grind arith) in omega arith

-- Two blocks that hold one position are one block.
pub same_block : (c l base : ℕ) → c * base ≤ l * base → l * base < c * base + base → c ≡ l
same_block c l base lo hi =
    let below : c < suc l = lt_of_mul-lt-mul_right base (grind arith) in
    let above : l < suc c = lt_of_mul-lt-mul_right base (grind arith) in omega arith

pub mod_in_block : (c p base : ℕ) → c * base ≤ p → p < c * base + base → p % base ≡ p - c * base
mod_in_block c p base lo hi =
    let hi' : p < (c + 1) * base = grind arith in
    mod-eq-sub-div-mul p base ∙ rw (div-eq_of_lt-le {k = c} base {m = p} lo hi')

module _ (b : ByteArray) (v : IsValid b) where
  open b use {base_size, position, nodes, cur}

  pub cur-le : cur ≤ length nodes
  cur-le =
      block_le cur (length nodes) base_size
        (omega (arith, v.cur_lo, v.position_le, v.size_le, v.capacity_eq)) v.base_pos

  pub offset_lem : offset b position ≡ ok (position - cur * base_size)
  offset_lem = ground (arith, mod_in_block cur position base_size v.cur_lo v.cur_hi, v.base_pos)

  pub length-before : length (concat (take cur nodes)) ≡ cur * base_size
  length-before =
      let e : length (take cur nodes) ≡ cur = omega (arith, cur-le, length-take cur nodes) in
      length-concat base_size (take cur nodes) (IsUniform-take base_size cur nodes v.uniform)
      ∙ ap (λ k. k * base_size) e

  pub length-after : length (drop cur nodes) ≡ length nodes - cur
  length-after = length-drop cur nodes

  pub contents_split : contents b ≡ concat (take cur nodes) ++ concat (drop cur nodes)
  contents_split =
      ap concat (sym (take-append-drop cur nodes)) ∙ concat-append (take cur nodes) (drop cur nodes)

  pub length-contents : length (contents b) ≡ b.capacity
  length-contents = length-concat base_size nodes v.uniform ∙ sym v.capacity_eq

  -- The room from the position on is that of the blocks from `m_cur` on.
  pub room_eq : length (drop cur nodes) * base_size + cur * base_size ≡ b.capacity
  room_eq =
      let le = cur-le in
      let e : length nodes ≡ length (drop cur nodes) + cur = omega (arith, length-after) in
      let e' : length nodes * base_size ≡ (length (drop cur nodes) + cur) * base_size =
        ap (λ k. k * base_size) e in
      omega (arith, v.capacity_eq)
