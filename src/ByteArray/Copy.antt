-- ===== src/ByteArray/Copy.antt =====
-- The loop of `read`: the cells that it copies, and where it leaves `m_cur` and `m_position`.
use link_server.Base.{
  ℕ, suc, ◌+◌, ◌-◌, ◌*◌, ◌^◌, ◌≤◌, ◌<◌, ◌≡◌, sym, ap, ◌∙◌, List, [], ◌∷◌, ◌++◌, arith, length, take,
  drop, length-drop, ok, Bool-cases, inl, inr, leb, ◌==◌, if◌then◌else◌, take-append_le,
  take-append_ge, drop-append_le, take_all,
}
use link_server.ByteArray.{Node, memcpy_from, Copied, read_loop}
use link_server.ByteArray.Invariant.{IsUniform, concat}

-- What the loop leaves when it starts at index `npos` of the first of the blocks `ns`: `blocks` is
-- the number of blocks that it read from.
pub record CopiedFrom (base : ℕ) (ns : List Node) (npos pos size : ℕ) (r : Copied) : Type 0 where
  pub cells_eq : r.cells ≡ take size (drop npos (concat ns))
  pub blocks : ℕ
  pub position_eq : r.position + npos ≡ pos + blocks * base
  pub blocks_lo : npos + size ≤ blocks * base
  pub blocks_hi : blocks * base < npos + size + base
  pub moves_lo : r.moves * base ≤ npos + size
  pub moves_hi : npos + size < r.moves * base + base

abbrev pub CopyOk : ℕ → List Node → ℕ → ℕ → ℕ → Type 0
CopyOk base ns npos pos size =
    (r : Copied) × (read_loop ns npos pos size ≡ ok r) × CopiedFrom base ns npos pos size r

read_loop_last :
    (base : ℕ) (n : Node) (ns : List Node) (npos pos size : ℕ)
    → IsUniform base (n ∷ ns)
    → base < 2 ^ 64
    → npos < base
    → 0 < size
    → pos + (base - npos) < 2 ^ 64
    → npos + size ≤ base
    → CopyOk base (n ∷ ns) npos pos size
unfolding read_loop memcpy_from
read_loop_last base n ns npos pos size (e, u) small inside some_bytes nowrap fit =
    let d : drop npos (n ++ concat ns) ≡ drop npos n ++ concat ns =
      drop-append_le npos n (concat ns) (omega arith) in
    let l : length (drop npos n) ≡ base - npos = omega (arith, length-drop npos n) in
    (
      record {
        cells = take size (drop npos n);
        moves = if base == npos + size then 1 else 0;
        position = pos + (base - npos);
      },
      ground arith,
      record {
        cells_eq =
            sym (ap (take size) d ∙ take-append_le size (drop npos n) (concat ns) (omega arith));
        blocks = 1;
        position_eq = omega arith;
        blocks_lo = omega arith;
        blocks_hi = omega arith;
        moves_lo = ground arith;
        moves_hi = ground arith;
      },
    )

read_loop_more :
    (base : ℕ) (n : Node) (ns : List Node) (npos pos size : ℕ)
    → IsUniform base (n ∷ ns)
    → base < 2 ^ 64
    → npos < base
    → base < npos + size
    → pos + (base - npos) < 2 ^ 64
    → CopyOk base ns 0 (pos + (base - npos)) (size - (base - npos))
    → CopyOk base (n ∷ ns) npos pos size
unfolding read_loop memcpy_from
read_loop_more base n ns npos pos size (e, u) small inside over nowrap (r, run, w) =
    let d : drop npos (n ++ concat ns) ≡ drop npos n ++ concat ns =
      drop-append_le npos n (concat ns) (omega arith) in
    let l : length (drop npos n) ≡ base - npos = omega (arith, length-drop npos n) in
    let t : take (base - npos) (drop npos n) ≡ drop npos n =
      take_all (base - npos) (drop npos n) (omega arith) in
    (
      record { cells = drop npos n ++ r.cells; moves = suc r.moves; position = r.position },
      ground (arith, run, t),
      record {
        cells_eq =
            ap (λ s. drop npos n ++ s) w.cells_eq
            ∙ sym (
                ap (take size) d
                ∙ take-append_ge size (size - (base - npos)) (drop npos n) (concat ns)
                    (omega arith));
        blocks = suc w.blocks;
        position_eq = omega (arith, w.position_eq);
        blocks_lo = omega (arith, w.blocks_lo);
        blocks_hi = omega (arith, w.blocks_hi);
        moves_lo = omega (arith, w.moves_lo);
        moves_hi = omega (arith, w.moves_hi);
      },
    )

pub read_loop_lem :
    (base : ℕ) (ns : List Node) (npos pos size : ℕ)
    → IsUniform base ns
    → base < 2 ^ 64
    → npos < base
    → 0 < size
    → npos + size ≤ length ns * base
    → pos + length ns * base < 2 ^ 64 + npos
    → CopyOk base ns npos pos size
read_loop_lem base [] npos pos size u small inside some_bytes room nowrap = absurd (omega arith)
read_loop_lem base (n ∷ ns) npos pos size (e, u) small inside some_bytes room nowrap =
    elim (Bool-cases (leb (npos + size) base)) [
      | inl fit ↦
          read_loop_last base n ns npos pos size (e, u) small inside some_bytes (omega arith)
            (ground arith)
      | inr over ↦
          let over' : base < npos + size = ground arith in
          read_loop_more base n ns npos pos size (e, u) small inside over' (omega arith)
            (read_loop_lem base ns 0 (pos + (base - npos)) (size - (base - npos)) u small
              (omega arith) (omega arith) (omega arith) (omega arith))
    ]
