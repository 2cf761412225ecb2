-- ===== src/ByteArray/RoundTrip.antt =====
-- What is written is read back after the position is set to where the writing began.
use link_server.Base.{
  ℕ, ◌+◌, ◌^◌, ◌≤◌, ◌<◌, ◌≡◌, sym, ap, ap₂, ◌∙◌, List, ◌++◌, map, arith, length, take, drop,
  length-append, length-take, length-map, ok, ◌>>=◌, inl, inr, take-append_le, drop-append_ge,
  take_all, some, replicate, none,
}
use link_server.ByteArray.{ByteArray, splice, write, read, set_position}
use link_server.ByteArray.Invariant.{IsValid, contents, concat}
use link_server.ByteArray.Blocks.{length-contents}
use link_server.ByteArray.Write.{WroteTo, write_lem}
use link_server.ByteArray.Read.{read_lem}
use link_server.ByteArray.Position.{Moved, set_position_lem}

pub splice_read {ℓ} :
    {A : Type ℓ} (p : ℕ) (ys xs : List A)
    → p ≤ length xs
    → take (length ys) (drop p (splice p ys xs)) ≡ ys
splice_read p ys xs h =
    let l : length (take p xs) ≡ p = omega (arith, length-take p xs) in
    let d : drop p (splice p ys xs) ≡ ys ++ drop (p + length ys) xs =
      drop-append_ge p 0 (take p xs) (ys ++ drop (p + length ys) xs) (omega arith) in
    ap (take (length ys)) d
    ∙ take-append_le (length ys) ys (drop (p + length ys) xs) (omega arith)
    ∙ take_all (length ys) ys (omega arith)

-- What is left after the position is set back behind a `write`.
pub record Rewound (b : ByteArray) (buf : List ℕ) (b2 : ByteArray) : Type 0 where
  pub valid : IsValid b2
  pub base_eq : b2.base_size ≡ b.base_size
  pub endian_eq : b2.endian ≡ b.endian
  pub position_eq : b2.position ≡ b.position
  pub within : b.position + length buf ≤ b2.size
  pub there : take (length buf) (drop b.position (contents b2)) ≡ map some buf

Moved-Rewound :
    (b b1 b2 : ByteArray) (buf : List ℕ)
    → IsValid b
    → WroteTo b buf b1
    → Moved b1 b.position b2
    → Rewound b buf b2
Moved-Rewound b b1 b2 buf v w m = record {
  valid = m.valid;
  base_eq = m.base_eq ∙ w.base_eq;
  endian_eq = m.endian_eq ∙ w.endian_eq;
  position_eq = m.position_eq;
  within = ground (arith, m.size_eq, w.size_eq, w.position_eq);
  there =
      let l : length (contents b ++ replicate w.extra none)
          ≡ length (contents b) + length (replicate w.extra none) =
        length-append (contents b) (replicate w.extra none) in
      ap₂ (λ n ns. take n (drop b.position (concat ns))) (sym (length-map buf some)) m.nodes_eq
      ∙ ap (λ c. take (length (map some buf)) (drop b.position c)) w.contents_eq
      ∙ splice_read b.position (map some buf) _
          (omega (arith, length-contents b v, v.position_le, v.size_le, l));
}

pub write-rewind :
    (b : ByteArray) (buf : List ℕ)
    → IsValid b
    → b.position + length buf + b.base_size < 2 ^ 64
    → (b1 : ByteArray) × (write b buf ≡ ok b1)
      × ((b2 : ByteArray) × (set_position b1 b.position ≡ ok b2) × Rewound b buf b2)
write-rewind b buf v fits =
    let (b1, wrote, w) = write_lem b buf v fits in
    elim (set_position_lem b1 b.position w.valid) [
      | inl (beyond, _) ↦ absurd (let u = w.valid in omega (arith, w.position_eq))
      | inr (_, (b2, moved, m)) ↦ (b1, wrote, (b2, moved, Moved-Rewound b b1 b2 buf v w m))
    ]

-- One byte or more written to a valid buffer, with the new position and one block more below
-- 2 ^ 64, the position set back to where they begin, and their number read: the result is those
-- bytes.
pub read-write :
    (b : ByteArray) (buf : List ℕ)
    → IsValid b
    → 0 < length buf
    → b.position + length buf + b.base_size < 2 ^ 64
    → (do
      b1 ← write b buf
      b2 ← set_position b1 b.position
      (cells, b3) ← read b2 (length buf)
      ok cells)
      ≡ ok (map some buf)
read-write b buf v some_bytes fits =
    let (b1, wrote, (b2, moved, rw_)) = write-rewind b buf v fits in
    let (b3, got, _) =
      read_lem b2 (length buf) rw_.valid some_bytes (omega (arith, rw_.position_eq, rw_.within)) in
    let e : take (length buf) (drop b2.position (contents b2)) ≡ map some buf =
      ap (λ p. take (length buf) (drop p (contents b2))) rw_.position_eq ∙ rw_.there in
    rw (wrote, moved, got) (ap ok e)
