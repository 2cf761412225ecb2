-- ===== src/ByteArray/Position.antt =====
-- `setPosition`: the walk from the root ends in the block of the new position.
use link_server.Base.{
  ℕ, suc, ◌+◌, ◌-◌, ◌*◌, ◌≤◌, ◌<◌, ◌≡◌, refl, ◌⊎◌, List, [], ◌∷◌, arith, length, ok, err,
  Bool-cases, inl, inr, ltb, ◌==◌, if◌then◌else◌, out_of_range,
}
use link_server.ByteArray.{ByteArray, Node, seek, set_position}
use link_server.ByteArray.Invariant.{IsValid, IsUniform}

more_blocks : (base v : ℕ) (ns : List Node) → base < v → v ≤ suc (length ns) * base → 0 < length ns
more_blocks base v [] far h = absurd (omega arith)
more_blocks base v (n ∷ ns) far h = omega arith

seek_lem :
    (base : ℕ) (ns : List Node) (v : ℕ)
    → IsUniform base ns
    → 0 < base
    → 0 < length ns
    → v ≤ length ns * base
    → (i : ℕ) × (seek ns v ≡ ok i) × (i * base ≤ v) × (v < i * base + base)
unfolding seek
seek_lem base [] v u pos rooted h = absurd (omega arith)
seek_lem base (n ∷ ns) v (e, u) pos rooted h = elim (Bool-cases (ltb base v)) [
  | inl far ↦
      let more : 0 < length ns = more_blocks base v ns (ground arith) h in
      let (i, run, lo, hi) = seek_lem base ns (v - base) u pos more (ground arith) in
      (suc i, ground (arith, run), ground arith, ground arith)
  | inr near ↦ (if v == base then 1 else 0, ground arith, ground arith, ground arith)
]

-- What `set_position` leaves.
pub record Moved (b : ByteArray) (v : ℕ) (b' : ByteArray) : Type 0 where
  pub valid : IsValid b'
  pub base_eq : b'.base_size ≡ b.base_size
  pub endian_eq : b'.endian ≡ b.endian
  pub nodes_eq : b'.nodes ≡ b.nodes
  pub capacity_eq : b'.capacity ≡ b.capacity
  pub position_eq : b'.position ≡ v
  pub size_eq : b'.size ≡ (if ltb b.size v then v else b.size)

abbrev moved : ByteArray → ℕ → ℕ → ByteArray
moved b v i = record b { position = v; size = if ltb b.size v then v else b.size; cur = i }

moved-Moved :
    (b : ByteArray) (v i : ℕ)
    → IsValid b
    → v ≤ b.capacity
    → i * b.base_size ≤ v
    → v < i * b.base_size + b.base_size
    → Moved b v (moved b v i)
moved-Moved b v i valid within lo hi = record {
  valid = ground arith;
  base_eq = refl;
  endian_eq = refl;
  nodes_eq = refl;
  capacity_eq = refl;
  position_eq = refl;
  size_eq = refl;
}

-- `set_position` throws for a position beyond the capacity, and otherwise succeeds on a valid
-- buffer: it keeps it valid, moves the position there, raises the size to it where it was below,
-- and changes nothing else.
pub set_position_lem :
    (b : ByteArray) (v : ℕ)
    → IsValid b
    → ((b.capacity < v) × (set_position b v ≡ err out_of_range))
      ⊎ ((v ≤ b.capacity) × ((b' : ByteArray) × (set_position b v ≡ ok b') × Moved b v b'))
set_position_lem b v valid = elim (Bool-cases (ltb b.capacity v)) [
  | inl beyond ↦ inl (ground arith, unfold set_position in rw beyond)
  | inr within ↦
      let (i, run, lo, hi) =
        seek_lem b.base_size b.nodes v valid.uniform valid.base_pos valid.rooted (ground arith) in
      inr (
        ground arith,
        (
          (moved b v i),
          unfold set_position in rw (within, run),
          moved-Moved b v i valid (ground arith) lo hi,
        ),
      )
]
