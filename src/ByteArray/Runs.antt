-- ===== src/ByteArray/Runs.antt =====
-- Concrete runs of the buffer, and the theorems at concrete inputs.
use link_server.Base.{◌≡◌, refl, [], ◌∷◌, some, none, arith, ok, ◌>>=◌}
use link_server.ByteArray.{
  ByteArray, big, make, write, read, read_at, set_position, read_loop, memcpy_from,
}
use link_server.ByteArray.Invariant.{IsValid, make-IsValid}
use link_server.ByteArray.Write.{WroteTo, write_lem}
use link_server.ByteArray.Read.{ReadFrom, read_lem}
use link_server.ByteArray.RoundTrip.{read-write}

-- Six bytes in two blocks of four, the position at the start.
abbrev two_blocks : ByteArray
two_blocks = record {
  base_size = 4;
  position = 0;
  capacity = 8;
  size = 6;
  endian = big;
  nodes = (some 1 ∷ some 2 ∷ some 3 ∷ some 4 ∷ []) ∷ (some 5 ∷ some 6 ∷ none ∷ none ∷ []) ∷ [];
  cur = 0;
}

two_blocks-IsValid : IsValid two_blocks
two_blocks-IsValid = omega arith

-- A buffer that is full, with the position at its end.
abbrev full : ByteArray
full = record {
  base_size = 1;
  position = 1;
  capacity = 1;
  size = 1;
  endian = big;
  nodes = (some 7 ∷ []) ∷ [];
  cur = 1;
}

full-IsValid : IsValid full
full-IsValid = omega arith

-- Two reads of two bytes: the second begins with the third block position again.
read_again : (do (c1, b1) ← read two_blocks 2; read_at b1 2 0) ≡ ok (some 1 ∷ some 2 ∷ [])
unfolding read read_at read_loop memcpy_from
read_again = refl

make-IsValid_example : IsValid (make 4)
make-IsValid_example = make-IsValid 4 (omega arith) (omega arith)

write_lem_example :
    (b' : ByteArray) × (write two_blocks (9 ∷ 8 ∷ 7 ∷ 6 ∷ 5 ∷ []) ≡ ok b')
    × WroteTo two_blocks (9 ∷ 8 ∷ 7 ∷ 6 ∷ 5 ∷ []) b'
write_lem_example = write_lem two_blocks (9 ∷ 8 ∷ 7 ∷ 6 ∷ 5 ∷ []) two_blocks-IsValid (omega arith)

read_lem_example :
    (b' : ByteArray) × (read two_blocks 5
      ≡ ok (some 1 ∷ some 2 ∷ some 3 ∷ some 4 ∷ some 5 ∷ [], b'))
    × ReadFrom two_blocks 5 b'
read_lem_example = read_lem two_blocks 5 two_blocks-IsValid (omega arith) (omega arith)

read-write_example :
    (do
      b1 ← write two_blocks (9 ∷ 8 ∷ 7 ∷ 6 ∷ 5 ∷ [])
      b2 ← set_position b1 0
      (cells, b3) ← read b2 5
      ok cells)
    ≡ ok (some 9 ∷ some 8 ∷ some 7 ∷ some 6 ∷ some 5 ∷ [])
read-write_example =
    read-write two_blocks (9 ∷ 8 ∷ 7 ∷ 6 ∷ 5 ∷ []) two_blocks-IsValid (omega arith) (omega arith)
