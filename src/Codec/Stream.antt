-- ===== src/Codec/Stream.antt =====
-- Reading from a buffer with blocks of one byte, where `read` leaves the exact position.
use link_server.Base.{
  ℕ, ◌+◌, ◌*◌, ◌≤◌, ◌<◌, ◌≡◌, refl, sym, ap, ap₂, ◌∙◌, List, [], ◌∷◌, ◌++◌, map, some, arith,
  length, take, drop, drop-drop, length-append, ok,
}
use link_server.ByteArray.{ByteArray, Cell, Endian, little, big}
use link_server.ByteArray.Invariant.{IsValid, contents, concat}
use link_server.ByteArray.Read.{ReadFrom, read-IsValid}
use link_server.ByteArray.RoundTrip.{Rewound}
use link_server.Codec.{defined, read_bytes, read_fuint8, of_le, of_memory}

-- `xs` are the next bytes to be read.
pub record Holds (b : ByteArray) (xs : List ℕ) : Type 0 where
  pub valid : IsValid b
  pub unit : b.base_size ≡ 1
  pub within : b.position + length xs ≤ b.size
  pub there : take (length xs) (drop b.position (contents b)) ≡ map some xs

pub defined-map : (xs : List ℕ) → defined (map some xs) ≡ ok xs
unfolding defined
defined-map [] = refl
defined-map (x ∷ xs) = rw (defined-map xs)

-- The front and the rest of what is there.
front_of :
    (xs ys : List ℕ) (cells : List Cell)
    → take (length (xs ++ ys)) cells ≡ map some (xs ++ ys)
    → (take (length xs) cells ≡ map some xs)
      × (take (length ys) (drop (length xs) cells) ≡ map some ys)
front_of [] ys cells h = (refl, h)
front_of (x ∷ xs) ys [] h = cc
front_of (x ∷ xs) ys (c ∷ cells) h = ground (arith, front_of xs ys cells)

Holds-rest :
    (b b' : ByteArray) (xs ys : List ℕ)
    → Holds b (xs ++ ys)
    → IsValid b'
    → b'.position ≡ b.position + length xs
    → ReadFrom b (length xs) b'
    → Holds b' ys
Holds-rest b b' xs ys h v moved r = record {
  valid = v;
  unit = r.base_eq ∙ h.unit;
  within = omega (arith, h.within, moved, r.size_eq, length-append xs ys);
  there =
      ap₂ (λ k ns. take (length ys) (drop k (concat ns))) moved r.nodes_eq
      ∙ ap (take (length ys)) (sym (drop-drop (length xs) b.position (contents b)))
      ∙ (front_of xs ys (drop b.position (contents b)) h.there).1;
}

-- From a buffer with blocks of one byte the next bytes are read, and the others stay the next.
pub read_bytes_lem :
    (b : ByteArray) (xs ys : List ℕ)
    → 0 < length xs
    → Holds b (xs ++ ys)
    → (b' : ByteArray) × (read_bytes b (length xs) ≡ ok (xs, b'))
      × Holds b' ys
      × (b'.endian ≡ b.endian)
unfolding read_bytes
read_bytes_lem b xs ys some_bytes h =
    let whole : b.position + length xs ≡ (b.position + length xs) * b.base_size =
      rw h.unit (omega arith) in
    let (b', got, v, moved, r) =
      read-IsValid b (length xs) (b.position + length xs) h.valid some_bytes
        (omega (arith, h.within, length-append xs ys)) whole in
    let cells = (front_of xs ys (drop b.position (contents b)) h.there).0 in
    (b', rw (got, cells, defined-map xs), Holds-rest b b' xs ys h v moved r, r.endian_eq)

of_memory-one : (host : Endian) (x : ℕ) → of_memory host (x ∷ []) ≡ x
unfolding of_memory of_le
of_memory-one little x = omega arith
of_memory-one big x = omega arith

pub read_fuint8_lem :
    (host : Endian) (b : ByteArray) (x : ℕ) (ys : List ℕ)
    → Holds b (x ∷ ys)
    → (b' : ByteArray) × (read_fuint8 host b ≡ ok (x, b')) × Holds b' ys
unfolding read_fuint8
read_fuint8_lem host b x ys h =
    let (b', got, rest, _) = read_bytes_lem b (x ∷ []) ys (omega arith) h in
    (b', rw (got, of_memory-one host x), rest)

-- After a `write` the position is set back, and the bytes written are the next.
pub Rewound-Holds :
    (b b2 : ByteArray) (xs : List ℕ) → Rewound b xs b2 → b.base_size ≡ 1 → Holds b2 xs
Rewound-Holds b b2 xs r unit = record {
  valid = r.valid;
  unit = r.base_eq ∙ unit;
  within = omega (arith, r.within, r.position_eq);
  there = ap (λ k. take (length xs) (drop k (contents b2))) r.position_eq ∙ r.there;
}
