-- ===== src/Codec/Fixed.antt =====
-- The integers of fixed width: their bytes in memory, `byteswap`, and what stands in the buffer.
use mathlib.Core.List.{reverse, reverse-reverse, reverse-cons}
use native.Mathlib.Nat.{pow-suc}
use link_server.Base.{
  ℕ, zero, suc, ◌+◌, ◌*◌, ◌/◌, ◌%◌, ◌^◌, ◌<◌, ◌≡◌, refl, sym, ap, ap₂, ◌∙◌, subst, List, [], ◌∷◌,
  ◌++◌, map, arith, length, length-append, take, drop, some, ok, ◌>>=◌, if◌then◌else◌,
}
use link_server.ByteArray.{ByteArray, Endian, little, big, write, set_position}
use link_server.ByteArray.Invariant.{IsValid, contents}
use link_server.ByteArray.Read.{read_lem}
use link_server.ByteArray.RoundTrip.{write-rewind}
use link_server.Codec.{
  to_le, of_le, to_memory, of_memory, byteswap, same_order, write_fixed, read_fixed, read_bytes,
}
use link_server.Codec.Stream.{defined-map}

pub length-to_le : (n v : ℕ) → length (to_le n v) ≡ n
unfolding to_le
length-to_le zero v = refl
length-to_le (suc n) v = ap suc (length-to_le n (v / 256))

pub length-reverse {ℓ} : {A : Type ℓ} (xs : List A) → length (reverse xs) ≡ length xs
length-reverse [] = refl
length-reverse (x ∷ xs) =
    omega
      (arith, ap length (reverse-cons x xs), length-append (reverse xs) (x ∷ []), length-reverse xs)

pub of_le-to_le : (n v : ℕ) → v < 256 ^ n → of_le (to_le n v) ≡ v
unfolding to_le of_le
of_le-to_le zero v h = omega arith
of_le-to_le (suc n) v h = omega (arith, of_le-to_le n (v / 256) (omega (arith, pow-suc 256 n)))

abbrev pub Bytes : List ℕ → Type 0
Bytes [] = Unit {0}
Bytes (x ∷ xs) = (x < 256) × Bytes xs

Bytes-append : (xs ys : List ℕ) → Bytes xs → Bytes ys → Bytes (xs ++ ys)
Bytes-append [] ys p q = q
Bytes-append (x ∷ xs) ys (h, p) q = (h, Bytes-append xs ys p q)

Bytes-reverse : (xs : List ℕ) → Bytes xs → Bytes (reverse xs)
Bytes-reverse [] p = tt
Bytes-reverse (x ∷ xs) (h, p) =
    rw (reverse-cons x xs) (Bytes-append (reverse xs) (x ∷ []) (Bytes-reverse xs p) (h, tt))

Bytes-to_le : (n v : ℕ) → Bytes (to_le n v)
unfolding to_le
Bytes-to_le zero v = tt
Bytes-to_le (suc n) v = (omega arith, Bytes-to_le n (v / 256))

of_le-lt : (xs : List ℕ) → Bytes xs → of_le xs < 256 ^ length xs
unfolding of_le
of_le-lt [] p = omega arith
of_le-lt (x ∷ xs) (h, p) = omega (arith, of_le-lt xs p, pow-suc 256 (length xs))

to_le-of_le : (xs : List ℕ) → Bytes xs → to_le (length xs) (of_le xs) ≡ xs
unfolding to_le of_le
to_le-of_le [] p = refl
to_le-of_le (x ∷ xs) (h, p) =
    let low : (x + 256 * of_le xs) % 256 ≡ x = omega arith in
    let high : (x + 256 * of_le xs) / 256 ≡ of_le xs = omega arith in
    rw (low, high, to_le-of_le xs p)

-- The bytes of a swapped integer are those of the integer backwards.
pub to_le-byteswap : (n v : ℕ) → to_le n (byteswap n v) ≡ reverse (to_le n v)
unfolding byteswap
to_le-byteswap n v =
    let l : length (reverse (to_le n v)) ≡ n = length-reverse (to_le n v) ∙ length-to_le n v in
    subst (λ k. to_le k (of_le (reverse (to_le n v))) ≡ reverse (to_le n v)) l
      (to_le-of_le (reverse (to_le n v)) (Bytes-reverse (to_le n v) (Bytes-to_le n v)))

pub byteswap-lt : (n v : ℕ) → byteswap n v < 256 ^ n
unfolding byteswap
byteswap-lt n v =
    let l : length (reverse (to_le n v)) ≡ n = length-reverse (to_le n v) ∙ length-to_le n v in
    subst (λ k. of_le (reverse (to_le n v)) < 256 ^ k) l
      (of_le-lt (reverse (to_le n v)) (Bytes-reverse (to_le n v) (Bytes-to_le n v)))

-- Swapping twice gives the integer back.
pub byteswap-byteswap : (n v : ℕ) → v < 256 ^ n → byteswap n (byteswap n v) ≡ v
byteswap-byteswap n v h =
    unfold byteswap in
    (ap (λ t. of_le (reverse t)) (to_le-byteswap n v))
    ∙ ap of_le (reverse-reverse (to_le n v))
    ∙ of_le-to_le n v h

pub of_memory-to_memory :
    (host : Endian) (n v : ℕ) → v < 256 ^ n → of_memory host (to_memory host n v) ≡ v
unfolding of_memory to_memory
of_memory-to_memory little n v h = of_le-to_le n v h
of_memory-to_memory big n v h = ap of_le (reverse-reverse (to_le n v)) ∙ of_le-to_le n v h

length-to_memory : (host : Endian) (n v : ℕ) → length (to_memory host n v) ≡ n
unfolding to_memory
length-to_memory little n v = length-to_le n v
length-to_memory big n v = length-reverse (to_le n v) ∙ length-to_le n v

-- What `write_fixed` hands to `write`.
order_bytes :
    (e host : Endian) (n v : ℕ)
    → to_memory host n (if same_order e host then v else byteswap n v) ≡ to_memory e n v
unfolding to_memory
order_bytes little little n v = refl
order_bytes little big n v = ap reverse (to_le-byteswap n v) ∙ reverse-reverse (to_le n v)
order_bytes big little n v = to_le-byteswap n v
order_bytes big big n v = refl

-- The bytes written for an integer of `n` bytes are its bytes in the order of the buffer, lowest
-- first in a little-endian one, whatever the byte order of the host.
pub write_fixed-bytes :
    (host : Endian) (b : ByteArray) (n v : ℕ)
    → write_fixed host b n v ≡ write b (to_memory b.endian n v)
unfolding write_fixed
write_fixed-bytes host b n v = ap (write b) (order_bytes b.endian host n v)

-- What `read_fixed` makes of the bytes.
order_value :
    (e host : Endian) (n v : ℕ)
    → v < 256 ^ n
    → (if same_order e host
        then of_memory host (to_memory e n v)
        else byteswap n (of_memory host (to_memory e n v)))
      ≡ v
order_value little little n v h = of_memory-to_memory little n v h
order_value little big n v h =
    let swapped : of_memory big (to_memory little n v) ≡ byteswap n v =
      unfold of_memory to_memory byteswap in refl in
    ap (byteswap n) swapped ∙ byteswap-byteswap n v h
order_value big little n v h =
    let swapped : of_memory little (to_memory big n v) ≡ byteswap n v =
      unfold of_memory to_memory byteswap in refl in
    ap (byteswap n) swapped ∙ byteswap-byteswap n v h
order_value big big n v h = of_memory-to_memory big n v h

-- On a valid buffer, with the new position and one block more below 2 ^ 64, an integer of `n` bytes,
-- one or more, that is written, in either byte order and on either host, is read back from where it
-- was written.
pub read_fixed-write_fixed :
    (host : Endian) (b : ByteArray) (n v : ℕ)
    → IsValid b
    → 0 < n
    → v < 256 ^ n
    → b.position + n + b.base_size < 2 ^ 64
    → (do
      b1 ← write_fixed host b n v
      b2 ← set_position b1 b.position
      (x, b3) ← read_fixed host b2 n
      ok x)
      ≡ ok v
unfolding read_fixed read_bytes
read_fixed-write_fixed host b n v valid some_bytes small fits =
    let bytes = to_memory b.endian n v in
    let count : length bytes ≡ n = length-to_memory b.endian n v in
    let (b1, wrote, (b2, moved, r)) = write-rewind b bytes valid (omega (arith, count)) in
    let (b3, got, _) =
      read_lem b2 n r.valid some_bytes (omega (arith, r.position_eq, r.within, count)) in
    let cells : take n (drop b2.position (contents b2)) ≡ map some bytes =
      ap₂ (λ k p. take k (drop p (contents b2))) (sym count) r.position_eq ∙ r.there in
    rw (write_fixed-bytes host b n v, wrote, moved, got, cells, defined-map bytes, r.endian_eq)
      (ap ok (order_value b.endian host n v small))
