-- ===== src/HttpSession/Body.antt =====
-- What a received message's head and body are.
use link_server.Base.{
  ℕ, zero, suc, ◌+◌, ◌-◌, ◌^◌, ◌≤◌, ◌<◌, ◌≡◌, refl, ap, ◌∙◌, List, [], ◌∷◌, ◌++◌, Option, sub64,
  none, some, true, false, ◌==◌, ltb, leb, Result, ok, err, no_fuel, out_of_bounds, length, take,
  drop, replicate, arith, ◌⊎◌, inl, inr, Bool-cases, length-replicate, take-append_le,
  drop-append_le, drop-append_ge, take_all, length-append, length-drop,
}
use link_server.Http.{HttpRequest}
use link_server.Stream.{fix_loop, overlay, read_fix_size, read_count, read_effect}
use link_server.Stream.FixSize.{fix_loop-errors, fix_loop-idle, read_fix_size-once}
use link_server.HttpSession.{
  Parser, Answers, Received, closed, received, parsed, recv_head, start_body, has_body, recv_body,
  recv_request,
}

take-replicate : (n m a : ℕ) → n ≤ m → take n (replicate m a) ≡ replicate n a
take-replicate zero m a h = refl
take-replicate (suc n) zero a h = absurd (omega arith)
take-replicate (suc n) (suc m) a h = ap (λ t. a ∷ t) (take-replicate n m a (omega arith))

drop-replicate : (n m a : ℕ) → drop n (replicate (n + m) a) ≡ replicate m a
drop-replicate zero m a = let e : zero + m ≡ m = omega arith in rw e
drop-replicate (suc n) m a =
    let e : suc n + m ≡ suc (n + m) = omega arith in rw e (drop-replicate n m a)

-- Where the buffer already has the whole body, of `size` bytes, the body received has as many zeros in
-- front of it.
pub recv_body-early :
    (size : ℕ) (bytes : List ℕ) (answers : Answers)
    → size ≤ length bytes
    → recv_body size bytes answers ≡ ok (received (replicate size 0 ++ take size bytes) answers)
unfolding recv_body
recv_body-early size bytes answers h = elim (Bool-cases (leb (length bytes) size)) [
  | inl e ↦
      let t : ltb (length bytes) size ≡ false = ground (arith, h) in
      let all : take size bytes ≡ bytes = take_all size bytes (ground (arith, e)) in rw (t, e, all)
  | inr e ↦ let t : ltb (length bytes) size ≡ false = ground (arith, h) in rw (t, e)
]

-- Where the buffer has the start of the body and one read brings all of its rest, the body received
-- is as many zeros as the buffer had bytes, then the rest, then the start.
pub recv_body-late :
    (bytes rest : List ℕ) (answers : Answers)
    → 0 < length rest
    → length bytes + length rest < 2 ^ 31
    → recv_body (length bytes + length rest) bytes (some rest ∷ answers)
      ≡ ok (received (replicate (length bytes) 0 ++ (rest ++ bytes)) answers)
unfolding recv_body
recv_body-late bytes rest answers k h =
    let o = length bytes in
    let size = o + length rest in
    let l : ltb o size ≡ true = ground (arith, k) in
    let l' : leb o size ≡ true = ground arith in
    let left : size - o ≡ length rest = omega arith in
    let zeros : List ℕ = replicate size 0 in
    let len : length zeros ≡ size = length-replicate {A = ℕ} size 0 in
    let front : take o (zeros ++ bytes) ≡ replicate o 0 =
      take-append_le o zeros bytes (omega (arith, len)) ∙ take-replicate o size 0 (omega arith) in
    let back : drop o (zeros ++ bytes) ≡ replicate (length rest) 0 ++ bytes =
      drop-append_le o zeros bytes (omega (arith, len))
      ∙ ap (λ t. t ++ bytes) (drop-replicate o (length rest) 0) in
    let len' : length (replicate {A = ℕ} (length rest) 0) ≡ length rest =
      length-replicate (length rest) 0 in
    let shown : drop (length rest) (replicate (length rest) 0 ++ bytes) ≡ bytes =
      drop-append_ge (length rest) 0 (replicate (length rest) 0) bytes (omega (arith, len')) in
    let run =
      read_fix_size-once rest (replicate (length rest) 0 ++ bytes) answers k (omega (arith, h)) in
    let positive : (length rest == 0) ≡ false = ground (arith, k) in
    rw (l, l', left, back, run, positive, front, shown)

-- How many bytes there are in some reads.
abbrev pub bytes_in : List (List ℕ) → ℕ
bytes_in [] = 0
bytes_in (c ∷ chunks) = length c + bytes_in chunks

-- The reads of the bytes, and then as many that answer `a`.
abbrev pub then_only : List (List ℕ) → Option (List ℕ) → ℕ → Answers
then_only [] a n = replicate n a
then_only (c ∷ chunks) a n = some c ∷ then_only chunks a n

-- A connection that only ends, or only fails, takes the loop no further than it is.
only_lem :
    (a : Option (List ℕ)) (n left : ℕ) (mem : List ℕ)
    → (a ≡ some []) ⊎ (a ≡ none)
    → 0 < left
    → left + n < 2 ^ 64
    → fix_loop read_count read_effect (replicate n a) left mem ≡ err no_fuel
only_lem a n left mem (inl e) h k =
    rw e (fix_loop-idle read_count read_effect (some []) n left mem refl h (omega (arith, k)))
only_lem a n left mem (inr e) h k =
    rw e (fix_loop-errors read_count read_effect none n left mem refl h k)

chunks_lem :
    (chunks : List (List ℕ)) (a : Option (List ℕ)) (n left : ℕ) (mem : List ℕ)
    → (a ≡ some []) ⊎ (a ≡ none)
    → bytes_in chunks < left
    → left + n < 2 ^ 64
    → fix_loop read_count read_effect (then_only chunks a n) left mem ≡ err no_fuel
unfolding fix_loop
chunks_lem [] a n left mem o h k = only_lem a n left mem o (omega (arith, h)) k
chunks_lem (c ∷ chunks) a n left mem o h k =
    let some_left : (left == 0) ≡ false = ground (arith, h) in
    let step : sub64 left (length c) ≡ left - length c = omega (arith, h, k) in
    rw (some_left, step)
      (chunks_lem chunks a n (left - length c) (overlay mem c) o (omega (arith, h))
        (omega (arith, h, k)))

-- Where the head of a request has been received, with `bytes` left in the buffer, and announces a
-- body, and the reads after it bring fewer bytes than the body lacks, and then only find the end of
-- the connection or only fail: recvRequest is not back after any number of these reads, up to where
-- the size left wraps.
pub recv_request-hangs :
    {P : Type 0} (parser : Parser P HttpRequest) (buff_size n : ℕ) (answers : Answers) (p : P)
    (bytes : List ℕ) (chunks : List (List ℕ)) (a : Option (List ℕ))
    → recv_head parser buff_size answers parser.initial []
      ≡ ok (received (p, bytes) (then_only chunks a n))
    → has_body (parser.get_content_length p) ≡ true
    → (a ≡ some []) ⊎ (a ≡ none)
    → length bytes + bytes_in chunks < parser.get_content_length p
    → parser.get_content_length p + n < 2 ^ 64
    → recv_request parser buff_size answers ≡ err no_fuel
unfolding recv_request recv_body read_fix_size
recv_request-hangs parser buff_size n answers p bytes chunks a head body o h k =
    let size = parser.get_content_length p in
    let l : ltb (length bytes) size ≡ true = ground (arith, h) in
    let hangs =
      chunks_lem chunks a n (size - length bytes) (drop (length bytes) (start_body size bytes)) o
        (omega (arith, h)) (omega (arith, h, k)) in
    rw (head, body, l, hangs) refl

module _ {P D : Type 0} (parser : Parser P D) (buff_size : ℕ) where
  -- What the loop over the head may end with.
  abbrev pub Ended : Result (Received (P × List ℕ)) → Type 0
  Ended r =
      (r ≡ ok closed)
      ⊎ (r ≡ err out_of_bounds)
      ⊎ (p : P) × (bytes : List ℕ) × (answers : Answers) × (r ≡ ok (received (p, bytes) answers))
        × (parser.has_error p ≡ false)
        × (parser.is_finished p ≡ true)
        × (length bytes < buff_size)

  parsed-Ended :
      (nparse : ℕ) (p : P) (bytes : List ℕ) (answers : Answers)
      (later : P → List ℕ → Result (Received (P × List ℕ)))
      → length bytes ≤ buff_size
      → ((p' : P) (bytes' : List ℕ) → Ended (later p' bytes'))
      → Ended (parsed parser buff_size (nparse, p) bytes answers later)
  parsed-Ended nparse p bytes answers later h ih = elim (Bool-cases (parser.has_error p)) [
    | inl e ↦ inl (rw e)
    | inr e ↦ elim (Bool-cases (length bytes - nparse == buff_size)) [
      | inl e' ↦ inl (rw (e, e'))
      | inr e' ↦ elim (Bool-cases (parser.is_finished p)) [
        | inl f ↦
            let d = length-drop nparse bytes in
            inr (inr (p, drop nparse bytes, answers, rw (e, e', f), e, f, ground (arith, e', h, d)))
        | inr f ↦ rw (e, e', f) (ih p (drop nparse bytes))
      ]
    ]
  ]

  -- Where the connection ends, fails or is broken off at the latest after `answers`, the loop over the
  -- head ends, whatever the parser does: the connection is closed, or a read did not fit the buffer,
  -- or the parser has finished without an error and less than the buffer is left to parse.
  pub recv_head-Ended :
      (answers more : Answers) (p : P) (bytes : List ℕ)
      → Ended (recv_head parser buff_size (answers ++ (some [] ∷ more)) p bytes)
        × Ended (recv_head parser buff_size (answers ++ (none ∷ more)) p bytes)
  unfolding recv_head
  recv_head-Ended [] more p bytes = (inl refl, inl refl)
  recv_head-Ended (none ∷ answers) more p bytes = (inl refl, inl refl)
  recv_head-Ended (some [] ∷ answers) more p bytes = (inl refl, inl refl)
  recv_head-Ended (some (b ∷ bs) ∷ answers) more p bytes =
      let all = bytes ++ (b ∷ bs) in
      let r = parser.execute p all in
      let len = length-append bytes (b ∷ bs) in
      elim (Bool-cases (ltb buff_size (length bytes + length (b ∷ bs)))) [
        | inl e ↦ (inr (inl (rw e)), inr (inl (rw e)))
        | inr e ↦
            let fits : length all ≤ buff_size = ground (arith, e, len) in
            (
              rw e (
                  parsed-Ended r.0 r.1 all _ _ fits
                    (λ p' bytes'. (recv_head-Ended answers more p' bytes').0)),
              rw e (
                  parsed-Ended r.0 r.1 all _ _ fits
                    (λ p' bytes'. (recv_head-Ended answers more p' bytes').1)),
            )
      ]
