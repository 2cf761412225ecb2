-- ===== src/Stream/FixSize.antt =====
-- What the loops of a fixed size do to a buffer, and that they do not end on errors.
use mathlib.Core.List.{append_assoc, append-nil}
use link_server.Base.{
  ℕ, zero, suc, ◌+◌, ◌-◌, ◌%◌, ◌^◌, ◌≤◌, ◌<◌, ◌≡◌, refl, sym, ap, ◌∙◌, List, [], ◌∷◌, ◌++◌, map,
  Option, none, some, true, false, ◌==◌, ltb, ok, err, no_fuel, sub64, pos, length, take, drop,
  replicate, sum, arith, drop-append_ge, drop-drop, take_all, take-append_le,
}
use link_server.Stream.{
  to_int, minus_one, overlay, fix_loop, read_count, read_effect, read_fix_size, write_count,
  write_effect, write_fix_size,
}

module _ {A S : Type 0} (count : A → ℕ) (effect : A → S → S) where
  -- All calls, one after another.
  abbrev pub effects : List A → S → S
  effects [] s = s
  effects (a ∷ answers) s = effects answers (effect a s)

  -- Every call moves at least one byte.
  abbrev pub AllMove : List A → Type 0
  AllMove [] = Unit {0}
  AllMove (a ∷ answers) = (0 < count a) × AllMove answers

  pub fix_loop-exact :
      (answers rest : List A) (left : ℕ) (s : S)
      → AllMove answers
      → sum count answers ≡ left
      → left < 2 ^ 64
      → fix_loop count effect (answers ++ rest) left s ≡ ok (effects answers s, rest)
  unfolding fix_loop
  fix_loop-exact [] [] left s m e h = let z : (left == 0) ≡ true = ground (arith, e) in rw z
  fix_loop-exact [] (r ∷ rest) left s m e h = let z : (left == 0) ≡ true = ground (arith, e) in rw z
  fix_loop-exact (a ∷ answers) rest left s (k, m) e h =
      let z : (left == 0) ≡ false = ground (arith, e, k) in
      let e' : sum count answers ≡ sub64 left (count a) = omega (arith, e, h) in
      rw z (fix_loop-exact answers rest (sub64 left (count a)) (effect a s) m e' (omega arith))

  -- Calls that fail do not end the loop, until the size left has wrapped.
  pub fix_loop-errors :
      (a : A) (n left : ℕ) (s : S)
      → count a ≡ minus_one
      → 0 < left
      → left + n < 2 ^ 64
      → fix_loop count effect (replicate n a) left s ≡ err no_fuel
  unfolding fix_loop
  fix_loop-errors a zero left s e k h = let z : (left == 0) ≡ false = ground (arith, k) in rw z
  fix_loop-errors a (suc n) left s e k h =
      let z : (left == 0) ≡ false = ground (arith, k) in
      let e' : sub64 left (count a) ≡ suc left = omega (arith, e, h) in
      rw (z, e') (fix_loop-errors a n (suc left) (effect a s) e (omega arith) (omega (arith, h)))

effects-append :
    {A S : Type 0} (count : A → ℕ) (effect : A → S → S) (xs ys : List A) (s : S)
    → effects count effect (xs ++ ys) s ≡ effects count effect ys (effects count effect xs s)
effects-append count effect [] ys s = refl
effects-append count effect (x ∷ xs) ys s = effects-append count effect xs ys (effect x s)

to_int_small : (n : ℕ) → n < 2 ^ 31 → to_int n ≡ pos n
to_int_small n h =
    let e : n % 2 ^ 32 ≡ n = omega (arith, h) in
    let t : ltb n (2 ^ 31) ≡ true = ground (arith, h) in rw (e, t)

take-overlay : (mem bs : List ℕ) → take (length bs) (overlay mem bs) ≡ bs
take-overlay mem bs =
    take-append_le (length bs) bs (drop (length bs) mem) (omega arith)
    ∙ take_all (length bs) bs (omega arith)

drop-overlay : (mem bs : List ℕ) (n : ℕ) → length bs ≤ n → drop n (overlay mem bs) ≡ drop n mem
drop-overlay mem bs n h =
    let e : n ≡ length bs + (n - length bs) = omega (arith, h) in
    drop-append_ge n (n - length bs) bs (drop (length bs) mem) e
    ∙ drop-drop (n - length bs) (length bs) mem
    ∙ ap (λ k. drop k mem) (sym e)

sum-last : {A : Type 0} (f : A → ℕ) (xs : List A) (x : A) → sum f (xs ++ (x ∷ [])) ≡ sum f xs + f x
sum-last f [] x = omega arith
sum-last f (y ∷ xs) x = omega (arith, sum-last f xs x)

-- Calls that answer with bytes within the size leave what lies behind it.
drop-effects :
    (answers : List (Option (List ℕ))) (mem : List ℕ) (n : ℕ)
    → sum read_count answers ≤ n
    → n < minus_one
    → drop n (effects read_count read_effect answers mem) ≡ drop n mem
drop-effects [] mem n h k = refl
drop-effects (none ∷ answers) mem n h k = absurd (omega (arith, h, k))
drop-effects (some bs ∷ answers) mem n h k =
    drop-effects answers (overlay mem bs) n (omega (arith, h)) k
    ∙ drop-overlay mem bs n (omega (arith, h))

-- Where read answers with at least one byte each time and the answers make up the size, below 2^31,
-- readFixSize ends and answers the size; the buffer then begins with the last answer, whatever the
-- ones before were, and is as before behind the size.
pub read_fix_size_lem :
    (answers rest : List (Option (List ℕ))) (last mem : List ℕ) (size : ℕ)
    → AllMove read_count read_effect (answers ++ (some last ∷ []))
    → sum read_count (answers ++ (some last ∷ [])) ≡ size
    → size < 2 ^ 31
    → (mem' : List ℕ) × (read_fix_size ((answers ++ (some last ∷ [])) ++ rest) size mem
        ≡ ok (pos size, mem', rest))
      × (take (length last) mem' ≡ last)
      × (drop size mem' ≡ drop size mem)
unfolding read_fix_size
read_fix_size_lem answers rest last mem size m e h =
    let all = answers ++ (some last ∷ []) in
    let run = fix_loop-exact read_count read_effect all rest size mem m e (omega (arith, h)) in
    let split = effects-append read_count read_effect answers (some last ∷ []) mem in
    let before = effects read_count read_effect answers mem in
    (
      effects read_count read_effect all mem,
      rw (run, to_int_small size h),
      rw split (take-overlay before last),
      drop-effects all mem size (omega (arith, e)) (omega (arith, h)),
    )

-- Where every read fails, readFixSize does not end within n calls, for all n up to where the size left
-- wraps: the error is not told.
pub read_fix_size-errors :
    (n size : ℕ) (mem : List ℕ)
    → 0 < size
    → size + n < 2 ^ 64
    → read_fix_size (replicate n none) size mem ≡ err no_fuel
unfolding read_fix_size
read_fix_size-errors n size mem k h =
    rw (fix_loop-errors read_count read_effect none n size mem refl k h)

-- What calls that take `ns` bytes send of the buffer.
abbrev pub sent_pieces : List ℕ → List ℕ → List ℕ
sent_pieces buffer [] = []
sent_pieces buffer (n ∷ ns) = take n buffer ++ sent_pieces buffer ns

effects-sent :
    (buffer ns sent : List ℕ)
    → effects write_count (write_effect buffer) (map some ns) sent ≡ sent ++ sent_pieces buffer ns
effects-sent buffer [] sent = sym (append-nil sent)
effects-sent buffer (n ∷ ns) sent =
    effects-sent buffer ns (sent ++ take n buffer)
    ∙ append_assoc sent (take n buffer) (sent_pieces buffer ns)

-- Where write takes at least one byte each time and these make up the size, below 2^31,
-- writeFixSize ends and answers the size; every call has sent the buffer from its start again.
pub write_fix_size_lem :
    (ns buffer sent : List ℕ) (rest : List (Option ℕ)) (size : ℕ)
    → AllMove write_count (write_effect buffer) (map some ns)
    → sum write_count (map some ns) ≡ size
    → size < 2 ^ 31
    → write_fix_size (map some ns ++ rest) buffer size sent
      ≡ ok (pos size, sent ++ sent_pieces buffer ns, rest)
unfolding write_fix_size
write_fix_size_lem ns buffer sent rest size m e h =
    let run =
      fix_loop-exact write_count (write_effect buffer) (map some ns) rest size sent m e
        (omega (arith, h)) in
    rw (run, to_int_small size h, effects-sent buffer ns sent)

-- Calls that move nothing do not end the loop either.
pub fix_loop-idle :
    {A S : Type 0} (count : A → ℕ) (effect : A → S → S) (a : A) (n left : ℕ) (s : S)
    → count a ≡ 0
    → 0 < left
    → left < 2 ^ 64
    → fix_loop count effect (replicate n a) left s ≡ err no_fuel
unfolding fix_loop
fix_loop-idle count effect a zero left s e k h =
    let z : (left == 0) ≡ false = ground (arith, k) in rw z
fix_loop-idle count effect a (suc n) left s e k h =
    let z : (left == 0) ≡ false = ground (arith, k) in
    let e' : sub64 left (count a) ≡ left = omega (arith, e, h) in
    rw (z, e') (fix_loop-idle count effect a n left (effect a s) e k h)

-- One answer of the whole size is read as it should be.
pub read_fix_size-once :
    (bs mem : List ℕ) (rest : List (Option (List ℕ)))
    → 0 < length bs
    → length bs < 2 ^ 31
    → read_fix_size (some bs ∷ rest) (length bs) mem ≡ ok (pos (length bs), overlay mem bs, rest)
unfolding read_fix_size
read_fix_size-once bs mem rest k h =
    let run =
      fix_loop-exact read_count read_effect (some bs ∷ []) rest (length bs) mem (k, tt)
        (omega arith) (omega (arith, h)) in
    rw (run, to_int_small (length bs) h)
