-- ===== src/Stream.antt =====
-- linko/stream.cc: the loops that read or write a fixed size. The stream's own read and write are
-- given by what they answer, call by call.
pub mod FixSize
mod Runs
use link_server.Base.{
  ℕ, ◌-◌, ◌%◌, ◌^◌, List, [], ◌∷◌, ◌++◌, Option, none, some, ◌==◌, ltb, if◌then◌else◌, Result, ok,
  err, no_fuel, ◌>>=◌, sub64, ℤ, pos, negsuc, length, take, drop,
}

-- A size as an `int`.
abbrev pub to_int : ℕ → ℤ
to_int n = if ltb (n % 2 ^ 32) (2 ^ 31) then pos (n % 2 ^ 32) else negsuc (2 ^ 32 - n % 2 ^ 32 - 1)

-- -1 as a `size_t`.
abbrev pub minus_one : ℕ
minus_one = 2 ^ 64 - 1

-- `buffer` with the bytes written from its start.
abbrev pub overlay : List ℕ → List ℕ → List ℕ
overlay mem bs = bs ++ drop (length bs) mem

-- The four loops differ in what a call does. The result is the state and the answers not used; while
-- the loop has not ended at the last answer, there is none. The test `len < 0` never holds.
module _ {A S : Type 0} (count : A → ℕ) (effect : A → S → S) where
  unfoldable pub fix_loop : List A → ℕ → S → Result (S × List A)
  fix_loop [] left s = if left == 0 then ok (s, []) else err no_fuel
  fix_loop (a ∷ answers) left s =
      if left == 0
      then ok (s, a ∷ answers)
      else fix_loop answers (sub64 left (count a)) (effect a s)

-- What a call of `read` answers: an error, or the bytes that it puts into the buffer.
abbrev pub read_count : Option (List ℕ) → ℕ
read_count none = minus_one
read_count (some bs) = length bs

abbrev pub read_effect : Option (List ℕ) → List ℕ → List ℕ
read_effect none mem = mem
read_effect (some bs) mem = overlay mem bs

unfoldable pub read_fix_size :
    List (Option (List ℕ)) → ℕ → List ℕ → Result (ℤ × List ℕ × List (Option (List ℕ)))
read_fix_size answers size mem = do
  (mem', rest) ← fix_loop read_count read_effect answers size mem
  ok (to_int size, mem', rest)

-- What a call of `write` answers: an error, or how many bytes it took. `sent` is what was taken.
abbrev pub write_count : Option ℕ → ℕ
write_count none = minus_one
write_count (some n) = n

abbrev pub write_effect : List ℕ → Option ℕ → List ℕ → List ℕ
write_effect buffer none sent = sent
write_effect buffer (some n) sent = sent ++ take n buffer

unfoldable pub write_fix_size :
    List (Option ℕ) → List ℕ → ℕ → List ℕ → Result (ℤ × List ℕ × List (Option ℕ))
write_fix_size answers buffer size sent = do
  (sent', rest) ← fix_loop write_count (write_effect buffer) answers size sent
  ok (to_int size, sent', rest)
