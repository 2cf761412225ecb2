-- ===== src/HttpServer/Progress.antt =====
-- linko/http/http_session.cc: what recvRequest takes of the answers of reads, so that handleClient's
-- fuel is enough.
use link_server.Base.{
  ℕ, suc, ◌+◌, ◌-◌, ◌≤◌, ◌<◌, List, [], ◌∷◌, ◌++◌, none, some, Bool, true, false, ◌==◌, ltb,
  if◌then◌else◌, length, drop, take, Result, ok, err, no_fuel, out_of_bounds, ◌>>=◌, sub64, arith,
}
use link_server.Http.{HttpRequest}
use link_server.Stream.{fix_loop, read_fix_size, read_count, read_effect, to_int}
use link_server.HttpSession.{
  Parser, Answers, Received, closed, received, recv_head, is_failure, start_body, read_rest,
  recv_body, has_body, with_body, after_head, recv_request,
}

-- Fewer answers than `n` are left, where there are some left.
abbrev pub Fewer : {A : Type 0} → ℕ → Result (Received A) → Type 0
Fewer n (err e) = Unit {0}
Fewer n (ok closed) = Unit {0}
Fewer n (ok (received a rest)) = length rest < n

abbrev Shorter : {A S : Type 0} → ℕ → Result (S × List A) → Type 0
Shorter n (err e) = Unit {0}
Shorter n (ok (s, rest)) = length rest ≤ n

Fewer-if :
    {A : Type 0} (n : ℕ) (b : Bool) (x y : Result (Received A))
    → Fewer n x
    → Fewer n y
    → Fewer n (if b then x else y)
Fewer-if n true x y f g = f
Fewer-if n false x y f g = g

Shorter-if :
    {A S : Type 0} (n : ℕ) (b : Bool) (x y : Result (S × List A))
    → Shorter n x
    → Shorter n y
    → Shorter n (if b then x else y)
Shorter-if n true x y f g = f
Shorter-if n false x y f g = g

Fewer-more : {A : Type 0} (n m : ℕ) (r : Result (Received A)) → n ≤ m → Fewer n r → Fewer m r
Fewer-more n m (err e) h f = tt
Fewer-more n m (ok closed) h f = tt
Fewer-more n m (ok (received a rest)) h f = omega arith

Shorter-more :
    {A S : Type 0} (n m : ℕ) (r : Result (S × List A)) → n ≤ m → Shorter n r → Shorter m r
Shorter-more n m (err e) h f = tt
Shorter-more n m (ok (s, rest)) h f = omega arith

fix_loop-Shorter :
    {A S : Type 0} (count : A → ℕ) (effect : A → S → S) (answers : List A) (left : ℕ) (s : S)
    → Shorter (length answers) (fix_loop count effect answers left s)
unfolding fix_loop
fix_loop-Shorter count effect [] left s =
    Shorter-if 0 (left == 0) (ok (s, [])) (err no_fuel) (omega arith) tt
fix_loop-Shorter count effect (a ∷ answers) left s =
    let r = fix_loop count effect answers (sub64 left (count a)) (effect a s) in
    Shorter-if (suc (length answers)) (left == 0) (ok (s, a ∷ answers)) r (omega arith) (
      Shorter-more (length answers) (suc (length answers)) r (omega arith)
        (fix_loop-Shorter count effect answers (sub64 left (count a)) (effect a s)))

module _ {P : Type 0} (parser : Parser P HttpRequest) (buff_size : ℕ) where
  recv_head-Fewer :
      (answers : Answers) (p : P) (bytes : List ℕ)
      → Fewer (length answers) (recv_head parser buff_size answers p bytes)
  unfolding recv_head
  recv_head-Fewer [] p bytes = tt
  recv_head-Fewer (none ∷ answers) p bytes = tt
  recv_head-Fewer (some [] ∷ answers) p bytes = tt
  recv_head-Fewer (some (b ∷ bs) ∷ answers) p bytes =
      let all = bytes ++ (b ∷ bs) in
      let (nparse, p') = parser.execute p all in
      let n = suc (length answers) in
      let later =
        Fewer-more (length answers) n _ (omega arith)
          (recv_head-Fewer answers p' (drop nparse all)) in
      Fewer-if n (ltb buff_size (length bytes + length (b ∷ bs))) (err out_of_bounds) _ tt (
        Fewer-if n (parser.has_error p') (ok closed) _ tt (
          Fewer-if n (length all - nparse == buff_size) (ok closed) _ tt (
            Fewer-if n (parser.is_finished p') (ok (received (p', drop nparse all) answers)) _
              (omega arith) later)))

-- What `recvRequest` takes, step by step.
fixed-Fewer :
    (n m len left : ℕ) (body : List ℕ) (r : Result (List ℕ × Answers))
    → m < n
    → Shorter m r
    → Fewer n (do
      (rt, mem, rest) ← (do (mem', rest) ← r; ok (to_int left, mem', rest))
      if is_failure rt then ok closed else ok (received (take len body ++ mem) rest))
fixed-Fewer n m len left body (err e) h s = tt
fixed-Fewer n m len left body (ok (mem, rest)) h s =
    Fewer-if n (is_failure (to_int left)) (ok closed) _ tt (omega arith)

recv_body-Fewer :
    (n size : ℕ) (bytes : List ℕ) (answers : Answers)
    → length answers < n
    → Fewer n (recv_body size bytes answers)
unfolding recv_body read_fix_size
recv_body-Fewer n size bytes answers h =
    let left = size - length bytes in
    let body = start_body size bytes in
    Fewer-if n (ltb (length bytes) size) (read_rest (length bytes) left body answers) _
      (fixed-Fewer n (length answers) (length bytes) left body
        (fix_loop read_count read_effect answers left (drop (length bytes) body)) h
        (fix_loop-Shorter read_count read_effect answers left (drop (length bytes) body)))
      h

with_body-Fewer :
    (n : ℕ) (q : HttpRequest) (r : Result (Received (List ℕ)))
    → Fewer n r
    → Fewer n (do r' ← r; ok (with_body q r'))
with_body-Fewer n q (err e) f = tt
with_body-Fewer n q (ok closed) f = tt
with_body-Fewer n q (ok (received body rest)) f = f

module _ {P : Type 0} (parser : Parser P HttpRequest) (buff_size : ℕ) where
  after_head-Fewer :
      (n : ℕ) (r : Result (Received (P × List ℕ))) → Fewer n r → Fewer n (r >>= after_head parser)
  after_head-Fewer n (err e) f = tt
  after_head-Fewer n (ok closed) f = tt
  after_head-Fewer n (ok (received (p, bytes) answers)) f =
      let size = parser.get_content_length p in
      Fewer-if n (has_body size) _ _
        (with_body-Fewer n (parser.get_data p) (recv_body size bytes answers)
          (recv_body-Fewer n size bytes answers f))
        f

  pub recv_request-Fewer :
      (answers : Answers) → Fewer (length answers) (recv_request parser buff_size answers)
  unfolding recv_request
  recv_request-Fewer answers =
      after_head-Fewer (length answers) (recv_head parser buff_size answers parser.initial [])
        (recv_head-Fewer parser buff_size answers parser.initial [])
