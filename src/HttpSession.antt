-- ===== src/HttpSession.antt =====
-- linko/http/http_session.cc, and the shared steps of recvResponse in linko/http/http_connection.cc:
-- a message is received through a buffer. The socket is given by what its reads answer, and the
-- generated automaton with the callbacks behind it is a parameter.
pub mod Body
mod Runs
use link_server.Base.{
  ℕ, ◌+◌, ◌-◌, ◌^◌, List, [], ◌∷◌, ◌++◌, Option, none, some, Bool, true, false, ◌==◌, ltb, leb,
  if◌then◌else◌, Result, ok, err, no_fuel, out_of_bounds, ◌>>=◌, ℤ, pos, negsuc, length, take, drop,
  replicate,
}
use link_server.Http.{Text, codes, fold_case, eq_text, HttpRequest, get_header}
use link_server.Stream.{read_fix_size}

-- What the code uses of a parser: `execute` runs the automaton over the bytes and says how many it
-- has parsed.
pub record Parser (P D : Type 0) : Type 0 where
  pub initial : P
  pub execute : P → List ℕ → ℕ × P
  pub has_error : P → Bool
  pub is_finished : P → Bool
  pub get_content_length : P → ℕ
  pub get_data : P → D

-- Each read answers with an error, or with bytes, none at the end of the connection.
abbrev pub Answers : Type 0
Answers = List (Option (List ℕ))

-- The connection is closed, or there is a result, with the answers left.
pub data Received (A : Type 0) : Type 0 where
  closed : Received A
  received : A → Answers → Received A

abbrev pub is_failure : ℤ → Bool
is_failure (pos n) = n == 0
is_failure (negsuc n) = true

-- An unsigned length as `int64_t`, where it is positive.
abbrev pub has_body : ℕ → Bool
has_body size = if size == 0 then false else ltb size (2 ^ 63)

module _ {P D : Type 0} (parser : Parser P D) (buff_size : ℕ) where
  -- After the bytes are parsed; `later` is the rest of the loop.
  abbrev pub parsed :
      ℕ × P
      → List ℕ
      → Answers
      → (P → List ℕ → Result (Received (P × List ℕ)))
      → Result (Received (P × List ℕ))
  parsed (nparse, p) bytes answers later =
      if parser.has_error p
      then ok closed
      else if length bytes - nparse == buff_size
      then ok closed
      else if parser.is_finished p
      then ok (received (p, drop nparse bytes) answers)
      else later p (drop nparse bytes)

  -- The first loop: `bytes` are those in the buffer that are not parsed yet. A read that would not fit
  -- is a fault of the socket.
  unfoldable pub recv_head : Answers → P → List ℕ → Result (Received (P × List ℕ))
  recv_head [] p bytes = err no_fuel
  recv_head (none ∷ answers) p bytes = ok closed
  recv_head (some [] ∷ answers) p bytes = ok closed
  recv_head (some (b ∷ bs) ∷ answers) p bytes =
      if ltb buff_size (length bytes + length (b ∷ bs))
      then err out_of_bounds
      else parsed (parser.execute p (bytes ++ (b ∷ bs))) (bytes ++ (b ∷ bs)) answers
          (recv_head answers)

-- `body.resize(length)`, then `append` of what is in the buffer.
abbrev pub start_body : ℕ → List ℕ → List ℕ
start_body size bytes =
    replicate size 0 ++ (if leb (length bytes) size then bytes else take size bytes)

-- The rest is read to `&body[len]`.
abbrev pub read_rest : ℕ → ℕ → List ℕ → Answers → Result (Received (List ℕ))
read_rest len left body answers = do
  (rt, mem, rest) ← read_fix_size answers left (drop len body)
  if is_failure rt then ok closed else ok (received (take len body ++ mem) rest)

unfoldable pub recv_body : ℕ → List ℕ → Answers → Result (Received (List ℕ))
recv_body size bytes answers =
    if ltb (length bytes) size
    then read_rest (length bytes) (size - length bytes) (start_body size bytes) answers
    else ok (received (start_body size bytes) answers)

-- `keep-alive` in the header of the connection.
abbrev pub keeps_alive : HttpRequest → HttpRequest
keeps_alive q =
    if eq_text (fold_case (get_header q.headers (codes "Connection") [])) (codes "keep-alive")
    then record q { close = false }
    else q

abbrev pub with_body : HttpRequest → Received (List ℕ) → Received HttpRequest
with_body q closed = closed
with_body q (received body answers) = received (keeps_alive (record q { body = body })) answers

module _ {P : Type 0} (parser : Parser P HttpRequest) where
  abbrev pub after_head : Received (P × List ℕ) → Result (Received HttpRequest)
  after_head closed = ok closed
  after_head (received (p, bytes) answers) =
      if has_body (parser.get_content_length p)
      then (do
        r ← recv_body (parser.get_content_length p) bytes answers
        ok (with_body (parser.get_data p) r))
      else ok (received (keeps_alive (parser.get_data p)) answers)

  unfoldable pub recv_request : ℕ → Answers → Result (Received HttpRequest)
  recv_request buff_size answers = do
    r ← recv_head parser buff_size answers parser.initial []
    after_head r
