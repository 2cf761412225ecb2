-- ===== src/Http/Dump.antt =====
-- The text form of requests and responses: `dump` in linko/http/http.cc.
use link_server.Base.{
  ℕ, zero, suc, ◌+◌, ◌*◌, ◌-◌, ◌/◌, ◌%◌, ◌<◌, ◌≡◌, refl, ap, ◌∙◌, [], ◌∷◌, ◌++◌, Bool, true, false,
  ltb, if◌then◌else◌, length, arith, Bool-cases, inl, inr, le-or-lt,
}
use link_server.Base.Maps.{assign}
use link_server.Http.{
  Text, MapType, HttpRequest, HttpResponse, codes, eq_text, fold_case, less, set_header,
  http_method_to_string, chars_to_http_method, http_status_to_string,
}
use link_server.Http.Headers.{same_fold}
use link_server.Http.Methods.{to_http_method-http_method_to_string}

-- A number in decimal, as a stream prints it. A number has no more digits than its value plus one.
abbrev pub decimal_digits : ℕ → ℕ → Text
decimal_digits zero n = []
decimal_digits (suc fuel) n =
    let rest = decimal_digits fuel (n / 10) in
    if ltb n 10 then (48 + n) ∷ [] else rest ++ ((48 + n % 10) ∷ [])

unfoldable pub decimal : ℕ → Text
decimal n = decimal_digits (suc n) n

abbrev pub crlf : Text
crlf = 13 ∷ 10 ∷ []

abbrev pub is_empty : Text → Bool
is_empty [] = true
is_empty (c ∷ s) = false

-- `" HTTP/"` and the version's two numbers.
abbrev pub version_text : ℕ → Text
version_text version =
    codes " HTTP/" ++ decimal (version / 16) ++ codes "." ++ decimal (version % 16)

-- Whether a header is the one that `m_close` stands for.
abbrev pub is_connection : Text → Bool
is_connection key = eq_text (fold_case key) (fold_case (codes "connection"))

abbrev pub connection_line : Bool → Text
connection_line close =
    codes "connection:" ++ (if close then codes "close" else codes "keep-alive") ++ crlf

-- The lines of the other headers, with what stands between name and value.
unfoldable pub header_lines : Text → MapType → Text
header_lines sep [] = []
header_lines sep ((key, val) ∷ m) =
    let rest = header_lines sep m in
    if is_connection key then rest else key ++ sep ++ val ++ crlf ++ rest

abbrev pub body_text : Text → Text
body_text body =
    if is_empty body
    then crlf
    else codes "content-length:" ++ decimal (length body) ++ crlf ++ crlf ++ body

-- A text behind its mark, or nothing.
abbrev pub marked : Text → Text → Text
marked mark t = (if is_empty t then [] else mark) ++ t

unfoldable pub dump_request : HttpRequest → Text
dump_request r =
    http_method_to_string r.method
    ++ (codes " "
        ++ r.path
        ++ marked (codes "?") r.query
        ++ marked (codes "#") r.fragment
        ++ version_text r.version
        ++ crlf
        ++ connection_line r.close
        ++ header_lines (codes ":") r.headers
        ++ body_text r.body)

unfoldable pub dump_response : HttpResponse → Text
dump_response r =
    version_text r.version
    ++ codes " "
    ++ (if is_empty r.reason then http_status_to_string r.status else r.reason)
    ++ crlf
    ++ header_lines (codes ": ") r.headers
    ++ connection_line r.close
    ++ body_text r.body

-- The number that decimal digits stand for, behind those that gave `n`.
abbrev pub read_decimal : ℕ → Text → ℕ
read_decimal n [] = n
read_decimal n (c ∷ s) = read_decimal (n * 10 + (c - 48)) s

read_decimal-append :
    (n c : ℕ) (s : Text) → read_decimal n (s ++ (c ∷ [])) ≡ read_decimal n s * 10 + (c - 48)
read_decimal-append n c [] = refl
read_decimal-append n c (d ∷ s) = read_decimal-append (n * 10 + (d - 48)) c s

decimal_digits_lem : (fuel n : ℕ) → n < fuel → read_decimal 0 (decimal_digits fuel n) ≡ n
decimal_digits_lem zero n h = omega arith
decimal_digits_lem (suc fuel) n h = elim (le-or-lt 10 n) [
  | inl le ↦
      let ih = decimal_digits_lem fuel (n / 10) (omega arith) in
      let test : ltb n 10 ≡ false = ground (arith, le) in
      rw test
        (read_decimal-append 0 (48 + n % 10) (decimal_digits fuel (n / 10)) ∙ rw ih (omega arith))
  | inr lt ↦ let test : ltb n 10 ≡ true = ground (arith, lt) in rw test (omega arith)
]

-- A decimal number reads back as the number printed.
pub read_decimal-decimal : (n : ℕ) → read_decimal 0 (decimal n) ≡ n
unfolding decimal
read_decimal-decimal n = decimal_digits_lem (suc n) n (omega arith)

-- CharsToHttpMethod reads the method of a request off the request's text.
pub chars_to_http_method-dump_request :
    (r : HttpRequest) → chars_to_http_method (dump_request r) ≡ r.method
unfolding dump_request
chars_to_http_method-dump_request r = (to_http_method-http_method_to_string r.method).1 _

header_lines-assign :
    (sep : Text) (m : MapType) (key val : Text)
    → is_connection key ≡ true
    → header_lines sep (assign less key val m) ≡ header_lines sep m
unfolding header_lines
header_lines-assign sep [] key val c = rw c
header_lines-assign sep ((j, w) ∷ m) key val c = elim (Bool-cases (less j key)) [
  | inl e ↦ rw e (rw (header_lines-assign sep m key val c))
  | inr e ↦ elim (Bool-cases (less key j)) [
    | inl e' ↦ rw (e, e') (rw c)
    | inr e' ↦
        let c' : is_connection j ≡ true =
          ap (λ t. eq_text t (fold_case (codes "connection"))) (same_fold j key e e') ∙ c in
        rw (e, e') (rw c')
  ]
]

-- A header of the name connection, in whatever case, changes nothing of a request's text, nor of a
-- response's.
pub dump-set_header :
    (r : HttpRequest) (s : HttpResponse) (key val : Text)
    → is_connection key ≡ true
    → (dump_request (record r { headers = set_header r.headers key val }) ≡ dump_request r)
      × (dump_response (record s { headers = set_header s.headers key val }) ≡ dump_response s)
unfolding dump_request dump_response set_header
dump-set_header r s key val c = (
  rw (header_lines-assign (codes ":") r.headers key val c),
  rw (header_lines-assign (codes ": ") s.headers key val c),
)
