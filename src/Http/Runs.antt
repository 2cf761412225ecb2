-- ===== src/Http/Runs.antt =====
-- Requests and responses on concrete inputs.
use link_server.Base.{ℕ, ◌≡◌, ◌≢◌, refl, [], ◌∷◌, ◌++◌, false}
use link_server.Base.Maps.{IsSortedMap}
use link_server.Http.{
  MapType, HttpRequest, codes, less, fold_case, http_method_to_string, make_request, get_header,
  set_header,
}
use link_server.Http.Headers.{get_header-set_header}
use link_server.Http.Dump.{read_decimal, decimal, dump_request, header_lines, read_decimal-decimal}

abbrev one_header : MapType
one_header = (codes "Host", codes "a") ∷ []

-- The header's name in other letters, and another name.
finds_host : get_header one_header (codes "hOST") [] ≡ codes "a"
unfolding get_header less
finds_host = refl

abbrev post : HttpRequest
post = record (make_request 17 false) {
  query = codes "q=1";
  body = codes "hello";
  headers = one_header;
}

dump_post :
    dump_request post
    ≡ codes "GET /?q=1 HTTP/1.1"
      ++ 13 ∷ 10 ∷ codes "connection:keep-alive"
      ++ 13 ∷ 10 ∷ codes "Host:a"
      ++ 13 ∷ 10 ∷ codes "content-length:5"
      ++ 13 ∷ 10 ∷ 13 ∷ 10 ∷ codes "hello"
unfolding dump_request http_method_to_string decimal header_lines
dump_post = refl

get_header-set_header_example :
    (fold_case (codes "HOST") ≡ fold_case (codes "host")
      → get_header (set_header one_header (codes "host") (codes "b")) (codes "HOST") [] ≡ codes "b")
    × (fold_case (codes "HOST") ≢ fold_case (codes "host")
        → get_header (set_header one_header (codes "host") (codes "b")) (codes "HOST") []
          ≡ get_header one_header (codes "HOST") [])
    × (IsSortedMap less one_header
        → IsSortedMap less (set_header one_header (codes "host") (codes "b")))
get_header-set_header_example =
    get_header-set_header one_header (codes "host") (codes "HOST") (codes "b") []

abbrev ten : ℕ
ten = 10

read_decimal-decimal_example : read_decimal 0 (decimal ten) ≡ ten
read_decimal-decimal_example = read_decimal-decimal ten
