-- ===== src/HttpParser/Runs.antt =====
-- Runs of the parser's callbacks (linko/http/http_parser.cc) on concrete texts.
use link_server.Base.{◌≡◌, refl, List, [], ◌∷◌, ◌==◌, ◌&&◌, inr}
use link_server.Http.{codes, fold_case, get_header}
use link_server.HttpParser.{
  RequestEvent, on_request_method, on_request_version, on_request_http_field, new_request_parser,
  on_requests,
}
use link_server.HttpParser.Events.{IsValid, all_good, last_field, on_requests_lem}

abbrev calls : List RequestEvent
calls =
    on_request_method (codes "GET / HTTP/1.1") 3
    ∷ on_request_version (codes "HTTP/1.1") 8
    ∷ on_request_http_field (codes "Host: a") 4 (codes "a") 1
    ∷ on_request_http_field (codes ": b") 0 (codes "b") 1
    ∷ []

new-IsValid : IsValid new_request_parser.message
new-IsValid = record { method_ok = refl; version_ok = inr refl; headers_ok = tt }

on_requests_lem_example :
    (((on_requests calls new_request_parser).error == 0)
      ≡ ((new_request_parser.error == 0) && all_good calls))
    × IsValid (on_requests calls new_request_parser).message
    × (get_header (on_requests calls new_request_parser).message.headers (codes "HOST") []
        ≡ last_field
            (fold_case (codes "HOST"))
            calls
            (get_header new_request_parser.message.headers (codes "HOST") []))
on_requests_lem_example = on_requests_lem calls new_request_parser (codes "HOST") new-IsValid
