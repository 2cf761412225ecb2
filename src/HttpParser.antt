-- ===== src/HttpParser.antt =====
-- linko/http/http_parser.cc: the callbacks that the generated automata call. A call is an event with the text
-- from the place it points to up to the end of the buffer, and its length; `atoi` is a parameter.
pub mod Events
mod Runs
use link_server.Base.{
  ℕ, zero, suc, List, [], ◌∷◌, Bool, true, false, not, ◌==◌, ◌&&◌, ◌||◌, if◌then◌else◌, take,
}
use link_server.Http.{
  Text, codes, HttpMethod, invalid_method, number, chars_to_http_method, HttpRequest, HttpResponse,
  make_request, make_response, set_header,
}

-- `strncmp(s, t, n) == 0`.
abbrev pub strncmp_eq : ℕ → Text → Text → Bool
strncmp_eq zero s t = true
strncmp_eq (suc n) [] [] = true
strncmp_eq (suc n) [] (b ∷ t) = b == 0
strncmp_eq (suc n) (a ∷ s) [] = a == 0
strncmp_eq (suc n) (a ∷ s) (b ∷ t) =
    if a == b then (if a == 0 then true else strncmp_eq n s t) else false

pub data RequestEvent : Type 0 where
  on_request_method on_request_uri on_request_fragment on_request_path : Text → ℕ → RequestEvent
  on_request_query on_request_version on_request_header_done : Text → ℕ → RequestEvent
  on_request_http_field : Text → ℕ → Text → ℕ → RequestEvent

pub record HttpRequestParser : Type 0 where
  pub message : HttpRequest
  pub error : ℕ

abbrev pub new_request_parser : HttpRequestParser
new_request_parser = record { message = make_request 17 true; error = 0 }

abbrev pub is_invalid : HttpMethod → Bool
is_invalid m = number m == 34

abbrev pub set_method : HttpMethod → HttpRequestParser → HttpRequestParser
set_method m p =
    if is_invalid m
    then record p { error = 1000 }
    else record p { message = record p.message { method = m } }

-- The version that a text is, 0 where it is neither.
abbrev pub version_of : Text → ℕ → ℕ
version_of at size =
    if strncmp_eq size at (codes "HTTP/1.1")
    then 17
    else if strncmp_eq size at (codes "HTTP/1.0")
    then 16
    else 0

unfoldable pub on_request : RequestEvent → HttpRequestParser → HttpRequestParser
on_request (on_request_method at size) p = set_method (chars_to_http_method at) p
on_request (on_request_uri at size) p = p
on_request (on_request_fragment at size) p = record p {
  message = record p.message { fragment = take size at };
}
on_request (on_request_path at size) p = record p {
  message = record p.message { path = take size at };
}
on_request (on_request_query at size) p = record p {
  message = record p.message { query = take size at };
}
on_request (on_request_version at size) p =
    let v = version_of at size in
    if v == 0
    then record p { error = 1001 }
    else record p { message = record p.message { version = v } }
on_request (on_request_header_done at size) p = p
on_request (on_request_http_field field flen value vlen) p =
    if flen == 0 then record p { error = 1002 } else record p {
      message = record p.message {
        headers = set_header p.message.headers (take flen field) (take vlen value);
      };
    }

abbrev pub on_requests : List RequestEvent → HttpRequestParser → HttpRequestParser
on_requests [] p = p
on_requests (e ∷ events) p = on_requests events (on_request e p)

-- `hasError`, where the automaton has its own.
abbrev pub has_error : Bool → HttpRequestParser → Bool
has_error automaton p = not (p.error == 0) || automaton

pub data ResponseEvent : Type 0 where
  on_response_reason on_response_status on_response_chunk on_response_version :
      Text → ℕ → ResponseEvent
  on_response_header_done on_response_last_chunk : Text → ℕ → ResponseEvent
  on_response_http_field : Text → ℕ → Text → ℕ → ResponseEvent

pub record HttpResponseParser : Type 0 where
  pub message : HttpResponse
  pub error : ℕ

unfoldable pub on_response : (Text → ℕ) → ResponseEvent → HttpResponseParser → HttpResponseParser
on_response atoi (on_response_reason at size) p = record p {
  message = record p.message { reason = take size at };
}
on_response atoi (on_response_status at size) p = record p {
  message = record p.message { status = atoi at };
}
on_response atoi (on_response_chunk at size) p = p
on_response atoi (on_response_version at size) p =
    let v = version_of at size in
    if v == 0
    then record p { error = 1001 }
    else record p { message = record p.message { version = v } }
on_response atoi (on_response_header_done at size) p = p
on_response atoi (on_response_last_chunk at size) p = p
on_response atoi (on_response_http_field field flen value vlen) p =
    if flen == 0 then record p { error = 1002 } else record p {
      message = record p.message {
        headers = set_header p.message.headers (take flen field) (take vlen value);
      };
    }
