-- ===== src/Http/Names.antt =====
-- linko/http/http.h and linko/http/http.cc: the methods and statuses with their names.
use Prim.Native.String.{String}
use Prim.Native.Char.{code}
use link_server.Base.{
  ℕ, List, [], ◌∷◌, Option, none, some, Bool, true, false, ◌==◌, if◌then◌else◌, get_elem?,
}

abbrev pub Text : Type 0
Text = List ℕ

-- The bytes of an ASCII literal.
abbrev pub codes : String → Text
codes String.[] = []
codes (String.◌∷◌ c s) = code c ∷ codes s

-- The methods in the order of their numbers.
pub data HttpMethod : Type 0 where
  delete_method get_method head_method post_method put_method connect_method : HttpMethod
  options_method trace_method copy_method lock_method mkcol_method move_method : HttpMethod
  propfind_method proppatch_method search_method unlock_method bind_method : HttpMethod
  rebind_method unbind_method acl_method report_method mkactivity_method : HttpMethod
  checkout_method merge_method msearch_method notify_method subscribe_method : HttpMethod
  unsubscribe_method patch_method purge_method mkcalendar_method link_method : HttpMethod
  unlink_method source_method invalid_method : HttpMethod

abbrev pub all_methods : List HttpMethod
all_methods =
    delete_method ∷ get_method ∷ head_method ∷ post_method ∷ put_method ∷ connect_method
    ∷ options_method ∷ trace_method ∷ copy_method ∷ lock_method ∷ mkcol_method ∷ move_method
    ∷ propfind_method ∷ proppatch_method ∷ search_method ∷ unlock_method ∷ bind_method
    ∷ rebind_method ∷ unbind_method ∷ acl_method ∷ report_method ∷ mkactivity_method
    ∷ checkout_method ∷ merge_method ∷ msearch_method ∷ notify_method ∷ subscribe_method
    ∷ unsubscribe_method ∷ patch_method ∷ purge_method ∷ mkcalendar_method ∷ link_method
    ∷ unlink_method ∷ source_method ∷ []

-- The number of the enumerator.
abbrev pub number : HttpMethod → ℕ
number delete_method = 0
number get_method = 1
number head_method = 2
number post_method = 3
number put_method = 4
number connect_method = 5
number options_method = 6
number trace_method = 7
number copy_method = 8
number lock_method = 9
number mkcol_method = 10
number move_method = 11
number propfind_method = 12
number proppatch_method = 13
number search_method = 14
number unlock_method = 15
number bind_method = 16
number rebind_method = 17
number unbind_method = 18
number acl_method = 19
number report_method = 20
number mkactivity_method = 21
number checkout_method = 22
number merge_method = 23
number msearch_method = 24
number notify_method = 25
number subscribe_method = 26
number unsubscribe_method = 27
number patch_method = 28
number purge_method = 29
number mkcalendar_method = 30
number link_method = 31
number unlink_method = 32
number source_method = 33
number invalid_method = 34

-- `s_method_string`.
abbrev pub method_strings : List Text
method_strings =
    codes "DELETE"
    ∷ codes "GET"
    ∷ codes "HEAD"
    ∷ codes "POST"
    ∷ codes "PUT"
    ∷ codes "CONNECT"
    ∷ codes "OPTIONS"
    ∷ codes "TRACE"
    ∷ codes "COPY"
    ∷ codes "LOCK"
    ∷ codes "MKCOL"
    ∷ codes "MOVE"
    ∷ codes "PROPFIND"
    ∷ codes "PROPPATCH"
    ∷ codes "SEARCH"
    ∷ codes "UNLOCK"
    ∷ codes "BIND"
    ∷ codes "REBIND"
    ∷ codes "UNBIND"
    ∷ codes "ACL"
    ∷ codes "REPORT"
    ∷ codes "MKACTIVITY"
    ∷ codes "CHECKOUT"
    ∷ codes "MERGE"
    ∷ codes "M-SEARCH"
    ∷ codes "NOTIFY"
    ∷ codes "SUBSCRIBE"
    ∷ codes "UNSUBSCRIBE"
    ∷ codes "PATCH"
    ∷ codes "PURGE"
    ∷ codes "MKCALENDAR"
    ∷ codes "LINK"
    ∷ codes "UNLINK"
    ∷ codes "SOURCE"
    ∷ []

-- `#string` of a method's row, which is the element of `s_method_string` at its number.
abbrev pub unknown : Text
unknown = codes "<unknown>"

abbrev or_unknown : Option Text → Text
or_unknown none = unknown
or_unknown (some t) = t

unfoldable pub http_method_to_string : HttpMethod → Text
http_method_to_string m = or_unknown (get_elem? method_strings (number m))

-- `strcmp(a, b) == 0`.
abbrev pub eq_text : Text → Text → Bool
eq_text [] [] = true
eq_text [] (b ∷ t) = false
eq_text (a ∷ s) [] = false
eq_text (a ∷ s) (b ∷ t) = if a == b then eq_text s t else false

-- `strncmp(a, b, strlen(a)) == 0`.
abbrev pub is_prefix : Text → Text → Bool
is_prefix [] t = true
is_prefix (a ∷ s) [] = false
is_prefix (a ∷ s) (b ∷ t) = if a == b then is_prefix s t else false

-- `c_str()`, as the C functions read it: up to its first zero byte.
abbrev pub c_str : Text → Text
c_str [] = []
c_str (c ∷ s) = if c == 0 then [] else c ∷ c_str s

-- The tests of the rows, in their order.
abbrev pub first_method : (Text → Bool) → List HttpMethod → HttpMethod
first_method p [] = invalid_method
first_method p (m ∷ ms) = if p (http_method_to_string m) then m else first_method p ms

unfoldable pub string_to_http_method : Text → HttpMethod
string_to_http_method s = first_method (λ t. eq_text t (c_str s)) all_methods

unfoldable pub chars_to_http_method : Text → HttpMethod
chars_to_http_method s = first_method (λ t. is_prefix t (c_str s)) all_methods

-- `HTTP_STATUS_MAP`.
abbrev pub status_map : List (ℕ × Text)
status_map =
    (100, codes "Continue")
    ∷ (101, codes "Switching Protocols")
    ∷ (102, codes "Processing")
    ∷ (200, codes "OK")
    ∷ (201, codes "Created")
    ∷ (202, codes "Accepted")
    ∷ (203, codes "Non-Authoritative Information")
    ∷ (204, codes "No Content")
    ∷ (205, codes "Reset Content")
    ∷ (206, codes "Partial Content")
    ∷ (207, codes "Multi-Status")
    ∷ (208, codes "Already Reported")
    ∷ (226, codes "IM Used")
    ∷ (300, codes "Multiple Choices")
    ∷ (301, codes "Moved Permanently")
    ∷ (302, codes "Found")
    ∷ (303, codes "See Other")
    ∷ (304, codes "Not Modified")
    ∷ (305, codes "Use Proxy")
    ∷ (307, codes "Temporary Redirect")
    ∷ (308, codes "Permanent Redirect")
    ∷ (400, codes "Bad Request")
    ∷ (401, codes "Unauthorized")
    ∷ (402, codes "Payment Required")
    ∷ (403, codes "Forbidden")
    ∷ (404, codes "Not Found")
    ∷ (405, codes "Method Not Allowed")
    ∷ (406, codes "Not Acceptable")
    ∷ (407, codes "Proxy Authentication Required")
    ∷ (408, codes "Request Timeout")
    ∷ (409, codes "Conflict")
    ∷ (410, codes "Gone")
    ∷ (411, codes "Length Required")
    ∷ (412, codes "Precondition Failed")
    ∷ (413, codes "Payload Too Large")
    ∷ (414, codes "URI Too Long")
    ∷ (415, codes "Unsupported Media Type")
    ∷ (416, codes "Range Not Satisfiable")
    ∷ (417, codes "Expectation Failed")
    ∷ (421, codes "Misdirected Request")
    ∷ (422, codes "Unprocessable Entity")
    ∷ (423, codes "Locked")
    ∷ (424, codes "Failed Dependency")
    ∷ (426, codes "Upgrade Required")
    ∷ (428, codes "Precondition Required")
    ∷ (429, codes "Too Many Requests")
    ∷ (431, codes "Request Header Fields Too Large")
    ∷ (451, codes "Unavailable For Legal Reasons")
    ∷ (500, codes "Internal Server Error")
    ∷ (501, codes "Not Implemented")
    ∷ (502, codes "Bad Gateway")
    ∷ (503, codes "Service Unavailable")
    ∷ (504, codes "Gateway Timeout")
    ∷ (505, codes "HTTP Version Not Supported")
    ∷ (506, codes "Variant Also Negotiates")
    ∷ (507, codes "Insufficient Storage")
    ∷ (508, codes "Loop Detected")
    ∷ (510, codes "Not Extended")
    ∷ (511, codes "Network Authentication Required")
    ∷ []

abbrev pub status_text : List (ℕ × Text) → ℕ → Text
status_text [] s = unknown
status_text ((c, t) ∷ rows) s = if c == s then t else status_text rows s

unfoldable pub http_status_to_string : ℕ → Text
http_status_to_string s = status_text status_map s
