-- ===== src/HttpParser/Events.antt =====
-- What a request is after any calls of the callbacks.
use link_server.Base.{
  ℕ, ◌≡◌, refl, sym, ap, ◌∙◌, List, [], ◌∷◌, Bool, true, false, not, ◌==◌, ◌&&◌, if◌then◌else◌,
  take, Bool-cases, ◌⊎◌, inl, inr, arith,
}
use link_server.Base.Maps.{IsSortedMap}
use link_server.Http.{
  Text, codes, less, fold_case, eq_text, HttpRequest, chars_to_http_method, get_header,
}
use link_server.Http.Headers.{get_header-set_header, eq_text_eq, eq_text_self}
use link_server.HttpParser.{
  RequestEvent, on_request_method, on_request_uri, on_request_fragment, on_request_path,
  on_request_query, on_request_version, on_request_header_done, on_request_http_field,
  HttpRequestParser, is_invalid, strncmp_eq, version_of, on_request, on_requests,
}

-- The calls that are not an error.
abbrev pub is_good : RequestEvent → Bool
is_good (on_request_method at size) = not (is_invalid (chars_to_http_method at))
is_good (on_request_version at size) = not (version_of at size == 0)
is_good (on_request_http_field field flen value vlen) = not (flen == 0)
is_good _ = true

abbrev pub all_good : List RequestEvent → Bool
all_good [] = true
all_good (e ∷ events) = is_good e && all_good events

-- The header of a name, in small letters, after calls.
abbrev pub put_field : Text → RequestEvent → Text → Text
put_field name (on_request_http_field field flen value vlen) old =
    if flen == 0
    then old
    else if eq_text (fold_case (take flen field)) name
    then take vlen value
    else old
put_field name _ old = old

abbrev pub last_field : Text → List RequestEvent → Text → Text
last_field name [] old = old
last_field name (e ∷ events) old = last_field name events (put_field name e old)

and_assoc : (a b c : Bool) → ((a && b) && c) ≡ (a && (b && c))
and_assoc a b c = ground arith

and_false : (b : Bool) → (b && false) ≡ false
and_false b = ground arith

and_true : (b : Bool) → (b && true) ≡ b
and_true b = ground arith

on_request-error :
    (e : RequestEvent) (p : HttpRequestParser)
    → ((on_request e p).error == 0) ≡ ((p.error == 0) && is_good e)
unfolding on_request
on_request-error (on_request_method at size) p =
    elim (Bool-cases (is_invalid (chars_to_http_method at))) [
      | inl e ↦ rw e (sym (and_false (p.error == 0)))
      | inr e ↦ rw e (sym (and_true (p.error == 0)))
    ]
on_request-error (on_request_uri at size) p = sym (and_true (p.error == 0))
on_request-error (on_request_fragment at size) p = sym (and_true (p.error == 0))
on_request-error (on_request_path at size) p = sym (and_true (p.error == 0))
on_request-error (on_request_query at size) p = sym (and_true (p.error == 0))
on_request-error (on_request_header_done at size) p = sym (and_true (p.error == 0))
on_request-error (on_request_version at size) p = elim (Bool-cases (version_of at size == 0)) [
  | inl e ↦ rw e (sym (and_false (p.error == 0)))
  | inr e ↦ rw e (sym (and_true (p.error == 0)))
]
on_request-error (on_request_http_field field flen value vlen) p = elim (Bool-cases (flen == 0)) [
  | inl e ↦ rw e (sym (and_false (p.error == 0)))
  | inr e ↦ rw e (sym (and_true (p.error == 0)))
]

on_request-header :
    (e : RequestEvent) (p : HttpRequestParser) (name : Text)
    → get_header (on_request e p).message.headers name []
      ≡ put_field (fold_case name) e (get_header p.message.headers name [])
unfolding on_request
on_request-header (on_request_method at size) p name =
    elim (Bool-cases (is_invalid (chars_to_http_method at))) [
      | inl e ↦ rw e refl
      | inr e ↦ rw e refl
    ]
on_request-header (on_request_uri at size) p name = refl
on_request-header (on_request_fragment at size) p name = refl
on_request-header (on_request_path at size) p name = refl
on_request-header (on_request_query at size) p name = refl
on_request-header (on_request_header_done at size) p name = refl
on_request-header (on_request_version at size) p name =
    elim (Bool-cases (version_of at size == 0)) [ inl e ↦ rw e refl | inr e ↦ rw e refl ]
on_request-header (on_request_http_field field flen value vlen) p name =
    elim (Bool-cases (flen == 0)) [
      | inl z ↦ rw z refl
      | inr z ↦
          let key = take flen field in
          let (same, other, u) =
            get_header-set_header p.message.headers key name (take vlen value) [] in
          elim (Bool-cases (eq_text (fold_case key) (fold_case name))) [
            | inl e ↦ rw (z, e) (same (sym (eq_text_eq (fold_case key) (fold_case name) e)))
            | inr e ↦
                rw (z, e)
                  (other (λ k.
                    let h : false ≡ true =
                      sym e
                      ∙ ap (λ t. eq_text t (fold_case name)) (sym k)
                      ∙ eq_text_self (fold_case name) in
                    cc h))
          ]
    ]

-- What the callbacks keep of a message.
pub record IsValid (q : HttpRequest) : Type 0 where
  pub method_ok : is_invalid q.method ≡ false
  pub version_ok : (q.version ≡ 16) ⊎ (q.version ≡ 17)
  pub headers_ok : IsSortedMap less q.headers

version_of-cases :
    (at : Text) (size : ℕ)
    → (version_of at size == 0) ≡ false
    → (version_of at size ≡ 16) ⊎ (version_of at size ≡ 17)
version_of-cases at size h = elim (Bool-cases (strncmp_eq size at (codes "HTTP/1.1"))) [
  | inl e ↦ inr (rw e refl)
  | inr e ↦ elim (Bool-cases (strncmp_eq size at (codes "HTTP/1.0"))) [
    | inl e' ↦ inl (rw (e, e') refl)
    | inr e' ↦ absurd (cc (h, e, e'))
  ]
]

on_request-IsValid :
    (e : RequestEvent) (p : HttpRequestParser)
    → IsValid p.message
    → IsValid (on_request e p).message
unfolding on_request
on_request-IsValid (on_request_method at size) p v =
    elim (Bool-cases (is_invalid (chars_to_http_method at))) [
      | inl e ↦ rw e v
      | inr e ↦
          rw e (record { method_ok = e; version_ok = v.version_ok; headers_ok = v.headers_ok })
    ]
on_request-IsValid (on_request_uri at size) p v = v
on_request-IsValid (on_request_fragment at size) p v = record {
  method_ok = v.method_ok;
  version_ok = v.version_ok;
  headers_ok = v.headers_ok;
}
on_request-IsValid (on_request_path at size) p v = record {
  method_ok = v.method_ok;
  version_ok = v.version_ok;
  headers_ok = v.headers_ok;
}
on_request-IsValid (on_request_query at size) p v = record {
  method_ok = v.method_ok;
  version_ok = v.version_ok;
  headers_ok = v.headers_ok;
}
on_request-IsValid (on_request_header_done at size) p v = v
on_request-IsValid (on_request_version at size) p v = elim (Bool-cases (version_of at size == 0)) [
  | inl e ↦ rw e v
  | inr e ↦ rw e (record {
    method_ok = v.method_ok;
    version_ok = version_of-cases at size e;
    headers_ok = v.headers_ok;
  })
]
on_request-IsValid (on_request_http_field field flen value vlen) p v =
    elim (Bool-cases (flen == 0)) [
      | inl e ↦ rw e v
      | inr e ↦
          let (same, other, u) =
            get_header-set_header p.message.headers (take flen field) (take flen field)
              (take vlen value) [] in
          rw e (record {
            method_ok = v.method_ok;
            version_ok = v.version_ok;
            headers_ok = u v.headers_ok;
          })
    ]

-- After any calls of the callbacks, in whatever order, there is no error exactly if there was none
-- before and every call was good: its method is known, its version 1.0 or 1.1, its field not empty. A
-- message that has a known method, a version 1.0 or 1.1 and sorted headers keeps these, errors or not;
-- and its header of a name, in whatever case, is the last non-empty field's of that name, or the one
-- before.
pub on_requests_lem :
    (events : List RequestEvent) (p : HttpRequestParser) (name : Text)
    → IsValid p.message
    → (((on_requests events p).error == 0) ≡ ((p.error == 0) && all_good events))
      × IsValid (on_requests events p).message
      × (get_header (on_requests events p).message.headers name []
          ≡ last_field (fold_case name) events (get_header p.message.headers name []))
on_requests_lem [] p name v = (sym (and_true (p.error == 0)), v, refl)
on_requests_lem (e ∷ events) p name v =
    let (err', valid, header) =
      on_requests_lem events (on_request e p) name (on_request-IsValid e p v) in
    (
      err'
          ∙ ap (λ b. b && all_good events) (on_request-error e p)
          ∙ and_assoc (p.error == 0) (is_good e) (all_good events),
      valid,
      header ∙ ap (last_field (fold_case name) events) (on_request-header e p name),
    )
