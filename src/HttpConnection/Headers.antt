-- ===== src/HttpConnection/Headers.antt =====
-- The headers of the requests that the client builds.
use link_server.Base.{
  ◌≡◌, refl, sym, ap, ◌∙◌, [], ◌∷◌, Bool, true, false, not, ◌&&◌, ◌||◌, if◌then◌else◌, Bool-cases,
  inl, inr, arith,
}
use link_server.Http.{
  Text, codes, fold_case, eq_text, HttpMethod, HttpRequest, MapType, get_header, make_request,
}
use link_server.Http.Headers.{get_header-set_header, eq_text_eq, eq_text_self}
use link_server.HttpConnection.{
  HttpConnectionPool, is_named, is_empty, put_header, put_headers, put_host, do_request,
  pool_request,
}

-- The last header of a name, given in small letters.
abbrev pub last_of : Text → MapType → Text → Text
last_of name [] def = def
last_of name ((key, val) ∷ hs) def = last_of name hs (if is_named name key then val else def)

-- Whether a header for the host has a value.
abbrev pub any_host : MapType → Bool
any_host [] = false
any_host ((key, val) ∷ hs) = (is_named (codes "host") key && not (is_empty val)) || any_host hs

-- What a request has under a name.
abbrev pub expected : Text → MapType → Text → Text
expected name hs host =
    if eq_text name (codes "connection")
    then []
    else if eq_text name (codes "host")
    then (if any_host hs then last_of name hs [] else host)
    else last_of name hs []

put_header_other :
    (name key val : Text) (b : Bool) (q : HttpRequest)
    → eq_text (fold_case name) (codes "connection") ≡ false
    → get_header (put_header key val (b, q)).1.headers name []
      ≡ (if is_named (fold_case name) key then val else get_header q.headers name [])
put_header_other name key val b q n =
    let (same, other, u) = get_header-set_header q.headers key name val [] in
    elim (Bool-cases (is_named (fold_case name) key)) [
      | inl e ↦
          let k = eq_text_eq (fold_case key) (fold_case name) e in
          let c : eq_text (fold_case key) (codes "connection") ≡ false =
            ap (λ t. eq_text t (codes "connection")) k ∙ n in
          rw (c, e) (same (sym k))
      | inr e ↦ elim (Bool-cases (is_named (codes "connection") key)) [
        | inl c ↦ elim (Bool-cases (is_named (codes "keep-alive") val)) [
          | inl a ↦ rw (c, a, e)
          | inr a ↦ rw (c, a, e)
        ]
        | inr c ↦
            rw (c, e)
              (other (λ k.
                let h : false ≡ true =
                  sym e
                  ∙ ap (λ t. eq_text t (fold_case name)) (sym k)
                  ∙ eq_text_self (fold_case name) in
                cc h))
      ]
    ]

or_false : (b : Bool) → (b || false) ≡ b
or_false b = ground arith

or_assoc : (a b c : Bool) → ((a || b) || c) ≡ (a || (b || c))
or_assoc a b c = ground arith

seen_cases : (b h v : Bool) → (if not b && h then v else b) ≡ (b || (h && v))
seen_cases b h v = ground arith

-- Every name but the connection's has its last header.
put_headers_other :
    (hs : MapType) (name : Text) (b : Bool) (q : HttpRequest)
    → eq_text (fold_case name) (codes "connection") ≡ false
    → get_header (put_headers hs (b, q)).1.headers name []
      ≡ last_of (fold_case name) hs (get_header q.headers name [])
put_headers_other [] name b q n = refl
put_headers_other ((key, val) ∷ hs) name b q n =
    let r = put_header key val (b, q) in
    put_headers_other hs name r.0 r.1 n
    ∙ ap (last_of (fold_case name) hs) (put_header_other name key val b q n)

put_header_connection :
    (name key val : Text) (b : Bool) (q : HttpRequest)
    → fold_case name ≡ codes "connection"
    → get_header (put_header key val (b, q)).1.headers name [] ≡ get_header q.headers name []
put_header_connection name key val b q n =
    let (same, other, u) = get_header-set_header q.headers key name val [] in
    elim (Bool-cases (is_named (codes "connection") key)) [
      | inl c ↦ elim (Bool-cases (is_named (codes "keep-alive") val)) [
        | inl a ↦ rw (c, a) refl
        | inr a ↦ rw (c, a) refl
      ]
      | inr c ↦ rw c (
          other (λ k.
            let h : false ≡ true =
              sym c
              ∙ ap (λ t. eq_text t (codes "connection")) (sym k ∙ n)
              ∙ eq_text_self (codes "connection") in
            cc h))
    ]

put_headers_connection :
    (hs : MapType) (name : Text) (b : Bool) (q : HttpRequest)
    → fold_case name ≡ codes "connection"
    → get_header (put_headers hs (b, q)).1.headers name [] ≡ get_header q.headers name []
put_headers_connection [] name b q n = refl
put_headers_connection ((key, val) ∷ hs) name b q n =
    let r = put_header key val (b, q) in
    put_headers_connection hs name r.0 r.1 n ∙ put_header_connection name key val b q n

-- Whether a host was seen.
put_header-has_host :
    (key val : Text) (b : Bool) (q : HttpRequest)
    → (put_header key val (b, q)).0 ≡ (b || (is_named (codes "host") key && not (is_empty val)))
put_header-has_host key val b q = elim (Bool-cases (is_named (codes "connection") key)) [
  | inl c ↦
      let k = eq_text_eq (fold_case key) (codes "connection") c in
      let n : is_named (codes "host") key ≡ false = ap (λ t. eq_text t (codes "host")) k in
      rw (c, n) (sym (or_false b))
  | inr c ↦ rw c (seen_cases b (is_named (codes "host") key) (not (is_empty val)))
]

put_headers-has_host :
    (hs : MapType) (b : Bool) (q : HttpRequest) → (put_headers hs (b, q)).0 ≡ (b || any_host hs)
put_headers-has_host [] b q = sym (or_false b)
put_headers-has_host ((key, val) ∷ hs) b q =
    let r = put_header key val (b, q) in
    put_headers-has_host hs r.0 r.1
    ∙ ap (λ c. c || any_host hs) (put_header-has_host key val b q)
    ∙ or_assoc b (is_named (codes "host") key && not (is_empty val)) (any_host hs)

if_same : {A : Type 0} (b : Bool) (x : A) → (if b then x else x) ≡ x
if_same true x = refl
if_same false x = refl

get_header-put_host :
    (name host : Text) (b : Bool) (q : HttpRequest)
    → get_header (put_host host (b, q)).headers name [] ≡ (
        if b
        then get_header q.headers name []
        else if eq_text (fold_case name) (codes "host")
        then host
        else get_header q.headers name [])
get_header-put_host name host true q = refl
get_header-put_host name host false q =
    let (same, other, u) = get_header-set_header q.headers (codes "Host") name host [] in
    elim (Bool-cases (eq_text (fold_case name) (codes "host"))) [
      | inl e ↦ rw e (same (eq_text_eq (fold_case name) (codes "host") e))
      | inr e ↦ rw e (
          other (λ k.
            let h : false ≡ true =
              sym e ∙ ap (λ t. eq_text t (codes "host")) k ∙ eq_text_self (codes "host") in
            cc h))
    ]

-- The host is put last, where none was seen.
put_host-lem :
    (name host : Text) (hs : MapType) (q : HttpRequest)
    → q.headers ≡ []
    → get_header (put_host host (put_headers hs (false, q))).headers name []
      ≡ expected (fold_case name) hs host
unfolding get_header
put_host-lem name host hs q e =
    let r = put_headers hs (false, q) in
    let put = get_header-put_host name host r.0 r.1 in
    let seen = put_headers-has_host hs false q in
    let empty : get_header q.headers name [] ≡ [] = rw e refl in
    elim (Bool-cases (eq_text (fold_case name) (codes "connection"))) [
      | inl c ↦
          let k = eq_text_eq (fold_case name) (codes "connection") c in
          let n : eq_text (fold_case name) (codes "host") ≡ false =
            ap (λ t. eq_text t (codes "host")) k in
          let none_there = put_headers_connection hs name false q k ∙ empty in
          put ∙ rw (c, n, none_there) (if_same r.0 [])
      | inr c ↦
          let there =
            put_headers_other hs name false q c ∙ ap (last_of (fold_case name) hs) empty in
          elim (Bool-cases (eq_text (fold_case name) (codes "host"))) [
            | inl h ↦ put ∙ rw (c, h, there, seen) refl
            | inr h ↦ put ∙ rw (c, h, there) (if_same r.0 (last_of (fold_case name) hs []))
          ]
    ]

-- The requests of DoRequest and of the pool have, under every name in whatever case: nothing, for
-- the connection; for the host, the last header given for it if one of these has a value, and the
-- URI's or the pool's host, where its virtual host comes first, if none has; for any other name the
-- last header given for it.
pub do_request_lem :
    (pool : HttpConnectionPool) (method : HttpMethod) (path query fragment host body name : Text)
    (hs : MapType)
    → (get_header (do_request method path query fragment host hs body).headers name []
        ≡ expected (fold_case name) hs host)
      × (get_header (pool_request pool method path hs body).headers name []
          ≡ expected (fold_case name) hs (if is_empty pool.vhost then pool.host else pool.vhost))
unfolding do_request pool_request
do_request_lem pool method path query fragment host body name hs = (
  put_host-lem name host hs
      (record (make_request 17 true) {
        path = path;
        query = query;
        fragment = fragment;
        method = method;
      })
      refl,
  put_host-lem name (if is_empty pool.vhost then pool.host else pool.vhost) hs
      (record (make_request 17 true) { path = path; method = method; close = false }) refl,
)
