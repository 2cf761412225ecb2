-- ===== src/HttpConnection.antt =====
-- linko/http/http_connection.h and linko/http/http_connection.cc: the pool of connections, and the requests
-- that are built from headers. Sockets, the clock and the addresses of new connections are arguments.
pub mod Pool
pub mod Headers
mod Runs
use link_server.Base.{
  ℕ, ◌+◌, ◌-◌, ◌%◌, ◌^◌, List, [], ◌∷◌, ◌++◌, Option, none, some, Bool, true, false, not, ◌==◌, ltb,
  leb, ◌&&◌, ◌||◌, if◌then◌else◌, add64, length, zero, suc, ℤ, pos, negsuc,
}
use link_server.Http.{
  Text, codes, fold_case, eq_text, HttpMethod, HttpRequest, HttpResponse, MapType, make_request,
  set_header,
}

pub record Connection : Type 0 where
  pub create_time : ℕ
  pub request : ℕ

-- `store` has the connections by address, and `conns` the addresses of those that wait in the pool.
pub record HttpConnectionPool : Type 0 where
  pub host : Text
  pub vhost : Text
  pub max_size : ℕ
  pub max_alive_time : ℕ
  pub max_request : ℕ
  pub store : ℕ → Connection
  pub conns : List ℕ
  pub total : ℕ

-- `m_total -= k` and `++m_total` on 32 bits.
abbrev pub sub32 : ℕ → ℕ → ℕ
sub32 a b = (a + 2 ^ 32 - b % 2 ^ 32) % 2 ^ 32

abbrev pub add32 : ℕ → ℕ → ℕ
add32 a b = (a + b) % 2 ^ 32

abbrev pub put_conn : (ℕ → Connection) → ℕ → Connection → ℕ → Connection
put_conn s a c b = if a == b then c else s b

-- A pooled connection that may be lent: it is connected and not too old.
abbrev pub is_usable : (ℕ → Bool) → ℕ → HttpConnectionPool → ℕ → Bool
is_usable is_connected now pool a =
    is_connected a && not (ltb (add64 (pool.store a).create_time pool.max_alive_time) now)

-- The loop of getConnection: the connection found, the invalid ones before it, and those left.
abbrev pub take_first : (ℕ → Bool) → List ℕ → Option ℕ × List ℕ × List ℕ
take_first p [] = (none, [], [])
take_first p (a ∷ conns) =
    let (got, invalid, rest) = take_first p conns in
    if p a then (some a, [], conns) else (got, a ∷ invalid, rest)

-- Where no pooled connection was found, `opened` is the new one's address and time, or none if the
-- host is not found or the socket fails.
abbrev pub open_conn : Option (ℕ × ℕ) → HttpConnectionPool → Option ℕ × HttpConnectionPool
open_conn none pool = (none, pool)
open_conn (some (a, time)) pool = (
  some a,
  record pool {
    store = put_conn pool.store a (record { create_time = time; request = 0 });
    total = add32 pool.total 1;
  },
)

abbrev pub lend : Option ℕ → Option (ℕ × ℕ) → HttpConnectionPool → Option ℕ × HttpConnectionPool
lend (some a) opened pool = (some a, pool)
lend none opened pool = open_conn opened pool

-- The connection lent, and the pool; the invalid connections are deleted. The code changes m_total,
-- which is atomic, after it has left the lock, here in the same step.
unfoldable pub get_connection :
    (ℕ → Bool) → ℕ → Option (ℕ × ℕ) → HttpConnectionPool → Option ℕ × HttpConnectionPool
get_connection is_connected now opened pool =
    let (got, invalid, rest) = take_first (is_usable is_connected now pool) pool.conns in
    lend got opened (record pool { conns = rest; total = sub32 pool.total (length invalid) })

-- The tests of ReleasePtr, after which it deletes the connection.
abbrev pub is_spent : (ℕ → Bool) → ℕ → ℕ → HttpConnectionPool → Bool
is_spent is_connected now a pool =
    not (is_connected a)
    || leb (add64 (pool.store a).create_time pool.max_alive_time) now
    || leb pool.max_request (add64 (pool.store a).request 1)

-- `ReleasePtr`: whether the connection is deleted, and the pool.
unfoldable pub release_ptr : (ℕ → Bool) → ℕ → ℕ → HttpConnectionPool → Bool × HttpConnectionPool
release_ptr is_connected now a pool =
    let c = pool.store a in
    let store' = put_conn pool.store a (record c { request = add64 c.request 1 }) in
    if is_spent is_connected now a pool
    then (true, record pool { store = store'; total = sub32 pool.total 1 })
    else (false, record pool { store = store'; conns = pool.conns ++ (a ∷ []) })

-- The loop of doRequest over the headers: the request, and whether it has a host.
abbrev pub is_named : Text → Text → Bool
is_named name key = eq_text (fold_case key) name

abbrev pub is_empty : Text → Bool
is_empty [] = true
is_empty (c ∷ s) = false

-- One header. `close` stays as it was unless the connection is to be kept alive.
abbrev pub put_header : Text → Text → Bool × HttpRequest → Bool × HttpRequest
put_header key val (has_host, q) =
    if is_named (codes "connection") key
    then (has_host, if is_named (codes "keep-alive") val then record q { close = false } else q)
    else (
      if not has_host && is_named (codes "host") key then not (is_empty val) else has_host,
      record q { headers = set_header q.headers key val },
    )

abbrev pub put_headers : MapType → Bool × HttpRequest → Bool × HttpRequest
put_headers [] r = r
put_headers ((key, val) ∷ hs) r = put_headers hs (put_header key val r)

abbrev pub put_host : Text → Bool × HttpRequest → HttpRequest
put_host host (has_host, q) =
    if has_host then q else record q { headers = set_header q.headers (codes "Host") host }

-- The request of HttpConnection::DoRequest, and that of HttpConnectionPool::doRequest.
unfoldable pub do_request : HttpMethod → Text → Text → Text → Text → MapType → Text → HttpRequest
do_request method path query fragment host hs body =
    let q = record (make_request 17 true) {
      path = path;
      query = query;
      fragment = fragment;
      method = method;
    } in
    record (put_host host (put_headers hs (false, q))) { body = body }

unfoldable pub pool_request : HttpConnectionPool → HttpMethod → Text → MapType → Text → HttpRequest
pool_request pool method url hs body =
    let q = record (make_request 17 true) { path = url; method = method; close = false } in
    let host = if is_empty pool.vhost then pool.host else pool.vhost in
    record (put_host host (put_headers hs (false, q))) { body = body }

-- The URL that the pool makes of a URI's parts.
abbrev pub led : ℕ → Text → Text
led c [] = []
led c (d ∷ s) = c ∷ d ∷ s

unfoldable pub pool_url : Text → Text → Text → Text
pool_url path query fragment = path ++ (led 63 query ++ led 35 fragment)

-- `HttpResult::Error`, and an error or a response.
pub data HttpError : Type 0 where
  no_error invalid_url invalid_host connect_fail send_close_by_peer send_socket_error : HttpError
  timeout create_socket_error pool_get_connection_fail pool_invalide_connection : HttpError

abbrev pub HttpResult : Type 0
HttpResult = HttpError × Option HttpResponse

abbrev pub of_response : Option HttpResponse → HttpResult
of_response none = (timeout, none)
of_response (some r) = (no_error, some r)

-- What `sendRequest` answered, and the response received.
abbrev pub of_send : ℤ → Option HttpResponse → HttpResult
of_send (pos zero) rsp = (send_close_by_peer, none)
of_send (pos (suc n)) rsp = of_response rsp
of_send (negsuc n) rsp = (send_socket_error, none)

-- The second half of DoRequest: whether the address, the socket and the connection were had.
unfoldable pub request_result : Bool → Bool → Bool → ℤ → Option HttpResponse → HttpResult
request_result has_addr has_sock connects rt rsp =
    if not has_addr
    then (invalid_host, none)
    else if not has_sock
    then (create_socket_error, none)
    else if not connects
    then (connect_fail, none)
    else of_send rt rsp

-- The same in the pool, whose connection is lent first.
unfoldable pub pool_result : Option ℕ → Bool → ℤ → Option HttpResponse → HttpResult
pool_result none has_sock rt rsp = (pool_get_connection_fail, none)
pool_result (some a) has_sock rt rsp =
    if not has_sock then (pool_invalide_connection, none) else of_send rt rsp
