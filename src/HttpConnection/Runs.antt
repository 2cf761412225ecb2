-- ===== src/HttpConnection/Runs.antt =====
-- Runs of the pool and of the requests (linko/http/http_connection.cc) on concrete values.
use link_server.Base.{ℕ, ◌≡◌, refl, [], ◌∷◌, some, Bool, true, if◌then◌else◌, arith}
use link_server.Http.{codes, fold_case, get_method, MapType, get_header}
use link_server.HttpConnection.{
  HttpConnectionPool, get_connection, release_ptr, do_request, pool_request, is_empty,
}
use link_server.HttpConnection.Pool.{
  System, Reach, here, next, gets, releases, IsValid, System-IsValid, unused, after_get,
  after_release,
}
use link_server.HttpConnection.Headers.{expected, do_request_lem}

abbrev of_two : HttpConnectionPool
of_two = record {
  host = codes "example.org";
  vhost = [];
  max_size = 2;
  max_alive_time = 1000;
  max_request = 5;
  store = λ a. record { create_time = 0; request = 0 };
  conns = [];
  total = 0;
}

abbrev connected : ℕ → Bool
connected a = true

-- A connection is opened at 7, and given back.
abbrev lent : System
lent = after_get connected 10 (some (7, 10)) (unused of_two)

abbrev pooled : System
pooled = after_release connected 20 7 [] [] lent

pooled_once : pooled.pool.conns ≡ 7 ∷ []
unfolding get_connection release_ptr
pooled_once = refl

start-IsValid : IsValid (unused of_two)
start-IsValid = record { once = λ a. omega arith; total_eq = refl; serve = tt }

to_pooled : Reach (unused of_two) pooled
unfolding get_connection
to_pooled =
    next (next here (gets (unused of_two) connected 10 (some (7, 10)) refl))
      (releases lent connected 20 7 [] [] refl)

System-IsValid_example : IsValid pooled
System-IsValid_example = System-IsValid start-IsValid to_pooled

-- An empty host header behind one with a value.
abbrev headers : MapType
headers = (codes "HOST", codes "a") ∷ (codes "Host", []) ∷ []

do_request_lem_example :
    (get_header
        (do_request get_method (codes "/") [] [] (codes "h") headers []).headers
        (codes "host")
        []
      ≡ expected (fold_case (codes "host")) headers (codes "h"))
    × (get_header (pool_request of_two get_method (codes "/") headers []).headers (codes "host") []
        ≡ expected
            (fold_case (codes "host"))
            headers
            (if is_empty of_two.vhost then of_two.host else of_two.vhost))
do_request_lem_example =
    do_request_lem of_two get_method (codes "/") [] [] (codes "h") [] (codes "host") headers

host_is_empty : expected (fold_case (codes "host")) headers (codes "h") ≡ []
host_is_empty = refl
