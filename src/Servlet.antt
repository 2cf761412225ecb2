-- ===== src/Servlet.antt =====
-- linko/http/servlet.h and linko/http/servlet.cc: which servlet answers a path. The C library's
-- fnmatch and what the callbacks do to a response are parameters.
pub mod Routes
pub mod Handling
mod Runs
use link_server.Base.{
  ℕ, List, [], ◌∷◌, ◌++◌, Option, none, some, Bool, true, false, ◌==◌, if◌then◌else◌,
}
use link_server.Base.Maps.{find, assign, erase}
use link_server.Http.{Text, codes, eq_text, c_str, text_less, HttpRequest, HttpResponse, set_header}

-- A servlet: the one for unknown paths, or a callback.
pub data Servlet : Type 0 where
  not_found : Servlet
  function : ℕ → Servlet

-- `Servlet::ptr`, which may be null.
abbrev pub Ptr : Type 0
Ptr = Option Servlet

-- `m_datas` as a map in the order of its keys, which nothing depends on.
pub record ServletDispatch : Type 0 where
  pub datas : List (Text × Ptr)
  pub globs : List (Text × Ptr)
  pub default_servlet : Ptr

abbrev pub new_dispatch : ServletDispatch
new_dispatch = record { datas = []; globs = []; default_servlet = some not_found }

unfoldable pub add_servlet : ServletDispatch → Text → Ptr → ServletDispatch
add_servlet d uri slt = record d { datas = assign text_less uri slt d.datas }

unfoldable pub del_servlet : ServletDispatch → Text → ServletDispatch
del_servlet d uri = record d { datas = erase text_less uri d.datas }

-- The loop over the globs that erases the first of this pattern.
abbrev pub erase_first : List (Text × Ptr) → Text → List (Text × Ptr)
erase_first [] uri = []
erase_first ((u, s) ∷ gs) uri = if eq_text u uri then gs else (u, s) ∷ erase_first gs uri

unfoldable pub add_glob_servlet : ServletDispatch → Text → Ptr → ServletDispatch
add_glob_servlet d uri slt = record d { globs = erase_first d.globs uri ++ ((uri, slt) ∷ []) }

unfoldable pub del_glob_servlet : ServletDispatch → Text → ServletDispatch
del_glob_servlet d uri = record d { globs = erase_first d.globs uri }

abbrev pub or_null : Option Ptr → Ptr
or_null none = none
or_null (some slt) = slt

unfoldable pub get_servlet : ServletDispatch → Text → Ptr
get_servlet d uri = or_null (find text_less uri d.datas)

-- The first servlet of the globs whose pattern passes the test.
abbrev pub first_glob : (Text → Bool) → List (Text × Ptr) → Option Ptr
first_glob p [] = none
first_glob p ((u, s) ∷ gs) = if p u then some s else first_glob p gs

unfoldable pub get_global_servlet : ServletDispatch → Text → Ptr
get_global_servlet d uri = or_null (first_glob (λ u. eq_text u uri) d.globs)

abbrev pub or_else : Option Ptr → Ptr → Ptr
or_else none slt = slt
or_else (some s) slt = s

-- `fnmatch` answers 0 where the pattern matches.
abbrev pub matches : (Text → Text → ℕ) → Text → Text → Bool
matches fnmatch uri pattern = fnmatch (c_str pattern) (c_str uri) == 0

unfoldable pub get_matched_servlet : (Text → Text → ℕ) → ServletDispatch → Text → Ptr
get_matched_servlet fnmatch d uri =
    or_else (find text_less uri d.datas)
      (or_else (first_glob (matches fnmatch uri) d.globs) d.default_servlet)

abbrev pub not_found_body : Text
not_found_body =
    codes
      "<html><head><title>404 Not Found</title></head><body><center><h1>404 Not Found</h1></center><hr><center>linko/1.0.0</center></body></html>"

-- `NotFoundServlet::handle`.
unfoldable pub handle_not_found : HttpResponse → HttpResponse
handle_not_found r = record r {
  status = 404;
  headers =
      set_header (set_header r.headers (codes "Server") (codes "linko/1.0.0"))
        (codes "Content-Type") (codes "text/html");
  body = not_found_body;
}

-- What a servlet answers and makes of the response; `call` is what the callbacks do.
abbrev pub handle_servlet :
    (ℕ → HttpRequest → HttpResponse → ℕ × HttpResponse)
    → Servlet
    → HttpRequest
    → HttpResponse
    → ℕ × HttpResponse
handle_servlet call not_found q r = (0, handle_not_found r)
handle_servlet call (function f) q r = call f q r

abbrev pub handle_by :
    (ℕ → HttpRequest → HttpResponse → ℕ × HttpResponse)
    → Ptr
    → HttpRequest
    → HttpResponse
    → HttpResponse
handle_by call none q r = r
handle_by call (some slt) q r = (handle_servlet call slt q r).1

-- `ServletDispatch::handle`.
unfoldable pub handle :
    (Text → Text → ℕ)
    → (ℕ → HttpRequest → HttpResponse → ℕ × HttpResponse)
    → ServletDispatch
    → HttpRequest
    → HttpResponse
    → ℕ × HttpResponse
handle fnmatch call d q r = (0, handle_by call (get_matched_servlet fnmatch d q.path) q r)
