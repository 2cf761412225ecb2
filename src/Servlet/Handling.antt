-- ===== src/Servlet/Handling.antt =====
-- What handle makes of a response.
use link_server.Base.{ℕ, ◌≡◌, ◌≢◌, refl, sym, ◌∙◌, [], none, some}
use link_server.Base.Maps.{find}
use link_server.Http.{
  Text, codes, fold_case, text_less, HttpRequest, HttpResponse, set_header, get_header,
}
use link_server.Http.Headers.{get_header-set_header}
use link_server.Servlet.{
  ServletDispatch, not_found, get_matched_servlet, handle, handle_not_found, first_glob, matches,
  not_found_body,
}

server_name : fold_case (codes "Server") ≢ fold_case (codes "Content-Type")
server_name e = cc e

-- Whatever the callbacks do: where neither a servlet nor a glob is found for the path and the default
-- is the not-found servlet, handle answers 0, and the response has status 404 and the page of that
-- servlet, both of its headers, under their names in whatever case, and otherwise keeps its version,
-- close mark and reason.
pub handle_lem :
    (fnmatch : Text → Text → ℕ) (call : ℕ → HttpRequest → HttpResponse → ℕ × HttpResponse)
    (d : ServletDispatch) (q : HttpRequest) (r : HttpResponse) (content_type server : Text)
    → find text_less q.path d.datas ≡ none
    → first_glob (matches fnmatch q.path) d.globs ≡ none
    → d.default_servlet ≡ some not_found
    → fold_case content_type ≡ fold_case (codes "content-type")
    → fold_case server ≡ fold_case (codes "server")
    → ((handle fnmatch call d q r).0 ≡ 0)
      × ((handle fnmatch call d q r).1.status ≡ 404)
      × ((handle fnmatch call d q r).1.body ≡ not_found_body)
      × (get_header (handle fnmatch call d q r).1.headers content_type [] ≡ codes "text/html")
      × (get_header (handle fnmatch call d q r).1.headers server [] ≡ codes "linko/1.0.0")
      × ((handle fnmatch call d q r).1.version ≡ r.version)
      × ((handle fnmatch call d q r).1.close ≡ r.close)
      × ((handle fnmatch call d q r).1.reason ≡ r.reason)
unfolding handle handle_not_found get_matched_servlet
handle_lem fnmatch call d q r content_type server e g def n n' =
    let served = set_header r.headers (codes "Server") (codes "linko/1.0.0") in
    let (t, t1, t2) =
      get_header-set_header served (codes "Content-Type") content_type (codes "text/html") [] in
    let (u, u1, u2) =
      get_header-set_header served (codes "Content-Type") server (codes "text/html") [] in
    let (s, s1, s2) =
      get_header-set_header r.headers (codes "Server") server (codes "linko/1.0.0") [] in
    (
      refl,
      rw (e, g, def),
      rw (e, g, def),
      rw (e, g, def) (t n),
      rw (e, g, def) (u1 (λ k. server_name (sym n' ∙ k)) ∙ s n'),
      rw (e, g, def),
      rw (e, g, def),
      rw (e, g, def),
    )
