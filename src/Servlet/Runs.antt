-- ===== src/Servlet/Runs.antt =====
-- Runs of the dispatch of servlets (linko/http/servlet.cc) on concrete routes.
use link_server.Base.{ℕ, ◌≡◌, ◌≢◌, refl, [], ◌∷◌, none, some, false, ap, length, ◌⊎◌, if◌then◌else◌}
use link_server.Base.Maps.{find}
use link_server.Http.{
  Text, codes, is_prefix, text_less, HttpRequest, HttpResponse, make_request, make_response,
}
use link_server.Servlet.{
  Ptr, ServletDispatch, not_found, function, add_glob_servlet, del_glob_servlet, erase_first,
  first_glob, matches, get_global_servlet, get_matched_servlet, or_else,
}
use link_server.Servlet.Routes.{IsValid, get_matched_servlet-add_glob_servlet}

-- Patterns that match what they begin.
abbrev begins : Text → Text → ℕ
begins pattern uri = if is_prefix pattern uri then 0 else 1

abbrev routes : ServletDispatch
routes = record {
  datas = (codes "/b", some (function 1)) ∷ [];
  globs = (codes "/b", some (function 2)) ∷ (codes "/", some (function 3)) ∷ [];
  default_servlet = some not_found;
}

routes-IsValid : IsValid routes
routes-IsValid = record { datas_ok = (tt, tt); globs_ok = ((refl, tt), (tt, tt)) }

longer : codes "/" ≢ codes "/c"
longer e = let k : length (codes "/") ≡ length (codes "/c") = ap length e in cc k

longer' : codes "/" ≢ codes "/b"
longer' e = let k : length (codes "/") ≡ length (codes "/b") = ap length e in cc k

abbrev seven : Ptr
seven = some (function 7)

get_matched_servlet-add_glob_servlet_example :
    IsValid (add_glob_servlet routes (codes "/") seven)
    × IsValid (del_glob_servlet routes (codes "/"))
    × (get_global_servlet (add_glob_servlet routes (codes "/") seven) (codes "/") ≡ seven)
    × (get_global_servlet (del_glob_servlet routes (codes "/")) (codes "/") ≡ none)
    × (get_global_servlet (add_glob_servlet routes (codes "/") seven) (codes "/b")
        ≡ get_global_servlet routes (codes "/b"))
    × (get_global_servlet (del_glob_servlet routes (codes "/")) (codes "/b")
        ≡ get_global_servlet routes (codes "/b"))
    × ((find text_less (codes "/bc") routes.datas ≡ none)
          × (get_matched_servlet begins (del_glob_servlet routes (codes "/")) (codes "/bc")
              ≡ or_else
                  (first_glob (matches begins (codes "/bc")) (erase_first routes.globs (codes "/")))
                  routes.default_servlet)
          × (get_matched_servlet begins (add_glob_servlet routes (codes "/") seven) (codes "/bc")
              ≡ or_else
                  (first_glob (matches begins (codes "/bc")) (erase_first routes.globs (codes "/")))
                  (if matches begins (codes "/bc") (codes "/")
                    then seven
                    else routes.default_servlet))
        ⊎ (s : Ptr) × (find text_less (codes "/bc") routes.datas ≡ some s)
          × (get_matched_servlet begins (del_glob_servlet routes (codes "/")) (codes "/bc") ≡ s)
          × (get_matched_servlet begins (add_glob_servlet routes (codes "/") seven) (codes "/bc")
              ≡ s))
get_matched_servlet-add_glob_servlet_example =
    get_matched_servlet-add_glob_servlet begins routes (codes "/") (codes "/b") (codes "/bc") seven
      routes-IsValid longer'

abbrev ignored : ℕ → HttpRequest → HttpResponse → ℕ × HttpResponse
ignored f q r = (0, r)

abbrev request : HttpRequest
request = make_request 17 false

abbrev response : HttpResponse
response = make_response 17 false
