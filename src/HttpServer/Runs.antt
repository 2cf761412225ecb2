-- ===== src/HttpServer/Runs.antt =====
-- The loop of handleClient on concrete inputs.
use link_server.Base.{ℕ, ◌≡◌, ◌↔◌, [], ◌∷◌, List, some, true, false, arith, Result}
use link_server.Http.{HttpRequest, HttpResponse, make_request}
use link_server.HttpSession.{Parser, Answers}
use link_server.Servlet.{new_dispatch}
use link_server.HttpServer.{Exchange, handle_client}
use link_server.HttpServer.Loop.{Rounds, ServedIn, handle_client_lem}

-- A parser that takes the first byte as the whole of a request without a body.
abbrev byte_parser : Parser ℕ HttpRequest
byte_parser = record {
  initial = 0;
  execute = λ p bytes. (1, 1);
  has_error = λ p. false;
  is_finished = λ p. true;
  get_content_length = λ p. 0;
  get_data = λ p. make_request 17 false;
}

abbrev two_reads : Answers
two_reads = some (65 ∷ []) ∷ some (66 ∷ []) ∷ some [] ∷ []

abbrev no_match : List ℕ → List ℕ → ℕ
no_match a b = 1

abbrev no_call : ℕ → HttpRequest → HttpResponse → ℕ × HttpResponse
no_call f q r = (0, r)

abbrev served : Result (List Exchange)
served = handle_client byte_parser 8 no_match no_call new_dispatch true 4 two_reads

handle_client_lem_example :
    ((served ≡ served) ↔ Rounds byte_parser 8 no_match no_call new_dispatch true two_reads served)
    × ServedIn byte_parser 8 no_match no_call new_dispatch true served
handle_client_lem_example =
    handle_client_lem byte_parser 8 no_match no_call new_dispatch true 4 two_reads served
      (omega arith)
