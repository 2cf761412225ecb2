-- ===== src/HttpServer.antt =====
-- linko/http/http_server.cc: the loop of handleClient over the requests of one connection. The
-- parser and the answers of the reads are those of HttpSession, the servlets those of Servlet; the
-- responses are listed in the order they are sent. Fuel counts the rounds; each takes an answer at
-- least, so that one more than the answers is enough.
mod Progress
mod Loop
mod Runs
use link_server.Base.{
  ℕ, zero, suc, List, [], ◌∷◌, Bool, true, false, not, ◌||◌, if◌then◌else◌, Result, ok, err,
  no_fuel, ◌>>=◌,
}
use link_server.Http.{HttpRequest, HttpResponse, make_response}
use link_server.HttpSession.{Parser, Answers, Received, closed, received, recv_request}
use link_server.Servlet.{ServletDispatch, handle}

-- A request with its response.
pub record Exchange : Type 0 where
  pub request : HttpRequest
  pub response : HttpResponse

module _ {P : Type 0} (parser : Parser P HttpRequest) (buff_size : ℕ)
    (fnmatch : List ℕ → List ℕ → ℕ) (call : ℕ → HttpRequest → HttpResponse → ℕ × HttpResponse)
    (d : ServletDispatch) (is_keepalive : Bool) where
  unfoldable pub answer : HttpRequest → Exchange
  answer q = record {
    request = q;
    response = (handle fnmatch call d q (make_response q.version (q.close || not is_keepalive))).1;
  }

  abbrev pub cons_ok : Exchange → Result (List Exchange) → Result (List Exchange)
  cons_ok x r = do xs ← r; ok (x ∷ xs)

  abbrev pub handled :
      Received HttpRequest → (Answers → Result (List Exchange)) → Result (List Exchange)
  handled closed later = ok []
  handled (received q answers) later =
      if not is_keepalive || q.close then ok (answer q ∷ []) else cons_ok (answer q) (later answers)

  unfoldable pub handle_client : ℕ → Answers → Result (List Exchange)
  handle_client zero answers = err no_fuel
  handle_client (suc fuel) answers = do
    r ← recv_request parser buff_size answers
    handled r (handle_client fuel)
