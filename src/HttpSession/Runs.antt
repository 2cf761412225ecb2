-- ===== src/HttpSession/Runs.antt =====
-- Runs of receiving a message (linko/http/http_session.cc) on concrete bytes.
use link_server.Base.{
  ◌≡◌, refl, [], ◌∷◌, some, Bool, true, false, ok, err, no_fuel, arith, drop, inl,
}
use link_server.Http.{HttpRequest, make_request, get_header, less}
use link_server.HttpSession.{Parser, Answers, received, recv_head, recv_body, recv_request}
use link_server.HttpSession.Body.{then_only, recv_request-hangs}

-- A parser that takes the first byte as the whole head, which announces two bytes.
abbrev toy : Parser Bool HttpRequest
toy = record {
  initial = false;
  execute = λ p bytes. (1, true);
  has_error = λ p. false;
  is_finished = λ p. p;
  get_content_length = λ p. 2;
  get_data = λ p. make_request 17 true;
}

-- A body that comes with the head has two zeros in front.
two_zeros :
    recv_request toy 8 (some (65 ∷ 1 ∷ 2 ∷ []) ∷ [])
    ≡ ok (received (record (make_request 17 true) { body = 0 ∷ 0 ∷ 1 ∷ 2 ∷ [] }) [])
unfolding recv_request recv_head recv_body get_header less
two_zeros = refl

-- Four bytes are announced; one comes with the head and one later.
abbrev four : Parser Bool HttpRequest
four = record toy { get_content_length = λ p. 4 }

abbrev breaks_off : Answers
breaks_off = some (65 ∷ 1 ∷ []) ∷ then_only ((2 ∷ []) ∷ []) (some []) 3

has_head : recv_head four 8 breaks_off false [] ≡ ok (received (true, 1 ∷ []) (drop 1 breaks_off))
unfolding recv_head
has_head = refl

recv_request-hangs_example : recv_request four 8 breaks_off ≡ err no_fuel
recv_request-hangs_example =
    recv_request-hangs four 8 3 breaks_off true (1 ∷ []) ((2 ∷ []) ∷ []) (some []) has_head refl
      (inl refl) (omega arith) (omega arith)
