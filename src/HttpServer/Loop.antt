-- ===== src/HttpServer/Loop.antt =====
-- linko/http/http_server.cc: the loop of handleClient against its rounds without fuel.
use link_server.Base.{
  ℕ, zero, suc, ◌<◌, ◌≡◌, ◌↔◌, refl, ◌⊎◌, inl, inr, List, [], ◌∷◌, Bool, true, false, not, ◌||◌,
  length, Result, ok, err, Error, ◌>>=◌, arith, Bool-cases, subst, ok-inj,
}
use link_server.Http.{HttpRequest, HttpResponse, make_response}
use link_server.HttpSession.{Parser, Answers, Received, closed, received, recv_request}
use link_server.HttpServer.{Exchange, answer, cons_ok, handled, handle_client}
use link_server.Servlet.{ServletDispatch, handle}
use link_server.HttpServer.Progress.{Fewer, recv_request-Fewer}

module _ {P : Type 0} (parser : Parser P HttpRequest) (buff_size : ℕ)
    (fnmatch : List ℕ → List ℕ → ℕ) (call : ℕ → HttpRequest → HttpResponse → ℕ × HttpResponse)
    (d : ServletDispatch) (is_keepalive : Bool) where
  -- Each response is the dispatcher's, to one that says whether the connection is closed; after each
  -- request but the last the connection is kept.
  abbrev pub Served : List Exchange → Type 0
  Served [] = Unit {0}
  Served (x ∷ xs) =
      (x.response
        ≡ (handle fnmatch call d x.request
            (make_response x.request.version (x.request.close || not is_keepalive))).1)
      × ((xs ≡ []) ⊎ (is_keepalive ≡ true) × (x.request.close ≡ false))
      × Served xs

  abbrev Request : Answers → Result (Received HttpRequest)
  Request answers = recv_request parser buff_size answers

  -- What handleClient does, without fuel: each round receives a request from the answers that the
  -- rounds before have left; the connection ends, or it is the last request, or receiving fails, or
  -- the server and the request keep the connection and the rounds go on.
  pub data Rounds : Answers → Result (List Exchange) → Type 0 where
    ends : {answers : Answers} → Request answers ≡ ok closed → Rounds answers (ok [])
    fails : {answers : Answers} {e : Error} → Request answers ≡ err e → Rounds answers (err e)
    last :
        {answers rest : Answers} {q : HttpRequest}
        → Request answers ≡ ok (received q rest)
        → (is_keepalive ≡ false) ⊎ (q.close ≡ true)
        → Rounds answers (ok (answer parser buff_size fnmatch call d is_keepalive q ∷ []))
    goes :
        {answers rest : Answers} {q : HttpRequest} {r : Result (List Exchange)}
        → Request answers ≡ ok (received q rest)
        → is_keepalive ≡ true
        → q.close ≡ false
        → Rounds rest r
        → Rounds answers (
            cons_ok parser buff_size fnmatch call d is_keepalive
              (answer parser buff_size fnmatch call d is_keepalive q)
              r)

  keeps : (a b : Bool) → (not a || b) ≡ false → (a ≡ true) × (b ≡ false)
  keeps true b h = (refl, h)
  keeps false b h = ground (arith, h)

  leaves : (a b : Bool) → (not a || b) ≡ true → (a ≡ false) ⊎ (b ≡ true)
  leaves true b h = inr h
  leaves false b h = inl refl

  left_by : (a b : Bool) → (a ≡ false) ⊎ (b ≡ true) → (not a || b) ≡ true
  left_by true b (inl h) = ground (arith, h)
  left_by true b (inr h) = h
  left_by false b h = refl

  round :
      (r : Result (Received HttpRequest)) (answers : Answers) (f : Answers → Result (List Exchange))
      → Request answers ≡ r
      → Fewer (length answers) r
      → ((rest : Answers) → length rest < length answers → Rounds rest (f rest))
      → Rounds answers (r >>= λ x. handled parser buff_size fnmatch call d is_keepalive x f)
  round (err e) answers f run fewer later = fails run
  round (ok closed) answers f run fewer later = ends run
  round (ok (received q rest)) answers f run fewer later =
      elim (Bool-cases (not is_keepalive || q.close)) [
        | inl over ↦ rw over (last run (leaves is_keepalive q.close over))
        | inr on ↦
            let (on', keep) = keeps is_keepalive q.close on in
            rw on (goes run on' keep (later rest fewer))
      ]

  Served-cons :
      (q : HttpRequest) (r : Result (List Exchange)) (xs : List Exchange)
      → is_keepalive ≡ true
      → q.close ≡ false
      → ((ys : List Exchange) → r ≡ ok ys → Served ys)
      → cons_ok parser buff_size fnmatch call d is_keepalive
          (answer parser buff_size fnmatch call d is_keepalive q)
          r
        ≡ ok xs
      → Served xs
  unfolding answer
  Served-cons q (err e) xs on keep later h = cc h
  Served-cons q (ok ys) xs on keep later h =
      subst Served (ok-inj h) (refl, inr (on, keep), later ys refl)

  Rounds-Served :
      {answers : Answers} {r : Result (List Exchange)} (xs : List Exchange)
      → Rounds answers r
      → r ≡ ok xs
      → Served xs
  unfolding answer
  Rounds-Served xs (ends run) h = subst Served (ok-inj h) tt
  Rounds-Served xs (fails run) h = cc h
  Rounds-Served xs (last run over) h = subst Served (ok-inj h) (refl, inl refl, tt)
  Rounds-Served xs (goes {q = q} {r = r} run on keep later) h =
      Served-cons q r xs on keep (λ ys e. Rounds-Served ys later e) h

  handle_client-Rounds :
      (fuel : ℕ) (answers : Answers)
      → length answers < fuel
      → Rounds answers (handle_client parser buff_size fnmatch call d is_keepalive fuel answers)
  unfolding handle_client
  handle_client-Rounds zero answers h = absurd (omega arith)
  handle_client-Rounds (suc fuel) answers h =
      round (Request answers) answers _ refl (recv_request-Fewer parser buff_size answers)
        (λ rest lt. handle_client-Rounds fuel rest (omega (arith, lt, h)))

  abbrev pub ServedIn : Result (List Exchange) → Type 0
  ServedIn (ok xs) = Served xs
  ServedIn (err e) = Unit {0}

  ServedIn-all :
      (r : Result (List Exchange)) → ((xs : List Exchange) → r ≡ ok xs → Served xs) → ServedIn r
  ServedIn-all (ok xs) f = f xs refl
  ServedIn-all (err e) f = tt

  Rounds-handle_client :
      (fuel : ℕ) {answers : Answers} {r : Result (List Exchange)}
      → Rounds answers r
      → length answers < fuel
      → handle_client parser buff_size fnmatch call d is_keepalive fuel answers ≡ r
  unfolding handle_client
  Rounds-handle_client zero run h = absurd (omega arith)
  Rounds-handle_client (suc fuel) (ends run) h = rw run refl
  Rounds-handle_client (suc fuel) (fails run) h = rw run refl
  Rounds-handle_client (suc fuel) (last {q = q} run over) h =
      let e = left_by is_keepalive q.close over in rw (run, e) refl
  Rounds-handle_client (suc fuel) (goes {answers = answers} {rest = rest} {q = q} run on keep later)
        h =
      let lt : length rest < length answers =
        subst (Fewer (length answers)) run (recv_request-Fewer parser buff_size answers) in
      let ih = Rounds-handle_client fuel later (omega (arith, lt, h)) in rw (run, on, keep, ih) refl

  -- With more fuel than there are answers of reads, handleClient gives a result just where its rounds
  -- without fuel do; and where it has served requests, each has the response of the dispatcher, told
  -- whether the connection is to be closed, and after each but the last the server and the request
  -- keep the connection.
  pub handle_client_lem :
      (fuel : ℕ) (answers : Answers) (r : Result (List Exchange))
      → length answers < fuel
      → ((handle_client parser buff_size fnmatch call d is_keepalive fuel answers ≡ r)
          ↔ Rounds answers r)
        × ServedIn (handle_client parser buff_size fnmatch call d is_keepalive fuel answers)
  handle_client_lem fuel answers r h = (
    (
      λ e. subst (Rounds answers) e (handle_client-Rounds fuel answers h),
      λ run. Rounds-handle_client fuel run h,
    ),
    ServedIn-all _ (λ xs e. Rounds-Served xs (handle_client-Rounds fuel answers h) e),
  )
