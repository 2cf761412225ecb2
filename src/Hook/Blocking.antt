-- ===== src/Hook/Blocking.antt =====
-- To its caller a hooked call is the blocking one.
use link_server.Base.{
  ◌≡◌, refl, List, [], ◌∷◌, some, Bool, true, false, ◌==◌, if◌then◌else◌, Result, ok, err, no_fuel,
  Bool-cases, inl, inr,
}
use link_server.Hook.{
  Answer, returned, failed, eintr, eagain, etimedout, Wake, timed_out, ready, retry, Ctx, do_io,
}

-- What a blocking call answers: the first answer but an interrupt and the one that it would block.
abbrev pub blocking : List Answer → Result Answer
blocking [] = err no_fuel
blocking (returned n ∷ answers) = ok (returned n)
blocking (failed e ∷ answers) =
    let later = blocking answers in
    if e == eintr then later else if e == eagain then later else ok (failed e)

-- The fiber is woken by the event each time, at least as often as there are answers.
abbrev pub AllReady : List Answer → List Wake → Type 0
AllReady [] wakes = Unit {0}
AllReady (a ∷ answers) [] = ⊥
AllReady (a ∷ answers) (w ∷ wakes) = (w ≡ ready) × AllReady answers wakes

AllReady-more :
    (answers : List Answer) (a : Answer) (wakes : List Wake)
    → AllReady (a ∷ answers) wakes
    → AllReady answers wakes
AllReady-more [] a wakes h = tt
AllReady-more (b ∷ answers) a [] h = absurd h
AllReady-more (b ∷ answers) a (w ∷ []) (r, h) = absurd h
AllReady-more (b ∷ answers) a (w ∷ v ∷ wakes) (r, h) = (r, AllReady-more answers b (v ∷ wakes) h)

retry-blocking :
    (timeout : Bool) (answers : List Answer) (wakes : List Wake)
    → AllReady answers wakes
    → retry timeout answers wakes ≡ blocking answers
unfolding retry
retry-blocking timeout [] wakes h = refl
retry-blocking timeout (returned n ∷ answers) wakes h = refl
retry-blocking timeout (failed e ∷ answers) [] h = absurd h
retry-blocking timeout (failed e ∷ answers) (w ∷ wakes) (r, h) =
    let again =
      retry-blocking timeout answers (w ∷ wakes)
        (AllReady-more answers (failed e) (w ∷ wakes) (r, h)) in
    let later = retry-blocking timeout answers wakes h in
    elim (Bool-cases (e == eintr)) [
      | inl i ↦ rw (i, again) refl
      | inr i ↦ elim (Bool-cases (e == eagain)) [
        | inl a ↦ rw (i, a, r, later) refl
        | inr a ↦ rw (i, a) refl
      ]
    ]

-- A call on an open socket that the user did not set non-blocking, with hooks on, answers what the
-- blocking call answers, where it is woken by the event each time: it never tells of an interrupt or
-- that it would block.
pub do_io-blocking :
    (c : Ctx) (answers : List Answer) (wakes : List Wake)
    → c.is_closed ≡ false
    → c.is_socket ≡ true
    → c.user_nonblock ≡ false
    → AllReady answers wakes
    → do_io true (some c) answers wakes ≡ blocking answers
unfolding do_io
do_io-blocking c answers wakes o s n h =
    rw (o, s, n, retry-blocking c.has_timeout answers wakes h) refl

-- A call whose first answer is that it would block, and whose fiber the timer wakes, fails with a
-- timeout where one is set.
pub do_io-timeout :
    (c : Ctx) (answers : List Answer) (wakes : List Wake)
    → c.is_closed ≡ false
    → c.is_socket ≡ true
    → c.user_nonblock ≡ false
    → c.has_timeout ≡ true
    → do_io true (some c) (failed eagain ∷ answers) (timed_out ∷ wakes) ≡ ok (failed etimedout)
unfolding do_io retry
do_io-timeout c answers wakes o s n t = rw (o, s, n, t) refl
