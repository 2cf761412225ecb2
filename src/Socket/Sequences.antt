-- ===== src/Socket/Sequences.antt =====
-- linko/socket.cc: any sequence of the operations of a socket, and what accept makes.
use link_server.Base.{
  ℕ, ◌≡◌, ◌≢◌, refl, inl, inr, List, [], ◌∷◌, Bool, true, Result, ok, ◌>>=◌, ℤ, Bool-cases,
}
use link_server.Hook.{failed}
use link_server.Hook.Calls.{einprogress}
use link_server.Hook.Descriptors.{World}
use link_server.Socket.{
  SockAddr, Socket, Net, Connection, is_valid, bind, listen, connect, close, set_send_timeout,
  set_recv_timeout,
}
use link_server.Socket.Contexts.{IsValid, keeps-IsValid, set_option-WorldKeeps}
use link_server.Socket.State.{bind-IsValid, connect-IsValid, close-IsValid, kernel-IsValid}

-- A call of one operation, and what the system answers to it.
pub data Action : Type 0 where
  binds : SockAddr → Action
  listens : ℕ → Action
  connects : SockAddr → ℕ → ℕ → Connection → Bool → Action
  closes : Bool → Action
  sets_send_timeout sets_recv_timeout : ℤ → Action

-- The system answers a connect at once.
abbrev pub IsAtOnce : Action → Type 0
IsAtOnce (connects addr timeout_ms configured c fails) = c.answer ≢ failed einprogress
IsAtOnce _ = Unit {0}

abbrev pub AllAtOnce : List Action → Type 0
AllAtOnce [] = Unit {0}
AllAtOnce (a ∷ actions) = IsAtOnce a × AllAtOnce actions

module _ {K : Type 0} (net : Net K) where
  abbrev pub last : Bool × World K × Socket → World K × Socket
  last (done, w, s) = (w, s)

  abbrev pub step : World K × Socket → Action → Result (World K × Socket)
  step (w, s) (binds addr) = do r ← bind net true w s addr; ok (last r)
  step (w, s) (listens backlog) = ok ((listen net true w s backlog).1, s)
  step (w, s) (connects addr timeout_ms configured c fails) = do
    r ← connect net true w s addr timeout_ms configured c fails
    ok (last r)
  step (w, s) (closes fails) = do r ← close net true w s fails; ok (last r)
  step (w, s) (sets_send_timeout v) = ok ((set_send_timeout net true w s v).1, s)
  step (w, s) (sets_recv_timeout v) = ok ((set_recv_timeout net true w s v).1, s)

  unfoldable pub steps : World K × Socket → List Action → Result (World K × Socket)
  steps r [] = ok r
  steps r (a ∷ actions) = do r' ← step r a; steps r' actions

  step_lem :
      (w : World K) (s : Socket) (a : Action)
      → IsAtOnce a
      → IsValid w s
      → (w' : World K) × (s' : Socket) × (step (w, s) a ≡ ok (w', s')) × IsValid w' s'
  unfolding set_send_timeout set_recv_timeout listen
  step_lem w s (binds addr) h v =
      let (done, w', s', run, v', there) = bind-IsValid net w s addr v in (w', s', rw run refl, v')
  step_lem w s (listens backlog) h v = elim (Bool-cases (is_valid s)) [
    | inl y ↦ (_, s, rw y refl, kernel-IsValid w s (net.listen w.kernel s.sock backlog).1 v)
    | inr n ↦ (w, s, rw n refl, v)
  ]
  step_lem w s (connects addr timeout_ms configured c fails) h v =
      let (done, w', s', run, v') =
        connect-IsValid net w s addr timeout_ms configured c fails h v in
      (w', s', rw run refl, v')
  step_lem w s (closes fails) h v =
      let (done, w', s', run, v', none_there, off) = close-IsValid net w s fails v in
      (w', s', rw run refl, v')
  step_lem w s (sets_send_timeout t) h v =
      (_, s, refl, keeps-IsValid w _ s (set_option-WorldKeeps net w s _) v)
  step_lem w s (sets_recv_timeout t) h v =
      (_, s, refl, keeps-IsValid w _ s (set_option-WorldKeeps net w s _) v)

  -- With the hooks on, from a socket and a world that are valid, as a new socket is in a table of
  -- 64 elements or more with a valid manager or none: whatever else the system answers, no sequence
  -- of operations in which the system answers every connect otherwise than with EINPROGRESS, so that none
  -- waits, fails an assertion or goes out of bounds, and it ends with both valid, so that a connected
  -- socket has a descriptor, and a socket's descriptor a context.
  pub steps-IsValid :
      (actions : List Action) (w : World K) (s : Socket)
      → AllAtOnce actions
      → IsValid w s
      → (w' : World K) × (s' : Socket) × (steps (w, s) actions ≡ ok (w', s')) × IsValid w' s'
  unfolding steps
  steps-IsValid [] w s h v = (w, s, refl, v)
  steps-IsValid (a ∷ actions) w s (h, hs) v =
      let (w1, s1, run, v1) = step_lem w s a h v in
      let (w', s', run', v') = steps-IsValid actions w1 s1 hs v1 in (w', s', rw run run', v')
