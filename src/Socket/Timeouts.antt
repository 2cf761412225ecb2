-- ===== src/Socket/Timeouts.antt =====
-- linko/socket.cc: the timeouts of a socket, set and read back.
use link_server.Base.{ℕ, ◌*◌, ◌/◌, ◌%◌, ◌^◌, ◌<◌, ◌≡◌, refl, some, true, false, pos, arith}
use link_server.FdManager.{FdCtx, lookup, set_timeout}
use link_server.Hook.Flags.{lookup-set}
use link_server.Hook.Descriptors.{World, setsockopt, to_milliseconds}
use link_server.Socket.{
  Socket, Net, set_send_timeout, set_recv_timeout, get_send_timeout, get_recv_timeout, seconds,
  microseconds, to_i64,
}

-- The timeval of a number of milliseconds keeps it.
milliseconds_lem :
    (v : ℕ) → v < 2 ^ 31 * 1000 → to_milliseconds (seconds (pos v)) (microseconds (pos v)) ≡ v
milliseconds_lem v h =
    let sec : seconds (pos v) ≡ pos (v / 1000) = ground (arith, h) in
    let usec : microseconds (pos v) ≡ pos (v % 1000 * 1000) = ground (arith, h) in
    rw (sec, usec) (omega (arith, h))

module _ {K : Type 0} (net : Net K) (w : World K) (s : Socket) (fd : ℕ) (c : FdCtx)
    (sock : s.sock ≡ pos fd) (here : lookup w.fds fd ≡ some c) where
  -- With the hooks on, of a socket whose descriptor has a context: setSendTimeout of less than
  -- 2^31 seconds is what getSendTimeout then answers, and leaves the timeout to receive; and so does
  -- setRecvTimeout: what getSendTimeout then answers is its argument, and getRecvTimeout answers what
  -- it did before.
  pub set_timeout_lem :
      (v : ℕ)
      → v < 2 ^ 31 * 1000
      → let m = (set_send_timeout net true w s (pos v)).1.fds in
        let m' = (set_recv_timeout net true w s (pos v)).1.fds in
        (get_send_timeout m s ≡ pos v)
        × (get_recv_timeout m s ≡ get_recv_timeout w.fds s)
        × (get_send_timeout m' s ≡ pos v)
        × (get_recv_timeout m' s ≡ get_recv_timeout w.fds s)
  unfolding set_send_timeout set_recv_timeout setsockopt get_send_timeout get_recv_timeout
  set_timeout_lem v h =
      let there = lookup-set w.fds fd c (set_timeout c false v) here in
      let small : to_i64 v ≡ pos v = ground (arith, h) in
      rw (sock, here, milliseconds_lem v h, there, small) (refl, refl, refl, refl)
