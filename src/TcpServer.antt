-- ===== src/TcpServer.antt =====
-- linko/tcp_server.h and linko/tcp_server.cc: the sockets a server listens on, with the hooks on. A
-- socket that no pointer names any more is closed by its destructor, where `fails` says whether
-- epoll_ctl does. What is handed to a scheduler is a list of the sockets to accept on, or of the
-- clients to handle.
mod Binding
mod Accepting
mod Runs
use link_server.Base.{
  ℕ, List, [], ◌∷◌, ◌++◌, Option, none, some, Bool, true, false, not, if◌then◌else◌, Result, ok,
  err, no_fuel, ◌>>=◌, ℤ, pos, negsuc,
}
use link_server.Hook.{Answer, Wake}
use link_server.Hook.Descriptors.{World}
use link_server.IoManager.{cancel_all}
use link_server.Socket.{
  SockAddr, Socket, Net, make_socket, bind, listen, close, accept, set_recv_timeout,
}
use link_server.Socket
use link_server.Hook.Descriptors

pub record TcpServer : Type 0 where
  pub socks : List Socket
  pub is_stop : Bool
  pub recv_timeout : ℕ

abbrev pub make_tcp_server : TcpServer
make_tcp_server = record { socks = []; is_stop = true; recv_timeout = 0 }

-- `Socket::CreateTCP`.
abbrev pub create_tcp : SockAddr → Socket
create_tcp addr = make_socket addr.family 1 0

module _ {K : Type 0} (net : Net K) (backlog : ℕ) (fails : Bool) where
  -- The destructors of the sockets.
  unfoldable pub close_all : World K → List Socket → Result (World K)
  close_all w [] = ok w
  close_all w (s ∷ socks) = do (done, w', s') ← close net true w s fails; close_all w' socks

  -- After `bind`: `listen`, and where one fails the socket is dropped.
  abbrev pub listen_on : Bool × World K × Socket → Result (Option Socket × World K)
  listen_on (bound, w, s) =
      if bound
      then (let (done, w') = listen net true w s backlog in
          if done then ok (some s, w') else (do w'' ← close_all w' (s ∷ []); ok (none, w'')))
      else (do w'' ← close_all w (s ∷ []); ok (none, w''))

  unfoldable pub open_one : World K → SockAddr → Result (Option Socket × World K)
  open_one w addr = do r ← bind net true w (create_tcp addr) addr; listen_on r

  abbrev pub kept : List Socket → Option Socket → List Socket
  kept socks none = socks
  kept socks (some s) = socks ++ (s ∷ [])

  abbrev pub failing : List SockAddr → SockAddr → Option Socket → List SockAddr
  failing failed addr none = failed ++ (addr ∷ [])
  failing failed addr (some s) = failed

  unfoldable pub open_all :
      World K
      → List SockAddr
      → List Socket
      → List SockAddr
      → Result (World K × List Socket × List SockAddr)
  open_all w [] socks failed = ok (w, socks, failed)
  open_all w (addr ∷ addrs) socks failed = do
    (r, w') ← open_one w addr
    open_all w' addrs (kept socks r) (failing failed addr r)

  -- One address that fails clears all the sockets.
  abbrev pub bound :
      TcpServer
      → World K × List Socket × List SockAddr
      → Result (Bool × World K × TcpServer × List SockAddr)
  bound t (w, socks, []) = ok (true, w, record t { socks = socks }, [])
  bound t (w, socks, a ∷ failed) = do
    w' ← close_all w socks
    ok (false, w', record t { socks = [] }, a ∷ failed)

  unfoldable pub bind_all :
      World K
      → TcpServer
      → List SockAddr
      → List SockAddr
      → Result (Bool × World K × TcpServer × List SockAddr)
  bind_all w t addrs failed = do r ← open_all w addrs t.socks failed; bound t r

  -- Handed to the accepting scheduler.
  unfoldable pub start : TcpServer → TcpServer × List Socket
  start t = if t.is_stop then (record t { is_stop = false }, t.socks) else (t, [])

  -- The task of `stop`: it cancels the events of each socket and closes it. Its thread is one of the
  -- accepting scheduler, which has a manager.
  unfoldable pub stop_task : World K → List Socket → Result (World K)
  stop_task w [] = ok w
  stop_task w (s ∷ socks) = do
    io ← Descriptors.cancelled net.os w.io s.sock fails
    (done, w', s') ← close net true (record w { io = io }) s fails
    stop_task w' socks

  abbrev pub with_client : TcpServer → Option Socket × World K → Option Socket × World K
  with_client t (none, w) = (none, w)
  with_client t (some s, w) = (some s, (set_recv_timeout net true w s (pos t.recv_timeout)).1)

  -- A round of `startAccept`: the client to handle, if there is one.
  unfoldable pub accept_one :
      TcpServer → World K → Socket → List Answer → List Wake → Result (Option Socket × World K)
  accept_one t w s answers wakes = do r ← accept net true w s answers wakes; ok (with_client t r)

-- `stop` sets the flag, and its task clears the sockets.
abbrev pub stop : TcpServer → TcpServer
stop t = record t { is_stop = true }

abbrev pub run_stop :
    {K : Type 0} → Net K → ℕ → Bool → World K → TcpServer → Result (World K × TcpServer)
run_stop net backlog fails w t = do
  w' ← stop_task net backlog fails w t.socks
  ok (w', record t { socks = [] })
