-- ===== src/TcpServer/Accepting.antt =====
-- linko/tcp_server.cc: the timeouts of a client that the server accepts.
use link_server.Base.{
  ℕ, ◌*◌, ◌^◌, ◌<◌, ◌≡◌, refl, ◌∙◌, List, none, some, Bool, true, ok, pos, negsuc,
}
use link_server.FdManager.{lookup, make_ctx, init, no_timeout}
use link_server.FdManager.Access
use link_server.Hook.{Answer, returned, Wake}
use link_server.Hook.Descriptors.{World, hooked, kernel_of}
use link_server.Socket.{Socket, Net, set_recv_timeout, get_send_timeout, get_recv_timeout}
use link_server.Socket.Accept.{accept_lem}
use link_server.Socket.Timeouts.{set_timeout_lem}
use link_server.TcpServer.{TcpServer, accept_one}

module _ {K : Type 0} (net : Net K) (backlog : ℕ) (fails : Bool) where
  new_ctx-recv_timeout :
      (n : ℕ) (k : K)
      → net.os.fstat k n ≡ some true
      → (make_ctx (kernel_of net.os) n k).0.recv_timeout ≡ no_timeout
  unfolding make_ctx init
  new_ctx-recv_timeout n k e = rw e refl

  -- With the hooks on and a table of 64 elements or more, of a server whose timeout is less than
  -- 2^31 seconds: where the hooked accept of the system answers a descriptor that is a socket's and
  -- that has no context yet, startAccept has a connected client for it, whose timeout to send is
  -- the server's timeout to receive, and which has no timeout to receive.
  pub accept_one_lem :
      (t : TcpServer) (w : World K) (s : Socket) (answers : List Answer) (wakes : List Wake) (n : ℕ)
      → Access.IsValid w.fds
      → t.recv_timeout < 2 ^ 31 * 1000
      → hooked true w.fds s.sock true answers wakes ≡ ok (returned n)
      → lookup w.fds n ≡ none
      → net.os.fstat w.kernel n ≡ some true
      → (s' : Socket) × (w' : World K) × (accept_one net backlog fails t w s answers wakes
          ≡ ok (some s', w'))
        × (s'.sock ≡ pos n)
        × (s'.is_connected ≡ true)
        × (get_send_timeout w'.fds s' ≡ pos t.recv_timeout)
        × (get_recv_timeout w'.fds s' ≡ negsuc 0)
  unfolding accept_one get_recv_timeout
  accept_one_lem t w s answers wakes n v small a free socket =
      let (s', w1, run, sock, on, family, kind, here) =
        accept_lem net w s answers wakes n v a free socket in
      let (sent, kept, sent', kept') =
        set_timeout_lem net w1 s' n _ sock here t.recv_timeout small in
      (
        s',
        (set_recv_timeout net true w1 s' (pos t.recv_timeout)).1,
        rw run refl,
        sock,
        on,
        sent',
        kept' ∙ rw (sock, here, new_ctx-recv_timeout n w.kernel socket) refl,
      )
