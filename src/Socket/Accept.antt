-- ===== src/Socket/Accept.antt =====
-- linko/socket.cc: a client that accept answers becomes a connected socket.
use link_server.Base.{
  ℕ, ◌≡◌, refl, sym, ap, ◌∙◌, inl, inr, List, Option, none, some, true, false, ◌==◌, ok, ℤ, pos,
  arith, Bool-cases,
}
use link_server.FdManager.{FdCtx, lookup, make_ctx, init}
use link_server.FdManager.Access
use link_server.Hook.{Answer, returned, Wake}
use link_server.Hook.Descriptors.{
  Os, World, SocketOption, other, find, timed, hooked, kernel_of, tracked, setsockopt,
}
use link_server.Hook.Descriptors
use link_server.Socket.{
  Socket, Net, make_socket, set_option, init_sock, init_with, accept, accepted, get_local_address,
  get_remote_address,
}
use link_server.Socket

other-timed :
    {K : Type 0} (os : Os K) (w : World K) (c : Option FdCtx) (fd : ℤ) (level name v : ℕ)
    → timed os w fd c (other level name v) ≡ w.fds
other-timed os w none fd level name v = refl
other-timed os w (some c) fd level name v = refl

module _ {K : Type 0} (net : Net K) where
  init_sock-fds : (w : World K) (s : Socket) → (init_sock net true w s).fds ≡ w.fds
  unfolding init_sock setsockopt
  init_sock-fds w s =
      let w1 = (set_option net true w s (other 1 2 1)).1 in
      let e = other-timed net.os w (find w.fds s.sock) s.sock 1 2 1 in
      elim (Bool-cases (s.type == 1)) [
        | inl y ↦ rw y (other-timed net.os w1 (find w1.fds s.sock) s.sock 6 1 1 ∙ e)
        | inr n ↦ rw n e
      ]

  new_ctx_lem :
      (n : ℕ) (k : K)
      → net.os.fstat k n ≡ some true
      → ((make_ctx (kernel_of net.os) n k).0.is_socket ≡ true)
        × ((make_ctx (kernel_of net.os) n k).0.is_closed ≡ false)
  unfolding make_ctx init
  new_ctx_lem n k e = (rw e refl, refl)

  -- With the hooks on and a table of 64 elements or more: where the hooked accept of the system
  -- answers a descriptor that is a socket's and that has no context yet, `Socket::accept` answers a
  -- connected socket for that descriptor, of the family and type of the listening one, and leaves
  -- the descriptor the context of a new socket.
  pub accept_lem :
      (w : World K) (s : Socket) (answers : List Answer) (wakes : List Wake) (n : ℕ)
      → Access.IsValid w.fds
      → hooked true w.fds s.sock true answers wakes ≡ ok (returned n)
      → lookup w.fds n ≡ none
      → net.os.fstat w.kernel n ≡ some true
      → (s' : Socket) × (w' : World K) × (accept net true w s answers wakes ≡ ok (some s', w'))
        × (s'.sock ≡ pos n)
        × (s'.is_connected ≡ true)
        × (s'.family ≡ s.family)
        × (s'.type ≡ s.type)
        × (lookup w'.fds n ≡ some (make_ctx (kernel_of net.os) n w.kernel).0)
  unfolding accept Descriptors.accept Socket.init get_local_address get_remote_address make_socket
  accept_lem w s answers wakes n v a free socket =
      let (is_socket, is_open) = new_ctx_lem n w.kernel socket in
      elim (Access.get_lem (kernel_of net.os) w.fds v n w.kernel true) [
        | inl (c, h, run) ↦ let z : none ≡ some c = sym free ∙ h in ground (arith, z)
        | inr (inl (h, off, run)) ↦ ground (arith, off)
        | inr (inr (h, on, (m', run, p))) ↦
            let w1 : World K = record w {
              fds = m';
              kernel = (make_ctx (kernel_of net.os) n w.kernel).1;
            } in
            let s1 : Socket = record (make_socket s.family s.type s.protocol) {
              sock = pos n;
              is_connected = true;
            } in
            let w2 : World K = init_sock net true w1 s1 in
            (
              get_remote_address net true w2 (get_local_address net true w2 s1),
              w2,
              rw (a, run, p.here, is_socket, is_open) refl,
              refl,
              refl,
              refl,
              refl,
              ap (λ m. lookup m n) (init_sock-fds w1 s1) ∙ p.here,
            )
      ]
