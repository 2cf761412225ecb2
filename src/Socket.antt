-- ===== src/Socket.antt =====
-- linko/socket.h and linko/socket.cc: a socket, on the hooked calls of linko/hook.cc. An address is
-- its family and its bytes; the system's calls on sockets are arguments, as is whether the hooks are
-- on. A pointer to an address is null where it is `none`. What connect, accept and the reads and
-- writes are answered is given, as in Hook.
pub mod Transfer
pub mod Contexts
pub mod State
pub mod Accept
pub mod Timeouts
pub mod Sequences
pub mod Samples
mod Closed
mod Runs
use link_server.Base.{
  ℕ, ◌+◌, ◌-◌, ◌*◌, ◌/◌, ◌%◌, ◌^◌, List, Option, none, some, Bool, true, false, not, ◌==◌, ltb,
  ◌||◌, ◌&&◌, if◌then◌else◌, Result, ok, err, ◌>>=◌, ℤ, pos, negsuc,
}
use link_server.FdManager.{FdCtx, FdManager, get_timeout, no_timeout}
use link_server.Hook.{Answer, returned, failed, Wake}
use link_server.Hook.Calls.{connect_with_timeout, awaited}
use link_server.Hook.Descriptors.{
  Os, World, SocketOption, timeval, other, find, setsockopt, socket, to_u64,
}
use link_server.Hook.Descriptors

pub record SockAddr : Type 0 where
  pub family : ℕ
  pub bytes : List ℕ

pub record Socket : Type 0 where
  pub sock : ℤ
  pub family : ℕ
  pub type : ℕ
  pub protocol : ℕ
  pub is_connected : Bool
  pub local_address : Option SockAddr
  pub remote_address : Option SockAddr

-- The calls that the hooks leave as they are; `bind` and `listen` answer whether they succeed.
pub record Net (K : Type 0) : Type 0 where
  pub os : Os K
  pub bind : K → ℤ → SockAddr → Bool × K
  pub listen : K → ℤ → ℕ → Bool × K
  pub getsockname : K → ℤ → Option SockAddr
  pub getpeername : K → ℤ → Option SockAddr

-- What a connect of the system and getsockopt answer, how the fiber is woken, and which it is.
pub record Connection : Type 0 where
  pub answer : Answer
  pub error : Answer
  pub wake : Wake
  pub fiber : ℕ

unfoldable pub make_socket : ℕ → ℕ → ℕ → Socket
make_socket family type protocol = record {
  sock = negsuc 0;
  family = family;
  type = type;
  protocol = protocol;
  is_connected = false;
  local_address = none;
  remote_address = none;
}

abbrev pub is_valid : Socket → Bool
is_valid s = elim s.sock [ pos n ↦ true | negsuc n ↦ not (n == 0) ]

abbrev pub or_known : Option SockAddr → Option SockAddr → Option SockAddr
or_known none seen = seen
or_known (some a) seen = some a

-- `int(v / 1000)` and `int(v % 1000 * 1000)` of a 64-bit number, with the sign of `v`.
abbrev pub to_int : ℕ → ℤ
to_int x = if ltb (x % 2 ^ 32) (2 ^ 31) then pos (x % 2 ^ 32) else negsuc (2 ^ 32 - 1 - x % 2 ^ 32)

abbrev pub negated : ℕ → ℕ
negated x = 2 ^ 32 - x % 2 ^ 32

abbrev pub seconds : ℤ → ℤ
seconds (pos n) = to_int (n / 1000)
seconds (negsuc n) = to_int (negated ((n + 1) / 1000))

abbrev pub microseconds : ℤ → ℤ
microseconds (pos n) = to_int (n % 1000 * 1000)
microseconds (negsuc n) = to_int (negated ((n + 1) % 1000 * 1000))

-- `uint64_t` as `int64_t`.
abbrev pub to_i64 : ℕ → ℤ
to_i64 x = if ltb x (2 ^ 63) then pos x else negsuc (2 ^ 64 - 1 - x)

abbrev pub timeout_of : Bool → Option FdCtx → ℤ
timeout_of is_rcv none = negsuc 0
timeout_of is_rcv (some c) = to_i64 (get_timeout c is_rcv)

unfoldable pub get_send_timeout : FdManager → Socket → ℤ
get_send_timeout m s = timeout_of false (find m s.sock)

unfoldable pub get_recv_timeout : FdManager → Socket → ℤ
get_recv_timeout m s = timeout_of true (find m s.sock)

abbrev is_zero : Answer → Bool
is_zero (returned n) = n == 0
is_zero (failed e) = false

module _ {K : Type 0} (net : Net K) (hook_enable : Bool) where
  abbrev succeeded : Answer × World K → Bool × World K
  succeeded (a, w) = (is_zero a, w)

  abbrev pub set_option : World K → Socket → SocketOption → Bool × World K
  set_option w s opt = succeeded (setsockopt net.os hook_enable w s.sock opt)

  unfoldable pub set_send_timeout : World K → Socket → ℤ → Bool × World K
  set_send_timeout w s v = set_option w s (timeval false (seconds v) (microseconds v))

  -- It sets SO_SNDTIMEO.
  unfoldable pub set_recv_timeout : World K → Socket → ℤ → Bool × World K
  set_recv_timeout w s v = set_option w s (timeval false (seconds v) (microseconds v))

  -- SO_REUSEADDR of SOL_SOCKET, and TCP_NODELAY where the type is SOCK_STREAM.
  unfoldable pub init_sock : World K → Socket → World K
  init_sock w s =
      let w1 = (set_option w s (other 1 2 1)).1 in
      if s.type == 1 then (set_option w1 s (other 6 1 1)).1 else w1

  abbrev made : Socket → Answer × World K → World K × Socket
  made s (returned n, w) = (init_sock w (record s { sock = pos n }), record s { sock = pos n })
  made s (failed e, w) = (w, record s { sock = negsuc 0 })

  unfoldable pub new_sock : World K → Socket → Result (World K × Socket)
  new_sock w s = do r ← socket net.os hook_enable w s.family s.type s.protocol; ok (made s r)

  -- A descriptor where there is none.
  abbrev pub ensured : World K → Socket → Result (World K × Socket)
  ensured w s = if is_valid s then ok (w, s) else new_sock w s

  -- The address is kept where the call succeeds.
  unfoldable pub get_local_address : World K → Socket → Socket
  get_local_address w s = record s {
    local_address = or_known s.local_address (net.getsockname w.kernel s.sock);
  }

  unfoldable pub get_remote_address : World K → Socket → Socket
  get_remote_address w s = record s {
    remote_address = or_known s.remote_address (net.getpeername w.kernel s.sock);
  }

  abbrev pub set_net : World K → Bool × K → Bool × World K
  set_net w (done, k) = (done, record w { kernel = k })

  abbrev pub bind_sock : SockAddr → World K × Socket → Bool × World K × Socket
  bind_sock addr (w, s) =
      if not (is_valid s)
      then (false, w, s)
      else if not (addr.family == s.family)
      then (false, w, s)
      else let (done, w') = set_net w (net.bind w.kernel s.sock addr) in
        (done, w', if done then get_local_address w' s else s)

  unfoldable pub bind : World K → Socket → SockAddr → Result (Bool × World K × Socket)
  bind w s addr = do r ← ensured w s; ok (bind_sock addr r)

  unfoldable pub listen : World K → Socket → ℕ → Bool × World K
  listen w s backlog =
      if is_valid s then set_net w (net.listen w.kernel s.sock backlog) else (false, w)

  -- `fails` is whether epoll_ctl does.
  unfoldable pub close : World K → Socket → Bool → Result (Bool × World K × Socket)
  close w s fails =
      if not s.is_connected && not (is_valid s)
      then ok (true, w, s)
      else if is_valid s
      then (do
        (a, w') ← Descriptors.close net.os hook_enable w s.sock fails
        ok (false, w', record s { is_connected = false; sock = negsuc 0 }))
      else ok (false, w, record s { is_connected = false })

  -- A connect that fails closes the socket.
  abbrev pub connect_done : World K → Socket → Bool → Answer → Result (Bool × World K × Socket)
  connect_done w s fails (returned n) =
      if n == 0
      then ok
          (true, w, get_local_address w (get_remote_address w (record s { is_connected = true })))
      else (do (done, w', s') ← close w s fails; ok (false, w', s'))
  connect_done w s fails (failed e) = do (done, w', s') ← close w s fails; ok (false, w', s')

  -- Without a timeout of its own, that of the configuration, `configured`, is taken.
  abbrev pub connect_sock :
      SockAddr → ℕ → ℕ → Connection → Bool → World K × Socket → Result (Bool × World K × Socket)
  connect_sock addr timeout_ms configured c fails (w, s) =
      if not (is_valid s)
      then ok (false, w, s)
      else if not (addr.family == s.family)
      then ok (false, w, s)
      else (do
        added ← awaited hook_enable w.io (find w.fds s.sock) s.sock c.answer c.wake c.fiber
        connect_done w s fails (
            connect_with_timeout hook_enable (find w.fds s.sock)
              (if timeout_ms == no_timeout then configured else timeout_ms) c.answer c.error
              c.wake))

  unfoldable pub connect :
      World K → Socket → SockAddr → ℕ → ℕ → Connection → Bool → Result (Bool × World K × Socket)
  connect w s addr timeout_ms configured c fails = do
    r ← ensured w s
    connect_sock addr timeout_ms configured c fails r

  -- A descriptor that accept has answered is taken where its context is that of an open socket.
  abbrev pub init_with : World K → Socket → ℕ → Option FdCtx → Bool × World K × Socket
  init_with w s sock none = (false, w, s)
  init_with w s sock (some c) =
      if c.is_socket && not c.is_closed
      then (let s' = record s { sock = pos sock; is_connected = true } in
          let w' = init_sock w s' in (true, w', get_remote_address w' (get_local_address w' s')))
      else (false, w, s)

  unfoldable pub init : World K → Socket → ℕ → Bool × World K × Socket
  init w s sock = init_with w s sock (find w.fds (pos sock))

  abbrev client : Bool × World K × Socket → Option Socket × World K
  client (done, w, s) = (if done then some s else none, w)

  abbrev pub accepted : Socket → Answer × World K → Option Socket × World K
  accepted s (failed e, w) = (none, w)
  accepted s (returned n, w) = client (init w (make_socket s.family s.type s.protocol) n)

  unfoldable pub accept :
      World K → Socket → List Answer → List Wake → Result (Option Socket × World K)
  accept w s answers wakes = do
    r ← Descriptors.accept net.os hook_enable w s.sock answers wakes
    ok (accepted s r)
