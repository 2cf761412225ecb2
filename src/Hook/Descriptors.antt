-- ===== src/Hook/Descriptors.antt =====
-- linko/hook.cc: the hooks that make, set and close a descriptor: socket, accept, close, fcntl,
-- ioctl and setsockopt, on the contexts of FdManager and the events of IoManager. The system calls
-- are arguments, with the state `K` of the kernel that they read and change. An `int` of flags is
-- the number of its 32 bits; the number that a failing call answers comes with its error in `Answer`.
-- do_io restores the timer and the event that it adds, so they are not in the state.
use link_server.Base.{
  ℕ, ◌+◌, ◌-◌, ◌*◌, ◌/◌, ◌%◌, ◌^◌, List, Option, none, some, Bool, true, false, not, ◌==◌, ◌||◌,
  if◌then◌else◌, set, Result, ok, ◌>>=◌, ℤ, pos, negsuc,
}
use link_server.FdManager.{
  FdCtx, FdManager, Kernel, no_timeout, lookup, get, del, set_timeout, get_timeout,
}
use link_server.IoManager.{IoManager, cancel_all}
use link_server.Hook.{Answer, returned, failed, Wake, Ctx, do_io}

-- A timeval is in seconds and microseconds; any other option has a level, a name and a value.
pub data SocketOption : Type 0 where
  timeval : Bool → ℤ → ℤ → SocketOption
  other : ℕ → ℕ → ℕ → SocketOption

pub record Os (K : Type 0) : Type 0 where
  pub fstat : K → ℕ → Option Bool
  pub getfl : K → ℤ → ℕ
  pub setfl : K → ℤ → ℕ → Answer × K
  pub nbio : K → ℤ → ℕ → Answer × K
  pub setsockopt : K → ℤ → SocketOption → Answer × K
  pub socket : K → ℕ → ℕ → ℕ → Answer × K
  pub close : K → ℤ → Answer × K

-- O_NONBLOCK is the bit 2048; `flags & O_NONBLOCK`, `flags | O_NONBLOCK` and `flags & ~O_NONBLOCK`.
abbrev pub has_nonblock : ℕ → Bool
has_nonblock flags = flags / 2048 % 2 == 1

unfoldable pub put_nonblock : Bool → ℕ → ℕ
put_nonblock true flags = if has_nonblock flags then flags else flags + 2048
put_nonblock false flags = if has_nonblock flags then flags - 2048 else flags

-- The calls by which `FdCtx` is made.
abbrev pub kernel_of : {K : Type 0} → Os K → Kernel K
kernel_of os = record {
  fstat = os.fstat;
  get_nonblock = λ k fd. has_nonblock (os.getfl k (pos fd));
  set_nonblock = λ k fd. (os.setfl k (pos fd) (put_nonblock true (os.getfl k (pos fd)))).1;
}

-- A number of 64 bits from a signed one, and the division that rounds to zero.
abbrev pub to_u64 : ℤ → ℕ
to_u64 (pos n) = n % 2 ^ 64
to_u64 (negsuc n) = 2 ^ 64 - 1 - n % 2 ^ 64

abbrev pub div_zero : ℤ → ℕ → ℤ
div_zero (pos n) d = pos (n / d)
div_zero (negsuc n) d = if (n + 1) / d == 0 then pos 0 else negsuc ((n + 1) / d - 1)

abbrev pub to_milliseconds : ℤ → ℤ → ℕ
to_milliseconds sec usec = (to_u64 sec * 1000 + to_u64 (div_zero usec 1000)) % 2 ^ 64

-- What the hooks share; `io` is null in a thread that runs none.
pub record World (K : Type 0) : Type 0 where
  pub fds : FdManager
  pub io : Option IoManager
  pub kernel : K

-- `FdMgr::GetInstance()->get(fd)`; a negative descriptor is -1.
abbrev pub find : FdManager → ℤ → Option FdCtx
find m (pos n) = lookup m n
find m (negsuc n) = none

-- A change of the context that the pointer in the vector points to.
abbrev pub store : FdManager → ℤ → FdCtx → FdManager
store m (pos n) c = set m n (some c)
store m (negsuc n) c = m

-- `!ctx || ctx->isClosed() || !ctx->isSocket()`.
abbrev pub is_other : FdCtx → Bool
is_other c = c.is_closed || not c.is_socket

-- A hooked call on the descriptor, that waits to read or to write.
abbrev pub seen : Bool → Option FdCtx → Option Ctx
seen is_rcv none = none
seen is_rcv (some c) = some (record {
  is_closed = c.is_closed;
  is_socket = c.is_socket;
  user_nonblock = c.user_nonblock;
  has_timeout = not (get_timeout c is_rcv == no_timeout);
})

unfoldable pub hooked : Bool → FdManager → ℤ → Bool → List Answer → List Wake → Result Answer
hooked hook_enable m fd is_rcv answers wakes =
    do_io hook_enable (seen is_rcv (find m fd)) answers wakes

module _ {K : Type 0} (os : Os K) where
  abbrev pub set_kernel : World K → Answer × K → Answer × World K
  set_kernel w (a, k) = (a, record w { kernel = k })

  -- F_SETFL: the user's flag is kept in the context, the system's is given to the kernel.
  abbrev pub setfl_with : World K → ℤ → ℕ → Option FdCtx → Answer × World K
  setfl_with w fd arg none = set_kernel w (os.setfl w.kernel fd arg)
  setfl_with w fd arg (some c) =
      if is_other c
      then set_kernel w (os.setfl w.kernel fd arg)
      else set_kernel
          (record w { fds = store w.fds fd (record c { user_nonblock = has_nonblock arg }) })
          (os.setfl w.kernel fd (put_nonblock c.sys_nonblock arg))

  unfoldable pub fcntl_setfl : World K → ℤ → ℕ → Answer × World K
  fcntl_setfl w fd arg = setfl_with w fd arg (find w.fds fd)

  -- F_GETFL: the user's flag is shown.
  abbrev pub getfl_with : World K → ℤ → Option FdCtx → ℕ
  getfl_with w fd none = os.getfl w.kernel fd
  getfl_with w fd (some c) =
      if is_other c
      then os.getfl w.kernel fd
      else put_nonblock c.user_nonblock (os.getfl w.kernel fd)

  unfoldable pub fcntl_getfl : World K → ℤ → ℕ
  fcntl_getfl w fd = getfl_with w fd (find w.fds fd)

  -- FIONBIO: the user's flag is kept, and the argument is given to the kernel as it is.
  abbrev pub nbio_with : World K → ℤ → ℕ → Option FdCtx → FdManager
  nbio_with w fd arg none = w.fds
  nbio_with w fd arg (some c) =
      if is_other c then w.fds else store w.fds fd (record c { user_nonblock = not (arg == 0) })

  unfoldable pub ioctl_nbio : World K → ℤ → ℕ → Answer × World K
  ioctl_nbio w fd arg =
      set_kernel (record w { fds = nbio_with w fd arg (find w.fds fd) }) (os.nbio w.kernel fd arg)

  -- `setTimeout(optname, tv_sec * 1000 + tv_usec / 1000)`, in 64 bits.
  abbrev pub timed : World K → ℤ → Option FdCtx → SocketOption → FdManager
  timed w fd (some c) (timeval is_rcv sec usec) =
      store w.fds fd (set_timeout c is_rcv (to_milliseconds sec usec))
  timed w fd none opt = w.fds
  timed w fd (some c) (other level name v) = w.fds

  unfoldable pub setsockopt : Bool → World K → ℤ → SocketOption → Answer × World K
  setsockopt false w fd opt = set_kernel w (os.setsockopt w.kernel fd opt)
  setsockopt true w fd opt =
      set_kernel (record w { fds = timed w fd (find w.fds fd) opt }) (os.setsockopt w.kernel fd opt)

  -- `FdMgr::GetInstance()->get(fd, true)` after a call that may have made a descriptor.
  abbrev pub tracked : World K → Answer → Result (Answer × World K)
  tracked w (failed e) = ok (failed e, w)
  tracked w (returned n) = do
    (c, fds, k) ← get (kernel_of os) w.fds (pos n) true w.kernel
    ok (returned n, record w { fds = fds; kernel = k })

  unfoldable pub socket : Bool → World K → ℕ → ℕ → ℕ → Result (Answer × World K)
  socket hook_enable w domain type protocol =
      let (a, w') = set_kernel w (os.socket w.kernel domain type protocol) in
      if hook_enable then tracked w' a else ok (a, w')

  -- What the calls to accept answer is given.
  unfoldable pub accept : Bool → World K → ℤ → List Answer → List Wake → Result (Answer × World K)
  accept hook_enable w fd answers wakes = do
    a ← hooked hook_enable w.fds fd true answers wakes
    tracked w a

  -- `cancelAll`, on which epoll_ctl may fail, where the thread has an IOManager.
  abbrev pub cancelled : Option IoManager → ℤ → Bool → Result (Option IoManager)
  cancelled none fd fails = ok none
  cancelled (some m) (negsuc n) fails = ok (some m)
  cancelled (some m) (pos n) fails = do (done, m') ← cancel_all m n fails; ok (some m')

  abbrev pub forget : World K → ℤ → Bool → Option FdCtx → Result (World K)
  forget w fd fails none = ok w
  forget w fd fails (some c) = do
    io ← cancelled w.io fd fails
    fds ← del w.fds fd
    ok (record w { fds = fds; io = io })

  unfoldable pub close : Bool → World K → ℤ → Bool → Result (Answer × World K)
  close false w fd fails = ok (set_kernel w (os.close w.kernel fd))
  close true w fd fails = do
    w' ← forget w fd fails (find w.fds fd)
    ok (set_kernel w' (os.close w'.kernel fd))
