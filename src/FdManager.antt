-- ===== src/FdManager.antt =====
-- linko/fd_manager.h and linko/fd_manager.cc: what the hooks know of each file descriptor. The
-- vector of shared pointers is a list, a null pointer is `none`. The system calls fstat and fcntl
-- are arguments, with the state `K` of the kernel that they read and change; the flags of a
-- descriptor are seen only as O_NONBLOCK.
pub mod Access
mod Runs
use link_server.Base.{
  ℕ, suc, ◌-◌, ◌*◌, ◌/◌, ◌^◌, List, Option, none, some, Bool, true, false, not, ◌&&◌, leb, take,
  ◌>>=◌, ◌==◌, ◌++◌, if◌then◌else◌, length, get_elem?, set, replicate, Result, ok, err,
  out_of_bounds, ℤ, pos, negsuc,
}

pub record FdCtx : Type 0 where
  pub is_init : Bool
  pub is_socket : Bool
  pub sys_nonblock : Bool
  pub user_nonblock : Bool
  pub is_closed : Bool
  pub fd : ℕ
  pub recv_timeout : ℕ
  pub send_timeout : ℕ

-- `fstat` says whether the file is a socket, or fails.
pub record Kernel (K : Type 0) : Type 0 where
  pub fstat : K → ℕ → Option Bool
  pub get_nonblock : K → ℕ → Bool
  pub set_nonblock : K → ℕ → K

-- The datas of `FdManager`.
abbrev pub FdManager : Type 0
FdManager = List (Option FdCtx)

-- (uint64_t)-1.
abbrev pub no_timeout : ℕ
no_timeout = 2 ^ 64 - 1

-- The members before `init` in the constructor.
abbrev pub new_ctx : ℕ → FdCtx
new_ctx fd = record {
  is_init = false;
  is_socket = false;
  sys_nonblock = false;
  user_nonblock = false;
  is_closed = false;
  fd = fd;
  recv_timeout = no_timeout;
  send_timeout = no_timeout;
}

-- `m_datas.resize(n)`.
abbrev pub resize : FdManager → ℕ → FdManager
resize m n = take n m ++ replicate (n - length m) none

-- The vector is grown to half more than the descriptor; the element is then assigned, which is
-- out of bounds where the vector is still too short.
unfoldable pub put : FdManager → ℕ → FdCtx → Result FdManager
put m fd c =
    let grown = if leb (length m) fd then resize m (fd * 3 / 2) else m in
    if leb (length grown) fd then err out_of_bounds else ok (set grown fd (some c))

abbrev pub join : Option (Option FdCtx) → Option FdCtx
join none = none
join (some c) = c

-- The pointer in the vector, null past its end.
abbrev pub lookup : FdManager → ℕ → Option FdCtx
lookup m fd = join (get_elem? m fd)

module _ {K : Type 0} (os : Kernel K) where
  -- The kernel after the descriptor of a socket is set to non-blocking.
  abbrev pub set_flags : K → FdCtx → K
  set_flags k c = if c.is_socket && not (os.get_nonblock k c.fd) then os.set_nonblock k c.fd else k

  -- What `fstat` shows.
  abbrev pub set_stat : FdCtx → Option Bool → FdCtx
  set_stat c none = record c { is_init = false; is_socket = false }
  set_stat c (some sock) = record c { is_init = true; is_socket = sock }

  unfoldable pub init : FdCtx → K → Bool × FdCtx × K
  init c k =
      let seen =
        set_stat (record c { recv_timeout = no_timeout; send_timeout = no_timeout })
          (os.fstat k c.fd) in
      if c.is_init then (true, c, k) else (
        seen.is_init,
        record seen { sys_nonblock = seen.is_socket; user_nonblock = false; is_closed = false },
        set_flags k seen,
      )

  -- `FdCtx::FdCtx`.
  unfoldable pub make_ctx : ℕ → K → FdCtx × K
  make_ctx fd k = let (done, c, k') = init (new_ctx fd) k in (c, k')

  abbrev pub create : FdManager → ℕ → K → Result (Option FdCtx × FdManager × K)
  create m fd k = let (c, k') = make_ctx fd k in do m' ← put m fd c; ok (some c, m', k')

  -- A descriptor below -1 is an index out of bounds.
  unfoldable pub get : FdManager → ℤ → Bool → K → Result (Option FdCtx × FdManager × K)
  get m (negsuc n) auto_create k = if n == 0 then ok (none, m, k) else err out_of_bounds
  get m (pos fd) auto_create k = elim (lookup m fd) [
    | some c ↦ ok (some c, m, k)
    | none ↦ if auto_create then create m fd k else ok (none, m, k)
  ]

unfoldable pub del : FdManager → ℤ → Result FdManager
del m (negsuc n) = err out_of_bounds
del m (pos fd) = ok (if leb (length m) fd then m else set m fd none)

-- Whether the type is SO_RCVTIMEO.
abbrev pub set_timeout : FdCtx → Bool → ℕ → FdCtx
set_timeout c true v = record c { recv_timeout = v }
set_timeout c false v = record c { send_timeout = v }

abbrev pub get_timeout : FdCtx → Bool → ℕ
get_timeout c true = c.recv_timeout
get_timeout c false = c.send_timeout
