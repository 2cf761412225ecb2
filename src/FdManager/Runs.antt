-- ===== src/FdManager/Runs.antt =====
-- The descriptors on concrete inputs.
use link_server.Base.{
  ℕ, ◌≡◌, none, some, Bool, true, false, replicate, arith, ◌⊎◌, ok, pos, ◌==◌, if◌then◌else◌,
}
use link_server.FdManager.{FdCtx, FdManager, Kernel, make_ctx, get, lookup}
use link_server.FdManager.Access.{IsValid, PutAt, get_lem}

-- The vector that the constructor makes.
abbrev empty : FdManager
empty = replicate 64 none

empty-IsValid : IsValid empty
empty-IsValid = omega arith

-- A kernel with the flags of its descriptors, in which only the descriptor 100 is a socket.
abbrev flags_kernel : Kernel (ℕ → Bool)
flags_kernel = record {
  fstat = λ k fd. if fd == 100 then some true else some false;
  get_nonblock = λ k fd. k fd;
  set_nonblock = λ k fd a. if a == fd then true else k a;
}

abbrev blocking : ℕ → Bool
blocking fd = false

get_lem_example :
    ((c : FdCtx) × (lookup empty 100 ≡ some c)
      × (get flags_kernel empty (pos 100) true blocking ≡ ok (some c, empty, blocking)))
    ⊎ (lookup empty 100 ≡ none)
      × (true ≡ false)
      × (get flags_kernel empty (pos 100) true blocking ≡ ok (none, empty, blocking))
    ⊎ (lookup empty 100 ≡ none)
      × (true ≡ true)
      × ((m' : FdManager) × (get flags_kernel empty (pos 100) true blocking
            ≡ ok (
              some (make_ctx flags_kernel 100 blocking).0,
              m',
              (make_ctx flags_kernel 100 blocking).1,
            ))
          × PutAt empty 100 (make_ctx flags_kernel 100 blocking).0 m')
get_lem_example = get_lem flags_kernel empty empty-IsValid 100 blocking true
