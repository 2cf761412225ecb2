-- ===== src/Hook/Samples.antt =====
-- A kernel and a state for the runs of the hooks and of what stands on them.
use link_server.Base.{
  ℕ, [], ◌∷◌, ◌++◌, some, none, true, false, ◌==◌, if◌then◌else◌, replicate, arith, refl,
}
use link_server.FdManager.{FdCtx, FdManager}
use link_server.FdManager.Access
use link_server.IoManager.{FdContext, IoManager, new_contexts, waiting}
use link_server.IoManager.Registration
use link_server.Hook.{returned}
use link_server.Hook.Descriptors.{Os, World}

-- A kernel with the flags of its descriptor 3, the only socket.
abbrev pub one_socket : Os ℕ
one_socket = record {
  fstat = λ k fd. if fd == 3 then some true else some false;
  getfl = λ k fd. k;
  setfl = λ k fd a. (returned 0, a);
  nbio = λ k fd a. (returned 0, if a == 0 then 2 else 2050);
  setsockopt = λ k fd o. (returned 0, k);
  socket = λ k domain type protocol. (returned 3, k);
  close = λ k fd. (returned 0, k);
}

abbrev pub open_ctx : FdCtx
open_ctx = record {
  is_init = true;
  is_socket = true;
  sys_nonblock = true;
  user_nonblock = false;
  is_closed = false;
  fd = 3;
  recv_timeout = 7;
  send_timeout = 8;
}

abbrev pub no_contexts : FdManager
no_contexts = replicate 64 none

abbrev pub one_context : FdManager
one_context = replicate 3 none ++ (some open_ctx ∷ replicate 60 none)

-- The fiber 5 waits to read from the descriptor 3.
abbrev pub reader : FdContext
reader = record {
  read = waiting none 5;
  write = record { has_scheduler = false; fiber = none; cb = none };
  fd = 3;
  events = record { reads = true; writes = false };
}

abbrev pub one_reader : IoManager
one_reader = record { contexts = new_contexts 3 0 ++ (reader ∷ []); pending = 1; queue = [] }

pub one_reader-IsValid : Registration.IsValid one_reader
one_reader-IsValid = record {
  all_ok = ((refl, refl), ((refl, refl), ((refl, refl), (((none, 5, refl), refl), tt))));
  pending_eq = refl;
  pending_lt = omega arith;
}

abbrev pub one_world : World ℕ
one_world = record { fds = one_context; io = some one_reader; kernel = 2050 }

abbrev pub new_world : World ℕ
new_world = record { fds = no_contexts; io = some one_reader; kernel = 2050 }

pub new_world-table : Access.IsValid new_world.fds
new_world-table = omega arith

pub one_world-table : Access.IsValid one_world.fds
one_world-table = omega arith
