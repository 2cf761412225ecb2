-- ===== src/Socket/Samples.antt =====
-- Sockets and addresses for the runs.
use link_server.Base.{ℕ, [], ◌∷◌, true, some, none, refl}
use link_server.Hook.Samples.{one_socket, new_world, new_world-table, one_reader-IsValid}
use link_server.Hook.{returned, ready}
use link_server.Socket.{SockAddr, Net, make_socket, Connection}
use link_server.Socket.Contexts.{IsValid}

-- Every call of the system succeeds.
abbrev pub one_net : Net ℕ
one_net = record {
  os = one_socket;
  bind = λ k fd a. (true, k);
  listen = λ k fd n. (true, k);
  getsockname = λ k fd. some (record { family = 2; bytes = 1 ∷ [] });
  getpeername = λ k fd. none;
}

abbrev pub localhost : SockAddr
localhost = record { family = 2; bytes = 127 ∷ 0 ∷ 0 ∷ 1 ∷ [] }

abbrev pub at_once : Connection
at_once = record { answer = returned 0; error = returned 0; wake = ready; fiber = 0 }

pub new-IsValid : IsValid new_world (make_socket 2 1 0)
unfolding make_socket
new-IsValid = record { table = new_world-table; io = one_reader-IsValid; tracked = (refl, refl) }
