-- ===== src/Socket/Runs.antt =====
-- Sockets on concrete inputs.
use link_server.Base.{
  ℕ, ◌≡◌, refl, [], ◌∷◌, List, some, none, true, false, ok, err, null_deref, pos, arith,
}
use link_server.FdManager.{make_ctx, lookup}
use link_server.Hook.{returned, failed, do_io}
use link_server.Hook.Calls.{einprogress, awaited}
use link_server.Hook.Samples.{one_socket, new_world, one_world, open_ctx, new_world-table}
use link_server.Hook.Descriptors.{World, hooked, kernel_of}
use link_server.Socket.{
  Socket, make_socket, connect, new_sock, accept, set_send_timeout, set_recv_timeout,
  get_send_timeout, get_recv_timeout,
}
use link_server.Socket.Contexts.{IsValid}
use link_server.Socket.Sequences.{
  Action, binds, listens, connects, closes, sets_recv_timeout, step, steps, AllAtOnce,
  steps-IsValid,
}
use link_server.Socket.Accept.{accept_lem}
use link_server.Socket.Timeouts.{set_timeout_lem}
use link_server.Socket.Samples.{one_net, localhost, at_once, new-IsValid}

abbrev a_life : List Action
a_life =
    binds localhost
    ∷ listens 128
    ∷ sets_recv_timeout (pos 5)
    ∷ closes false
    ∷ connects localhost 1000 5000 at_once false
    ∷ []

a_life-AllAtOnce : AllAtOnce a_life
a_life-AllAtOnce = (tt, (tt, (tt, (tt, ((λ e. ground (arith, e)), tt)))))

steps-IsValid_example :
    (w' : World ℕ) × (s' : Socket) × (steps one_net (new_world, make_socket 2 1 0) a_life
      ≡ ok (w', s'))
    × IsValid w' s'
steps-IsValid_example =
    steps-IsValid one_net a_life new_world (make_socket 2 1 0) a_life-AllAtOnce new-IsValid

-- A connect in progress in a thread without a manager.
no_manager :
    step one_net
      (record new_world { io = none }, make_socket 2 1 0)
      (connects localhost 1000 5000 (record at_once { answer = failed einprogress }) false)
    ≡ err null_deref
unfolding connect awaited make_socket new_sock link_server.Hook.Descriptors.socket
    link_server.FdManager.get link_server.FdManager.put link_server.Socket.init_sock
    link_server.Hook.Descriptors.setsockopt make_ctx link_server.FdManager.init
no_manager = refl

-- The socket of the descriptor 3.
abbrev third : Socket
third = record {
  sock = pos 3;
  family = 2;
  type = 1;
  protocol = 0;
  is_connected = true;
  local_address = none;
  remote_address = none;
}

accept_answers : hooked true new_world.fds (pos 5) true (returned 3 ∷ []) [] ≡ ok (returned 3)
unfolding hooked do_io
accept_answers = refl

accept_lem_example :
    (s' : Socket) × (w' : World ℕ) × (accept one_net true new_world
        (record third { sock = pos 5 })
        (returned 3 ∷ [])
        []
      ≡ ok (some s', w'))
    × (s'.sock ≡ pos 3)
    × (s'.is_connected ≡ true)
    × (s'.family ≡ 2)
    × (s'.type ≡ 1)
    × (lookup w'.fds 3 ≡ some (make_ctx (kernel_of one_socket) 3 2050).0)
accept_lem_example =
    accept_lem one_net new_world (record third { sock = pos 5 }) (returned 3 ∷ []) [] 3
      new_world-table accept_answers refl refl

set_timeout_lem_example :
    let m = (set_send_timeout one_net true one_world third (pos 1500)).1.fds in
    let m' = (set_recv_timeout one_net true one_world third (pos 1500)).1.fds in
    (get_send_timeout m third ≡ pos 1500)
    × (get_recv_timeout m third ≡ get_recv_timeout one_world.fds third)
    × (get_send_timeout m' third ≡ pos 1500)
    × (get_recv_timeout m' third ≡ get_recv_timeout one_world.fds third)
set_timeout_lem_example =
    set_timeout_lem one_net one_world third 3 open_ctx refl refl 1500 (omega arith)

recv_timeout_seven : get_recv_timeout one_world.fds third ≡ pos 7
unfolding get_recv_timeout
recv_timeout_seven = refl
