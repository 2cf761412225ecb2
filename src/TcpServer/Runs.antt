-- ===== src/TcpServer/Runs.antt =====
-- A server on concrete inputs.
use link_server.Base.{
  ℕ, ◌≡◌, ◌≢◌, refl, [], ◌∷◌, List, ◌⊎◌, some, none, Bool, true, false, ok, pos, negsuc, arith,
  length,
}
use link_server.Hook.{returned}
use link_server.Hook.Descriptors.{World, hooked}
use link_server.Hook.Samples.{new_world, new_world-table, one_reader-IsValid}
use link_server.Hook.{do_io}
use link_server.Socket.{SockAddr, Socket, get_send_timeout, get_recv_timeout}
use link_server.Socket.Samples.{one_net, localhost}
use link_server.TcpServer.{TcpServer, make_tcp_server, open_all, bind_all, accept_one}
use link_server.TcpServer.Binding.{WorldIsValid, AllOpened, AllClosed, bind_all_lem}
use link_server.TcpServer.Accepting.{accept_one_lem}

abbrev two_addresses : List SockAddr
two_addresses = localhost ∷ record { family = 10; bytes = [] } ∷ []

bind_all_lem_example :
    (w1 : World ℕ) × (more : List Socket) × (done : Bool) × (w' : World ℕ) × (t' : TcpServer)
    × (failed : List SockAddr) × (open_all one_net 128 false new_world two_addresses [] []
        ≡ ok (w1, more, failed))
    × (bind_all one_net 128 false new_world make_tcp_server two_addresses []
        ≡ ok (done, w', t', failed))
    × WorldIsValid w'
    × AllOpened t'.socks
    × (((done ≡ true) × (failed ≡ []) × (t'.socks ≡ more) × (length more ≡ 2))
        ⊎ (done ≡ false) × (failed ≢ []) × (t'.socks ≡ []) × AllClosed w'.fds more)
bind_all_lem_example =
    bind_all_lem one_net 128 false new_world make_tcp_server two_addresses
      (new_world-table, one_reader-IsValid) tt

abbrev listener : Socket
listener = record {
  sock = pos 5;
  family = 2;
  type = 1;
  protocol = 0;
  is_connected = false;
  local_address = none;
  remote_address = none;
}

accept_answers_three : hooked true new_world.fds (pos 5) true (returned 3 ∷ []) [] ≡ ok (returned 3)
unfolding hooked do_io
accept_answers_three = refl

accept_one_lem_example :
    (s' : Socket) × (w' : World ℕ) × (accept_one one_net 128 false make_tcp_server new_world
        listener
        (returned 3 ∷ [])
        []
      ≡ ok (some s', w'))
    × (s'.sock ≡ pos 3)
    × (s'.is_connected ≡ true)
    × (get_send_timeout w'.fds s' ≡ pos 0)
    × (get_recv_timeout w'.fds s' ≡ negsuc 0)
accept_one_lem_example =
    accept_one_lem one_net 128 false make_tcp_server new_world listener (returned 3 ∷ []) [] 3
      new_world-table (omega arith) accept_answers_three refl refl
