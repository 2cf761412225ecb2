-- ===== src/Socket/Closed.antt =====
-- linko/socket.cc: what a closed socket still does.
use link_server.Base.{◌≡◌, refl, List, none, some, Bool, true, ok, ◌>>=◌}
use link_server.Hook.{Answer, Wake, first, do_io}
use link_server.Hook.Descriptors.{World, hooked}
use link_server.Socket.{Socket, Net, close}
use link_server.Socket.Contexts.{IsValid}
use link_server.Socket.State.{close-IsValid}
use link_server.Socket.Transfer.{send, send_to, send_to_buffers, recv, recv_from}

-- With the hooks on, after `close` of a valid socket in a valid world, no call that transfers data
-- reaches the system, but sendTo of one buffer, which makes its call on the descriptor -1.
pub closed_lem :
    {K : Type 0} (net : Net K) (w : World K) (s : Socket) (fails : Bool) (answers : List Answer)
    (wakes : List Wake)
    → IsValid w s
    → (done : Bool) × (w' : World K) × (s' : Socket) × (close net true w s fails
        ≡ ok (done, w', s'))
      × (send true w'.fds s' answers wakes ≡ ok none)
      × (recv true w'.fds s' answers wakes ≡ ok none)
      × (recv_from true w'.fds s' answers wakes ≡ ok none)
      × (send_to_buffers true w'.fds s' answers wakes ≡ ok none)
      × (send_to true w'.fds s' answers wakes ≡ (do a ← first answers; ok (some a)))
unfolding send recv recv_from send_to_buffers send_to hooked do_io
closed_lem net w s fails answers wakes v =
    let (done, w', s', run, v', gone, off) = close-IsValid net w s fails v in
    (done, w', s', run, rw off refl, rw off refl, rw off refl, rw off refl, rw (off, gone) refl)
