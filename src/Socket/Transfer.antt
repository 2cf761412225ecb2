-- ===== src/Socket/Transfer.antt =====
-- linko/socket.cc: the calls that transfer data, and which of them a socket allows.
use link_server.Base.{
  List, Option, none, some, Bool, true, false, not, if◌then◌else◌, Result, ok, ◌>>=◌,
}
use link_server.FdManager.{FdManager}
use link_server.Hook.{Answer, Wake}
use link_server.Hook.Descriptors.{hooked}
use link_server.Socket.{Socket}

-- The calls that transfer data: -1 without a call where the guard does not hold, which is `none`.
abbrev pub guarded :
    Bool → Bool → FdManager → Socket → Bool → List Answer → List Wake → Result (Option Answer)
guarded guard hook_enable m s is_rcv answers wakes =
    if guard
    then (do a ← hooked hook_enable m s.sock is_rcv answers wakes; ok (some a))
    else ok none

-- Both overloads of `send`.
unfoldable pub send : Bool → FdManager → Socket → List Answer → List Wake → Result (Option Answer)
send hook_enable m s answers wakes = guarded s.is_connected hook_enable m s false answers wakes

-- The overload for one buffer is for a socket that is not connected.
unfoldable pub send_to :
    Bool → FdManager → Socket → List Answer → List Wake → Result (Option Answer)
send_to hook_enable m s answers wakes =
    guarded (not s.is_connected) hook_enable m s false answers wakes

unfoldable pub send_to_buffers :
    Bool → FdManager → Socket → List Answer → List Wake → Result (Option Answer)
send_to_buffers hook_enable m s answers wakes =
    guarded s.is_connected hook_enable m s false answers wakes

-- Both overloads of `recv`, and of `recvFrom`.
unfoldable pub recv : Bool → FdManager → Socket → List Answer → List Wake → Result (Option Answer)
recv hook_enable m s answers wakes = guarded s.is_connected hook_enable m s true answers wakes

unfoldable pub recv_from :
    Bool → FdManager → Socket → List Answer → List Wake → Result (Option Answer)
recv_from hook_enable m s answers wakes = guarded s.is_connected hook_enable m s true answers wakes
