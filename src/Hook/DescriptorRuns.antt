-- ===== src/Hook/DescriptorRuns.antt =====
-- The hooks on descriptors, connect and the sleeps, on concrete inputs.
use link_server.Base.{
  ℕ, ◌+◌, ◌*◌, ◌%◌, ◌/◌, ◌≡◌, ◌≢◌, ◌↔◌, ◌⊎◌, refl, [], ◌++◌, some, none, true, false, ok, pos,
  arith, leb, get_elem?,
}
use link_server.FdManager.{lookup, make_ctx}
use link_server.FdManager.Access
use link_server.IoManager.{IoManager, FdContext, read, write, any, cancel_all}
use link_server.IoManager.Registration
use link_server.IoManager.Cancel.{waiters, cancel_all_lem}
use link_server.Timer.{TimerManager, Timer, direct}
use link_server.Timer.Sets.{mem}
use link_server.Timer.Invariant
use link_server.Timer.Expiry.{expired}
use link_server.Hook.{returned, failed, ready}
use link_server.Hook.Descriptors.{
  World, kernel_of, has_nonblock, fcntl_setfl, fcntl_getfl, ioctl_nbio, close, socket,
}
use link_server.Hook.Flags.{fcntl_lem}
use link_server.Hook.Lifetime.{close_lem, socket-close}
use link_server.Hook.Calls.{connect_with_timeout, einprogress, sleep}
use link_server.Hook.Connect.{is_late, connect_with_timeout_lem}
use link_server.Hook.Sleep.{sleep_lem}
use link_server.Hook.Samples.{
  one_socket, open_ctx, one_reader, reader, one_world, one_world-table, one_reader-IsValid,
}

fcntl_lem_example :
    let r = fcntl_setfl one_socket one_world (pos 3) 2050 in
    (has_nonblock (fcntl_getfl one_socket r.1 (pos 3)) ≡ has_nonblock 2050)
    × (lookup r.1.fds 3 ≡ some (record open_ctx { user_nonblock = has_nonblock 2050 }))
    × (given : ℕ) × ((r.0, r.1.kernel) ≡ one_socket.setfl one_world.kernel (pos 3) given)
    × (has_nonblock given ≡ true)
    × (given % 2048 ≡ 2050 % 2048)
    × (given / 4096 ≡ 2050 / 4096)
    × ((i : ℕ) → i ≢ 3 → lookup r.1.fds i ≡ lookup one_world.fds i)
fcntl_lem_example = fcntl_lem one_socket one_world 3 open_ctx refl refl 2050

ioctl_blocks :
    let r = ioctl_nbio one_socket one_world (pos 3) 0 in
    (lookup r.1.fds 3 ≡ some (record open_ctx { user_nonblock = false; sys_nonblock = true }))
    × (has_nonblock (fcntl_getfl one_socket r.1 (pos 3)) ≡ false)
    × (has_nonblock (one_socket.getfl r.1.kernel (pos 3)) ≡ false)
unfolding ioctl_nbio fcntl_getfl link_server.Hook.Descriptors.put_nonblock
ioctl_blocks = (refl, refl, refl)

close_lem_example :
    (w' : World ℕ) × (m' : IoManager) × (x' : FdContext) × (close one_socket true one_world
        (pos 3)
        false
      ≡ ok (returned 0, w'))
    × Access.IsValid w'.fds
    × (lookup w'.fds 3 ≡ none)
    × ((i : ℕ) → i ≢ 3 → lookup w'.fds i ≡ lookup one_world.fds i)
    × (w'.io ≡ some m')
    × Registration.IsValid m'
    × (get_elem? m'.contexts 3 ≡ some x')
    × (any x'.events ≡ false)
    × (m'.queue ≡ [] ++ waiters reader read ++ waiters reader write)
close_lem_example =
    close_lem one_socket one_world one_world-table 3 open_ctx one_reader reader refl refl
      one_reader-IsValid refl

socket-close_example :
    (w' : World ℕ) × (close one_socket true one_world (pos 3) false ≡ ok (returned 0, w'))
    × ((k : ℕ)
        → one_socket.socket w'.kernel 2 1 0 ≡ (returned 3, k)
        → (w'' : World ℕ) × (socket one_socket true w' 2 1 0 ≡ ok (returned 3, w''))
          × (lookup w''.fds 3 ≡ some (make_ctx (kernel_of one_socket) 3 k).0)
          × ((i : ℕ) → i ≢ 3 → lookup w''.fds i ≡ lookup one_world.fds i))
socket-close_example =
    socket-close one_socket one_world one_world-table 3 open_ctx one_reader reader refl refl
      one_reader-IsValid refl 2 1 0

cancel_all_lem_example :
    (c' : FdContext) × (m' : IoManager) × (cancel_all one_reader 3 false ≡ ok (true, m'))
    × Registration.IsValid m'
    × (get_elem? m'.contexts 3 ≡ some c')
    × (any c'.events ≡ false)
    × (m'.queue ≡ [] ++ waiters reader read ++ waiters reader write)
cancel_all_lem_example = cancel_all_lem one_reader 3 reader one_reader-IsValid refl

connect_with_timeout_lem_example :
    (connect_with_timeout true (some open_ctx) 5000 (failed 115) (returned 0) ready ≡ returned 0)
    ↔ (failed 115 ≡ returned 0)
      ⊎ (failed 115 ≡ failed einprogress) × (is_late 5000 ready ≡ false) × (returned 0 ≡ returned 0)
connect_with_timeout_lem_example =
    connect_with_timeout_lem open_ctx 5000 (failed 115) (returned 0) ready refl refl refl

abbrev no_timers : TimerManager
no_timers = record {
  store = λ a. record { recurring = false; ms = 0; next = 0; cb = none };
  timers = [];
  tickled = false;
  previous_time = 100;
}

no_timers-IsValid : Invariant.IsValid no_timers
no_timers-IsValid = record { sorted = tt; armed = λ a. refl }

sleep_lem_example :
    let m' = (sleep no_timers 1 100 2 7).1 in
    Invariant.IsValid m'
    × ((m'.store 1).cb ≡ some (direct 7))
    × (mem 1 (expired m' 2100) ≡ leb (100 + 2 * 1000) 2100)
sleep_lem_example =
    sleep_lem no_timers 1 100 7 no_timers-IsValid refl 2 2100 (omega arith) (omega arith) refl

-- A sleep of 4294968 seconds, 49.7 days, is over after 704 ms.
sleep_wraps : ((sleep no_timers 1 100 4294968 7).1.store 1).next ≡ 804
unfolding sleep link_server.Timer.add_timer link_server.Timer.add
sleep_wraps = refl
