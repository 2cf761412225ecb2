-- ===== src/Hook/Calls.antt =====
-- linko/hook.cc: connect and the sleeps, which suspend the fiber once. What connect and getsockopt
-- answer, whether epoll_ctl fails and how the fiber is woken are given; `awaited` is the call of addEvent
-- before the wait, which is over with the event removed again. The sleeps act on the timers.
-- With the hooks off they are the system's, but for nanosleep, which then calls itself without end.
use link_server.Base.{
  ℕ, ◌+◌, ◌-◌, ◌*◌, ◌/◌, ◌%◌, ◌^◌, Option, none, some, false, not, ◌==◌, ltb, ◌||◌, if◌then◌else◌,
  Bool, true, ◌&&◌, Result, ok, err, null_deref, ◌>>=◌, ℤ, pos, negsuc,
}
use link_server.Timer.{TimerManager, direct, add_timer}
use link_server.FdManager.{FdCtx, no_timeout}
use link_server.IoManager.{IoManager, write, add_event}
use link_server.Hook.{Answer, returned, failed, ebadf, etimedout, Wake, not_added, timed_out, ready}

abbrev pub einprogress : ℕ
einprogress = 115

-- What getsockopt of SO_ERROR answers, with the error found there.
abbrev pub so_error : Answer → Answer
so_error (failed e) = failed e
so_error (returned error) = if error == 0 then returned 0 else failed error

-- After the event is added, or is not.
abbrev pub connect_woken : ℕ → Answer → Wake → Answer
connect_woken timeout_ms error timed_out =
    if timeout_ms == no_timeout then so_error error else failed etimedout
connect_woken timeout_ms error ready = so_error error
connect_woken timeout_ms error (not_added e) = so_error error

abbrev pub connecting : ℕ → Answer → Answer → Wake → Answer
connecting timeout_ms (returned n) error wake = returned n
connecting timeout_ms (failed e) error wake =
    if e == einprogress then connect_woken timeout_ms error wake else failed e

-- `answer` is the system's connect, `error` getsockopt.
abbrev pub connect_ctx : Option FdCtx → ℕ → Answer → Answer → Wake → Answer
connect_ctx none timeout_ms answer error wake = failed ebadf
connect_ctx (some c) timeout_ms answer error wake =
    if c.is_closed
    then failed ebadf
    else if not c.is_socket || c.user_nonblock
    then answer
    else connecting timeout_ms answer error wake

unfoldable pub connect_with_timeout : Bool → Option FdCtx → ℕ → Answer → Answer → Wake → Answer
connect_with_timeout hook_enable ctx timeout_ms answer error wake =
    if hook_enable then connect_ctx ctx timeout_ms answer error wake else answer

-- Whether the hooked connect comes to wait for its event.
abbrev pub in_progress : Answer → Bool
in_progress (returned n) = false
in_progress (failed e) = e == einprogress

abbrev pub may_wait : Bool → Option FdCtx → Bool
may_wait hook_enable none = false
may_wait hook_enable (some c) =
    hook_enable && not (c.is_closed || (not c.is_socket || c.user_nonblock))

abbrev pub fails_to_add : Wake → Bool
fails_to_add (not_added e) = true
fails_to_add timed_out = false
fails_to_add ready = false

-- The manager of a thread may be null; a descriptor that is negative has no context.
abbrev pub event_added : Option IoManager → ℤ → Wake → ℕ → Result Bool
event_added none fd wake fiber = err null_deref
event_added (some m) (pos n) wake fiber = do
  (done, m') ← add_event m n write (fails_to_add wake) none fiber
  ok done
event_added (some m) (negsuc n) wake fiber = ok false

unfoldable pub awaited :
    Bool → Option IoManager → Option FdCtx → ℤ → Answer → Wake → ℕ → Result Bool
awaited hook_enable io ctx fd answer wake fiber =
    if may_wait hook_enable ctx && in_progress answer
    then event_added io fd wake fiber
    else ok false

-- A timer that schedules the fiber, of so many milliseconds; whether it is the new first one.
abbrev pub sleep_for : TimerManager → ℕ → ℕ → ℕ → ℕ → Bool × TimerManager
sleep_for m fresh now ms fiber = add_timer m fresh now ms (some (direct fiber)) false

-- `seconds * 1000` has the 32 bits of `unsigned int`.
unfoldable pub sleep : TimerManager → ℕ → ℕ → ℕ → ℕ → Bool × TimerManager
sleep m fresh now seconds fiber = sleep_for m fresh now (seconds * 1000 % 2 ^ 32) fiber

unfoldable pub usleep : TimerManager → ℕ → ℕ → ℕ → ℕ → Bool × TimerManager
usleep m fresh now usec fiber = sleep_for m fresh now (usec / 1000) fiber

-- An `int`, by its bits, as `uint64_t`.
abbrev pub int_to_u64 : ℕ → ℕ
int_to_u64 x = if ltb x (2 ^ 31) then x else x + 2 ^ 64 - 2 ^ 32

unfoldable pub nanosleep : TimerManager → ℕ → ℕ → ℕ → ℕ → ℕ → Bool × TimerManager
nanosleep m fresh now sec nsec fiber =
    sleep_for m fresh now (int_to_u64 ((sec * 1000 + nsec / 1000 / 1000) % 2 ^ 32)) fiber
