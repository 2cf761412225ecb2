-- ===== src/IoManager/Idle.antt =====
-- linko/iomanager.cc: the round of `idle`, on the timers, the events and the queue of the scheduler.
-- What epoll_wait reports is given; `named` is the number by which the scheduler knows a callback.
use link_server.Base.{
  ℕ, ◌-◌, ◌%◌, ◌^◌, List, [], ◌∷◌, Option, none, some, Bool, false, ◌&&◌, ◌==◌, ltb, if◌then◌else◌,
  Result, ok, ◌>>=◌, ℤ, pos, negsuc,
}
use link_server.Timer.{TimerManager, Callback, get_next_timer, list_expired_cb}
use link_server.Scheduler.{FiberAndThread, Scheduler, schedule_all, is_stopping}
use link_server.IoManager.{IoManager, Task, fiber_task, cb_task, Events, handle_event}

-- The three classes of which an IOManager is one.
pub record Shared : Type 0 where
  pub timers : TimerManager
  pub events : IoManager
  pub scheduler : Scheduler

-- A `uint64_t` as an `int`.
abbrev pub as_int : ℕ → ℤ
as_int t = if ltb (t % 2 ^ 32) (2 ^ 31) then pos (t % 2 ^ 32) else negsuc (2 ^ 32 - 1 - t % 2 ^ 32)

abbrev pub is_above : ℕ → ℤ → Bool
is_above n (pos t) = ltb n t
is_above n (negsuc t) = false

-- What epoll_wait is given for the time until the next timer: at most MAX_TIMEOUT.
unfoldable pub wait_time : ℕ → ℤ
wait_time next_timeout =
    if next_timeout == 2 ^ 64 - 1
    then pos 3000
    else if is_above 3000 (as_int next_timeout)
    then pos 3000
    else as_int next_timeout

-- `stopping`, with the time until the next timer and the timers then. Its three reads are at three
-- moments, between which other threads go on: the timers at `now`, then the pending events, then the
-- scheduler, each as it is at its moment.
unfoldable pub stopping : TimerManager → ℕ → IoManager → Scheduler → Bool × ℕ × TimerManager
stopping timers now events scheduler =
    let (next_timeout, timers') = get_next_timer timers now in
    (
      next_timeout == 2 ^ 64 - 1 && (events.pending == 0 && is_stopping scheduler),
      next_timeout,
      timers',
    )

-- `schedule` of the callbacks; a null one is not queued.
abbrev pub task_of : (Callback → ℕ) → Option Callback → FiberAndThread
task_of named none = record { fiber = none; cb = none; thread = none }
task_of named (some f) = record { fiber = none; cb = some (named f); thread = none }

abbrev pub tasks_for : (Callback → ℕ) → List (Option Callback) → List FiberAndThread
tasks_for named [] = []
tasks_for named (f ∷ cbs) = task_of named f ∷ tasks_for named cbs

-- The expired callbacks are scheduled.
unfoldable pub run_timers : (Callback → ℕ) → Shared → ℕ → ℕ → Shared
run_timers named s now tmp =
    let (cbs, timers) = list_expired_cb s.timers now tmp in
    record s { timers = timers; scheduler = (schedule_all (tasks_for named cbs) s.scheduler).1 }

-- What epoll_wait reports: the pipe, or a descriptor, with the answer of epoll_ctl for it.
pub data Report : Type 0 where
  pipe : Report
  events_of : ℕ → Events → Bool → Bool → Report

abbrev pub handle_report : IoManager → Report → Result IoManager
handle_report m pipe = ok m
handle_report m (events_of fd ready broken fails) = handle_event m fd ready broken fails

unfoldable pub handle_reports : IoManager → List Report → Result IoManager
handle_reports m [] = ok m
handle_reports m (r ∷ reports) = do m' ← handle_report m r; handle_reports m' reports

-- What triggerEvent has handed over goes to the queue of the scheduler.
abbrev pub to_fiber_and_thread : Task → FiberAndThread
to_fiber_and_thread (fiber_task a) = record { fiber = some a; cb = none; thread = none }
to_fiber_and_thread (cb_task f) = record { fiber = none; cb = some f; thread = none }

abbrev pub to_tasks : List Task → List FiberAndThread
to_tasks [] = []
to_tasks (t ∷ ts) = to_fiber_and_thread t ∷ to_tasks ts

abbrev pub hand_over : Shared → IoManager → Shared
hand_over s m = record s {
  events = record m { queue = [] };
  scheduler = (schedule_all (to_tasks m.queue) s.scheduler).1;
}

-- A round of the loop of `idle` after epoll_wait.
unfoldable pub idle_round : (Callback → ℕ) → Shared → ℕ → ℕ → List Report → Result Shared
idle_round named s now tmp reports = do
  m ← handle_reports s.events reports
  ok (hand_over (run_timers named s now tmp) m)
