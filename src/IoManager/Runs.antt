-- ===== src/IoManager/Runs.antt =====
-- The events on concrete inputs.
use link_server.Base.{
  ℕ, ◌-◌, ◌^◌, ◌≤◌, ◌<◌, ◌≡◌, refl, List, [], ◌∷◌, ◌++◌, none, some, true, false, arith, ok, err,
  assertion, pos, negsuc, ◌==◌, if◌then◌else◌, get_elem?,
}
use link_server.Fiber.{new_fiber}
use link_server.Timer.{TimerManager, Callback, direct, on_timer, get_next_timer}
use link_server.Timer.Sets.{mem}
use link_server.Timer.Invariant
use link_server.Timer.Invariant.{is_some}
use link_server.Timer.Collect.{callbacks}
use link_server.Timer.Expiry.{expired}
use mathlib.Core.List.{Perm}
use link_server.Scheduler.{Scheduler, Worker, schedule, is_stopping}
use link_server.Scheduler.System.{holding}
use link_server.Scheduler.Samples.{two_threads-IsStart, at_end, to_end}
use link_server.IoManager.{any}
use link_server.IoManager.Idle.{
  Shared, Report, pipe, events_of, tasks_for, to_tasks, idle_round, wait_time, stopping,
}
use link_server.IoManager.Stopping.{wait_time_lem, stopping_lem}
use link_server.IoManager.Round.{pushed, woken_all, idle_round_lem}
use link_server.IoManager.{
  handle_event, read, FdContext, IoManager, cb_task, new_contexts, waiting, add_event, cancel_all,
  trigger_event,
}
use link_server.IoManager.Registration.{IsValid, add_event_lem}

-- A context that waits to write.
abbrev writer : FdContext
writer = record {
  read = record { has_scheduler = false; fiber = none; cb = none };
  write = waiting (some 5) 0;
  fd = 0;
  events = record { reads = false; writes = true };
}

abbrev one_event : IoManager
one_event = record { contexts = writer ∷ new_contexts 3 1; pending = 1; queue = [] }

one_event-IsValid : IsValid one_event
one_event-IsValid = record {
  all_ok = ((refl, (some 5, 0, refl)), ((refl, refl), ((refl, refl), ((refl, refl), tt))));
  pending_eq = refl;
  pending_lt = omega arith;
}

cancels_all :
    cancel_all one_event 0 false
    ≡ ok (true, record { contexts = new_contexts 4 0; pending = 0; queue = cb_task 5 ∷ [] })
unfolding cancel_all trigger_event
cancels_all = refl

add_event_lem_example :
    (m' : IoManager) × (add_event one_event 0 read false none 7 ≡ ok (true, m'))
    × IsValid m'
    × (m'.queue ≡ [])
add_event_lem_example =
    add_event_lem one_event 0 read false none 7 writer one_event-IsValid (omega arith) refl refl

-- One timer, due at 20, for the callback 8.
abbrev one_timer : TimerManager
one_timer = record {
  store = λ a.
      if a == 2
      then record { recurring = false; ms = 20; next = 20; cb = some (direct 8) }
      else record { recurring = false; ms = 0; next = 0; cb = none };
  timers = 2 ∷ [];
  tickled = false;
  previous_time = 0;
}

only_two : (a : ℕ) → is_some (one_timer.store a).cb ≡ mem a one_timer.timers
only_two a = ground arith

one_timer-IsValid : Invariant.IsValid one_timer
one_timer-IsValid = record { sorted = (tt, tt); armed = only_two }

abbrev idle_scheduler : Scheduler
idle_scheduler = record {
  fibers = [];
  store = λ a. new_fiber none;
  active = 0;
  idle = 1;
  stopping = true;
  auto_stop = true;
}

abbrev busy : Shared
busy = record { timers = one_timer; events = one_event; scheduler = idle_scheduler }

abbrev write_ready : List Report
write_ready = pipe ∷ events_of 0 (record { reads = false; writes = true }) false false ∷ []

abbrev name_of : Callback → ℕ
name_of (direct f) = f
name_of (on_timer c f) = f

idle_round_lem_example :
    (s' : Shared) × (idle_round name_of busy 30 9 write_ready ≡ ok s')
    × Invariant.IsValid s'.timers
    × IsValid s'.events
    × (s'.scheduler.fibers
        ≡ []
          ++ pushed (tasks_for name_of (callbacks one_timer (expired one_timer 30)))
          ++ pushed (to_tasks (woken_all one_event write_ready)))
idle_round_lem_example =
    idle_round_lem name_of busy 30 9 write_ready one_timer-IsValid refl one_event-IsValid refl
      (refl, (writer, refl, (λ h. ground (arith, h), λ h. refl)), tt, tt)

words : (b : ℕ) → (one_timer.store b).next < 2 ^ 64
words b = ground arith

near : (b : ℕ) → mem b one_timer.timers ≡ true → (one_timer.store b).next - 5 < 2 ^ 31
near b h = ground (arith, h)

wait_time_lem_example :
    (d : ℕ) × (wait_time (get_next_timer one_timer 5).0 ≡ pos d)
    × (d ≤ 3000)
    × ((b : ℕ) → mem b one_timer.timers ≡ true → d ≤ (one_timer.store b).next - 5)
wait_time_lem_example = wait_time_lem one_timer 5 one_timer-IsValid words near

-- A timer that is 2^31 ms away makes epoll_wait wait without end.
waits_on : wait_time (2 ^ 31) ≡ negsuc (2 ^ 31 - 1)
unfolding wait_time
waits_on = refl

abbrev no_timer : TimerManager
no_timer = record {
  store = λ a. record { recurring = false; ms = 0; next = 0; cb = none };
  timers = [];
  tickled = false;
  previous_time = 0;
}

no_timer-IsValid : Invariant.IsValid no_timer
no_timer-IsValid = record { sorted = tt; armed = λ a. refl }

abbrev no_event : IoManager
no_event = record { contexts = new_contexts 1 0; pending = 0; queue = [] }

no_event-IsValid : IsValid no_event
no_event-IsValid = record {
  all_ok = ((refl, refl), tt);
  pending_eq = refl;
  pending_lt = omega arith;
}

stops : (stopping no_timer 5 no_event at_end.sched).0 ≡ true
unfolding stopping is_stopping schedule get_next_timer
stops = refl

stopping_lem_example :
    (no_timer.timers ≡ [])
    × ((fd : ℕ) (c : FdContext) → get_elem? no_event.contexts fd ≡ some c → any c.events ≡ false)
    × Perm at_end.pushed at_end.taken
    × ((i : ℕ) (w : Worker) → get_elem? at_end.workers i ≡ some w → holding w ≡ 0)
stopping_lem_example =
    stopping_lem no_timer 5 no_event no_timer-IsValid (λ b. omega arith) (omega arith)
      no_event-IsValid two_threads-IsStart to_end stops

-- Both events are reported, and only the one to write is registered.
unregistered :
    handle_event one_event 0 (record { reads = true; writes = true }) false false ≡ err assertion
unfolding handle_event trigger_event
unregistered = refl
