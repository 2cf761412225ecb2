-- ===== src/Scheduler/Samples.antt =====
-- A run of two threads of a scheduler (linko/scheduler.cc) over one callback.
use link_server.Base.{
  ℕ, refl, [], ◌∷◌, Option, none, some, Bool, true, false, arith, if◌then◌else◌, ◌==◌,
}
use link_server.Fiber.{
  Fiber, State, Outcome, returns, new_fiber, swap_in, swap_out, hold, main_func, reset,
}
use link_server.Scheduler.{
  FiberAndThread, Scheduler, Worker, looking, in_cb, swapped_cb, counted_cb, put_fiber, fetch, look,
  dispatch, come_back, switched_back, counted_down, enter, bind_cb, after_cb, schedule,
}
use link_server.Scheduler.System.{
  System, Reach, here, next, posted, stopped, looked, moved, posts, stops, looks, dispatches,
  comes_back,
}
use link_server.Scheduler.Safe.{IsStart, after_fetch}

-- Fibers 10 and 11 are the idle fibers of the two threads; fiber 7 is held.
abbrev pub fibers_of : ℕ → Fiber
fibers_of a =
    if a == 7 then record { state = hold; cb = some 70; has_stack = true } else new_fiber (some 0)

abbrev pub idle_scheduler : Scheduler
idle_scheduler = record {
  fibers = [];
  store = fibers_of;
  active = 0;
  idle = 0;
  stopping = false;
  auto_stop = false;
}

abbrev pub worker : ℕ → ℕ → Worker
worker t a = record { thread = t; phase = looking; cb_fiber = none; idle_fiber = a }

abbrev pub two_threads : System
two_threads = record {
  sched = idle_scheduler;
  workers = worker 1 10 ∷ worker 2 11 ∷ [];
  pushed = [];
  taken = [];
}

abbrev pub callback : ℕ → Option ℕ → FiberAndThread
callback f t = record { fiber = none; cb = some f; thread = t }

pub two_threads-IsStart : IsStart two_threads
two_threads-IsStart = record {
  fibers_eq = refl;
  active_eq = refl;
  idle_eq = refl;
  pushed_eq = refl;
  taken_eq = refl;
  all_looking = (refl, (refl, tt));
  few = omega arith;
}

abbrev at_post : System
at_post = posted two_threads (callback 5 (some 2))

abbrev at_stop : System
at_stop = stopped at_post

abbrev of_look : Bool × Scheduler × Worker
of_look = after_fetch at_stop.sched (worker 2 11) (false, some (callback 5 (some 2)), [])

abbrev pub at_look : System
at_look = looked at_stop 1 of_look

pub to_look : Reach two_threads at_look
unfolding look fetch schedule
to_look =
    next (next (next here (posts two_threads (callback 5 (some 2)))) (stops at_post))
      (looks at_stop 1 (worker 2 11) of_look refl refl refl)

-- The callback starts on a fiber made for it, at 20, and ends.
abbrev running : Fiber
running = record { state = State.exec; cb = some 5; has_stack = true }

abbrev pub in_callback : Worker
in_callback = record { thread = 2; phase = in_cb; cb_fiber = some 20; idle_fiber = 11 }

abbrev at_enter : System
at_enter =
    moved at_look 1 []
      (record at_look.sched {
        store = put_fiber (put_fiber fibers_of 20 (new_fiber (some 5))) 20 running;
      })
      in_callback

to_enter : Reach two_threads at_enter
unfolding dispatch bind_cb enter swap_in schedule
to_enter = next to_look (
    dispatches at_look 1 20 of_look.2 in_callback (some (callback 5 (some 2))) at_enter.sched refl
      refl refl)

-- It has switched back, at the end of its function or as ready, and is then counted down.
abbrev in_swapped : Worker
in_swapped = record in_callback { phase = swapped_cb }

abbrev pub in_counted : Worker
in_counted = record in_callback { phase = counted_cb }

abbrev at_swapped : Outcome → System
at_swapped o = moved at_enter 1 [] (switched_back at_enter.sched 20 o) in_swapped

abbrev pub at_counted : Outcome → System
at_counted o = moved (at_swapped o) 1 [] (counted_down (at_swapped o).sched) in_counted

to_counted : (o : Outcome) → Reach two_threads (at_counted o)
unfolding come_back schedule
to_counted o =
    next
      (next to_enter
        (comes_back at_enter 1 in_callback in_swapped o [] (at_swapped o).sched refl refl))
      (comes_back (at_swapped o) 1 in_swapped in_counted o [] (at_counted o).sched refl refl)

abbrev pub at_end : System
at_end =
    moved (at_counted returns) 1 []
      (record (at_counted returns).sched {
        store = put_fiber (at_counted returns).sched.store 20 (new_fiber none);
      })
      (record in_callback { phase = looking })

pub to_end : Reach two_threads at_end
unfolding come_back after_cb swap_out main_func reset schedule
to_end = next (to_counted returns) (
    comes_back (at_counted returns) 1 in_counted (record in_callback { phase = looking }) returns []
      at_end.sched refl refl)
