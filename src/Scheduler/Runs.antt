-- ===== src/Scheduler/Runs.antt =====
-- Runs of the scheduler (linko/scheduler.cc) on concrete tasks.
use mathlib.Core.List.{Perm}
use link_server.Base.{
  ℕ, ◌≡◌, refl, List, [], ◌∷◌, none, some, true, false, ok, err, assertion, get_elem?,
}
use link_server.Fiber.{yields_ready, swap_out, yield_to_ready}
use link_server.Scheduler.{
  FiberAndThread, Scheduler, Worker, looking, counted_cb, in_fiber, fetch, look, dispatch,
  come_back, fiber_task, handed, after_cb, schedule, is_stopping,
}
use link_server.Scheduler.System.{IsValid, holding}
use link_server.Scheduler.Safe.{Reach-IsValid, is_stopping_lem, dispatch_twice}
use link_server.Scheduler.Samples.{
  fibers_of, idle_scheduler, worker, callback, two_threads-IsStart, at_look, to_look, in_callback,
  in_counted, at_counted, at_end, to_end,
}

-- A callback for thread 2, which thread 1 passes over, and one for any thread.
abbrev queue : List FiberAndThread
queue = callback 5 (some 2) ∷ callback 6 none ∷ []

fetch_queue : fetch 1 fibers_of queue ≡ ok (true, some (callback 6 none), callback 5 (some 2) ∷ [])
unfolding fetch
fetch_queue = refl

Reach-IsValid_example : IsValid at_look
Reach-IsValid_example = Reach-IsValid two_threads-IsStart to_look

at_end-is_stopping : is_stopping at_end.sched ≡ true
unfolding is_stopping schedule
at_end-is_stopping = refl

is_stopping_lem_example :
    Perm at_end.pushed at_end.taken
    × ((i : ℕ) (w : Worker) → get_elem? at_end.workers i ≡ some w → holding w ≡ 0)
is_stopping_lem_example = is_stopping_lem two_threads-IsStart to_end at_end-is_stopping

-- A fiber that yields as ready: `stopping` is true once it is counted down, and then it is scheduled.
early_stopping : is_stopping (at_counted yields_ready).sched ≡ true
unfolding is_stopping schedule
early_stopping = refl

scheduled_later :
    come_back counted_cb (at_counted yields_ready).sched in_counted yields_ready
    ≡ ok (
      fiber_task 20 ∷ [],
      record (at_counted yields_ready).sched { fibers = fiber_task 20 ∷ [] },
      record in_callback { phase = looking; cb_fiber = none },
    )
unfolding come_back after_cb schedule swap_out yield_to_ready
scheduled_later = refl

abbrev twice : Scheduler
twice = record idle_scheduler { fibers = fiber_task 7 ∷ fiber_task 7 ∷ [] }

dispatch_twice_example :
    (s1 s2 s3 : Scheduler) × (w1 v1 w2 : Worker) × (look twice (worker 1 10) ≡ ok (false, s1, w1))
    × (handed w1.phase ≡ some (fiber_task 7))
    × (look s1 (worker 2 11) ≡ ok (false, s2, v1))
    × (handed v1.phase ≡ some (fiber_task 7))
    × (dispatch s2 w1 (handed w1.phase) 20 ≡ ok (s3, w2))
    × (w2.phase ≡ in_fiber 7)
    × (dispatch s3 v1 (handed v1.phase) 20 ≡ err assertion)
dispatch_twice_example = dispatch_twice twice 7 20 (worker 1 10) (worker 2 11) refl refl
