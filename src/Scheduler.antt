-- ===== src/Scheduler.antt =====
-- linko/scheduler.h and linko/scheduler.cc: the queue of tasks and the loop of a thread over it. The
-- body of the loop is cut where other threads may step in: after a task is fetched, while a
-- coroutine runs, after it has switched back, and after the thread has counted its task down. Fibers
-- stand in a store that is indexed by address.
pub mod Fetch
pub mod System
pub mod Keeps
pub mod Safe
pub mod Samples
mod Runs
use link_server.Base.{
  ℕ, ◌+◌, List, [], ◌∷◌, ◌++◌, Option, none, some, Bool, true, false, not, ◌==◌, ◌&&◌, ◌||◌,
  if◌then◌else◌, Result, ok, err, assertion, null_deref, ◌>>=◌, add64, sub64,
}
use link_server.Fiber.{
  State, Fiber, Outcome, hold, new_fiber, is_exec, is_ready, is_over, reset, swap_in, swap_out,
}

-- A task: a fiber or a callback, and the thread that it is bound to; `none` is -1 and null.
pub record FiberAndThread : Type 0 where
  pub fiber : Option ℕ
  pub cb : Option ℕ
  pub thread : Option ℕ

pub record Scheduler : Type 0 where
  pub fibers : List FiberAndThread
  pub store : ℕ → Fiber
  pub active : ℕ
  pub idle : ℕ
  pub stopping : Bool
  pub auto_stop : Bool

abbrev pub put_fiber : (ℕ → Fiber) → ℕ → Fiber → ℕ → Fiber
put_fiber s a f b = if a == b then f else s b

abbrev pub is_null : FiberAndThread → Bool
is_null ft = elim ft.fiber [ some a ↦ false | none ↦ elim ft.cb [ some f ↦ false | none ↦ true ] ]

abbrev pub is_nil : List FiberAndThread → Bool
is_nil [] = true
is_nil (x ∷ q) = false

-- What a task adds to the queue.
abbrev pub pushed_by : FiberAndThread → List FiberAndThread
pushed_by ft = if is_null ft then [] else ft ∷ []

-- Whether a tickle is needed, and the new queue.
abbrev pub schedule_no_lock : FiberAndThread → List FiberAndThread → Bool × List FiberAndThread
schedule_no_lock ft q = (is_nil q, q ++ pushed_by ft)

unfoldable pub schedule : FiberAndThread → Scheduler → Bool × Scheduler
schedule ft s =
    let (need_tickle, q) = schedule_no_lock ft s.fibers in (need_tickle, record s { fibers = q })

-- The loop of the other `schedule`, over a range.
abbrev pub schedule_range : List FiberAndThread → List FiberAndThread → Bool × List FiberAndThread
schedule_range [] q = (false, q)
schedule_range (ft ∷ fts) q =
    let (this, q') = schedule_no_lock ft q in
    let (later, q'') = schedule_range fts q' in (this || later, q'')

unfoldable pub schedule_all : List FiberAndThread → Scheduler → Bool × Scheduler
schedule_all fts s =
    let (need_tickle, q) = schedule_range fts s.fibers in (need_tickle, record s { fibers = q })

-- The task is bound to another thread.
abbrev pub is_elsewhere : ℕ → FiberAndThread → Bool
is_elsewhere this ft = elim ft.thread [ none ↦ false | some t ↦ not (t == this) ]

-- The task's fiber is running.
abbrev pub is_running : (ℕ → Fiber) → FiberAndThread → Bool
is_running s ft = elim ft.fiber [ none ↦ false | some a ↦ is_exec (s a).state ]

abbrev pub Fetched : Type 0
Fetched = Bool × Option FiberAndThread × List FiberAndThread

-- A task that is passed over stays in the queue.
abbrev pub pass_over : Bool → FiberAndThread → Fetched → Fetched
pass_over elsewhere ft (tickle_me, got, q) = (elsewhere || tickle_me, got, ft ∷ q)

-- The search for a task: whether another thread is to be tickled, the task, and the queue.
unfoldable pub fetch : ℕ → (ℕ → Fiber) → List FiberAndThread → Result Fetched
fetch this s [] = ok (false, none, [])
fetch this s (ft ∷ q) =
    let later = fetch this s q in
    if is_elsewhere this ft
    then (do r ← later; ok (pass_over true ft r))
    else if is_null ft
    then err assertion
    else if is_running s ft
    then (do r ← later; ok (pass_over false ft r))
    else ok (false, some ft, q)

-- Where a thread is in the body of its loop: `swapped_` after the fiber has switched back, `counted_`
-- after m_activeThreadCount is counted down for it.
pub data Phase : Type 0 where
  looking in_cb swapped_cb counted_cb in_idle done : Phase
  fetched : Option FiberAndThread → Phase
  in_fiber swapped_fiber counted_fiber : ℕ → Phase

-- The task that a thread has fetched.
abbrev pub handed : Phase → Option FiberAndThread
handed (fetched got) = got
handed _ = none

-- The locals of `run` on one thread.
pub record Worker : Type 0 where
  pub thread : ℕ
  pub phase : Phase
  pub cb_fiber : Option ℕ
  pub idle_fiber : ℕ

abbrev pub count_got : Option FiberAndThread → ℕ → ℕ
count_got none n = n
count_got (some ft) n = add64 n 1

-- The part of the body under the lock.
unfoldable pub look : Scheduler → Worker → Result (Bool × Scheduler × Worker)
look s w = do
  (tickle_me, got, q) ← fetch w.thread s.store s.fibers
  ok (
    tickle_me,
    record s { fibers = q; active = count_got got s.active },
    record w { phase = fetched got },
  )

-- Switching to the fiber at `a`.
unfoldable pub enter : Scheduler → ℕ → Result Scheduler
enter s a = do f ← swap_in (s.store a); ok (record s { store = put_fiber s.store a f })

-- The fiber that runs callbacks on this thread, which is reset or made anew, at `fresh`.
unfoldable pub bind_cb : Scheduler → Option ℕ → ℕ → ℕ → Result (ℕ × Scheduler)
bind_cb s none fresh f =
    ok (fresh, record s { store = put_fiber s.store fresh (new_fiber (some f)) })
bind_cb s (some a) fresh f = do
  g ← reset (s.store a) (some f)
  ok (a, record s { store = put_fiber s.store a g })

abbrev pub run_cb : Scheduler → Worker → Option ℕ → ℕ → Result (Scheduler × Worker)
run_cb s w none fresh = ok (record s { active = sub64 s.active 1 }, record w { phase = looking })
run_cb s w (some f) fresh = do
  (a, s1) ← bind_cb s w.cb_fiber fresh f
  s2 ← enter s1 a
  ok (s2, record w { phase = in_cb; cb_fiber = some a })

abbrev pub run_fiber : Scheduler → Worker → Option ℕ → Option ℕ → ℕ → Result (Scheduler × Worker)
run_fiber s w none cb fresh = run_cb s w cb fresh
run_fiber s w (some a) cb fresh =
    if is_over (s.store a).state
    then run_cb s w cb fresh
    else (do s' ← enter s a; ok (s', record w { phase = in_fiber a }))

abbrev pub is_term : State → Bool
is_term State.term = true
is_term _ = false

abbrev pub run_idle : Scheduler → Worker → Result (Scheduler × Worker)
run_idle s w =
    if is_term (s.store w.idle_fiber).state then ok (s, record w { phase = done }) else (do
      s' ← enter s w.idle_fiber
      ok (record s' { idle = add64 s'.idle 1 }, record w { phase = in_idle }))

-- From the task fetched to the switch to a fiber.
unfoldable pub dispatch :
    Scheduler → Worker → Option FiberAndThread → ℕ → Result (Scheduler × Worker)
dispatch s w none fresh = run_idle s w
dispatch s w (some ft) fresh = run_fiber s w ft.fiber ft.cb fresh

abbrev pub held : Fiber → Fiber
held f = if is_over f.state then f else record f { state = hold }

abbrev pub fiber_task : ℕ → FiberAndThread
fiber_task a = record { fiber = some a; cb = none; thread = none }

-- The fiber at `a` runs until it switches back.
abbrev pub switched_back : Scheduler → ℕ → Outcome → Scheduler
switched_back s a o = record s { store = put_fiber s.store a (swap_out o (s.store a)) }

-- m_activeThreadCount is counted down.
abbrev pub counted_down : Scheduler → Scheduler
counted_down s = record s { active = sub64 s.active 1 }

abbrev pub put_held : Scheduler → ℕ → Scheduler
put_held s a = record s { store = put_fiber s.store a (held (s.store a)) }

-- A fiber that is ready is scheduled again; another is held unless it is over.
unfoldable pub after_fiber : Scheduler → ℕ → List FiberAndThread × Scheduler
after_fiber s a =
    if is_ready (s.store a).state
    then (fiber_task a ∷ [], (schedule (fiber_task a) s).1)
    else ([], put_held s a)

-- The same for the fiber that runs callbacks, which is kept where it is over.
unfoldable pub after_cb : Scheduler → ℕ → Result (Option ℕ × List FiberAndThread × Scheduler)
after_cb s a =
    if is_ready (s.store a).state
    then ok (none, fiber_task a ∷ [], (schedule (fiber_task a) s).1)
    else if is_over (s.store a).state
    then (do
      g ← reset (s.store a) none
      ok (some a, [], record s { store = put_fiber s.store a g }))
    else ok (none, [], put_held s a)

abbrev pub Back : Type 0
Back = Result (List FiberAndThread × Scheduler × Worker)

abbrev pub back_from_cb : Scheduler → Worker → Option ℕ → Outcome → Back
back_from_cb s w none o = err null_deref
back_from_cb s w (some a) o = ok ([], switched_back s a o, record w { phase = swapped_cb })

abbrev pub finish_cb : Scheduler → Worker → Option ℕ → Back
finish_cb s w none = err null_deref
finish_cb s w (some a) = do
  (cb_fiber', ps, s') ← after_cb s a
  ok (ps, s', record w { phase = looking; cb_fiber = cb_fiber' })

-- The idle fiber is the thread's own, so that only the counter is shared.
abbrev pub back_from_idle : Scheduler → Worker → Outcome → Back
back_from_idle s w o =
    let back = switched_back s w.idle_fiber o in
    ok (
      [],
      record (put_held back w.idle_fiber) { idle = sub64 s.idle 1 },
      record w { phase = looking },
    )

-- What a thread does next after it has switched to a fiber: the fiber runs until it switches back,
-- the thread counts its task down, and it schedules the fiber again or not. The answer is what is
-- scheduled again, and the new state.
unfoldable pub come_back : Phase → Scheduler → Worker → Outcome → Back
come_back (in_fiber a) s w o = ok ([], switched_back s a o, record w { phase = swapped_fiber a })
come_back (swapped_fiber a) s w o = ok ([], counted_down s, record w { phase = counted_fiber a })
come_back (counted_fiber a) s w o =
    let (ps, s') = after_fiber s a in ok (ps, s', record w { phase = looking })
come_back in_cb s w o = back_from_cb s w w.cb_fiber o
come_back swapped_cb s w o = ok ([], counted_down s, record w { phase = counted_cb })
come_back counted_cb s w o = finish_cb s w w.cb_fiber
come_back in_idle s w o = back_from_idle s w o
come_back _ s w o = err assertion

-- The tests of `stopping`.
unfoldable pub is_stopping : Scheduler → Bool
is_stopping s = s.auto_stop && (s.stopping && (is_nil s.fibers && s.active == 0))
