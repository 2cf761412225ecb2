-- ===== src/IoManager/Round.antt =====
-- linko/iomanager.cc: what a round of `idle` does with the events that are reported.
use mathlib.Core.List.{append-nil, append_assoc}
use link_server.Base.{
  ℕ, ◌≡◌, ◌≢◌, refl, sym, ap, ◌∙◌, inl, inr, List, [], ◌∷◌, ◌++◌, Option, none, some, Bool, true,
  false, ◌&&◌, ◌||◌, if◌then◌else◌, ok, get_elem?, arith, Bool-cases,
}
use link_server.Timer.{Callback, list_expired_cb}
use link_server.Timer.Sets.{mem}
use link_server.Timer.Invariant
use link_server.Timer.Collect.{callbacks}
use link_server.Timer.Expiry.{expired, list_expired_cb_lem}
use link_server.Scheduler.{FiberAndThread, pushed_by, schedule_range, schedule_all}
use link_server.IoManager.{
  read, write, FdContext, IoManager, Task, Events, tasks_of, real_events, handle_event,
}
use link_server.IoManager.Registration.{IsValid}
use link_server.IoManager.Cancel.{trigger_if_lem}
use link_server.IoManager.Idle.{
  Shared, Report, pipe, events_of, handle_reports, tasks_for, to_tasks, hand_over, run_timers,
  idle_round,
}

-- The tasks that a report wakes.
abbrev pub woken : Option FdContext → Events → Bool → List Task
woken none ready broken = []
woken (some c) ready broken =
    (if (real_events ready c.events broken).reads then tasks_of c.read else [])
    ++ (if (real_events ready c.events broken).writes then tasks_of c.write else [])

-- Only events that are registered are reported.
abbrev pub Within : Events → FdContext → Bool → Type 0
Within ready c broken =
    ((real_events ready c.events broken).reads ≡ true → c.events.reads ≡ true)
    × ((real_events ready c.events broken).writes ≡ true → c.events.writes ≡ true)

nothing :
    (a b c d : Bool)
    → (b ≡ true → a ≡ true)
    → (d ≡ true → c ≡ true)
    → (a && b || (c && d)) ≡ false
    → (b ≡ false) × (d ≡ false)
nothing true true c d p q h = ground (arith, h)
nothing true false true true p q h = ground (arith, h)
nothing true false true false p q h = (refl, refl)
nothing true false false true p q h = let z = q refl in ground (arith, z)
nothing true false false false p q h = (refl, refl)
nothing false true c d p q h = let z = p refl in ground (arith, z)
nothing false false true true p q h = ground (arith, h)
nothing false false true false p q h = (refl, refl)
nothing false false false true p q h = let z = q refl in ground (arith, z)
nothing false false false false p q h = (refl, refl)

-- On a valid manager, where only events that are registered on a descriptor are reported and
-- epoll_ctl does not fail, the body of the loop of `idle` meets no failing assertion, keeps the
-- manager valid, hands over what waited for those events, and leaves the other descriptors.
pub handle_event_lem :
    (m : IoManager) (fd : ℕ) (c : FdContext) (ready : Events) (broken : Bool)
    → IsValid m
    → get_elem? m.contexts fd ≡ some c
    → Within ready c broken
    → (m' : IoManager) × (handle_event m fd ready broken false ≡ ok m')
      × IsValid m'
      × (m'.queue ≡ m.queue ++ woken (some c) ready broken)
      × ((i : ℕ) → i ≢ fd → get_elem? m'.contexts i ≡ get_elem? m.contexts i)
unfolding handle_event
handle_event_lem m fd c ready broken v got (wr, ww) =
    let real = real_events ready c.events broken in
    let test = c.events.reads && real.reads || (c.events.writes && real.writes) in
    elim (Bool-cases test) [
      | inr off ↦
          let (r, w) = nothing c.events.reads real.reads c.events.writes real.writes wr ww off in
          (m, rw (handle_event, got, off), v, rw (r, w) (sym (append-nil m.queue)), λ i ne. refl)
      | inl on ↦
          let (c1, m1, r1, v1, g1, k1, q1, o1) = trigger_if_lem m fd c read real.reads v got wr in
          let (c2, m2, r2, v2, g2, k2, q2, o2) =
            trigger_if_lem m1 fd c1 write real.writes v1 g1 (λ h. k1.kept ∙ ww h) in
          let same : tasks_of c1.write ≡ tasks_of c.write = ap tasks_of k1.same in
          (
            m2,
            rw (handle_event, got, on, r1, r2),
            v2,
            q2
                ∙ ap (λ t. m1.queue ++ (if real.writes then t else [])) same
                ∙ ap (λ t. t ++ (if real.writes then tasks_of c.write else [])) q1
                ∙ append_assoc m.queue (if real.reads then tasks_of c.read else [])
                    (if real.writes then tasks_of c.write else []),
            λ i ne. o2 i ne ∙ o1 i ne,
          )
    ]

-- No later report is on the descriptor.
abbrev pub Apart : ℕ → List Report → Type 0
Apart fd [] = Unit {0}
Apart fd (pipe ∷ reports) = Apart fd reports
Apart fd (events_of i ready broken fails ∷ reports) = (i ≢ fd) × Apart fd reports

-- Each descriptor is reported once, with registered events, and epoll_ctl does not fail on it.
abbrev pub AllWithin : IoManager → List Report → Type 0
AllWithin m [] = Unit {0}
AllWithin m (pipe ∷ reports) = AllWithin m reports
AllWithin m (events_of fd ready broken fails ∷ reports) =
    (fails ≡ false)
    × ((c : FdContext) × (get_elem? m.contexts fd ≡ some c) × Within ready c broken)
    × Apart fd reports
    × AllWithin m reports

abbrev pub woken_all : IoManager → List Report → List Task
woken_all m [] = []
woken_all m (pipe ∷ reports) = woken_all m reports
woken_all m (events_of fd ready broken fails ∷ reports) =
    woken (get_elem? m.contexts fd) ready broken ++ woken_all m reports

others-AllWithin :
    (m m' : IoManager) (fd : ℕ) (reports : List Report)
    → ((i : ℕ) → i ≢ fd → get_elem? m'.contexts i ≡ get_elem? m.contexts i)
    → Apart fd reports
    → AllWithin m reports
    → AllWithin m' reports × (woken_all m' reports ≡ woken_all m reports)
others-AllWithin m m' fd [] o a w = (tt, refl)
others-AllWithin m m' fd (pipe ∷ reports) o a w = others-AllWithin m m' fd reports o a w
others-AllWithin m m' fd (events_of i ready broken fails ∷ reports) o (ne, a)
      (f, (c, got, h), b, w) =
    let (w', e) = others-AllWithin m m' fd reports o a w in
    (
      (f, (c, o i ne ∙ got, h), b, w'),
      ap (λ t. woken t ready broken ++ woken_all m' reports) (o i ne)
          ∙ ap (λ t. woken (get_elem? m.contexts i) ready broken ++ t) e,
    )

reports_lem :
    (reports : List Report) (m : IoManager)
    → IsValid m
    → AllWithin m reports
    → (m' : IoManager) × (handle_reports m reports ≡ ok m')
      × IsValid m'
      × (m'.queue ≡ m.queue ++ woken_all m reports)
unfolding handle_reports
reports_lem [] m v w = (m, refl, v, sym (append-nil m.queue))
reports_lem (pipe ∷ reports) m v w = reports_lem reports m v w
reports_lem (events_of fd ready broken fails ∷ reports) m v (f, (c, got, h), a, w) =
    let (m1, run, v1, q, o) = handle_event_lem m fd c ready broken v got h in
    let (w1, e) = others-AllWithin m m1 fd reports o a w in
    let (m', run', v', q') = reports_lem reports m1 v1 w1 in
    (
      m',
      rw (f, run) run',
      v',
      q'
          ∙ ap (λ t. m1.queue ++ t) e
          ∙ ap (λ t. t ++ woken_all m reports) q
          ∙ append_assoc m.queue (woken (some c) ready broken) (woken_all m reports)
          ∙ ap (λ t. m.queue ++ (woken t ready broken ++ woken_all m reports)) (sym got),
    )

-- What a range of tasks adds to the queue.
abbrev pub pushed : List FiberAndThread → List FiberAndThread
pushed [] = []
pushed (ft ∷ fts) = pushed_by ft ++ pushed fts

schedule_range_lem : (fts q : List FiberAndThread) → (schedule_range fts q).1 ≡ q ++ pushed fts
schedule_range_lem [] q = sym (append-nil q)
schedule_range_lem (ft ∷ fts) q =
    schedule_range_lem fts (q ++ pushed_by ft) ∙ append_assoc q (pushed_by ft) (pushed fts)

-- With valid timers and events, nothing left to hand over, and an address for the time that is that of
-- no timer of the set: where each descriptor is reported once, with registered events, and epoll_ctl
-- does not fail, a round of `idle` meets no failing assertion and leaves timers and events valid,
-- and the queue of the scheduler has, after what it had, the callbacks of the expired timers and
-- then what waited for the reported events, and nothing else.
pub idle_round_lem :
    (named : Callback → ℕ) (s : Shared) (now tmp : ℕ) (reports : List Report)
    → Invariant.IsValid s.timers
    → mem tmp s.timers.timers ≡ false
    → IsValid s.events
    → s.events.queue ≡ []
    → AllWithin s.events reports
    → (s' : Shared) × (idle_round named s now tmp reports ≡ ok s')
      × Invariant.IsValid s'.timers
      × IsValid s'.events
      × (s'.scheduler.fibers
          ≡ s.scheduler.fibers
            ++ pushed (tasks_for named (callbacks s.timers (expired s.timers now)))
            ++ pushed (to_tasks (woken_all s.events reports)))
unfolding idle_round run_timers schedule_all
idle_round_lem named s now tmp reports tv out v empty w =
    let (m', run, v', q) = reports_lem reports s.events v w in
    let collected = list_expired_cb_lem s.timers now tmp tv out in
    let cbs = tasks_for named (list_expired_cb s.timers now tmp).0 in
    let queue : m'.queue ≡ woken_all s.events reports =
      q ∙ ap (λ t. t ++ woken_all s.events reports) empty in
    (
      hand_over (run_timers named s now tmp) m',
      rw run refl,
      collected.valid,
      record { all_ok = v'.all_ok; pending_eq = v'.pending_eq; pending_lt = v'.pending_lt },
      schedule_range_lem (to_tasks m'.queue) (schedule_range cbs s.scheduler.fibers).1
          ∙ ap (λ t. t ++ pushed (to_tasks m'.queue)) (schedule_range_lem cbs s.scheduler.fibers)
          ∙ rw (queue, collected.cbs_eq) refl,
    )
