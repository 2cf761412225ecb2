-- ===== src/Scheduler/Safe.antt =====
-- What holds of every state that the threads of a scheduler can reach.
use mathlib.Core.List.{Perm, append_assoc, append-nil}
use mathlib.Core.List.Perm
use link_server.Base.{
  ℕ, ◌^◌, ◌<◌, ◌≡◌, refl, sym, ap, ◌∙◌, subst, List, [], ◌∷◌, ◌++◌, Option, none, some, Bool, true,
  false, ok, ok-bind, ok-inj, inl, inr, arith, get_elem?, length, length-set, sum, ◌==◌, ◌&&◌,
  sum-set, sum-get, err, assertion,
}
use link_server.Fiber.{Fiber, hold, exec, swap_in}
use link_server.Scheduler.{
  FiberAndThread, Fetched, Scheduler, Worker, Phase, looking, fetched, pushed_by, schedule, fetch,
  look, dispatch, count_got, is_stopping, is_nil, fiber_task, enter, handed, in_fiber, put_fiber,
}
use link_server.Scheduler.Fetch.{Answer, fetch_lem, got_list, Answer-perm}
use link_server.Scheduler.System.{
  System, Step, Reach, posts, stops, looks, dispatches, comes_back, here, next, looked, IsValid,
  holding, idling, holds, idles, holds_le, idles_le, Counts, Counts-sum, NoNull-append,
  NoNull-pushed_by, pushed-perm, moved-IsValid,
}
use link_server.Scheduler.Keeps.{dispatch-Kept, come_back-Kept}

-- What `look` makes of a search.
abbrev pub after_fetch : Scheduler → Worker → Fetched → Bool × Scheduler × Worker
after_fetch s w (tickle_me, got, q) = (
  tickle_me,
  record s { fibers = q; active = count_got got s.active },
  record w { phase = fetched got },
)

count_got-Counts :
    (got : Option FiberAndThread) (n k : ℕ)
    → k ≡ 0
    → Counts n (count_got got n) k (holds (fetched got))
count_got-Counts none n k e = inl (refl, sym e)
count_got-Counts (some ft) n k e = inr (inl (refl, e, refl))

looked-IsValid :
    (s : System) (i : ℕ) (w : Worker) (r : Bool × Scheduler × Worker)
    → IsValid s
    → get_elem? s.workers i ≡ some w
    → w.phase ≡ looking
    → look s.sched w ≡ ok r
    → IsValid (looked s i r)
unfolding look
looked-IsValid s i w r v at p e =
    let (f, run, a) = fetch_lem w.thread s.sched.store s.sched.fibers v.no_null in
    let (f', run', e1) = ok-bind (fetch w.thread s.sched.store s.sched.fibers) _ r e in
    let same : f' ≡ f = ok-inj (sym run' ∙ run) in
    let made : after_fetch s.sched w f ≡ r = ap (after_fetch s.sched w) (sym same) ∙ ok-inj e1 in
    let (perm, nn) = Answer-perm w.thread s.sched.store s.sched.fibers f v.no_null a in
    let w' : Worker = record w { phase = fetched f.1 } in
    subst (λ x. IsValid (looked s i x)) made
      (record {
        no_null = nn;
        tasks =
            rw (append_assoc s.taken (got_list f.1) f.2)
              (Perm.trans v.tasks (Perm.append_left s.taken perm));
        active_eq =
            Counts-sum holding s.workers i _ _ w w' (λ x. holds_le x.phase) v.few at v.active_eq
              (count_got-Counts f.1 s.sched.active (holding w) (ap holds p));
        idle_eq =
            Counts-sum idling s.workers i _ _ w w' (λ x. idles_le x.phase) v.few at v.idle_eq
              (inl (refl, sym (ap idles p)));
        few = omega (arith, v.few, length-set s.workers i w');
      })

Step-IsValid : {s t : System} → Step s t → IsValid s → IsValid t
unfolding schedule
Step-IsValid (posts s ft) v = record {
  no_null = NoNull-append s.sched.fibers (pushed_by ft) v.no_null (NoNull-pushed_by ft);
  tasks = pushed-perm s.pushed s.taken s.sched.fibers (pushed_by ft) v.tasks;
  active_eq = v.active_eq;
  idle_eq = v.idle_eq;
  few = v.few;
}
Step-IsValid (stops s) v = record {
  no_null = v.no_null;
  tasks = v.tasks;
  active_eq = v.active_eq;
  idle_eq = v.idle_eq;
  few = v.few;
}
Step-IsValid (looks s i w r at p e) v = looked-IsValid s i w r v at p e
Step-IsValid (dispatches s i fresh w w' got sched' at p e) v =
    moved-IsValid s i [] sched' w w' v at (dispatch-Kept s.sched w got fresh (sched', w') p e)
Step-IsValid (comes_back s i w w' o ps sched' at e) v =
    moved-IsValid s i ps sched' w w' v at
      (come_back-Kept s.sched w (ps, sched', w') o w.phase refl e)

IsValid-Reach : {s t : System} → IsValid s → Reach s t → IsValid t
IsValid-Reach v here = v
IsValid-Reach v (next r st) = Step-IsValid st (IsValid-Reach v r)

abbrev pub AllLooking : List Worker → Type 0
AllLooking [] = Unit {0}
AllLooking (w ∷ ws) = (w.phase ≡ looking) × AllLooking ws

-- A scheduler whose threads have not begun: its queue is empty and its counters are zero.
pub record IsStart (s : System) : Type 0 where
  pub fibers_eq : s.sched.fibers ≡ []
  pub active_eq : s.sched.active ≡ 0
  pub idle_eq : s.sched.idle ≡ 0
  pub pushed_eq : s.pushed ≡ []
  pub taken_eq : s.taken ≡ []
  pub all_looking : AllLooking s.workers
  pub few : length s.workers < 2 ^ 64

sum-looking :
    (f : Phase → ℕ) (ws : List Worker) → f looking ≡ 0 → AllLooking ws → sum (λ w. f w.phase) ws ≡ 0
sum-looking f [] e h = refl
sum-looking f (w ∷ ws) e (p, h) =
    let ih = sum-looking f ws e h in let k : f w.phase ≡ 0 = ap f p ∙ e in omega (arith, ih, k)

IsStart-IsValid : (s : System) → IsStart s → IsValid s
IsStart-IsValid s b = record {
  no_null = rw b.fibers_eq tt;
  tasks = rw (b.pushed_eq, b.taken_eq, b.fibers_eq) Perm.nil;
  active_eq = b.active_eq ∙ sym (sum-looking holds s.workers refl b.all_looking);
  idle_eq = b.idle_eq ∙ sym (sum-looking idles s.workers refl b.all_looking);
  few = b.few;
}

-- In every state that fewer than 2^64 threads reach from the start, with an empty queue and counters at
-- zero, in whatever order they step and whatever is scheduled meanwhile: no task is lost and none is taken twice, since the tasks ever scheduled are, up to
-- order, those taken and those in the queue; no empty task is in the queue; and
-- m_activeThreadCount and m_idleThreadCount count the threads that hold a task they have not counted
-- down, and those that idle.
pub Reach-IsValid : {s t : System} → IsStart s → Reach s t → IsValid t
Reach-IsValid {s = s} b r = IsValid-Reach (IsStart-IsValid s b) r

sum-zero :
    (f : Worker → ℕ) (ws : List Worker) (i : ℕ) (w : Worker)
    → sum f ws ≡ 0
    → get_elem? ws i ≡ some w
    → f w ≡ 0
sum-zero f ws i w h at =
    let t = sum-set f ws i w w at in let le = sum-get f ws i w at in omega (arith, le)

stopping_parts : (a b c d : Bool) → (a && (b && (c && d))) ≡ true → (c ≡ true) × (d ≡ true)
stopping_parts a b c d h = (ground (arith, h), ground (arith, h))

is_nil-to : (q : List FiberAndThread) → is_nil q ≡ true → q ≡ []
is_nil-to [] h = refl
is_nil-to (x ∷ q) h = cc h

-- Where `stopping` holds in a state that fewer than 2^64 threads reach from the start, in which any
-- thread may stand between any two of its steps: every task that was scheduled has been taken, once,
-- and no thread holds a task that it has not counted down. (A thread may have counted its task down
-- and still be about to schedule the fiber again.)
pub is_stopping_lem :
    {s t : System}
    → IsStart s
    → Reach s t
    → is_stopping t.sched ≡ true
    → Perm t.pushed t.taken
      × ((i : ℕ) (w : Worker) → get_elem? t.workers i ≡ some w → holding w ≡ 0)
unfolding is_stopping
is_stopping_lem {t = t} b r h =
    let v = Reach-IsValid b r in
    let (q, a) =
      stopping_parts t.sched.auto_stop t.sched.stopping (is_nil t.sched.fibers)
        (t.sched.active == 0) h in
    let e : t.sched.fibers ≡ [] = is_nil-to t.sched.fibers q in
    let z : t.sched.active ≡ 0 = ground (arith, a) in
    let perm : Perm t.pushed (t.taken ++ []) =
      subst (λ xs. Perm t.pushed (t.taken ++ xs)) e v.tasks in
    (
      subst (λ xs. Perm t.pushed xs) (append-nil t.taken) perm,
      λ i w at. sum-zero holding t.workers i w (sym v.active_eq ∙ z) at,
    )

-- In a state that fewer than 2^64 threads reach from the start, a thread that looks for a task meets no failing assertion, and it
-- comes away without one only if every task of the queue is bound to another thread or runs.
pub look_lem :
    {s t : System} (w : Worker)
    → IsStart s
    → Reach s t
    → (tickle_me : Bool) × (got : Option FiberAndThread) × (q : List FiberAndThread) × (look t.sched
          w
        ≡ ok (after_fetch t.sched w (tickle_me, got, q)))
      × Answer w.thread t.sched.store t.sched.fibers (tickle_me, got, q)
unfolding look
look_lem {t = t} w b r =
    let ((k, got, q), run, a) =
      fetch_lem w.thread t.sched.store t.sched.fibers (Reach-IsValid b r).no_null in
    (k, got, q, rw run, a)

-- A fiber that is held and stands twice in the queue: two threads look and both take it, the first
-- switches to it, and the second fails on an assertion.
pub dispatch_twice :
    (s : Scheduler) (a fresh : ℕ) (w v : Worker)
    → (s.store a).state ≡ hold
    → s.fibers ≡ fiber_task a ∷ fiber_task a ∷ []
    → (s1 s2 s3 : Scheduler) × (w1 v1 w2 : Worker) × (look s w ≡ ok (false, s1, w1))
      × (handed w1.phase ≡ some (fiber_task a))
      × (look s1 v ≡ ok (false, s2, v1))
      × (handed v1.phase ≡ some (fiber_task a))
      × (dispatch s2 w1 (handed w1.phase) fresh ≡ ok (s3, w2))
      × (w2.phase ≡ in_fiber a)
      × (dispatch s3 v1 (handed v1.phase) fresh ≡ err assertion)
unfolding look fetch dispatch enter swap_in
dispatch_twice s a fresh w v h q =
    let self : (a == a) ≡ true = ground arith in
    let got = some (fiber_task a) in
    let s1 : Scheduler = record s { fibers = fiber_task a ∷ []; active = count_got got s.active } in
    let s2 : Scheduler = record s1 { fibers = []; active = count_got got s1.active } in
    let f : Fiber = record (s.store a) { state = exec } in
    let s3 : Scheduler = record s2 { store = put_fiber s.store a f } in
    (
      s1,
      s2,
      s3,
      record w { phase = fetched got },
      record v { phase = fetched got },
      record w { phase = in_fiber a },
      rw (q, h) refl,
      refl,
      rw h refl,
      refl,
      rw h refl,
      refl,
      rw self refl,
    )
