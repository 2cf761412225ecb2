-- ===== src/Scheduler/System.antt =====
-- The threads of a scheduler together: any thread may take its next step at any time, and anyone may
-- schedule tasks in between.
use mathlib.Core.List.{Perm, append_assoc}
use mathlib.Core.List.Perm
use link_server.Base.{
  ℕ, ◌^◌, ◌≤◌, ◌<◌, ◌≡◌, List, [], ◌∷◌, ◌++◌, Option, none, some, Bool, true, ok, Bool-cases, inl,
  inr, arith, ◌⊎◌, add64, sub64, get_elem?, set, length, length-set, sum, sum-set, sum-le,
}
use link_server.Fiber.{Outcome}
use link_server.Scheduler.{
  FiberAndThread, Scheduler, Worker, Phase, looking, in_cb, swapped_cb, swapped_fiber, in_idle,
  fetched, in_fiber, is_null, pushed_by, schedule, look, dispatch, come_back,
}
use link_server.Scheduler.Fetch.{NoNull, got_list}

-- `pushed` has every task that was ever put into the queue, `taken` every task that a thread took.
pub record System : Type 0 where
  pub sched : Scheduler
  pub workers : List Worker
  pub pushed : List FiberAndThread
  pub taken : List FiberAndThread

abbrev pub got_of : Phase → List FiberAndThread
got_of (fetched got) = got_list got
got_of _ = []

abbrev pub posted : System → FiberAndThread → System
posted s ft = record s { sched = (schedule ft s.sched).1; pushed = s.pushed ++ pushed_by ft }

abbrev pub stopped : System → System
stopped s = record s { sched = record s.sched { stopping = true; auto_stop = true } }

abbrev pub looked : System → ℕ → Bool × Scheduler × Worker → System
looked s i (tickle_me, sched', w') = record s {
  sched = sched';
  workers = set s.workers i w';
  taken = s.taken ++ got_of w'.phase;
}

abbrev pub moved : System → ℕ → List FiberAndThread → Scheduler → Worker → System
moved s i ps sched' w' = record s {
  sched = sched';
  workers = set s.workers i w';
  pushed = s.pushed ++ ps;
}

-- A step: a task is scheduled, the scheduler is told to stop, or the thread at `i` goes on.
pub data Step : System → System → Type 0 where
  posts : (s : System) (ft : FiberAndThread) → Step s (posted s ft)
  stops : (s : System) → Step s (stopped s)
  looks :
      (s : System) (i : ℕ) (w : Worker) (r : Bool × Scheduler × Worker)
      → get_elem? s.workers i ≡ some w
      → w.phase ≡ looking
      → look s.sched w ≡ ok r
      → Step s (looked s i r)
  dispatches :
      (s : System) (i fresh : ℕ) (w w' : Worker) (got : Option FiberAndThread) (sched' : Scheduler)
      → get_elem? s.workers i ≡ some w
      → w.phase ≡ fetched got
      → dispatch s.sched w got fresh ≡ ok (sched', w')
      → Step s (moved s i [] sched' w')
  comes_back :
      (s : System) (i : ℕ) (w w' : Worker) (o : Outcome) (ps : List FiberAndThread)
      (sched' : Scheduler)
      → get_elem? s.workers i ≡ some w
      → come_back w.phase s.sched w o ≡ ok (ps, sched', w')
      → Step s (moved s i ps sched' w')

pub data Reach (s : System) : System → Type 0 where
  here : Reach s s
  next : {t u : System} → Reach s t → Step t u → Reach s u

-- Whether the thread holds a task that it has not counted down, and whether it runs its idle fiber.
abbrev pub holds : Phase → ℕ
holds (fetched none) = 0
holds (fetched (some ft)) = 1
holds (in_fiber a) = 1
holds (swapped_fiber a) = 1
holds in_cb = 1
holds swapped_cb = 1
holds _ = 0

abbrev pub idles : Phase → ℕ
idles in_idle = 1
idles _ = 0

abbrev pub holding : Worker → ℕ
holding w = holds w.phase

abbrev pub idling : Worker → ℕ
idling w = idles w.phase

-- The tasks ever scheduled are those taken and those in the queue; the counters count the threads
-- that hold a task they have not counted down, and those that idle.
pub record IsValid (s : System) : Type 0 where
  pub no_null : NoNull s.sched.fibers
  pub tasks : Perm s.pushed (s.taken ++ s.sched.fibers)
  pub active_eq : s.sched.active ≡ sum holding s.workers
  pub idle_eq : s.sched.idle ≡ sum idling s.workers
  pub few : length s.workers < 2 ^ 64

-- A counter from `n` to `n'` while a thread's share goes from `k` to `k'`.
abbrev pub Counts : ℕ → ℕ → ℕ → ℕ → Type 0
Counts n n' k k' =
    ((n' ≡ n) × (k' ≡ k))
    ⊎ ((n' ≡ add64 n 1) × (k ≡ 0) × (k' ≡ 1))
    ⊎ ((n' ≡ sub64 n 1) × (k ≡ 1) × (k' ≡ 0))

pub Counts-sum :
    (f : Worker → ℕ) (ws : List Worker) (i n n' : ℕ) (w w' : Worker)
    → ((x : Worker) → f x ≤ 1)
    → length ws < 2 ^ 64
    → get_elem? ws i ≡ some w
    → n ≡ sum f ws
    → Counts n n' (f w) (f w')
    → n' ≡ sum f (set ws i w')
Counts-sum f ws i n n' w w' one few got e c =
    let t = sum-set f ws i w w' got in
    let le = sum-le f ws one in
    let le' = sum-le f (set ws i w') one in
    let len = length-set ws i w' in
    elim c [
      | inl (a, b) ↦ omega arith
      | inr (inl (a, b, d)) ↦ omega arith
      | inr (inr (a, b, d)) ↦ omega arith
    ]

pub holds_le : (p : Phase) → holds p ≤ 1
holds_le p = ground arith

pub idles_le : (p : Phase) → idles p ≤ 1
idles_le p = ground arith

-- What a step of one thread must keep.
pub record Kept (s : Scheduler) (w : Worker) (ps : List FiberAndThread) (s' : Scheduler)
    (w' : Worker) : Type 0 where
  pub fibers_eq : s'.fibers ≡ s.fibers ++ ps
  pub no_null : NoNull ps
  pub active_ok : Counts s.active s'.active (holding w) (holding w')
  pub idle_ok : Counts s.idle s'.idle (idling w) (idling w')

pub NoNull-append : (xs ys : List FiberAndThread) → NoNull xs → NoNull ys → NoNull (xs ++ ys)
NoNull-append [] ys h k = k
NoNull-append (x ∷ xs) ys (n, h) k = (n, NoNull-append xs ys h k)

pub NoNull-pushed_by : (ft : FiberAndThread) → NoNull (pushed_by ft)
NoNull-pushed_by ft = elim (Bool-cases (is_null ft)) [ inl e ↦ rw e tt | inr e ↦ rw e (e, tt) ]

pub pushed-perm :
    (p t q ps : List FiberAndThread) → Perm p (t ++ q) → Perm (p ++ ps) (t ++ (q ++ ps))
pushed-perm p t q ps h = rw (← append_assoc t q ps) (Perm.append_right ps h)

pub moved-IsValid :
    (s : System) (i : ℕ) (ps : List FiberAndThread) (sched' : Scheduler) (w w' : Worker)
    → IsValid s
    → get_elem? s.workers i ≡ some w
    → Kept s.sched w ps sched' w'
    → IsValid (moved s i ps sched' w')
moved-IsValid s i ps sched' w w' v got k = record {
  no_null = rw k.fibers_eq (NoNull-append s.sched.fibers ps v.no_null k.no_null);
  tasks = rw k.fibers_eq (pushed-perm s.pushed s.taken s.sched.fibers ps v.tasks);
  active_eq =
      Counts-sum holding s.workers i _ _ w w' (λ x. holds_le x.phase) v.few got v.active_eq
        k.active_ok;
  idle_eq =
      Counts-sum idling s.workers i _ _ w w' (λ x. idles_le x.phase) v.few got v.idle_eq k.idle_ok;
  few = omega (arith, v.few, length-set s.workers i w');
}
