-- ===== src/IoManager.antt =====
-- linko/iomanager.h and linko/iomanager.cc: the events that wait on descriptors. The contexts are
-- a list indexed by descriptor. `epoll_ctl` is a parameter: the answer of each call, true for an error.
-- A callback or fiber is a number that names it; the scheduler's queue, to which triggerEvent
-- hands it, is a list. A failed assertion is the error `assertion`. A descriptor is not negative, and the
-- fiber that registers itself is running.
pub mod Registration
pub mod Cancel
pub mod Idle
mod Stopping
mod Round
mod Runs
use link_server.Base.{
  ℕ, zero, suc, ◌+◌, ◌-◌, ◌*◌, ◌/◌, ◌^◌, List, [], ◌∷◌, ◌++◌, Option, none, some, Bool, true, false,
  not, leb, ◌==◌, ◌&&◌, ◌||◌, if◌then◌else◌, length, get_elem?, set, take, replicate, Result, ok,
  err, out_of_bounds, assertion, ◌>>=◌, add64, sub64,
}

-- READ and WRITE; the set of registered events, `NONE` to `READ | WRITE`, is a pair of Booleans.
pub data Event : Type 0 where
  read write : Event

pub record Events : Type 0 where
  pub reads : Bool
  pub writes : Bool

-- `scheduler` is set or null; the callback or fiber, if one is there.
pub record EventContext : Type 0 where
  pub has_scheduler : Bool
  pub fiber : Option ℕ
  pub cb : Option ℕ

pub record FdContext : Type 0 where
  pub read : EventContext
  pub write : EventContext
  pub fd : ℕ
  pub events : Events

-- What the scheduler is handed: `FiberAndThread`.
pub data Task : Type 0 where
  fiber_task cb_task : ℕ → Task

pub record IoManager : Type 0 where
  pub contexts : List FdContext
  pub pending : ℕ
  pub queue : List Task

abbrev pub has : Events → Event → Bool
has es read = es.reads
has es write = es.writes

-- `events | event` and `events & ~event`.
abbrev pub with_event : Events → Event → Events
with_event es read = record es { reads = true }
with_event es write = record es { writes = true }

abbrev pub without : Events → Event → Events
without es read = record es { reads = false }
without es write = record es { writes = false }

abbrev pub get_context : FdContext → Event → EventContext
get_context c read = c.read
get_context c write = c.write

abbrev pub put_context : FdContext → Event → EventContext → FdContext
put_context c read x = record c { read = x }
put_context c write x = record c { write = x }

abbrev pub empty_context : EventContext
empty_context = record { has_scheduler = false; fiber = none; cb = none }

abbrev pub new_context : ℕ → FdContext
new_context fd = record {
  read = empty_context;
  write = empty_context;
  fd = fd;
  events = record { reads = false; writes = false };
}

-- New contexts for the descriptors from `fd` on.
abbrev pub new_contexts : ℕ → ℕ → List FdContext
new_contexts zero fd = []
new_contexts (suc n) fd = new_context fd ∷ new_contexts n (suc fd)

-- The vector only grows.
abbrev pub context_resize : List FdContext → ℕ → List FdContext
context_resize cs size = take size cs ++ new_contexts (size - length cs) (length cs)

-- The scheduler takes what the pointer points to and leaves it null; a null one is not queued.
abbrev pub tasks_of : EventContext → List Task
tasks_of x = elim x.cb [
  | some f ↦ cb_task f ∷ []
  | none ↦ elim x.fiber [ some f ↦ fiber_task f ∷ [] | none ↦ [] ]
]

abbrev pub taken : EventContext → EventContext
taken x = elim x.cb [
  | some f ↦ record x { has_scheduler = false; cb = none }
  | none ↦ record x { has_scheduler = false; fiber = none }
]

-- The context after the event and the tasks handed over.
unfoldable pub trigger_event : FdContext → Event → Result (FdContext × List Task)
trigger_event c e =
    if has c.events e
    then ok (
      put_context (record c { events = without c.events e }) e (taken (get_context c e)),
      tasks_of (get_context c e),
    )
    else err assertion

-- The context of `fd`, for which `addEvent` grows the vector to half more than it has.
abbrev pub grown : List FdContext → ℕ → List FdContext
grown cs fd = if leb (length cs) fd then context_resize cs (length cs * 3 / 2) else cs

abbrev pub is_clear : EventContext → Bool
is_clear x =
    not x.has_scheduler
    && elim x.fiber [ none ↦ elim x.cb [ none ↦ true | some f ↦ false ] | some f ↦ false ]

-- The context of an event waits for a callback, or for the running fiber.
abbrev pub waiting : Option ℕ → ℕ → EventContext
waiting (some f) this = record { has_scheduler = true; fiber = none; cb = some f }
waiting none this = record { has_scheduler = true; fiber = some this; cb = none }

-- Registering on the context: the assertions, and the answer of `epoll_ctl`. The result is 0 or -1.
unfoldable pub register : FdContext → Event → Bool → EventContext → Result (Bool × FdContext)
register c e fails x =
    if has c.events e
    then err assertion
    else if fails
    then ok (false, c)
    else if is_clear (get_context c e)
    then ok (true, put_context (record c { events = with_event c.events e }) e x)
    else err assertion

unfoldable pub add_event : IoManager → ℕ → Event → Bool → Option ℕ → ℕ → Result (Bool × IoManager)
add_event m fd e fails cb this =
    let cs = grown m.contexts fd in
    elim (get_elem? cs fd) [
      | none ↦ err out_of_bounds
      | some c ↦ do
        (done, c') ← register c e fails (waiting cb this)
        ok (
          done,
          record m {
            contexts = set cs fd c';
            pending = if done then add64 m.pending 1 else m.pending;
          },
        )
    ]

unfoldable pub del_event : IoManager → ℕ → Event → Bool → Bool × IoManager
del_event m fd e fails = elim (get_elem? m.contexts fd) [
  | none ↦ (false, m)
  | some c ↦ if not (has c.events e) || fails then (false, m) else (
    true,
    record m {
      contexts =
          set m.contexts fd
            (put_context (record c { events = without c.events e }) e empty_context);
      pending = sub64 m.pending 1;
    },
  )
]

unfoldable pub cancel_event : IoManager → ℕ → Event → Bool → Result (Bool × IoManager)
cancel_event m fd e fails = elim (get_elem? m.contexts fd) [
  | none ↦ ok (false, m)
  | some c ↦ if not (has c.events e) || fails then ok (false, m) else do
    (c', tasks) ← trigger_event c e
    ok (
      true,
      record m {
        contexts = set m.contexts fd c';
        pending = sub64 m.pending 1;
        queue = m.queue ++ tasks;
      },
    )
]

-- `triggerEvent` where the event is registered, as in `cancelAll`.
abbrev pub trigger_if : IoManager → ℕ → FdContext → Event → Bool → Result (FdContext × IoManager)
trigger_if m fd c e false = ok (c, m)
trigger_if m fd c e true = do
  (c', tasks) ← trigger_event c e
  ok (
    c',
    record m {
      contexts = set m.contexts fd c';
      pending = sub64 m.pending 1;
      queue = m.queue ++ tasks;
    },
  )

abbrev pub any : Events → Bool
any es = es.reads || es.writes

unfoldable pub cancel_all : IoManager → ℕ → Bool → Result (Bool × IoManager)
cancel_all m fd fails = elim (get_elem? m.contexts fd) [
  | none ↦ ok (false, m)
  | some c ↦ if not (any c.events) || fails then ok (false, m) else do
    (c1, m1) ← trigger_if m fd c read c.events.reads
    (c2, m2) ← trigger_if m1 fd c1 write c1.events.writes
    if any c2.events then err assertion else ok (true, m2)
]

-- What `epoll_wait` reports, with the registered events added on an error or a hang-up.
abbrev pub real_events : Events → Events → Bool → Events
real_events ready registered broken = record {
  reads = ready.reads || (broken && registered.reads);
  writes = ready.writes || (broken && registered.writes);
}

-- The body of the loop of `idle` over the reported events, for one that is not the pipe's.
unfoldable pub handle_event : IoManager → ℕ → Events → Bool → Bool → Result IoManager
handle_event m fd ready broken fails = elim (get_elem? m.contexts fd) [
  | none ↦ err out_of_bounds
  | some c ↦
      let real = real_events ready c.events broken in
      if not (c.events.reads && real.reads || (c.events.writes && real.writes)) || fails
      then ok m
      else do
        (c1, m1) ← trigger_if m fd c read real.reads
        (c2, m2) ← trigger_if m1 fd c1 write real.writes
        ok m2
]
