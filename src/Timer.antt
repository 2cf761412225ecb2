-- ===== src/Timer.antt =====
-- linko/timer.h and linko/timer.cc: timers and their manager. Timer objects stand in a store that
-- is indexed by address; `m_timers`, the ordered set of shared pointers, is the list of the
-- addresses in the order of the comparator. The clock is an argument of the operations that read it, and so
-- is the address that `new` returns. A method of Timer acts on the manager's state, whose mutex it
-- takes.
pub mod Order
pub mod Sets
pub mod Invariant
pub mod Operations
pub mod Collect
pub mod Expiry
pub mod Wakeup
mod Runs
use link_server.Base.{
  ℕ, ◌*◌, ◌-◌, ◌^◌, List, [], ◌∷◌, ◌++◌, Option, none, some, Bool, true, false, ltb, leb, ◌==◌, not,
  ◌&&◌, if◌then◌else◌, Result, ok, err, out_of_bounds, add64, sub64,
}

-- A callback is a number that names it; `on_timer` is `std::bind(&OnTimer, weak_cond, cb)`.
pub data Callback : Type 0 where
  direct : ℕ → Callback
  on_timer : ℕ → ℕ → Callback

pub record Timer : Type 0 where
  pub recurring : Bool
  pub ms : ℕ
  pub next : ℕ
  pub cb : Option Callback

pub record TimerManager : Type 0 where
  pub store : ℕ → Timer
  pub timers : List ℕ
  pub tickled : Bool
  pub previous_time : ℕ

-- The object at `a` becomes `t`.
abbrev pub put : (ℕ → Timer) → ℕ → Timer → ℕ → Timer
put s a t b = if a == b then t else s b

-- Which callback runs: of `OnTimer` the wrapped one, if the condition is still alive.
unfoldable pub run : (ℕ → Bool) → Callback → Option ℕ
run alive (direct f) = some f
run alive (on_timer weak_cond f) = if alive weak_cond then some f else none

-- The comparator, on pointers that may be null.
abbrev pub less : (ℕ → Timer) → Option ℕ → Option ℕ → Bool
less s none none = false
less s none (some b) = true
less s (some a) none = false
less s (some a) (some b) =
    if ltb (s a).next (s b).next then true else if ltb (s b).next (s a).next then false else ltb a b

-- `std::set::insert`: an element that is equivalent to one of the set is not inserted.
abbrev pub insert : (ℕ → Timer) → ℕ → List ℕ → List ℕ
insert s a [] = a ∷ []
insert s a (b ∷ bs) =
    if less s (some a) (some b)
    then a ∷ b ∷ bs
    else if less s (some b) (some a)
    then b ∷ insert s a bs
    else b ∷ bs

abbrev cons_some : ℕ → Option (List ℕ) → Option (List ℕ)
cons_some b none = none
cons_some b (some bs) = some (b ∷ bs)

-- `find` and `erase` of what it found, or `none` where it found the end.
abbrev pub find_erase : (ℕ → Timer) → ℕ → List ℕ → Option (List ℕ)
find_erase s a [] = none
find_erase s a (b ∷ bs) =
    if less s (some b) (some a)
    then cons_some b (find_erase s a bs)
    else if less s (some a) (some b)
    then none
    else some bs

-- The set up to its first element for which `p` fails, and the set from it on.
abbrev pub take_while : (ℕ → Bool) → List ℕ → List ℕ
take_while p [] = []
take_while p (b ∷ bs) = if p b then b ∷ take_while p bs else []

abbrev pub drop_while : (ℕ → Bool) → List ℕ → List ℕ
drop_while p [] = []
drop_while p (b ∷ bs) = if p b then drop_while p bs else b ∷ bs

-- `*m_timers.begin() == a`.
abbrev pub is_begin : ℕ → List ℕ → Bool
is_begin a [] = false
is_begin a (b ∷ bs) = a == b

-- Whether `onTimerInsertedAtFront` is called, and the new state.
unfoldable pub add : TimerManager → ℕ → Bool × TimerManager
add m val =
    let timers' = insert m.store val m.timers in
    let at_front = is_begin val timers' && not m.tickled in
    (at_front, record m { timers = timers'; tickled = if at_front then true else m.tickled })

-- `new Timer(ms, cb, recurring, this)`.
abbrev pub new_timer : ℕ → ℕ → Option Callback → Bool → Timer
new_timer now ms cb recurring = record {
  recurring = recurring;
  ms = ms;
  next = add64 now ms;
  cb = cb;
}

-- `new Timer(next)`.
abbrev pub deadline : ℕ → Timer
deadline next = record { recurring = false; ms = 0; next = next; cb = none }

unfoldable pub add_timer : TimerManager → ℕ → ℕ → ℕ → Option Callback → Bool → Bool × TimerManager
add_timer m fresh now ms cb recurring =
    add (record m { store = put m.store fresh (new_timer now ms cb recurring) }) fresh

unfoldable pub add_condition_timer : TimerManager → ℕ → ℕ → ℕ → ℕ → ℕ → Bool → Bool × TimerManager
add_condition_timer m fresh now ms f weak_cond recurring =
    add_timer m fresh now ms (some (on_timer weak_cond f)) recurring

-- `cancel` erases what `find` returned without a test for the end.
unfoldable pub cancel : TimerManager → ℕ → Result (Bool × TimerManager)
cancel m a = elim (m.store a).cb [
  | none ↦ ok (false, m)
  | some f ↦ elim (find_erase m.store a m.timers) [
    | none ↦ err out_of_bounds
    | some timers' ↦ ok (
      true,
      record m { store = put m.store a (record (m.store a) { cb = none }); timers = timers' },
    )
  ]
]

unfoldable pub refresh : TimerManager → ℕ → ℕ → Bool × TimerManager
refresh m a now = elim (m.store a).cb [
  | none ↦ (false, m)
  | some f ↦ elim (find_erase m.store a m.timers) [
    | none ↦ (false, m)
    | some timers' ↦
        let s = put m.store a (record (m.store a) { next = add64 now (m.store a).ms }) in
        (true, record m { store = s; timers = insert s a timers' })
  ]
]

-- The result of `reset`, whether `onTimerInsertedAtFront` is called, and the new state.
unfoldable pub reset : TimerManager → ℕ → ℕ → Bool → ℕ → Bool × Bool × TimerManager
reset m a ms from_now now =
    if ms == (m.store a).ms && not from_now then (true, false, m) else elim (m.store a).cb [
      | none ↦ (false, false, m)
      | some f ↦ elim (find_erase m.store a m.timers) [
        | none ↦ (false, false, m)
        | some timers' ↦
            let start = if from_now then now else sub64 (m.store a).next (m.store a).ms in
            let t = record (m.store a) { ms = ms; next = add64 start ms } in
            let (at_front, m') = add (record m { store = put m.store a t; timers = timers' }) a in
            (true, at_front, m')
      ]
    ]

-- The time from `now` until the deadline of the first timer.
abbrev pub until : (ℕ → Timer) → ℕ → List ℕ → ℕ
until s now [] = 2 ^ 64 - 1
until s now (a ∷ rest) = if leb (s a).next now then 0 else sub64 (s a).next now

unfoldable pub get_next_timer : TimerManager → ℕ → ℕ × TimerManager
get_next_timer m now = (until m.store now m.timers, record m { tickled = false })

unfoldable pub has_timer : TimerManager → Bool
has_timer m = elim m.timers [ [] ↦ false | a ∷ rest ↦ true ]

-- Whether the clock was set back by more than an hour.
abbrev pub is_rollover : TimerManager → ℕ → Bool
is_rollover m now = ltb now m.previous_time && ltb now (sub64 m.previous_time (60 * 60 * 1000))

abbrev pub detect_clock_rollover : TimerManager → ℕ → Bool × TimerManager
detect_clock_rollover m now = (is_rollover m now, record m { previous_time = now })

-- What the loop does with a timer that recurs, and with one that does not.
abbrev pub rearm : ℕ → ℕ → TimerManager → TimerManager
rearm a now m =
    let s = put m.store a (record (m.store a) { next = add64 now (m.store a).ms }) in
    record m { store = s; timers = insert s a m.timers }

abbrev pub disarm : ℕ → TimerManager → TimerManager
disarm a m = record m { store = put m.store a (record (m.store a) { cb = none }) }

abbrev pub hand_out : ℕ → ℕ → TimerManager → TimerManager
hand_out a now m = if (m.store a).recurring then rearm a now m else disarm a m

-- The loop over the expired timers.
abbrev pub collect : List ℕ → ℕ → TimerManager → List (Option Callback) × TimerManager
collect [] now m = ([], m)
collect (a ∷ later) now m =
    let (cbs, m') = collect later now (hand_out a now m) in ((m.store a).cb ∷ cbs, m')

-- What `listExpiredCb` splits off: `lower_bound` of a timer at the address `tmp` with the deadline
-- `now`, and then the timers whose deadline is `now`.
abbrev pub before : (ℕ → Timer) → ℕ → ℕ → ℕ → Bool
before s tmp now b = less (put s tmp (deadline now)) (some b) (some tmp)

abbrev pub is_due : (ℕ → Timer) → ℕ → ℕ → Bool
is_due s now b = (s b).next == now

abbrev pub split : TimerManager → ℕ → ℕ → Bool → List ℕ × List ℕ
split m now tmp true = (m.timers, [])
split m now tmp false =
    let from_bound = drop_while (before m.store tmp now) m.timers in
    (
      take_while (before m.store tmp now) m.timers ++ take_while (is_due m.store now) from_bound,
      drop_while (is_due m.store now) from_bound,
    )

-- The deadline of the first timer is after `now`.
abbrev pub first_after : TimerManager → ℕ → Bool
first_after m now = elim m.timers [ [] ↦ true | a ∷ rest ↦ ltb now (m.store a).next ]

-- The early return of an empty set.
abbrev pub unless_empty {ℓ} : {A : Type ℓ} → List ℕ → A → A → A
unless_empty [] x y = x
unless_empty (a ∷ rest) x y = y

unfoldable pub list_expired_cb : TimerManager → ℕ → ℕ → List (Option Callback) × TimerManager
list_expired_cb m now tmp =
    let (rollover, m') = detect_clock_rollover m now in
    let (expired, rest) = split m' now tmp rollover in
    unless_empty m.timers ([], m)
      (if not rollover && first_after m' now
        then ([], m')
        else collect expired now (record m' { timers = rest }))
