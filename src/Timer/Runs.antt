-- ===== src/Timer/Runs.antt =====
-- The timers on concrete inputs.
use link_server.Base.{
  ℕ, ◌≡◌, ◌^◌, ◌<◌, ◌+◌, refl, [], ◌∷◌, none, some, true, false, if◌then◌else◌, ◌==◌, arith,
}
use link_server.Timer.{add, Timer, TimerManager, direct, add_timer, get_next_timer, list_expired_cb}
use link_server.Timer.Sets.{mem}
use link_server.Timer.Invariant.{IsValid}
use link_server.Timer.Collect.{Collected}
use link_server.Timer.Expiry.{list_expired_cb_lem}
use link_server.Timer.Wakeup.{Run, start, added, get_next_timer-safe}

abbrev first : ℕ
first = 1

abbrev thirty : ℕ
thirty = 30

-- A timer that recurs every 10 ms and is due at 5, and one that is due once at 20.
abbrev two_store : ℕ → Timer
two_store a =
    if a == 1
    then record { recurring = true; ms = 10; next = 5; cb = some (direct 7) }
    else if a == 2
    then record { recurring = false; ms = 20; next = 20; cb = some (direct 8) }
    else record { recurring = false; ms = 0; next = 0; cb = none }

abbrev two_timers : TimerManager
two_timers = record { store = two_store; timers = 1 ∷ 2 ∷ []; tickled = false; previous_time = 4 }

two_timers-IsValid : IsValid two_timers
two_timers-IsValid = record { sorted = ((refl, tt), (tt, tt)); armed = λ a. ground arith }

two_words : (a : ℕ) → (two_store a).next < 2 ^ 64
two_words a = ground arith

-- At 6 the first timer is handed out and due again at 16.
expires : (list_expired_cb two_timers 6 3).0 ≡ some (direct 7) ∷ []
unfolding list_expired_cb
expires = refl

list_expired_cb_lem_example : Collected two_timers (1 ∷ []) 6 (list_expired_cb two_timers 6 3)
list_expired_cb_lem_example = list_expired_cb_lem two_timers 6 3 two_timers-IsValid refl

-- A timer that is added behind the others.
abbrev one_more : TimerManager
one_more = (add_timer (get_next_timer two_timers 2).1 3 2 9 (some (direct 9)) false).1

quiet_run : Run (get_next_timer two_timers 2).1 false one_more
unfolding get_next_timer add_timer add
quiet_run = added 3 2 9 (direct 9) false start refl

in_time : 4 < 2 + (get_next_timer two_timers 2).0
unfolding get_next_timer
in_time = omega arith

is_in : mem 3 one_more.timers ≡ true
unfolding get_next_timer add_timer add
is_in = refl

get_next_timer-safe_example : 4 < (one_more.store 3).next
get_next_timer-safe_example =
    get_next_timer-safe two_timers one_more 2 4 3 two_timers-IsValid two_words quiet_run
      (omega arith) in_time is_in
