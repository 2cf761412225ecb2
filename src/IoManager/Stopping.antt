-- ===== src/IoManager/Stopping.antt =====
-- linko/iomanager.cc: how long `idle` waits, and when it ends.
use link_server.Base.{
  ℕ, zero, suc, ◌-◌, ◌+◌, ◌^◌, ◌≤◌, ◌<◌, ◌≡◌, refl, sym, subst, ap, ◌∙◌, inl, inr, List, [], ◌∷◌,
  some, Bool, true, false, ◌&&◌, ◌==◌, ltb, if◌then◌else◌, pos, get_elem?, arith, Bool-cases, min,
}
use link_server.Timer.{TimerManager, get_next_timer}
use link_server.Timer.Sets.{mem}
use link_server.Timer.Wakeup.{get_next_timer_lem}
use link_server.Timer.Invariant
use mathlib.Core.List.{Perm}
use link_server.Scheduler.{Worker, is_stopping}
use link_server.Scheduler.System.{System, Reach, holding}
use link_server.Scheduler.Safe.{IsStart, is_stopping_lem}
use link_server.IoManager.{IoManager, FdContext, any}
use link_server.IoManager.Registration.{IsValid, total, count}
use link_server.IoManager.Idle.{wait_time, as_int, stopping}

wait_time-small : (t : ℕ) → t < 2 ^ 31 → wait_time t ≡ pos (min t 3000)
unfolding wait_time
wait_time-small t h =
    let a : as_int t ≡ pos t = ground (arith, h) in
    let ne : (t == 2 ^ 64 - 1) ≡ false = ground (arith, h) in
    elim (Bool-cases (ltb 3000 t)) [
      | inl l ↦ rw (ne, a, l) (ap pos (ground (arith, l)))
      | inr l ↦ rw (ne, a, l) (ap pos (ground (arith, l)))
    ]

wait_time-none : wait_time (2 ^ 64 - 1) ≡ pos 3000
unfolding wait_time
wait_time-none = refl

-- On a valid manager of timers whose deadlines are 64-bit words less than 2^31 ms away: idle waits
-- for at most 3 seconds, never without end, and for no longer than any timer is away.
pub wait_time_lem :
    (m : TimerManager) (now : ℕ)
    → Invariant.IsValid m
    → ((b : ℕ) → (m.store b).next < 2 ^ 64)
    → ((b : ℕ) → mem b m.timers ≡ true → (m.store b).next - now < 2 ^ 31)
    → (d : ℕ) × (wait_time (get_next_timer m now).0 ≡ pos d)
      × (d ≤ 3000)
      × ((b : ℕ) → mem b m.timers ≡ true → d ≤ (m.store b).next - now)
wait_time_lem m now v words near =
    let (answer, rest) = get_next_timer_lem m now v words in
    elim answer [
      | inl (e, big) ↦ (
        3000,
        ap wait_time big ∙ wait_time-none,
        omega arith,
        λ b k. let z : false ≡ true = ap (λ ts. mem b ts) (sym e) ∙ k in ground (arith, z),
      )
      | inr (a, member, least, away) ↦
          let t = (m.store a).next - now in
          (
            min t 3000,
            ap wait_time away ∙ wait_time-small t (near a member),
            omega arith,
            λ b k. let l = least b k in omega (arith, l),
          )
    ]

both : (a b : Bool) → (a && b) ≡ true → (a ≡ true) × (b ≡ true)
both true b h = (refl, h)
both false b h = ground (arith, h)

count-none : (c : FdContext) → count c ≡ 0 → any c.events ≡ false
count-none c z = elim (Bool-cases c.events.reads) [
  | inl r ↦
      let one : count c ≡ 1 + (if c.events.writes then 1 else 0) = rw r refl in
      absurd (omega (arith, one, z))
  | inr r ↦ elim (Bool-cases c.events.writes) [
    | inl w ↦ let one : count c ≡ 1 = rw (r, w) refl in absurd (omega (arith, one, z))
    | inr w ↦ rw (r, w) refl
  ]
]

total-none :
    (cs : List FdContext) (fd : ℕ) (c : FdContext)
    → total cs ≡ 0
    → get_elem? cs fd ≡ some c
    → any c.events ≡ false
total-none [] fd c z e = ground (arith, e)
total-none (d ∷ cs) zero c z e =
    let same : d ≡ c = cc e in
    subst (λ x. any x.events ≡ false) same (count-none d (omega (arith, z)))
total-none (d ∷ cs) (suc fd) c z e = total-none cs fd c (omega (arith, z)) e

-- Where `stopping` answers true, and its three reads, at three moments, found valid timers with deadlines of
-- 64 bits at a clock that does not show 0, valid events, and a scheduler in a state `t` that fewer than
-- 2^64 threads reach from the start: at the first moment there is no timer; at the second no event is
-- registered on any descriptor; and at the third every task that was scheduled has been taken, once,
-- and no thread holds one that it has not counted down.
pub stopping_lem :
    {s t : System} (timers : TimerManager) (now : ℕ) (events : IoManager)
    → Invariant.IsValid timers
    → ((b : ℕ) → (timers.store b).next < 2 ^ 64)
    → 0 < now
    → IsValid events
    → IsStart s
    → Reach s t
    → (stopping timers now events t.sched).0 ≡ true
    → (timers.timers ≡ [])
      × ((fd : ℕ) (c : FdContext) → get_elem? events.contexts fd ≡ some c → any c.events ≡ false)
      × Perm t.pushed t.taken
      × ((i : ℕ) (w : Worker) → get_elem? t.workers i ≡ some w → holding w ≡ 0)
unfolding stopping
stopping_lem {t = t} timers now events v words clock io b r h =
    let (answer, rest) = get_next_timer_lem timers now v words in
    let (h0, h1) =
      both ((get_next_timer timers now).0 == 2 ^ 64 - 1)
        (events.pending == 0 && is_stopping t.sched) h in
    let (none_pending, h2) = both (events.pending == 0) (is_stopping t.sched) h1 in
    let zero_pending : events.pending ≡ 0 = ground (arith, none_pending) in
    let none_left : total events.contexts ≡ 0 = sym io.pending_eq ∙ zero_pending in
    let (perm, idle) = is_stopping_lem b r h2 in
    (
      elim answer [
        | inl (e, big) ↦ e
        | inr (a, member, least, away) ↦
            let w = words a in
            let far : (get_next_timer timers now).0 ≡ 2 ^ 64 - 1 = ground (arith, h0) in
            absurd (omega (arith, w, far, away, clock))
      ],
      λ fd c got. total-none events.contexts fd c none_left got,
      perm,
      idle,
    )
