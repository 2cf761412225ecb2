-- ===== src/Timer/Wakeup.antt =====
-- `getNextTimer` and the notification of `addTimer`: a thread that waits for the time returned
-- misses no timer.
use link_server.Base.{
  ℕ, ◌+◌, ◌-◌, ◌^◌, ◌≤◌, ◌<◌, ◌≡◌, ◌≢◌, refl, sym, subst, ap, ◌∙◌, List, [], ◌∷◌, some, Bool, true,
  false, ◌==◌, Bool-cases, List-cases, le-or-lt, ◌⊎◌, inl, inr, arith, ◌||◌, ok, sub64,
}
use link_server.Timer.{
  Timer, TimerManager, Callback, add_timer, cancel, reset, get_next_timer, until,
}
use link_server.Timer.Sets.{mem, Above, IsSorted, Above-mem}
use link_server.Timer.Invariant.{IsValid}
use link_server.Timer.Operations.{
  KeepsOthers, Moved, Notified, cancel_lem, reset_lem, add_timer_lem,
}

-- No timer of the set is due before `d`.
abbrev pub NoneBefore : TimerManager → ℕ → Type 0
NoneBefore m d = (b : ℕ) → mem b m.timers ≡ true → d ≤ (m.store b).next

first_le :
    (s : ℕ → Timer) (a b : ℕ) (bs : List ℕ)
    → Above s a bs
    → mem b (a ∷ bs) ≡ true
    → (s a).next ≤ (s b).next
first_le s a b bs h k = elim (Bool-cases (b == a)) [
  | inl e ↦
      let same : b ≡ a = ground (arith, e) in
      subst (λ x. (s a).next ≤ (s x).next) (sym same) (omega arith)
  | inr e ↦ let l = Above-mem s a b bs h (ground (arith, k, e)) in ground (arith, l)
]

-- What `getNextTimer` answers: with no timer the largest word, and otherwise how long the earliest
-- deadline is away.
abbrev pub NextAnswer : TimerManager → ℕ → ℕ → Type 0
NextAnswer m now d =
    (m.timers ≡ []) × (d ≡ 2 ^ 64 - 1)
    ⊎ ((a : ℕ) × (mem a m.timers ≡ true)
        × NoneBefore m (m.store a).next
        × (d ≡ (m.store a).next - now))

until_first :
    (s : ℕ → Timer) (now a : ℕ) (rest : List ℕ)
    → (s a).next < 2 ^ 64
    → until s now (a ∷ rest) ≡ (s a).next - now
until_first s now a rest h = elim (le-or-lt (s a).next now) [
  | inl le ↦ ground (arith, le)
  | inr lt ↦ let e : sub64 (s a).next now ≡ (s a).next - now = omega arith in ground (arith, lt, e)
]

-- On a valid manager whose deadlines are 64-bit words `getNextTimer` returns the time until the
-- earliest deadline, 0 if that has passed, or the largest word if there is no timer, and it allows
-- the next notification.
pub get_next_timer_lem :
    (m : TimerManager) (now : ℕ)
    → IsValid m
    → ((b : ℕ) → (m.store b).next < 2 ^ 64)
    → NextAnswer m now (get_next_timer m now).0
      × ((get_next_timer m now).1 ≡ record m { tickled = false })
unfolding get_next_timer
get_next_timer_lem m now v words = elim (List-cases m.timers) [
  | inl e ↦ (inl (e, rw e), refl)
  | inr (a, rest, e) ↦
      let h : Above m.store a rest × IsSorted m.store rest = subst (IsSorted m.store) e v.sorted in
      let member : mem a m.timers ≡ true = rw e (ground arith) in
      let least : NoneBefore m (m.store a).next =
        λ b k. first_le m.store a b rest h.0 (subst (λ ts. mem b ts ≡ true) e k) in
      (inr (a, member, least, rw e (until_first m.store now a rest (words a))), refl)
]

-- The operations after `m`, and whether one of them notified.
pub data Run (m : TimerManager) : Bool → TimerManager → Type 0 where
  start : Run m false m
  added :
      {n : Bool} {m1 : TimerManager} (fresh now ms : ℕ) (f : Callback) (recurring : Bool)
      → Run m n m1
      → mem fresh m1.timers ≡ false
      → Run m
          (n || (add_timer m1 fresh now ms (some f) recurring).0)
          (add_timer m1 fresh now ms (some f) recurring).1
  cancelled :
      {n : Bool} {m1 : TimerManager} (a : ℕ) (done : Bool) (m2 : TimerManager)
      → Run m n m1
      → cancel m1 a ≡ ok (done, m2)
      → Run m n m2
  reset_to :
      {n : Bool} {m1 : TimerManager} (a ms : ℕ) (from_now : Bool) (now : ℕ)
      → Run m n m1
      → Run m (n || (reset m1 a ms from_now now).1) (reset m1 a ms from_now now).2

-- What a run from `m` keeps, for a deadline `d` before which nothing was due.
record IsWatched (d : ℕ) (n : Bool) (m : TimerManager) : Type 0 where
  valid : IsValid m
  noted : m.tickled ≡ n
  clear : n ≡ false → NoneBefore m d

Moved-IsWatched :
    (m m' : TimerManager) (t : Timer) (d a : ℕ) (n front : Bool)
    → IsWatched d n m
    → Moved m a t m'
    → Notified m a front m'
    → IsWatched d (n || front) m'
Moved-IsWatched m m' t d a n front w moved note = record {
  valid = moved.valid;
  noted = note.tickled_eq ∙ ap (λ b. b || front) w.noted;
  clear = λ quiet b k.
      let still : n ≡ false = ground (arith, quiet) in
      let tickled : m'.tickled ≡ false = note.tickled_eq ∙ ap (λ x. x || front) w.noted ∙ quiet in
      elim (Bool-cases (b == a)) [
        | inl e ↦
            let same : b ≡ a = ground (arith, e) in
            let (c, k', apart, le) = note.behind tickled in
            let lo : d ≤ (m.store c).next = w.clear still c k' in
            subst (λ x. d ≤ (m'.store x).next) (sym same) (omega arith)
        | inr e ↦
            let apart : b ≢ a = ground (arith, e) in
            let lo = w.clear still b (sym (moved.others.timers_eq b apart) ∙ k) in
            subst (λ u. d ≤ u.next) (sym (moved.others.store_eq b apart)) lo
      ];
}

cancelled-IsWatched :
    (m m' : TimerManager) (d a : ℕ) (n : Bool)
    → IsWatched d n m
    → IsValid m'
    → m'.tickled ≡ m.tickled
    → mem a m'.timers ≡ false
    → KeepsOthers m a m'
    → IsWatched d n m'
cancelled-IsWatched m m' d a n w v e gone others = record {
  valid = v;
  noted = e ∙ w.noted;
  clear = λ quiet b k. elim (Bool-cases (b == a)) [
    | inl e ↦
        let same : b ≡ a = ground (arith, e) in
        let k' : mem a m'.timers ≡ true = subst (λ x. mem x m'.timers ≡ true) same k in
        ground (arith, k', gone)
    | inr e ↦
        let apart : b ≢ a = ground (arith, e) in
        let lo = w.clear quiet b (sym (others.timers_eq b apart) ∙ k) in
        subst (λ u. d ≤ u.next) (sym (others.store_eq b apart)) lo
  ];
}

or_false : (b : Bool) → b ≡ (b || false)
or_false b = ground arith

Run-IsWatched :
    (m m' : TimerManager) (d : ℕ) (n : Bool) → IsWatched d false m → Run m n m' → IsWatched d n m'
Run-IsWatched m m' d n w start = w
Run-IsWatched m m' d n w (added {n = n1} {m1 = m1} fresh now ms f recurring run out) =
    let w1 = Run-IsWatched m m1 d n1 w run in
    let (moved, note) = add_timer_lem m1 fresh now ms f recurring w1.valid out in
    Moved-IsWatched m1 m' _ d fresh n1 _ w1 moved note
Run-IsWatched m m' d n w (cancelled {n = n1} {m1 = m1} a done m2 run e) =
    let w1 = Run-IsWatched m m1 d n1 w run in
    let (m3, e', v, disarmed, gone, others, tickled) = cancel_lem m1 a w1.valid in
    let same : m3 ≡ m2 = cc (e, e') in
    subst (IsWatched d n1) same (cancelled-IsWatched m1 m3 d a n1 w1 v tickled gone others)
Run-IsWatched m m' d n w (reset_to {n = n1} {m1 = m1} a ms from_now now run) =
    let w1 = Run-IsWatched m m1 d n1 w run in
    let keep : IsWatched d (n1 || false) m1 = subst (λ b. IsWatched d b m1) (or_false n1) w1 in
    elim (reset_lem m1 a w1.valid ms from_now now) [
      | inl (_, _, r) ↦ rw r keep
      | inr (inl (_, r)) ↦ rw r keep
      | inr (inr (front, m2, r, moved, note)) ↦
          rw r (Moved-IsWatched m1 m2 _ d a n1 front w1 moved note)
    ]

start-IsWatched :
    (m : TimerManager) (now t d : ℕ)
    → IsValid m
    → NextAnswer m now d
    → now ≤ t
    → t < now + d
    → IsWatched (t + 1) false (record m { tickled = false })
start-IsWatched m now t d v answer from before = record {
  valid = record { sorted = v.sorted; armed = v.armed };
  noted = refl;
  clear = λ quiet b k. elim answer [
    | inl (e, _) ↦
        let k' : mem b [] ≡ true = subst (λ ts. mem b ts ≡ true) e k in ground (arith, k')
    | inr (a, member, least, e) ↦ let lo = least b k in omega arith
  ];
}

-- After `getNextTimer` on a valid manager whose deadlines are 64-bit words: as long as no operation
-- notifies, whatever timers are added, cancelled and reset, no timer is due before the time that it
-- returned has passed.
pub get_next_timer-safe :
    (m m' : TimerManager) (now t b : ℕ)
    → IsValid m
    → ((a : ℕ) → (m.store a).next < 2 ^ 64)
    → Run (get_next_timer m now).1 false m'
    → now ≤ t
    → t < now + (get_next_timer m now).0
    → mem b m'.timers ≡ true
    → t < (m'.store b).next
get_next_timer-safe m m' now t b v words run from before k =
    let (answer, e) = get_next_timer_lem m now v words in
    let w = start-IsWatched m now t _ v answer from before in
    let w' : IsWatched (t + 1) false (get_next_timer m now).1 =
      subst (IsWatched (t + 1) false) (sym e) w in
    let lo = (Run-IsWatched (get_next_timer m now).1 m' (t + 1) false w' run).clear refl b k in
    omega arith
