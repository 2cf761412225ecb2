-- ===== src/Timer/Operations.antt =====
-- The operations on one timer: `addTimer`, `cancel`, `refresh` and `reset`.
use link_server.Base.{
  ℕ, ◌≡◌, ◌≢◌, refl, sym, subst, ap, ◌∙◌, List, [], ◌∷◌, none, some, Bool, true, false, ◌==◌,
  if◌then◌else◌, not, ◌&&◌, Bool-cases, Option-cases, ◌⊎◌, inl, inr, arith, ◌||◌, ◌≤◌, ok, add64,
  sub64,
}
use link_server.Timer.{
  Timer, TimerManager, Callback, put, insert, find_erase, is_begin, add, add_timer, new_timer,
  cancel, refresh, reset,
}
use link_server.Timer.Order.{less-cases}
use link_server.Timer.Sets.{mem, ErasedFrom, mem-insert, find_erase_lem}
use link_server.Timer.Invariant.{
  IsValid, is_some, insert-IsValid, taken-IsValidBut, put_self, put_ne, IsSorted-put,
}

-- Nothing but the timer `a` differs.
pub record KeepsOthers (m : TimerManager) (a : ℕ) (m' : TimerManager) : Type 0 where
  pub store_eq : (x : ℕ) → x ≢ a → m'.store x ≡ m.store x
  pub timers_eq : (x : ℕ) → x ≢ a → mem x m'.timers ≡ mem x m.timers

mem-insert_ne : (s : ℕ → Timer) (a x : ℕ) (ts : List ℕ) → x ≢ a → mem x (insert s a ts) ≡ mem x ts
mem-insert_ne s a x ts ne = mem-insert s a x ts ∙ ground (arith, ne)

mem-insert_self : (s : ℕ → Timer) (a : ℕ) (ts : List ℕ) → mem a (insert s a ts) ≡ true
mem-insert_self s a ts = mem-insert s a a ts ∙ ground arith

put-KeepsOthers :
    (m : TimerManager) (a : ℕ) (t : Timer) (ts : List ℕ)
    → ErasedFrom m.store a m.timers ts
    → KeepsOthers m a (record m { store = put m.store a t; timers = ts })
put-KeepsOthers m a t ts w = record {
  store_eq = λ x ne. put_ne m.store a x t ne;
  timers_eq = w.others;
}

insert-KeepsOthers :
    (m m1 : TimerManager) (a : ℕ)
    → KeepsOthers m a m1
    → KeepsOthers m a (record m1 { timers = insert m1.store a m1.timers })
insert-KeepsOthers m m1 a k = record {
  store_eq = k.store_eq;
  timers_eq = λ x ne. mem-insert_ne m1.store a x m1.timers ne ∙ k.timers_eq x ne;
}

disarmed-IsValid :
    (m : TimerManager) (a : ℕ) (t : Timer) (ts : List ℕ)
    → IsValid m
    → t.cb ≡ none
    → ErasedFrom m.store a m.timers ts
    → IsValid (record m { store = put m.store a t; timers = ts })
disarmed-IsValid m a t ts v h w = record {
  sorted = IsSorted-put m.store a t ts w.gone w.sorted;
  armed = λ x. elim (Bool-cases (x == a)) [
    | inl e ↦
        let same : a ≡ x = ground (arith, e) in
        subst (λ y. is_some (put m.store a t y).cb ≡ mem y ts) same
          (ap (λ u. is_some u.cb) (put_self m.store a t) ∙ ap is_some h ∙ sym w.gone)
    | inr e ↦
        let apart : x ≢ a = ground (arith, e) in
        ap (λ u. is_some u.cb) (put_ne m.store a x t apart) ∙ v.armed x ∙ sym (w.others x apart)
  ];
}

or_lem : (b c : Bool) → (if b && not c then true else c) ≡ (c || (b && not c))
or_lem b c = ground arith

or_quiet : (b c : Bool) → (if b && not c then true else c) ≡ false → b ≡ false
or_quiet b c h = ground (arith, h)

-- What `refresh` and `reset` do to a manager `m` on an armed timer `a`: it gets the value `t`.
pub record Moved (m : TimerManager) (a : ℕ) (t : Timer) (m' : TimerManager) : Type 0 where
  pub valid : IsValid m'
  pub value : m'.store a ≡ t
  pub member : mem a m'.timers ≡ true
  pub others : KeepsOthers m a m'

-- Whether `onTimerInsertedAtFront` is called when the timer `a` is put into the set of `m`: if not,
-- and nothing was notified before, another timer is due no later.
pub record Notified (m : TimerManager) (a : ℕ) (front : Bool) (m' : TimerManager) : Type 0 where
  pub tickled_eq : m'.tickled ≡ (m.tickled || front)
  pub behind :
      m'.tickled ≡ false
      → (c : ℕ) × (mem c m.timers ≡ true) × (c ≢ a) × ((m.store c).next ≤ (m'.store a).next)

insert_behind :
    (s : ℕ → Timer) (a : ℕ) (ts : List ℕ)
    → is_begin a (insert s a ts) ≡ false
    → (c : ℕ) × (mem c ts ≡ true) × ((s c).next ≤ (s a).next)
insert_behind s a [] h = ground (arith, h)
insert_behind s a (c ∷ rest) h = elim (less-cases s a c) [
  | inl e ↦ ground (arith, h, e)
  | inr (inl (e, _)) ↦ (c, ground arith, ground (arith, e))
  | inr (inr e) ↦ ground (arith, h, e)
]

module _ (m : TimerManager) (a : ℕ) (v : IsValid m) where
  erased :
      (f : Callback)
      → (m.store a).cb ≡ some f
      → (ts : List ℕ) × (find_erase m.store a m.timers ≡ some ts) × ErasedFrom m.store a m.timers ts
  erased f e = find_erase_lem m.store a m.timers v.sorted (sym (v.armed a) ∙ ap is_some e)

  -- On a valid manager `cancel` never erases the end of the set: it says whether the timer had a
  -- callback, keeps the manager valid, and leaves the timer without a callback and out of the set,
  -- with the other timers and the notification as they were.
  pub cancel_lem :
      (m' : TimerManager) × (cancel m a ≡ ok (is_some (m.store a).cb, m'))
      × IsValid m'
      × ((m'.store a).cb ≡ none)
      × (mem a m'.timers ≡ false)
      × KeepsOthers m a m'
      × (m'.tickled ≡ m.tickled)
  unfolding cancel
  cancel_lem = elim (Option-cases (m.store a).cb) [
    | inl e ↦ (
      m,
      rw (cancel, e),
      v,
      e,
      sym (v.armed a) ∙ ap is_some e,
      record { store_eq = λ x ne. refl; timers_eq = λ x ne. refl },
      refl,
    )
    | inr (f, e) ↦
        let (ts, run, w) = erased f e in
        let t : Timer = record (m.store a) { cb = none } in
        (
          record m { store = put m.store a t; timers = ts },
          cc (e, run),
          disarmed-IsValid m a t ts v refl w,
          ap (λ u. u.cb) (put_self m.store a t),
          w.gone,
          put-KeepsOthers m a t ts w,
          refl,
        )
  ]

  module _ (t : Timer) (ts : List ℕ) (h : is_some t.cb ≡ true)
      (w : ErasedFrom m.store a m.timers ts) where
    abbrev taken : TimerManager
    taken = record m { store = put m.store a t; timers = ts }

    inserted-Moved : Moved m a t (record taken { timers = insert taken.store a taken.timers })
    inserted-Moved = record {
      valid = insert-IsValid taken a (taken-IsValidBut m a t ts v h w);
      value = put_self m.store a t;
      member = mem-insert_self taken.store a ts;
      others = insert-KeepsOthers m taken a (put-KeepsOthers m a t ts w);
    }

    added-Moved : Moved m a t (add taken a).1
    unfolding add
    added-Moved = record {
      valid = let k = inserted-Moved in record { sorted = k.valid.sorted; armed = k.valid.armed };
      value = inserted-Moved.value;
      member = inserted-Moved.member;
      others =
          let k = inserted-Moved in
          record { store_eq = k.others.store_eq; timers_eq = k.others.timers_eq };
    }

    kept_next : (c : ℕ) → mem c ts ≡ true → (c ≢ a) × ((m.store c).next ≡ (taken.store c).next)
    kept_next c k =
        let apart : c ≢ a = λ e.
          let k' : mem a ts ≡ true = subst (λ x. mem x ts ≡ true) e k in
          ground (arith, k', w.gone) in
        (apart, ap (λ u. u.next) (sym (put_ne m.store a c t apart)))

    added-Notified : Notified m a (add taken a).0 (add taken a).1
    unfolding add
    added-Notified = record {
      tickled_eq = or_lem (is_begin a (insert taken.store a ts)) m.tickled;
      behind = λ quiet.
          let front : is_begin a (insert taken.store a ts) ≡ false =
            or_quiet (is_begin a (insert taken.store a ts)) m.tickled quiet in
          let (c, k, le) = insert_behind taken.store a ts front in
          let (apart, e) = kept_next c k in
          (c, sym (w.others c apart) ∙ k, apart, subst (λ x. x ≤ (taken.store a).next) (sym e) le);
    }

  -- On a valid manager `refresh` fails exactly on a timer without a callback, and then changes
  -- nothing; otherwise it moves the timer to its period from now and keeps the manager valid.
  pub refresh_lem :
      (now : ℕ)
      → (((m.store a).cb ≡ none) × (refresh m a now ≡ (false, m)))
        ⊎ ((m' : TimerManager) × (refresh m a now ≡ (true, m'))
            × Moved m a (record (m.store a) { next = add64 now (m.store a).ms }) m')
  unfolding refresh
  refresh_lem now = elim (Option-cases (m.store a).cb) [
    | inl e ↦ inl (e, rw (refresh, e))
    | inr (f, e) ↦
        let (ts, run, w) = erased f e in
        let t : Timer = record (m.store a) { next = add64 now (m.store a).ms } in
        inr (
          record m { store = put m.store a t; timers = insert (put m.store a t) a ts },
          cc (e, run),
          inserted-Moved t ts (ap is_some e) w,
        )
  ]

  -- The deadline that `reset` gives: `ms` after now or after the start of the timer's period.
  abbrev pub reset_next : ℕ → Bool → ℕ → ℕ
  reset_next ms from_now now =
      add64 (if from_now then now else sub64 (m.store a).next (m.store a).ms) ms

  -- On a valid manager `reset` does nothing where the period stays and the start is not now, fails
  -- on a timer without a callback, and otherwise gives the timer the period and the new deadline,
  -- keeps the manager valid, sets `m_tickled` where it notifies, and if that
  -- is not set afterwards, another timer is due no later.
  pub reset_lem :
      (ms : ℕ) (from_now : Bool) (now : ℕ)
      → ((ms ≡ (m.store a).ms)
          × (from_now ≡ false)
          × (reset m a ms from_now now ≡ (true, false, m)))
        ⊎ ((m.store a).cb ≡ none) × (reset m a ms from_now now ≡ (false, false, m))
        ⊎ ((front : Bool) × (m' : TimerManager) × (reset m a ms from_now now ≡ (true, front, m'))
            × Moved m a (record (m.store a) { ms = ms; next = reset_next ms from_now now }) m'
            × Notified m a front m')
  unfolding reset
  reset_lem ms from_now now = elim (Bool-cases (ms == (m.store a).ms && not from_now)) [
    | inl same ↦ inl (ground (arith, same), ground (arith, same), rw same)
    | inr differs ↦ elim (Option-cases (m.store a).cb) [
      | inl e ↦ inr (inl (e, rw (differs, e)))
      | inr (f, e) ↦
          let (ts, run, w) = erased f e in
          let t : Timer = record (m.store a) { ms = ms; next = reset_next ms from_now now } in
          let r = add (record m { store = put m.store a t; timers = ts }) a in
          inr (
            inr (
              r.0,
              r.1,
              cc (differs, e, run),
              added-Moved t ts (ap is_some e) w,
              added-Notified t ts (ap is_some e) w,
            ))
    ]
  ]

-- `addTimer` with a callback on a valid manager, at an address that is not in its set: the manager
-- stays valid and has the new timer besides the others; `m_tickled` is set where it notifies, and if
-- it is not set afterwards, another timer is due no later.
pub add_timer_lem :
    (m : TimerManager) (fresh now ms : ℕ) (f : Callback) (recurring : Bool)
    → IsValid m
    → mem fresh m.timers ≡ false
    → Moved m fresh
        (new_timer now ms (some f) recurring)
        (add_timer m fresh now ms (some f) recurring).1
      × Notified m fresh
          (add_timer m fresh now ms (some f) recurring).0
          (add_timer m fresh now ms (some f) recurring).1
unfolding add_timer
add_timer_lem m fresh now ms f recurring v out =
    let t = new_timer now ms (some f) recurring in
    let w : ErasedFrom m.store fresh m.timers m.timers = record {
      sorted = v.sorted;
      others = λ x ne. refl;
      gone = out;
    } in
    (added-Moved m fresh v t m.timers refl w, added-Notified m fresh v t m.timers refl w)
