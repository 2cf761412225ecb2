-- ===== src/Timer/Collect.antt =====
-- The loop of `listExpiredCb` over the expired timers.
use link_server.Base.{
  ℕ, ◌≡◌, ◌≢◌, refl, sym, subst, ap, ap₂, ◌∙◌, List, [], ◌∷◌, map, Option, none, Bool, true, false,
  ◌==◌, if◌then◌else◌, Bool-cases, inl, inr, arith, add64, ◌||◌,
}
use link_server.Timer.{Timer, TimerManager, Callback, put, collect, hand_out, rearm, disarm}
use link_server.Timer.Sets.{mem, IsSorted, mem-insert, not_mem-Above, IsSorted-insert}
use link_server.Timer.Invariant.{IsValid, is_some, IsSorted-put, IsSorted-cong}

-- A timer after its callback was handed out at `now`.
abbrev pub after_expiry : ℕ → Timer → Timer
after_expiry now t =
    if t.recurring then record t { next = add64 now t.ms } else record t { cb = none }

abbrev pub callbacks : TimerManager → List ℕ → List (Option Callback)
callbacks m xs = map (λ a. (m.store a).cb) xs

-- The timers `xs` are taken out of the set of a valid manager.
pub record IsSplit (m : TimerManager) (xs : List ℕ) : Type 0 where
  pub sorted : IsSorted m.store m.timers
  pub taken_sorted : IsSorted m.store xs
  pub apart : (x : ℕ) → mem x xs ≡ true → mem x m.timers ≡ false
  pub armed : (x : ℕ) → is_some (m.store x).cb ≡ (mem x xs || mem x m.timers)

-- What the loop over `xs` leaves of `m`.
pub record Collected (m : TimerManager) (xs : List ℕ) (now : ℕ)
    (r : List (Option Callback) × TimerManager) : Type 0 where
  pub cbs_eq : r.0 ≡ callbacks m xs
  pub valid : IsValid r.1
  pub store_eq :
      (x : ℕ) → r.1.store x ≡ (if mem x xs then after_expiry now (m.store x) else m.store x)
  pub timers_eq :
      (x : ℕ) → mem x r.1.timers ≡ (if mem x xs then (m.store x).recurring else mem x m.timers)

==_to : (x a : ℕ) → (x == a) ≡ true → x ≡ a
==_to x a h = ground (arith, h)

callbacks-put :
    (m m' : TimerManager) (xs : List ℕ)
    → ((x : ℕ) → mem x xs ≡ true → m'.store x ≡ m.store x)
    → callbacks m' xs ≡ callbacks m xs
callbacks-put m m' [] h = refl
callbacks-put m m' (a ∷ later) h =
    ap₂ (λ c cs. c ∷ cs) (ap (λ t. t.cb) (h a (ground arith)))
      (callbacks-put m m' later (λ x k. h x (ground (arith, k))))

either :
    (b : Bool) (p q : TimerManager)
    → IsSorted p.store p.timers
    → IsSorted q.store q.timers
    → IsSorted (if b then p else q).store (if b then p else q).timers
either true p q h k = h
either false p q h k = k

module _ (m : TimerManager) (a now : ℕ) (later : List ℕ) (v : IsSplit m (a ∷ later)) where
  a_out : mem a m.timers ≡ false
  a_out = v.apart a (ground arith)

  a_not_later : mem a later ≡ false
  a_not_later = not_mem-Above m.store a later v.taken_sorted.0

  later_apart : (x : ℕ) → mem x later ≡ true → x ≢ a
  later_apart x k e =
      let k' = subst (λ y. mem y later ≡ true) e k in ground (arith, k', a_not_later)

  out_store :
      (x : ℕ)
      → (hand_out a now m).store x ≡ (if x == a then after_expiry now (m.store a) else m.store x)
  out_store x = elim (Bool-cases (m.store a).recurring) [
    | inl e ↦ ground (arith, e)
    | inr e ↦ ground (arith, e)
  ]

  out_timers :
      (x : ℕ)
      → mem x (hand_out a now m).timers ≡ (if x == a then (m.store a).recurring else mem x m.timers)
  out_timers x = elim (Bool-cases (m.store a).recurring) [
    | inl e ↦
        ap (λ b. mem x (if b then rearm a now m else disarm a m).timers) e
        ∙ mem-insert (put m.store a (record (m.store a) { next = add64 now (m.store a).ms })) a x
            m.timers
        ∙ ap (λ b. if x == a then b else mem x m.timers) (sym e)
    | inr e ↦ elim (Bool-cases (x == a)) [
      | inl same ↦
          let k = subst (λ y. mem y m.timers ≡ false) (sym (==_to x a same)) a_out in
          ground (arith, e, same, k)
      | inr differs ↦ ground (arith, e, differs)
    ]
  ]

  out-IsSorted : IsSorted (hand_out a now m).store (hand_out a now m).timers
  out-IsSorted =
      let s : ℕ → Timer = put m.store a (record (m.store a) { next = add64 now (m.store a).ms }) in
      either (m.store a).recurring (rearm a now m) (disarm a m)
        (IsSorted-insert s a m.timers (IsSorted-put m.store a _ m.timers a_out v.sorted))
        (IsSorted-put m.store a _ m.timers a_out v.sorted)

  kept : (x : ℕ) → mem x later ≡ true → (hand_out a now m).store x ≡ m.store x
  kept x k = out_store x ∙ ground (arith, later_apart x k)

  out_armed :
      (x : ℕ)
      → is_some ((hand_out a now m).store x).cb ≡ (mem x later || mem x (hand_out a now m).timers)
  out_armed x = elim (Bool-cases (m.store a).recurring) [
    | inl e ↦ ground (arith, e, out_store x, out_timers x, v.armed x, v.armed a)
    | inr e ↦ ground (arith, e, out_store x, out_timers x, v.armed x, a_not_later, v.armed a)
  ]

  out-IsSplit : IsSplit (hand_out a now m) later
  out-IsSplit = record {
    sorted = out-IsSorted;
    taken_sorted =
        IsSorted-cong m.store (hand_out a now m).store later
          (λ x k. let e = kept x k in ap (λ t. t.next) (sym e)) v.taken_sorted.1;
    apart = λ x k. ground (arith, out_timers x, later_apart x k, v.apart x, k);
    armed = out_armed;
  }

  module _ (r : List (Option Callback) × TimerManager)
      (w : Collected (hand_out a now m) later now r) where
    store_next :
        (x : ℕ)
        → r.1.store x ≡ (if mem x (a ∷ later) then after_expiry now (m.store x) else m.store x)
    store_next x = elim (Bool-cases (x == a)) [
      | inl e ↦
          let k = subst (λ y. mem y later ≡ false) (sym (==_to x a e)) a_not_later in
          let same = ap (λ y. after_expiry now (m.store y)) (sym (==_to x a e)) in
          w.store_eq x ∙ rw (k, out_store x, e) same
      | inr e ↦ w.store_eq x ∙ rw (out_store x, e)
    ]

    timers_next :
        (x : ℕ)
        → mem x r.1.timers ≡ (if mem x (a ∷ later) then (m.store x).recurring else mem x m.timers)
    timers_next x = elim (Bool-cases (x == a)) [
      | inl e ↦
          let k = subst (λ y. mem y later ≡ false) (sym (==_to x a e)) a_not_later in
          let same = ap (λ y. (m.store y).recurring) (sym (==_to x a e)) in
          w.timers_eq x ∙ rw (k, out_timers x, e) same
      | inr e ↦ w.timers_eq x ∙ rw (out_store x, out_timers x, e)
    ]

    next-Collected : Collected m (a ∷ later) now ((m.store a).cb ∷ r.0, r.1)
    next-Collected = record {
      cbs_eq =
          ap (λ cs. (m.store a).cb ∷ cs) (w.cbs_eq ∙ callbacks-put m (hand_out a now m) later kept);
      valid = w.valid;
      store_eq = store_next;
      timers_eq = timers_next;
    }

pub collect_lem :
    (m : TimerManager) (xs : List ℕ) (now : ℕ)
    → IsSplit m xs
    → Collected m xs now (collect xs now m)
collect_lem m [] now v = record {
  cbs_eq = refl;
  valid = record { sorted = v.sorted; armed = v.armed };
  store_eq = λ x. refl;
  timers_eq = λ x. refl;
}
collect_lem m (a ∷ later) now v =
    next-Collected m a now later v (collect later now (hand_out a now m))
      (collect_lem (hand_out a now m) later now (out-IsSplit m a now later v))
