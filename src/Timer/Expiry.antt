-- ===== src/Timer/Expiry.antt =====
-- `listExpiredCb`: it hands out exactly the callbacks that are due, in the order of their deadlines.
use link_server.Base.{
  ℕ, ◌≤◌, ◌<◌, ◌≡◌, refl, sym, subst, ap, ◌∙◌, List, [], ◌∷◌, ◌++◌, Option, Bool, true, false, ltb,
  leb, ◌==◌, if◌then◌else◌, Bool-cases, inl, inr, arith, ◌||◌, le-or-lt, List-cases, not, ◌&&◌,
}
use link_server.Timer.{
  Timer, TimerManager, Callback, take_while, drop_while, before, is_due, split, is_rollover,
  first_after, collect, list_expired_cb, unless_empty,
}
use link_server.Timer.Sets.{mem, Above, IsSorted, not_mem-Above, Above-sub}
use link_server.Timer.Invariant.{IsValid}
use link_server.Timer.Collect.{IsSplit, Collected, collect_lem}

abbrev pub filter : (ℕ → Bool) → List ℕ → List ℕ
filter p [] = []
filter p (b ∷ bs) = if p b then b ∷ filter p bs else filter p bs

-- The deadline of `b` has come.
abbrev pub is_expired : (ℕ → Timer) → ℕ → ℕ → Bool
is_expired s now b = leb (s b).next now

-- The expired timers at `now`: all if the clock was set back.
abbrev pub expired : TimerManager → ℕ → List ℕ
expired m now = if is_rollover m now then m.timers else filter (is_expired m.store now) m.timers

module _ (s : ℕ → Timer) (tmp now : ℕ) where
  due_later :
      (b : ℕ) (bs : List ℕ)
      → Above s b bs
      → now ≤ (s b).next
      → (take_while (is_due s now) bs ≡ take_while (is_expired s now) bs)
        × (drop_while (is_due s now) bs ≡ drop_while (is_expired s now) bs)
  due_later b [] h le = (refl, refl)
  due_later b (c ∷ bs) (k, h) le =
      let (e, e') = due_later b bs h le in (ground (arith, k, e), ground (arith, k, e'))

  -- What `lower_bound` and the loop after it split off are the expired timers.
  split_lem :
      (bs : List ℕ)
      → IsSorted s bs
      → mem tmp bs ≡ false
      → (take_while (before s tmp now) bs
            ++ take_while (is_due s now) (drop_while (before s tmp now) bs)
          ≡ take_while (is_expired s now) bs)
        × (drop_while (is_due s now) (drop_while (before s tmp now) bs)
            ≡ drop_while (is_expired s now) bs)
  split_lem [] h out = (refl, refl)
  split_lem (b ∷ bs) (h, hs) out = elim (Bool-cases (before s tmp now b)) [
    | inl e ↦
        let (i, j) = split_lem bs hs (ground (arith, out)) in
        let d : is_expired s now b ≡ true = ground (arith, e, out) in
        (rw (e, d) (ap (λ xs. b ∷ xs) i), rw (e, d) j)
    | inr e ↦
        let le : now ≤ (s b).next = ground (arith, e, out) in
        let (i, j) = due_later b bs h le in
        (rw e (ground (arith, i, le)), rw e (ground (arith, j, le)))
  ]

filter_later :
    (s : ℕ → Timer) (now b : ℕ) (bs : List ℕ)
    → Above s b bs
    → now < (s b).next
    → filter (is_expired s now) bs ≡ []
filter_later s now b [] h lt = refl
filter_later s now b (c ∷ bs) (k, h) lt = ground (arith, k, filter_later s now b bs h lt)

take-filter :
    (s : ℕ → Timer) (now : ℕ) (bs : List ℕ)
    → IsSorted s bs
    → take_while (is_expired s now) bs ≡ filter (is_expired s now) bs
take-filter s now [] h = refl
take-filter s now (b ∷ bs) (h, hs) = elim (le-or-lt (s b).next now) [
  | inl le ↦ ground (arith, le, take-filter s now bs hs)
  | inr lt ↦ ground (arith, lt, filter_later s now b bs h lt)
]

mem-take-drop :
    (p : ℕ → Bool) (x : ℕ) (bs : List ℕ)
    → mem x bs ≡ (mem x (take_while p bs) || mem x (drop_while p bs))
mem-take-drop p x [] = refl
mem-take-drop p x (b ∷ bs) = let ih = mem-take-drop p x bs in ground (arith, ih)

mem-take : (p : ℕ → Bool) (x : ℕ) (bs : List ℕ) → mem x (take_while p bs) ≡ true → mem x bs ≡ true
mem-take p x bs h = mem-take-drop p x bs ∙ ground (arith, h)

mem-drop : (p : ℕ → Bool) (x : ℕ) (bs : List ℕ) → mem x (drop_while p bs) ≡ true → mem x bs ≡ true
mem-drop p x bs h = mem-take-drop p x bs ∙ ground (arith, h)

module _ (s : ℕ → Timer) (p : ℕ → Bool) where
  take-drop-apart :
      (x : ℕ) (bs : List ℕ)
      → IsSorted s bs
      → mem x (take_while p bs) ≡ true
      → mem x (drop_while p bs) ≡ false
  take-drop-apart x [] h k = refl
  take-drop-apart x (b ∷ bs) (h, hs) k = elim (Bool-cases (p b)) [
    | inl e ↦ elim (Bool-cases (x == b)) [
      | inl same ↦
          let eq : b ≡ x = ground (arith, same) in
          let out : mem x bs ≡ false = subst (λ y. mem y bs ≡ false) eq (not_mem-Above s b bs h) in
          rw e (elim (Bool-cases (mem x (drop_while p bs))) [
            | inl bad ↦ let k' = mem-drop p x bs bad in ground (arith, out, k')
            | inr good ↦ good
          ])
      | inr differs ↦ rw e (take-drop-apart x bs hs (ground (arith, e, k, differs)))
    ]
    | inr e ↦ ground (arith, e, k)
  ]

  IsSorted-take : (bs : List ℕ) → IsSorted s bs → IsSorted s (take_while p bs)
  IsSorted-take [] h = tt
  IsSorted-take (b ∷ bs) (h, hs) = elim (Bool-cases (p b)) [
    | inl e ↦
        rw e (Above-sub s b bs (take_while p bs) (λ x. mem-take p x bs) h, IsSorted-take bs hs)
    | inr e ↦ rw e tt
  ]

  IsSorted-drop : (bs : List ℕ) → IsSorted s bs → IsSorted s (drop_while p bs)
  IsSorted-drop [] h = tt
  IsSorted-drop (b ∷ bs) (h, hs) = elim (Bool-cases (p b)) [
    | inl e ↦ rw e (IsSorted-drop bs hs)
    | inr e ↦ rw e (h, hs)
  ]

-- Splitting the set of a valid manager at `now`.
taken-IsSplit :
    (m : TimerManager) (xs rest : List ℕ) (p : ℕ → Bool) (now : ℕ)
    → IsValid m
    → xs ≡ take_while p m.timers
    → rest ≡ drop_while p m.timers
    → IsSplit (record m { timers = rest; previous_time = now }) xs
taken-IsSplit m xs rest p now v e e' = record {
  sorted = rw e' (IsSorted-drop m.store p m.timers v.sorted);
  taken_sorted = rw e (IsSorted-take m.store p m.timers v.sorted);
  apart = λ x k. rw e' (take-drop-apart m.store p x m.timers v.sorted (rw (← e) k));
  armed = λ x. v.armed x ∙ mem-take-drop p x m.timers ∙ rw (e, e');
}

kept :
    (m : TimerManager) (xs rest : List ℕ) (p : ℕ → Bool) (x : ℕ)
    → xs ≡ take_while p m.timers
    → rest ≡ drop_while p m.timers
    → (if mem x xs then (m.store x).recurring else mem x rest)
      ≡ (if mem x xs then (m.store x).recurring else mem x m.timers)
kept m xs rest p x e e' = elim (Bool-cases (mem x xs)) [
  | inl k ↦ rw k
  | inr k ↦
      let k' : mem x (take_while p m.timers) ≡ false = ap (mem x) (sym e) ∙ k in
      rw k (rw e' (sym (mem-take-drop p x m.timers ∙ rw k')))
]

-- What is left of a set behind what was taken.
split-Collected :
    (m : TimerManager) (xs rest : List ℕ) (p : ℕ → Bool) (now : ℕ)
    → IsValid m
    → xs ≡ take_while p m.timers
    → rest ≡ drop_while p m.timers
    → Collected m xs now (collect xs now (record m { timers = rest; previous_time = now }))
split-Collected m xs rest p now v e e' =
    let w =
      collect_lem (record m { timers = rest; previous_time = now }) xs now
        (taken-IsSplit m xs rest p now v e e') in
    record {
      cbs_eq = w.cbs_eq;
      valid = w.valid;
      store_eq = w.store_eq;
      timers_eq = λ x. w.timers_eq x ∙ kept m xs rest p x e e';
    }

take_while-true : (bs : List ℕ) → take_while (λ x. true) bs ≡ bs
take_while-true [] = refl
take_while-true (b ∷ bs) = ap (λ xs. b ∷ xs) (take_while-true bs)

drop_while-true : (bs : List ℕ) → drop_while (λ x. true) bs ≡ []
drop_while-true [] = refl
drop_while-true (b ∷ bs) = drop_while-true bs

none-Collected :
    (m m' : TimerManager) (now : ℕ)
    → IsValid m
    → m'.store ≡ m.store
    → m'.timers ≡ m.timers
    → Collected m [] now ([], m')
none-Collected m m' now v e e' = record {
  cbs_eq = refl;
  valid = record { sorted = rw (e, e') v.sorted; armed = rw (e, e') v.armed };
  store_eq = λ x. ap (λ s. s x) e;
  timers_eq = λ x. ap (mem x) e';
}

-- The result, by cases: the loop runs on the split, or nothing is due.
list_expired_runs :
    (m : TimerManager) (now tmp : ℕ)
    → IsValid m
    → mem tmp m.timers ≡ false
    → Collected m (expired m now) now (
        collect
          (split m now tmp (is_rollover m now)).0
          now
          (record m { timers = (split m now tmp (is_rollover m now)).1; previous_time = now }))
list_expired_runs m now tmp v out = elim (Bool-cases (is_rollover m now)) [
  | inl r ↦ rw r (
      split-Collected m m.timers [] (λ x. true) now v (sym (take_while-true m.timers))
        (sym (drop_while-true m.timers)))
  | inr r ↦
      let (e, e') = split_lem m.store tmp now m.timers v.sorted out in
      let f = take-filter m.store now m.timers v.sorted in
      rw (r, ← f, ← e) (split-Collected m _ _ (is_expired m.store now) now v e e')
]

both_not : (b c : Bool) → (not b && c) ≡ true → (b ≡ false) × (c ≡ true)
both_not b c h = (ground (arith, h), ground (arith, h))

first_after_eq :
    (m : TimerManager) (now a : ℕ) (rest : List ℕ)
    → m.timers ≡ a ∷ rest
    → first_after m now ≡ ltb now (m.store a).next
first_after_eq m now a rest e = rw e

nothing_due :
    (m : TimerManager) (now a : ℕ) (rest : List ℕ)
    → IsValid m
    → m.timers ≡ a ∷ rest
    → (not (is_rollover m now) && first_after m now) ≡ true
    → expired m now ≡ []
nothing_due m now a rest v e early =
    let h : Above m.store a rest × IsSorted m.store rest = subst (IsSorted m.store) e v.sorted in
    let r : is_rollover m now ≡ false =
      (both_not (is_rollover m now) (first_after m now) early).0 in
    let f : first_after m now ≡ true = (both_not (is_rollover m now) (first_after m now) early).1 in
    let lt : now < (m.store a).next =
      let k : ltb now (m.store a).next ≡ true = sym (first_after_eq m now a rest e) ∙ f in
      ground (arith, k) in
    rw (r, e) (ground (arith, lt, filter_later m.store now a rest h.0 lt))

-- On a valid manager `listExpiredCb` hands out the callbacks of exactly the timers whose deadline
-- has come, or of all timers where the clock was set back by more than an hour, in the order of
-- their deadlines, whatever the address of the timer it compares with, which is none of the set. It
-- keeps the manager valid; of the timers handed out those that recur are back in the set with their
-- next deadline, the others are out of it and without callback; all else stays.
pub list_expired_cb_lem :
    (m : TimerManager) (now tmp : ℕ)
    → IsValid m
    → mem tmp m.timers ≡ false
    → Collected m (expired m now) now (list_expired_cb m now tmp)
unfolding list_expired_cb
list_expired_cb_lem m now tmp v out = elim (List-cases m.timers) [
  | inl e ↦
      let none_expired : expired m now ≡ [] = ground (arith, e) in
      let run : list_expired_cb m now tmp ≡ ([], m) = cc e in
      rw (none_expired, run) (none-Collected m m now v refl refl)
  | inr (a, rest, e) ↦ elim (Bool-cases (not (is_rollover m now) && first_after m now)) [
    | inl early ↦
        let none_expired = nothing_due m now a rest v e early in
        let run : list_expired_cb m now tmp ≡ ([], record m { previous_time = now }) =
          cc (e, early) in
        rw (none_expired, run) (none-Collected m (record m { previous_time = now }) now v refl refl)
    | inr late ↦
        let m1 : TimerManager = record m { previous_time = now } in
        let r : List (Option Callback) × TimerManager =
          collect (split m now tmp (is_rollover m now)).0 now
            (record m { timers = (split m now tmp (is_rollover m now)).1; previous_time = now }) in
        let run : list_expired_cb m now tmp ≡ r =
          ap
            (λ ts.
              unless_empty {A = List (Option Callback) × TimerManager} ts ([], m)
                (if not (is_rollover m now) && first_after m now then ([], m1) else r))
            e
          ∙ ap (λ b. if b then ([], m1) else r) late in
        rw run (list_expired_runs m now tmp v out)
  ]
]
