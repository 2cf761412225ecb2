-- ===== src/Scheduler/Keeps.antt =====
-- What one thread's part of a round does to the queue and to the counters.
use link_server.Base.{
  ℕ, ◌≡◌, refl, sym, ap, ◌∙◌, List, [], ◌∷◌, Option, none, some, ok, ok-bind, ok-inj, if-ok,
  Bool-cases, inl, inr, add64, subst,
}
use mathlib.Core.List.{append-nil}
use link_server.Fiber.{Fiber, Outcome, is_ready, is_over, swap_in, reset}
use link_server.Scheduler.{
  FiberAndThread, Scheduler, Worker, Phase, looking, in_cb, swapped_cb, counted_cb, in_idle, done,
  fetched, in_fiber, swapped_fiber, counted_fiber, dispatch, come_back, enter, bind_cb, run_cb,
  run_fiber, run_idle, is_term, after_fiber, after_cb, back_from_cb, finish_cb, fiber_task,
  schedule, put_fiber, held, switched_back, counted_down,
}
use link_server.Scheduler.System.{Kept, holding, idling, holds, idles}

-- Only the store differs.
record KeepsCounts (s s' : Scheduler) : Type 0 where
  fibers_eq : s'.fibers ≡ s.fibers
  active_eq : s'.active ≡ s.active
  idle_eq : s'.idle ≡ s.idle

enter-KeepsCounts : (s s' : Scheduler) (a : ℕ) → enter s a ≡ ok s' → KeepsCounts s s'
unfolding enter
enter-KeepsCounts s s' a h =
    let (f, run, e) = ok-bind (swap_in (s.store a)) _ s' h in
    let e' : record s { store = put_fiber s.store a f } ≡ s' = ok-inj e in
    subst (KeepsCounts s) e' (record { fibers_eq = refl; active_eq = refl; idle_eq = refl })

bind_cb-KeepsCounts :
    (s s' : Scheduler) (c : Option ℕ) (fresh f a : ℕ)
    → bind_cb s c fresh f ≡ ok (a, s')
    → KeepsCounts s s'
unfolding bind_cb
bind_cb-KeepsCounts s s' none fresh f a h =
    let e = ap (λ r. r.1) (ok-inj h) in
    subst (KeepsCounts s) e (record { fibers_eq = refl; active_eq = refl; idle_eq = refl })
bind_cb-KeepsCounts s s' (some b) fresh f a h =
    let (g, run, e) = ok-bind (reset (s.store b) (some f)) _ (a, s') h in
    let e' = ap (λ r. r.1) (ok-inj e) in
    subst (KeepsCounts s) e' (record { fibers_eq = refl; active_eq = refl; idle_eq = refl })

-- A thread that holds a task, and goes on holding it.
KeepsCounts-Kept :
    (s s' : Scheduler) (w w' : Worker)
    → KeepsCounts s s'
    → holding w' ≡ holding w
    → idling w' ≡ idling w
    → Kept s w [] s' w'
KeepsCounts-Kept s s' w w' k h i = record {
  fibers_eq = k.fibers_eq ∙ sym (append-nil s.fibers);
  no_null = tt;
  active_ok = inl (k.active_eq, h);
  idle_ok = inl (k.idle_eq, i);
}

module _ (s : Scheduler) (w : Worker) (fresh : ℕ) (r : Scheduler × Worker) (h : holding w ≡ 1)
    (i : idling w ≡ 0) where
  run_cb-Kept : (c : Option ℕ) → run_cb s w c fresh ≡ ok r → Kept s w [] r.0 r.1
  run_cb-Kept none e =
      subst (λ x. Kept s w [] x.0 x.1) (ok-inj e)
        (record {
          fibers_eq = sym (append-nil s.fibers);
          no_null = tt;
          active_ok = inr (inr (refl, h, refl));
          idle_ok = inl (refl, sym i);
        })
  run_cb-Kept (some f) e =
      let ((a, s1), bound, e1) = ok-bind (bind_cb s w.cb_fiber fresh f) _ r e in
      let (s2, entered, e2) = ok-bind (enter s1 a) _ r e1 in
      let k = bind_cb-KeepsCounts s s1 w.cb_fiber fresh f a bound in
      let k' = enter-KeepsCounts s1 s2 a entered in
      subst (λ x. Kept s w [] x.0 x.1) (ok-inj e2)
        (KeepsCounts-Kept s s2 w (record w { phase = in_cb; cb_fiber = some a })
          (record {
            fibers_eq = k'.fibers_eq ∙ k.fibers_eq;
            active_eq = k'.active_eq ∙ k.active_eq;
            idle_eq = k'.idle_eq ∙ k.idle_eq;
          })
          (sym h) (sym i))

  run_fiber-Kept : (fiber cb : Option ℕ) → run_fiber s w fiber cb fresh ≡ ok r → Kept s w [] r.0 r.1
  run_fiber-Kept none cb e = run_cb-Kept cb e
  run_fiber-Kept (some a) cb e = elim (if-ok (is_over (s.store a).state) _ _ r e) [
    | inl (_, e') ↦ run_cb-Kept cb e'
    | inr (_, e') ↦
        let (s1, entered, e1) = ok-bind (enter s a) _ r e' in
        subst (λ x. Kept s w [] x.0 x.1) (ok-inj e1)
          (KeepsCounts-Kept s s1 w (record w { phase = in_fiber a })
            (enter-KeepsCounts s s1 a entered) (sym h) (sym i))
  ]

run_idle-Kept :
    (s : Scheduler) (w : Worker) (r : Scheduler × Worker)
    → holding w ≡ 0
    → idling w ≡ 0
    → run_idle s w ≡ ok r
    → Kept s w [] r.0 r.1
run_idle-Kept s w r h i e = elim (if-ok (is_term (s.store w.idle_fiber).state) _ _ r e) [
  | inl (_, e') ↦
      subst (λ x. Kept s w [] x.0 x.1) (ok-inj e')
        (record {
          fibers_eq = sym (append-nil s.fibers);
          no_null = tt;
          active_ok = inl (refl, sym h);
          idle_ok = inl (refl, sym i);
        })
  | inr (_, e') ↦
      let (s1, entered, e1) = ok-bind (enter s w.idle_fiber) _ r e' in
      let k = enter-KeepsCounts s s1 w.idle_fiber entered in
      subst (λ x. Kept s w [] x.0 x.1) (ok-inj e1)
        (record {
          fibers_eq = k.fibers_eq ∙ sym (append-nil s.fibers);
          no_null = tt;
          active_ok = inl (k.active_eq, sym h);
          idle_ok = inr (inl (ap (λ n. add64 n 1) k.idle_eq, i, refl));
        })
]

pub dispatch-Kept :
    (s : Scheduler) (w : Worker) (got : Option FiberAndThread) (fresh : ℕ) (r : Scheduler × Worker)
    → w.phase ≡ fetched got
    → dispatch s w got fresh ≡ ok r
    → Kept s w [] r.0 r.1
unfolding dispatch
dispatch-Kept s w none fresh r p e = run_idle-Kept s w r (ap holds p) (ap idles p) e
dispatch-Kept s w (some ft) fresh r p e =
    run_fiber-Kept s w fresh r (ap holds p) (ap idles p) ft.fiber ft.cb e

module _ (s : Scheduler) (w : Worker) where
  -- A step that changes only the store.
  store-Kept :
      (store' : ℕ → Fiber) (w' : Worker)
      → holding w' ≡ holding w
      → idling w' ≡ idling w
      → Kept s w [] (record s { store = store' }) w'
  store-Kept store' w' h i =
      KeepsCounts-Kept s (record s { store = store' }) w w'
        (record { fibers_eq = refl; active_eq = refl; idle_eq = refl }) h i

  -- A step that counts a task down.
  counted-Kept :
      (w' : Worker)
      → holding w ≡ 1
      → holding w' ≡ 0
      → idling w' ≡ idling w
      → Kept s w [] (counted_down s) w'
  counted-Kept w' h h' i = record {
    fibers_eq = sym (append-nil s.fibers);
    no_null = tt;
    active_ok = inr (inr (refl, h, h'));
    idle_ok = inl (refl, i);
  }

  -- A step that schedules the fiber at `a`.
  again-Kept :
      (a : ℕ) (w' : Worker)
      → holding w' ≡ holding w
      → idling w' ≡ idling w
      → Kept s w (fiber_task a ∷ []) (schedule (fiber_task a) s).1 w'
  unfolding schedule
  again-Kept a w' h i = record {
    fibers_eq = refl;
    no_null = (refl, tt);
    active_ok = inl (refl, h);
    idle_ok = inl (refl, i);
  }

  after_fiber-Kept :
      (a : ℕ) (w' : Worker)
      → holding w' ≡ holding w
      → idling w' ≡ idling w
      → Kept s w (after_fiber s a).0 (after_fiber s a).1 w'
  unfolding after_fiber
  after_fiber-Kept a w' h i = elim (Bool-cases (is_ready (s.store a).state)) [
    | inl e ↦ rw e (again-Kept a w' h i)
    | inr e ↦ rw e (store-Kept (put_fiber s.store a (held (s.store a))) w' h i)
  ]

  abbrev AfterCb : Option ℕ × List FiberAndThread × Scheduler → Type 0
  AfterCb c = Kept s w c.1 c.2 (record w { phase = looking; cb_fiber = c.0 })

  after_cb-Kept :
      holding w ≡ 0
      → idling w ≡ 0
      → (a : ℕ) (c : Option ℕ × List FiberAndThread × Scheduler) → after_cb s a ≡ ok c
      → Kept s w c.1 c.2 (record w { phase = looking; cb_fiber = c.0 })
  unfolding after_cb
  after_cb-Kept h i a c e = elim (if-ok (is_ready (s.store a).state) _ _ c e) [
    | inl (_, e') ↦ subst AfterCb (ok-inj e') (again-Kept a _ (sym h) (sym i))
    | inr (_, e') ↦ elim (if-ok (is_over (s.store a).state) _ _ c e') [
      | inl (_, e1) ↦
          let (g, run, e2) = ok-bind (reset (s.store a) none) _ c e1 in
          subst AfterCb (ok-inj e2) (store-Kept _ _ (sym h) (sym i))
      | inr (_, e1) ↦ subst AfterCb (ok-inj e1) (store-Kept _ _ (sym h) (sym i))
    ]
  ]

  module _ (r : List FiberAndThread × Scheduler × Worker) where
    finish_cb-Kept :
        holding w ≡ 0
        → idling w ≡ 0
        → (c : Option ℕ) → finish_cb s w c ≡ ok r
        → Kept s w r.0 r.1 r.2
    finish_cb-Kept h i none e = cc e
    finish_cb-Kept h i (some a) e =
        let (c, run, e1) = ok-bind (after_cb s a) _ r e in
        subst (λ x. Kept s w x.0 x.1 x.2) (ok-inj e1) (after_cb-Kept h i a c run)

    back_from_cb-Kept :
        (o : Outcome)
        → holding w ≡ 1
        → idling w ≡ 0
        → (c : Option ℕ) → back_from_cb s w c o ≡ ok r
        → Kept s w r.0 r.1 r.2
    back_from_cb-Kept o h i none e = cc e
    back_from_cb-Kept o h i (some a) e =
        subst (λ x. Kept s w x.0 x.1 x.2) (ok-inj e)
          (store-Kept (switched_back s a o).store (record w { phase = swapped_cb }) (sym h) (sym i))

    pub come_back-Kept :
        (o : Outcome) (p : Phase) → w.phase ≡ p → come_back p s w o ≡ ok r → Kept s w r.0 r.1 r.2
    unfolding come_back
    come_back-Kept o (in_fiber a) p e =
        subst (λ x. Kept s w x.0 x.1 x.2) (ok-inj e)
          (store-Kept (switched_back s a o).store (record w { phase = swapped_fiber a })
            (sym (ap holds p)) (sym (ap idles p)))
    come_back-Kept o (swapped_fiber a) p e =
        subst (λ x. Kept s w x.0 x.1 x.2) (ok-inj e)
          (counted-Kept (record w { phase = counted_fiber a }) (ap holds p) refl (sym (ap idles p)))
    come_back-Kept o (counted_fiber a) p e =
        subst (λ x. Kept s w x.0 x.1 x.2) (ok-inj e)
          (after_fiber-Kept a (record w { phase = looking }) (sym (ap holds p)) (sym (ap idles p)))
    come_back-Kept o in_cb p e = back_from_cb-Kept o (ap holds p) (ap idles p) w.cb_fiber e
    come_back-Kept o swapped_cb p e =
        subst (λ x. Kept s w x.0 x.1 x.2) (ok-inj e)
          (counted-Kept (record w { phase = counted_cb }) (ap holds p) refl (sym (ap idles p)))
    come_back-Kept o counted_cb p e = finish_cb-Kept (ap holds p) (ap idles p) w.cb_fiber e
    come_back-Kept o in_idle p e =
        subst (λ x. Kept s w x.0 x.1 x.2) (ok-inj e)
          (record {
            fibers_eq = sym (append-nil s.fibers);
            no_null = tt;
            active_ok = inl (refl, sym (ap holds p));
            idle_ok = inr (inr (refl, ap idles p, refl));
          })
    come_back-Kept o looking p e = cc e
    come_back-Kept o done p e = cc e
    come_back-Kept o (fetched got) p e = cc e
