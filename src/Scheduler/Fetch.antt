-- ===== src/Scheduler/Fetch.antt =====
-- The search of the queue: it takes the first task that this thread may run.
use mathlib.Core.List.{Perm, perm_middle}
use mathlib.Core.List.Perm
use link_server.Base.{
  ℕ, ◌≡◌, refl, ap, List, [], ◌∷◌, ◌++◌, Option, none, some, Bool, true, false, ◌||◌, ok,
  Bool-cases, inl, inr, ◌⊎◌,
}
use link_server.Fiber.{Fiber}
use link_server.Scheduler.{
  FiberAndThread, Fetched, fetch, is_elsewhere, is_running, is_null, pass_over,
}

-- No task of the queue is empty.
abbrev pub NoNull : List FiberAndThread → Type 0
NoNull [] = Unit {0}
NoNull (ft ∷ q) = (is_null ft ≡ false) × NoNull q

-- The thread passes over a task that is bound to another thread or whose fiber is running.
abbrev pub passes : ℕ → (ℕ → Fiber) → FiberAndThread → Bool
passes this s ft = is_elsewhere this ft || is_running s ft

abbrev pub PassesAll : ℕ → (ℕ → Fiber) → List FiberAndThread → Type 0
PassesAll this s [] = Unit {0}
PassesAll this s (ft ∷ q) = (passes this s ft ≡ true) × PassesAll this s q

abbrev pub any_elsewhere : ℕ → List FiberAndThread → Bool
any_elsewhere this [] = false
any_elsewhere this (ft ∷ q) = is_elsewhere this ft || any_elsewhere this q

-- The first task that is not passed over, between those before and those after it.
pub record FoundFirst (this : ℕ) (s : ℕ → Fiber) (q : List FiberAndThread) (r : Fetched)
    : Type 0 where
  pub before : List FiberAndThread
  pub after : List FiberAndThread
  pub ft : FiberAndThread
  pub queue_eq : q ≡ before ++ (ft ∷ after)
  pub passed : PassesAll this s before
  pub takes : passes this s ft ≡ false
  pub result_eq : r ≡ (any_elsewhere this before, some ft, before ++ after)

abbrev pub Answer : ℕ → (ℕ → Fiber) → List FiberAndThread → Fetched → Type 0
Answer this s q r =
    PassesAll this s q × (r ≡ (any_elsewhere this q, none, q)) ⊎ FoundFirst this s q r

pass_over-Answer :
    (this : ℕ) (s : ℕ → Fiber) (ft : FiberAndThread) (q : List FiberAndThread) (r : Fetched)
    (elsewhere : Bool)
    → elsewhere ≡ is_elsewhere this ft
    → passes this s ft ≡ true
    → Answer this s q r
    → Answer this s (ft ∷ q) (pass_over elsewhere ft r)
pass_over-Answer this s ft q r elsewhere e p (inl (all, e')) = inl ((p, all), rw (e', e))
pass_over-Answer this s ft q r elsewhere e p (inr w) = inr (record {
  before = ft ∷ w.before;
  after = w.after;
  ft = w.ft;
  queue_eq = ap (λ xs. ft ∷ xs) w.queue_eq;
  passed = (p, w.passed);
  takes = w.takes;
  result_eq = rw (w.result_eq, e);
})

-- On a queue without empty tasks the search meets no failing assertion. Either it passes over every
-- task and takes none, or it takes the first task that it does not pass over; the other tasks stay
-- in their order, and another thread is tickled exactly if a task passed over is bound to one.
pub fetch_lem :
    (this : ℕ) (s : ℕ → Fiber) (q : List FiberAndThread)
    → NoNull q
    → (r : Fetched) × (fetch this s q ≡ ok r) × Answer this s q r
unfolding fetch
fetch_lem this s [] h = ((false, none, []), refl, inl (tt, refl))
fetch_lem this s (ft ∷ q) (n, h) =
    let (r, run, a) = fetch_lem this s q h in
    elim (Bool-cases (is_elsewhere this ft)) [
      | inl e ↦
          (pass_over true ft r, rw (e, run), pass_over-Answer this s ft q r true (rw e) (rw e) a)
      | inr e ↦ elim (Bool-cases (is_running s ft)) [
        | inl e' ↦ (
          pass_over false ft r,
          rw (e, n, e', run),
          pass_over-Answer this s ft q r false (rw e) (rw (e, e')) a,
        )
        | inr e' ↦ (
          (false, some ft, q),
          rw (e, n, e'),
          inr (record {
            before = [];
            after = q;
            ft = ft;
            queue_eq = refl;
            passed = tt;
            takes = rw (e, e');
            result_eq = refl;
          }),
        )
      ]
    ]

abbrev pub got_list : Option FiberAndThread → List FiberAndThread
got_list none = []
got_list (some ft) = ft ∷ []

NoNull-middle :
    (before after : List FiberAndThread) (ft : FiberAndThread)
    → NoNull (before ++ (ft ∷ after))
    → NoNull (before ++ after) × (is_null ft ≡ false)
NoNull-middle [] after ft (n, h) = (h, n)
NoNull-middle (x ∷ before) after ft (n, h) =
    let (h', n') = NoNull-middle before after ft h in ((n, h'), n')

-- What a search takes and leaves is what was there.
pub Answer-perm :
    (this : ℕ) (s : ℕ → Fiber) (q : List FiberAndThread) (r : Fetched)
    → NoNull q
    → Answer this s q r
    → Perm q (got_list r.1 ++ r.2) × NoNull r.2
Answer-perm this s q r h (inl (all, e)) = rw e (Perm.rfl, h)
Answer-perm this s q r h (inr w) =
    let (h', n) = NoNull-middle w.before w.after w.ft (rw (← w.queue_eq) h) in
    rw w.result_eq (rw w.queue_eq (perm_middle w.before w.after), h')
