-- ===== src/IoManager/Cancel.antt =====
-- `cancelAll` (linko/iomanager.cc): both events of a descriptor are triggered.
use mathlib.Core.List.{append-nil}
use link_server.Base.{
  ℕ, ◌≡◌, refl, sym, ◌≢◌, not, ◌&&◌, get_elem?-set_ne, ap, ◌∙◌, List, [], ◌++◌, some, Bool, true,
  false, ◌||◌, if◌then◌else◌, get_elem?, set, get_elem?-set_same, ok, sub64, arith, inl, inr,
  Bool-cases, Option-cases,
}
use link_server.IoManager.{
  Event, read, write, FdContext, IoManager, Task, has, without, get_context, put_context,
  empty_context, tasks_of, trigger_event, trigger_if, any, cancel_all,
}
use link_server.IoManager.Registration.{IsValid, IsOk-get, removed-IsOk, removed-IsValid}

-- The tasks that wait for an event.
abbrev pub waiters : FdContext → Event → List Task
waiters c e = if has c.events e then tasks_of (get_context c e) else []

abbrev other : Event → Event
other read = write
other write = read

and-false : (b : Bool) → (b && false) ≡ false
and-false true = refl
and-false false = refl

and-true : (b : Bool) → (b && true) ≡ b
and-true true = refl
and-true false = refl

and-not : (b : Bool) → (b && not b) ≡ false
and-not true = refl
and-not false = refl

-- What triggering an event, where `b` says so, leaves of it and of the other one.
pub record Cleared (c : FdContext) (e : Event) (b : Bool) (c' : FdContext) : Type 0 where
  pub left : has c'.events e ≡ (has c.events e && not b)
  pub kept : has c'.events (other e) ≡ has c.events (other e)
  pub same : get_context c' (other e) ≡ get_context c (other e)

put-Cleared :
    (c : FdContext) (e : Event)
    → Cleared c e true (put_context (record c { events = without c.events e }) e empty_context)
put-Cleared c read = record { left = sym (and-false c.events.reads); kept = refl; same = refl }
put-Cleared c write = record { left = sym (and-false c.events.writes); kept = refl; same = refl }

pub trigger_if_lem :
    (m : IoManager) (fd : ℕ) (c : FdContext) (e : Event) (b : Bool)
    → IsValid m
    → get_elem? m.contexts fd ≡ some c
    → (b ≡ true → has c.events e ≡ true)
    → (c' : FdContext) × (m' : IoManager) × (trigger_if m fd c e b ≡ ok (c', m'))
      × IsValid m'
      × (get_elem? m'.contexts fd ≡ some c')
      × Cleared c e b c'
      × (m'.queue ≡ m.queue ++ (if b then tasks_of (get_context c e) else []))
      × ((i : ℕ) → i ≢ fd → get_elem? m'.contexts i ≡ get_elem? m.contexts i)
unfolding trigger_event
trigger_if_lem m fd c e false v got within = (
  c,
  m,
  refl,
  v,
  got,
  record { left = sym (and-true (has c.events e)); kept = refl; same = refl },
  sym (append-nil m.queue),
  λ i ne. refl,
)
trigger_if_lem m fd c e true v got within =
    let on : has c.events e ≡ true = within refl in
    let (o', counted, gone) = removed-IsOk c e (IsOk-get m.contexts fd c v.all_ok got) on in
    let c' : FdContext = put_context (record c { events = without c.events e }) e empty_context in
    (
      c',
      record m {
        contexts = set m.contexts fd c';
        pending = sub64 m.pending 1;
        queue = m.queue ++ tasks_of (get_context c e);
      },
      rw (trigger_event, on, gone),
      removed-IsValid m fd e c (m.queue ++ tasks_of (get_context c e)) v got on,
      get_elem?-set_same m.contexts fd c c' got,
      put-Cleared c e,
      refl,
      λ i ne. get_elem?-set_ne m.contexts c' (λ y. ne (sym y)),
    )

or-false : (a b : Bool) → (a || b) ≡ false → (a ≡ false) × (b ≡ false)
or-false false false h = (refl, refl)
or-false false true h = (refl, h)
or-false true b h = ground (arith, h)

-- On a valid manager, on a descriptor that has a context and on which epoll_ctl does not fail,
-- `cancelAll` meets no failing assertion and keeps the manager valid: it succeeds just where an
-- event was registered, leaves none registered, and hands over what waited to read, then what
-- waited to write.
pub cancel_all_lem :
    (m : IoManager) (fd : ℕ) (c : FdContext)
    → IsValid m
    → get_elem? m.contexts fd ≡ some c
    → (c' : FdContext) × (m' : IoManager) × (cancel_all m fd false ≡ ok (any c.events, m'))
      × IsValid m'
      × (get_elem? m'.contexts fd ≡ some c')
      × (any c'.events ≡ false)
      × (m'.queue ≡ m.queue ++ waiters c read ++ waiters c write)
unfolding cancel_all
cancel_all_lem m fd c v got = elim (Bool-cases (any c.events)) [
  | inr off ↦
      let (r, w) = or-false c.events.reads c.events.writes off in
      (
        c,
        m,
        rw (got, off, cancel_all),
        v,
        got,
        off,
        rw (r, w, append-nil m.queue, append-nil m.queue) refl,
      )
  | inl on ↦
      let (c1, m1, r1, v1, g1, k1, q1, o1) =
        trigger_if_lem m fd c read c.events.reads v got (λ h. h) in
      let (c2, m2, r2, v2, g2, k2, q2, o2) =
        trigger_if_lem m1 fd c1 write c1.events.writes v1 g1 (λ h. h) in
      let r : c2.events.reads ≡ false = k2.kept ∙ k1.left ∙ and-not c.events.reads in
      let clear : any c2.events ≡ false = let w = k2.left ∙ and-not c1.events.writes in cc (r, w) in
      let same : waiters c1 write ≡ waiters c write = cc (k1.kept, k1.same) in
      (
        c2,
        m2,
        rw (cancel_all, got, on, r1, r2, clear),
        v2,
        g2,
        clear,
        q2 ∙ ap (λ t. m1.queue ++ t) same ∙ ap (λ t. t ++ waiters c write) q1,
      )
]

-- On a valid manager `cancelAll` never fails, and keeps it valid.
pub cancel_all-IsValid :
    (m : IoManager) (fd : ℕ) (fails : Bool)
    → IsValid m
    → (done : Bool) × (m' : IoManager) × (cancel_all m fd fails ≡ ok (done, m')) × IsValid m'
unfolding cancel_all
cancel_all-IsValid m fd fails v = elim (Option-cases (get_elem? m.contexts fd)) [
  | inl none_there ↦ (false, m, rw (cancel_all, none_there), v)
  | inr (c, got) ↦ elim (Bool-cases fails) [
    | inl f ↦ elim (Bool-cases (any c.events)) [
      | inl on ↦ (false, m, rw (cancel_all, got, on, f), v)
      | inr off ↦ (false, m, rw (cancel_all, got, off), v)
    ]
    | inr f ↦
        let (c', m', run, v', got', clear, q) = cancel_all_lem m fd c v got in
        (any c.events, m', rw f run, v')
  ]
]
