-- ===== src/IoManager/Registration.antt =====
-- The invariant of the registered events, and that registering, deleting and cancelling keep it.
use link_server.Base.{
  ℕ, zero, suc, ◌+◌, ◌-◌, ◌*◌, ◌/◌, ◌^◌, ◌<◌, ◌≡◌, refl, ap, ◌∙◌, subst, List, [], ◌∷◌, ◌++◌,
  Option, none, some, Bool, true, false, not, leb, if◌then◌else◌, length, get_elem?, set, take,
  take_all, ok, add64, sub64, arith, inl, inr, Bool-cases,
}
use link_server.IoManager.{
  Event, read, write, EventContext, FdContext, IoManager, Task, has, with_event, without,
  get_context, put_context, empty_context, new_contexts, grown, waiting, taken, tasks_of,
  trigger_event, register, is_clear, add_event, del_event, cancel_event,
}

-- A context is empty while its event is not registered, and waits for one thing while it is.
abbrev pub Side : Bool → EventContext → Type 0
Side false x = x ≡ empty_context
Side true x = (cb : Option ℕ) × (this : ℕ) × (x ≡ waiting cb this)

abbrev pub IsOk : FdContext → Type 0
IsOk c = Side c.events.reads c.read × Side c.events.writes c.write

abbrev pub AllOk : List FdContext → Type 0
AllOk [] = Unit {0}
AllOk (c ∷ cs) = IsOk c × AllOk cs

-- The number of registered events.
abbrev pub count : FdContext → ℕ
count c = (if c.events.reads then 1 else 0) + (if c.events.writes then 1 else 0)

abbrev pub total : List FdContext → ℕ
total [] = 0
total (c ∷ cs) = count c + total cs

pub record IsValid (m : IoManager) : Type 0 where
  pub all_ok : AllOk m.contexts
  pub pending_eq : m.pending ≡ total m.contexts
  pub pending_lt : m.pending < 2 ^ 64

pub IsOk-get :
    (cs : List FdContext) (fd : ℕ) (c : FdContext) → AllOk cs → get_elem? cs fd ≡ some c → IsOk c
IsOk-get [] fd c a e = ground (arith, e)
IsOk-get (d ∷ cs) zero c (o, a) e = let e' : d ≡ c = cc e in subst IsOk e' o
IsOk-get (d ∷ cs) (suc fd) c (o, a) e = IsOk-get cs fd c a e

AllOk-set : (cs : List FdContext) (fd : ℕ) (c : FdContext) → AllOk cs → IsOk c → AllOk (set cs fd c)
AllOk-set [] fd c a o = tt
AllOk-set (d ∷ cs) zero c (o', a) o = (o, a)
AllOk-set (d ∷ cs) (suc fd) c (o', a) o = (o', AllOk-set cs fd c a o)

total-set :
    (cs : List FdContext) (fd : ℕ) (c c' : FdContext)
    → get_elem? cs fd ≡ some c
    → total (set cs fd c') + count c ≡ total cs + count c'
total-set [] fd c c' e = ground (arith, e)
total-set (d ∷ cs) zero c c' e =
    let e' : count d ≡ count c = let s : d ≡ c = cc e in ap count s in omega arith
total-set (d ∷ cs) (suc fd) c c' e = let ih = total-set cs fd c c' e in omega arith

AllOk-grow :
    (cs : List FdContext) (n fd : ℕ)
    → AllOk cs
    → AllOk (cs ++ new_contexts n fd) × (total (cs ++ new_contexts n fd) ≡ total cs)
AllOk-grow [] zero fd a = (tt, refl)
AllOk-grow [] (suc n) fd a =
    let (o, e) = AllOk-grow [] n (suc fd) tt in (((refl, refl), o), omega (arith, e))
AllOk-grow (c ∷ cs) n fd (o, a) =
    let (o', e) = AllOk-grow cs n fd a in ((o, o'), ap (λ k. count c + k) e)

grown-AllOk :
    (cs : List FdContext) (fd : ℕ)
    → AllOk cs
    → AllOk (grown cs fd) × (total (grown cs fd) ≡ total cs)
grown-AllOk cs fd a = elim (Bool-cases (leb (length cs) fd)) [
  | inr e ↦ rw e (a, refl)
  | inl e ↦
      let same : take (length cs * 3 / 2) cs ≡ cs = take_all (length cs * 3 / 2) cs (omega arith) in
      rw (e, same) (AllOk-grow cs (length cs * 3 / 2 - length cs) (length cs) a)
]

Side-clear : (b : Bool) (x : EventContext) → Side b x → b ≡ false → is_clear x ≡ true
Side-clear false x s h = ap is_clear s
Side-clear true x s h = ground (arith, h)

waiting-taken : (cb : Option ℕ) (this : ℕ) → taken (waiting cb this) ≡ empty_context
waiting-taken none this = refl
waiting-taken (some f) this = refl

Side-taken : (b : Bool) (x : EventContext) → Side b x → b ≡ true → taken x ≡ empty_context
Side-taken false x s h = ground (arith, h)
Side-taken true x (cb, this, e) h = ap taken e ∙ waiting-taken cb this

-- Registering an event on a context that is free for it, and taking one off.
registered-IsOk :
    (c : FdContext) (e : Event) (cb : Option ℕ) (this : ℕ)
    → IsOk c
    → has c.events e ≡ false
    → IsOk (put_context (record c { events = with_event c.events e }) e (waiting cb this))
      × (is_clear (get_context c e) ≡ true)
      × (count (put_context (record c { events = with_event c.events e }) e (waiting cb this))
          ≡ suc (count c))
registered-IsOk c read cb this (r, w) h =
    (((cb, this, refl), w), Side-clear c.events.reads c.read r h, rw h (omega arith))
registered-IsOk c write cb this (r, w) h =
    ((r, (cb, this, refl)), Side-clear c.events.writes c.write w h, rw h (omega arith))

pub removed-IsOk :
    (c : FdContext) (e : Event)
    → IsOk c
    → has c.events e ≡ true
    → IsOk (put_context (record c { events = without c.events e }) e empty_context)
      × (suc (count (put_context (record c { events = without c.events e }) e empty_context))
          ≡ count c)
      × (taken (get_context c e) ≡ empty_context)
removed-IsOk c read (r, w) h = ((refl, w), rw h (omega arith), Side-taken c.events.reads c.read r h)
removed-IsOk c write (r, w) h =
    ((r, refl), rw h (omega arith), Side-taken c.events.writes c.write w h)

-- On a valid manager, with one more event to count, `addEvent` of an event that is not registered,
-- on a descriptor for which the grown vector has a context, meets no failing assertion: it answers
-- 0 unless epoll_ctl fails, and keeps the manager valid.
pub add_event_lem :
    (m : IoManager) (fd : ℕ) (e : Event) (fails : Bool) (cb : Option ℕ) (this : ℕ) (c : FdContext)
    → IsValid m
    → m.pending + 1 < 2 ^ 64
    → get_elem? (grown m.contexts fd) fd ≡ some c
    → has c.events e ≡ false
    → (m' : IoManager) × (add_event m fd e fails cb this ≡ ok (not fails, m'))
      × IsValid m'
      × (m'.queue ≡ m.queue)
unfolding add_event register
add_event_lem m fd e fails cb this c v room got free =
    let (a, same) = grown-AllOk m.contexts fd v.all_ok in
    let o = IsOk-get (grown m.contexts fd) fd c a got in
    let (o', clear, counted) = registered-IsOk c e cb this o free in
    elim (Bool-cases fails) [
      | inl f ↦ (
        record m { contexts = set (grown m.contexts fd) fd c },
        rw (add_event, got, register, free, f),
        record {
          all_ok = AllOk-set (grown m.contexts fd) fd c a o;
          pending_eq =
              let t = total-set (grown m.contexts fd) fd c c got in
              omega (arith, v.pending_eq, same, t);
          pending_lt = v.pending_lt;
        },
        refl,
      )
      | inr f ↦
          let c' : FdContext =
            put_context (record c { events = with_event c.events e }) e (waiting cb this) in
          (
            record m { contexts = set (grown m.contexts fd) fd c'; pending = add64 m.pending 1 },
            rw (add_event, got, register, free, f, clear),
            record {
              all_ok = AllOk-set (grown m.contexts fd) fd c' a o';
              pending_eq =
                  let t = total-set (grown m.contexts fd) fd c c' got in
                  omega (arith, v.pending_eq, same, t, counted);
              pending_lt = omega arith;
            },
            refl,
          )
    ]

-- What `delEvent` and `cancelEvent` leave.
pub removed-IsValid :
    (m : IoManager) (fd : ℕ) (e : Event) (c : FdContext) (q : List Task)
    → IsValid m
    → get_elem? m.contexts fd ≡ some c
    → has c.events e ≡ true
    → IsValid (record m {
      contexts =
          set m.contexts fd
            (put_context (record c { events = without c.events e }) e empty_context);
      pending = sub64 m.pending 1;
      queue = q;
    })
removed-IsValid m fd e c q v got on =
    let c' : FdContext = put_context (record c { events = without c.events e }) e empty_context in
    let (o', counted, _) = removed-IsOk c e (IsOk-get m.contexts fd c v.all_ok got) on in
    let t = total-set m.contexts fd c c' got in
    record {
      all_ok = AllOk-set m.contexts fd c' v.all_ok o';
      pending_eq = omega (arith, v.pending_eq, v.pending_lt, t, counted);
      pending_lt = omega arith;
    }

-- On a valid manager, of an event that is registered on a descriptor and on which epoll_ctl does
-- not fail, `delEvent` and `cancelEvent` both succeed, without a failing assertion, keep the
-- manager valid, and leave the same contexts, without the event; `delEvent` hands nothing to the
-- scheduler, and `cancelEvent` what waited for the event.
pub cancel_event_lem :
    (m : IoManager) (fd : ℕ) (e : Event) (c : FdContext)
    → IsValid m
    → get_elem? m.contexts fd ≡ some c
    → has c.events e ≡ true
    → (m' : IoManager) × (m'' : IoManager) × (del_event m fd e false ≡ (true, m'))
      × (cancel_event m fd e false ≡ ok (true, m''))
      × IsValid m'
      × IsValid m''
      × (m'.contexts ≡ m''.contexts)
      × (m'.queue ≡ m.queue)
      × (m''.queue ≡ m.queue ++ tasks_of (get_context c e))
unfolding del_event cancel_event trigger_event
cancel_event_lem m fd e c v got on =
    let (o', counted, gone) = removed-IsOk c e (IsOk-get m.contexts fd c v.all_ok got) on in
    (
      _,
      _,
      cc (got, on),
      rw (cancel_event, got, on, trigger_event, gone),
      removed-IsValid m fd e c m.queue v got on,
      removed-IsValid m fd e c (m.queue ++ tasks_of (get_context c e)) v got on,
      refl,
      refl,
      refl,
    )
