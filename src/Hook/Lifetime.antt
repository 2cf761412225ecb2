-- ===== src/Hook/Lifetime.antt =====
-- linko/hook.cc: what `close` leaves of a descriptor, and that a later `socket` starts afresh.
use link_server.Base.{
  ℕ, ◌≡◌, ◌≢◌, refl, sym, ap, ◌∙◌, ◌++◌, none, some, true, false, get_elem?, ok, pos, inl, inr,
  arith, Option-cases, ok-inj,
}
use link_server.FdManager.{FdCtx, FdManager, lookup, get, make_ctx}
use link_server.FdManager.Access.{IsValid, PutAt, get_lem, get-del}
use link_server.IoManager.{IoManager, FdContext, read, write, any}
use link_server.IoManager.Registration
use link_server.IoManager.Cancel.{waiters, cancel_all_lem}
use link_server.Hook.{returned}
use link_server.Hook.Descriptors.{Os, World, kernel_of, close, socket}

pub get-none :
    {K : Type 0} (os : Os K) (m : FdManager) (fd : ℕ) (k : K)
    → get (kernel_of os) m (pos fd) false k ≡ ok (none, m, k)
    → lookup m fd ≡ none
unfolding get
get-none os m fd k h = elim (Option-cases (lookup m fd)) [
  | inl e ↦ e
  | inr (c, e) ↦
      let found : get (kernel_of os) m (pos fd) false k ≡ ok (some c, m, k) = cc e in
      let both = ap (λ t. t.0) (ok-inj (sym found ∙ h)) in e ∙ both
]

module _ {K : Type 0} (os : Os K) (w : World K) (v : IsValid w.fds) (fd : ℕ) where
  -- `socket` on a table without a context for the descriptor that it answers.
  socket_lem :
      (domain type protocol : ℕ) (k : K)
      → lookup w.fds fd ≡ none
      → os.socket w.kernel domain type protocol ≡ (returned fd, k)
      → (w' : World K) × (socket os true w domain type protocol ≡ ok (returned fd, w'))
        × PutAt w.fds fd (make_ctx (kernel_of os) fd k).0 w'.fds
        × (w'.io ≡ w.io)
        × (w'.kernel ≡ (make_ctx (kernel_of os) fd k).1)
  unfolding socket
  socket_lem domain type protocol k free e = elim (get_lem (kernel_of os) w.fds v fd k true) [
    | inl (c, h, run) ↦ let z : none ≡ some c = cc (free, h) in ground (arith, z)
    | inr (inl (h, off, run)) ↦ ground (arith, off)
    | inr (inr (h, on, (m', run, p))) ↦ (
      record w { fds = m'; kernel = (make_ctx (kernel_of os) fd k).1 },
      rw (e, run) refl,
      p,
      refl,
      refl,
    )
  ]

module _ {K : Type 0} (os : Os K) (w : World K) (v : IsValid w.fds) (fd : ℕ) (c : FdCtx)
    (m : IoManager) (x : FdContext) (here : lookup w.fds fd ≡ some c) (io : w.io ≡ some m)
    (mv : Registration.IsValid m) (got : get_elem? m.contexts fd ≡ some x) where
  -- On a table with 64 elements or more and a valid manager, hooked `close` of a descriptor that has
  -- a context in both, and on which epoll_ctl does not fail, does not fail: it answers what the
  -- system's close does, leaves the descriptor no context and every other its own, keeps the
  -- manager valid, leaves no event of the descriptor registered, and hands whatever waited to read
  -- from it or to write to it over to the scheduler.
  pub close_lem :
      (w' : World K) × (m' : IoManager) × (x' : FdContext) × (close os true w (pos fd) false
        ≡ ok ((os.close w.kernel (pos fd)).0, w'))
      × IsValid w'.fds
      × (lookup w'.fds fd ≡ none)
      × ((i : ℕ) → i ≢ fd → lookup w'.fds i ≡ lookup w.fds i)
      × (w'.io ≡ some m')
      × Registration.IsValid m'
      × (get_elem? m'.contexts fd ≡ some x')
      × (any x'.events ≡ false)
      × (m'.queue ≡ m.queue ++ waiters x read ++ waiters x write)
  unfolding close
  close_lem =
      let (x', m', run, mv', got', off, q) = cancel_all_lem m fd x mv got in
      let (fds, gone, lost, v', others) = get-del (kernel_of os) w.fds v fd w.kernel in
      let free : lookup fds fd ≡ none = get-none os fds fd w.kernel lost in
      (
        record w { fds = fds; io = some m'; kernel = (os.close w.kernel (pos fd)).1 },
        m',
        x',
        rw (here, io, run, gone) refl,
        v',
        free,
        others,
        refl,
        mv',
        got',
        off,
        q,
      )

  -- Then, a hooked `socket` that is answered the same descriptor makes it the context of a new one,
  -- whatever the context and the timeouts of the closed one were.
  pub socket-close :
      (domain type protocol : ℕ)
      → (w' : World K) × (close os true w (pos fd) false ≡ ok ((os.close w.kernel (pos fd)).0, w'))
        × ((k : K)
            → os.socket w'.kernel domain type protocol ≡ (returned fd, k)
            → (w'' : World K) × (socket os true w' domain type protocol ≡ ok (returned fd, w''))
              × (lookup w''.fds fd ≡ some (make_ctx (kernel_of os) fd k).0)
              × ((i : ℕ) → i ≢ fd → lookup w''.fds i ≡ lookup w.fds i))
  socket-close domain type protocol =
      let (w', m', x', run, v', free, others, io', mv', got', off, q) = close_lem in
      (
        w',
        run,
        λ k e.
            let (w'', made, p, same, kernel) =
              socket_lem os w' v' fd domain type protocol k free e in
            (w'', made, p.here, λ i ne. p.others i ne ∙ others i ne),
      )
