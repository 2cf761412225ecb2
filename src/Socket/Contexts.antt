-- ===== src/Socket/Contexts.antt =====
-- linko/socket.cc and linko/hook.cc: with the hooks on, a descriptor of a socket has a context.
use link_server.Base.{
  ℕ, ◌≡◌, refl, subst, sym, ap, ◌∙◌, ◌⊎◌, inl, inr, Option, none, some, Bool, true, false, ◌==◌,
  length-set, ok, ℤ, pos, negsuc, arith, Bool-cases, Option-cases, set,
}
use link_server.FdManager.{FdCtx, FdManager, lookup, make_ctx}
use link_server.FdManager.Access
use link_server.IoManager.{IoManager}
use link_server.IoManager.Registration
use link_server.Hook.{Answer, returned, failed}
use link_server.Hook.Flags.{lookup-set, lookup-set_ne}
use link_server.Hook.Descriptors.{
  Os, World, SocketOption, timeval, other, find, timed, kernel_of, setsockopt, tracked, socket,
}
use link_server.Socket.{Socket, Net, set_option, init_sock, new_sock}

-- The manager of the thread, where there is one, is valid.
abbrev pub IoIsValid : Option IoManager → Type 0
IoIsValid none = Unit {0}
IoIsValid (some m) = Registration.IsValid m

abbrev pub HasContext : FdManager → ℕ → Type 0
HasContext m fd = (c : FdCtx) × (lookup m fd ≡ some c)

-- A socket that is connected has a descriptor, and the descriptor of a socket has a context.
abbrev pub Tracked : FdManager → ℤ → Bool → Type 0
Tracked m (pos fd) connected = HasContext m fd
Tracked m (negsuc n) connected = (n ≡ 0) × (connected ≡ false)

pub record IsValid {K : Type 0} (w : World K) (s : Socket) : Type 0 where
  pub table : Access.IsValid w.fds
  pub io : IoIsValid w.io
  pub tracked : Tracked w.fds s.sock s.is_connected

-- What the calls on a descriptor leave of the table.
pub record Keeps (m m' : FdManager) : Type 0 where
  pub table : Access.IsValid m → Access.IsValid m'
  pub contexts : (fd : ℕ) → HasContext m fd → HasContext m' fd

pub Keeps-refl : (m : FdManager) → Keeps m m
Keeps-refl m = record { table = λ v. v; contexts = λ fd h. h }

pub Keeps-trans : (m m' m'' : FdManager) → Keeps m m' → Keeps m' m'' → Keeps m m''
Keeps-trans m m' m'' k k' = record {
  table = λ v. k'.table (k.table v);
  contexts = λ fd h. k'.contexts fd (k.contexts fd h);
}

set-Keeps :
    (m : FdManager) (fd : ℕ) (c c' : FdCtx) → lookup m fd ≡ some c → Keeps m (set m fd (some c'))
set-Keeps m fd c c' e = record {
  table = λ v. omega (arith, v, length-set m fd (some c'));
  contexts = λ i (d, h). elim (Bool-cases (i == fd)) [
    | inl y ↦
        let same : i ≡ fd = ground (arith, y) in
        (c', ap (λ j. lookup (set m fd (some c')) j) same ∙ lookup-set m fd c c' e)
    | inr n ↦ (d, lookup-set_ne m fd i c' (λ y. ground (arith, n, y)) ∙ h)
  ];
}

put-Keeps :
    (m : FdManager) (fd : ℕ) (c : FdCtx) (m' : FdManager)
    → lookup m fd ≡ none
    → Access.PutAt m fd c m'
    → Keeps m m'
put-Keeps m fd c m' free p = record {
  table = λ v. p.valid;
  contexts = λ i (d, h). elim (Bool-cases (i == fd)) [
    | inl y ↦ let same : i ≡ fd = ground (arith, y) in (c, ap (λ j. lookup m' j) same ∙ p.here)
    | inr n ↦ (d, p.others i (λ y. ground (arith, n, y)) ∙ h)
  ];
}

timed-Keeps :
    {K : Type 0} (os : Os K) (w : World K) (fd : ℤ) (opt : SocketOption)
    → Keeps w.fds (timed os w fd (find w.fds fd) opt)
timed-Keeps os w (negsuc n) opt = Keeps-refl w.fds
timed-Keeps os w (pos n) (other level name v) = elim (Option-cases (lookup w.fds n)) [
  | inl e ↦ rw e (Keeps-refl w.fds)
  | inr (c, e) ↦ rw e (Keeps-refl w.fds)
]
timed-Keeps os w (pos n) (timeval is_rcv sec usec) = elim (Option-cases (lookup w.fds n)) [
  | inl e ↦ rw e (Keeps-refl w.fds)
  | inr (c, e) ↦ rw e (set-Keeps w.fds n c _ e)
]

-- A step that keeps the contexts and the manager.
abbrev pub WorldKeeps : {K : Type 0} → World K → World K → Type 0
WorldKeeps w w' = Keeps w.fds w'.fds × (w'.io ≡ w.io)

pub WorldKeeps-trans :
    {K : Type 0} (w w' w'' : World K) → WorldKeeps w w' → WorldKeeps w' w'' → WorldKeeps w w''
WorldKeeps-trans w w' w'' (k, e) (k', e') = (Keeps-trans w.fds w'.fds w''.fds k k', e' ∙ e)

Tracked-keeps :
    (m m' : FdManager) (fd : ℤ) (b : Bool) → Keeps m m' → Tracked m fd b → Tracked m' fd b
Tracked-keeps m m' (pos fd) b k t = k.contexts fd t
Tracked-keeps m m' (negsuc n) b k t = t

pub keeps-IsValid :
    {K : Type 0} (w w' : World K) (s : Socket) → WorldKeeps w w' → IsValid w s → IsValid w' s
keeps-IsValid w w' s (k, e) v = record {
  table = k.table v.table;
  io = subst IoIsValid (sym e) v.io;
  tracked = Tracked-keeps w.fds w'.fds s.sock s.is_connected k v.tracked;
}

Answer-cases : (a : Answer) → ((n : ℕ) × (a ≡ returned n)) ⊎ ((e : ℕ) × (a ≡ failed e))
Answer-cases (returned n) = inl (n, refl)
Answer-cases (failed e) = inr (e, refl)

-- Whatever a call of the system that makes a descriptor answers, its context is there.
pub tracked_lem :
    {K : Type 0} (os : Os K) (w : World K) (n : ℕ)
    → Access.IsValid w.fds
    → (w' : World K) × (tracked os w (returned n) ≡ ok (returned n, w'))
      × Keeps w.fds w'.fds
      × HasContext w'.fds n
      × (w'.io ≡ w.io)
tracked_lem os w n v = elim (Access.get_lem (kernel_of os) w.fds v n w.kernel true) [
  | inl (c, h, run) ↦ (w, rw run refl, Keeps-refl w.fds, (c, h), refl)
  | inr (inl (h, off, run)) ↦ ground (arith, off)
  | inr (inr (h, on, (m', run, p))) ↦ (
    record w { fds = m'; kernel = (make_ctx (kernel_of os) n w.kernel).1 },
    rw run refl,
    put-Keeps w.fds n _ m' h p,
    (_, p.here),
    refl,
  )
]

module _ {K : Type 0} (net : Net K) where
  pub set_option-WorldKeeps :
      (w : World K) (s : Socket) (opt : SocketOption) → WorldKeeps w (set_option net true w s opt).1
  unfolding setsockopt
  set_option-WorldKeeps w s opt = (timed-Keeps net.os w s.sock opt, refl)

  pub init_sock-WorldKeeps : (w : World K) (s : Socket) → WorldKeeps w (init_sock net true w s)
  unfolding init_sock
  init_sock-WorldKeeps w s =
      let w1 = (set_option net true w s (other 1 2 1)).1 in
      let k = set_option-WorldKeeps w s (other 1 2 1) in
      elim (Bool-cases (s.type == 1)) [
        | inl y ↦ rw y (
            WorldKeeps-trans w w1 (set_option net true w1 s (other 6 1 1)).1 k
              (set_option-WorldKeeps w1 s (other 6 1 1)))
        | inr n ↦ rw n k
      ]

  -- `newSock` does not fail, and a descriptor that it makes has a context.
  pub new_sock-IsValid :
      (w : World K) (s : Socket)
      → IsValid w s
      → s.is_connected ≡ false
      → (w' : World K) × (s' : Socket) × (new_sock net true w s ≡ ok (w', s'))
        × IsValid w' s'
        × (s'.is_connected ≡ false)
  unfolding new_sock socket
  new_sock-IsValid w s v off =
      let a = (net.os.socket w.kernel s.family s.type s.protocol).0 in
      let w1 : World K = record w {
        kernel = (net.os.socket w.kernel s.family s.type s.protocol).1;
      } in
      elim (Answer-cases a) [
        | inr (e, h) ↦ (
          w1,
          record s { sock = negsuc 0 },
          rw h refl,
          record { table = v.table; io = v.io; tracked = (refl, off) },
          off,
        )
        | inl (n, h) ↦
            let (w2, run, keeps, (c, has), same) = tracked_lem net.os w1 n v.table in
            let s' : Socket = record s { sock = pos n } in
            let (k, same') = init_sock-WorldKeeps w2 s' in
            (
              init_sock net true w2 s',
              s',
              rw (h, run) refl,
              record {
                table = k.table (keeps.table v.table);
                io = subst IoIsValid (sym (same' ∙ same)) v.io;
                tracked = k.contexts n (c, has);
              },
              off,
            )
      ]
