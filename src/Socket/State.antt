-- ===== src/Socket/State.antt =====
-- linko/socket.cc: the state of a socket, with the hooks on, under any sequence of its operations.
use link_server.Base.{
  ℕ, ◌≡◌, ◌≢◌, refl, subst, sym, ap, ◌∙◌, ◌⊎◌, inl, inr, Option, none, some, Bool, true, false,
  ◌==◌, if◌then◌else◌, ok, ℤ, pos, negsuc, arith, Bool-cases, Option-cases,
}
use link_server.FdManager.{FdCtx, lookup, no_timeout}
use link_server.FdManager.Access.{get-del}
use link_server.FdManager.Access
use link_server.IoManager.{IoManager}
use link_server.IoManager.Cancel.{cancel_all-IsValid}
use link_server.Hook.{Wake, Answer, returned, failed}
use link_server.Hook.Lifetime.{get-none}
use link_server.Hook.Calls.{einprogress, in_progress, may_wait, awaited, connect_with_timeout}
use link_server.Hook.Descriptors.{Os, World, SocketOption, timeval, kernel_of, find, cancelled}
use link_server.Hook.Descriptors
use link_server.Socket.{
  SockAddr, Socket, Net, Connection, is_valid, ensured, bind_sock, bind, connect_done,
  get_local_address, get_remote_address, connect, close,
}
use link_server.Socket.Contexts.{IoIsValid, Tracked, IsValid, new_sock-IsValid}

ℤ-cases : (z : ℤ) → ((n : ℕ) × (z ≡ pos n)) ⊎ ((n : ℕ) × (z ≡ negsuc n))
ℤ-cases (pos n) = inl (n, refl)
ℤ-cases (negsuc n) = inr (n, refl)

answered : (answer : Answer) → answer ≢ failed einprogress → in_progress answer ≡ false
answered (returned n) ne = refl
answered (failed e) ne = elim (Bool-cases (e == einprogress)) [
  | inl p ↦ let same : e ≡ einprogress = ground (arith, p) in absurd (ne (ap failed same))
  | inr n ↦ n
]

-- A socket is valid just where it has a descriptor.
pub valid-cases :
    {K : Type 0} (w : World K) (s : Socket)
    → IsValid w s
    → ((n : ℕ) × (s.sock ≡ pos n) × (is_valid s ≡ true))
      ⊎ (is_valid s ≡ false) × (s.sock ≡ negsuc 0) × (s.is_connected ≡ false)
valid-cases w s v = elim (ℤ-cases s.sock) [
  | inl (n, e) ↦ inl (n, e, rw e refl)
  | inr (n, e) ↦
      let (z, off) : (n ≡ 0) × (s.is_connected ≡ false) =
        subst (λ t. Tracked w.fds t s.is_connected) e v.tracked in
      let e' : s.sock ≡ negsuc 0 = e ∙ ap negsuc z in inr (rw e' refl, e', off)
]

pub kernel-IsValid :
    {K : Type 0} (w : World K) (s : Socket) (k : K)
    → IsValid w s
    → IsValid (record w { kernel = k }) s
kernel-IsValid w s k v = record { table = v.table; io = v.io; tracked = v.tracked }

cancelled-IsValid :
    {K : Type 0} (os : Os K) (io : Option IoManager) (n : ℕ) (fails : Bool)
    → IoIsValid io
    → (io' : Option IoManager) × (cancelled os io (pos n) fails ≡ ok io') × IoIsValid io'
cancelled-IsValid os none n fails v = (none, refl, tt)
cancelled-IsValid os (some m) n fails v =
    let (done, m', run, v') = cancel_all-IsValid m n fails v in (some m', rw run refl, v')

module _ {K : Type 0} (net : Net K) where
  -- What is free stays so, and the descriptor is free.
  pub hooked_close_lem :
      (w : World K) (n : ℕ) (fails : Bool)
      → Access.IsValid w.fds
      → IoIsValid w.io
      → (a : Answer) × (w' : World K) × (Descriptors.close net.os true w (pos n) fails ≡ ok (a, w'))
        × Access.IsValid w'.fds
        × IoIsValid w'.io
        × (lookup w'.fds n ≡ none)
        × ((i : ℕ) → lookup w.fds i ≡ none → lookup w'.fds i ≡ none)
  unfolding Descriptors.close
  hooked_close_lem w n fails v i = elim (Option-cases (lookup w.fds n)) [
    | inl e ↦ (
      (net.os.close w.kernel (pos n)).0,
      record w { kernel = (net.os.close w.kernel (pos n)).1 },
      rw e refl,
      v,
      i,
      e,
      λ j free. free,
    )
    | inr (c, e) ↦
        let (io, run, i') = cancelled-IsValid net.os w.io n fails i in
        let (fds, gone, lost, v', others) = get-del (kernel_of net.os) w.fds v n w.kernel in
        let freed : lookup fds n ≡ none = get-none net.os fds n w.kernel lost in
        (
          (net.os.close w.kernel (pos n)).0,
          record w { fds = fds; io = io; kernel = (net.os.close w.kernel (pos n)).1 },
          rw (e, run, gone) refl,
          v',
          i',
          freed,
          λ j free. elim (Bool-cases (j == n)) [
            | inl same ↦
                let eq : n ≡ j = ground (arith, same) in subst (λ x. lookup fds x ≡ none) eq freed
            | inr other ↦ others j (ground (arith, other)) ∙ free
          ],
        )
  ]

  pub close-IsValid :
      (w : World K) (s : Socket) (fails : Bool)
      → IsValid w s
      → (done : Bool) × (w' : World K) × (s' : Socket) × (close net true w s fails
          ≡ ok (done, w', s'))
        × IsValid w' s'
        × (s'.sock ≡ negsuc 0)
        × (s'.is_connected ≡ false)
  unfolding close
  close-IsValid w s fails v = elim (valid-cases w s v) [
    | inr (not_valid, none_there, off) ↦ (true, w, s, rw (off, not_valid) refl, v, none_there, off)
    | inl (n, e, valid) ↦
        let (a, w', run, v', i', freed, frees) = hooked_close_lem w n fails v.table v.io in
        let s' : Socket = record s { is_connected = false; sock = negsuc 0 } in
        (
          false,
          w',
          s',
          elim (Bool-cases s.is_connected) [
            | inl on ↦ rw (on, valid, e, run) refl
            | inr off ↦ rw (off, valid, e, run) refl
          ],
          record { table = v'; io = i'; tracked = (refl, refl) },
          refl,
          refl,
        )
  ]

  ensured-IsValid :
      (w : World K) (s : Socket)
      → IsValid w s
      → (w' : World K) × (s' : Socket) × (ensured net true w s ≡ ok (w', s')) × IsValid w' s'
  ensured-IsValid w s v = elim (valid-cases w s v) [
    | inl (n, e, valid) ↦ (w, s, rw valid refl, v)
    | inr (not_valid, none_there, off) ↦
        let (w', s', run, v', off') = new_sock-IsValid net w s v off in
        (w', s', rw not_valid run, v')
  ]

  bind_sock-IsValid :
      (addr : SockAddr) (w : World K) (s : Socket)
      → IsValid w s
      → (done : Bool) × (w' : World K) × (s' : Socket) × (bind_sock net true addr (w, s)
          ≡ (done, w', s'))
        × IsValid w' s'
        × (done ≡ true → is_valid s' ≡ true)
  unfolding get_local_address
  bind_sock-IsValid addr w s v = elim (Bool-cases (is_valid s)) [
    | inr not_valid ↦ (false, w, s, rw not_valid refl, v, λ h. ground (arith, h))
    | inl valid ↦ elim (Bool-cases (addr.family == s.family)) [
      | inr differs ↦ (false, w, s, rw (valid, differs) refl, v, λ h. ground (arith, h))
      | inl same ↦
          let k = (net.bind w.kernel s.sock addr).1 in
          let w' : World K = record w { kernel = k } in
          elim (Bool-cases (net.bind w.kernel s.sock addr).0) [
            | inr failing ↦
                (false, w', s, rw (valid, same, failing) refl, kernel-IsValid w s k v, λ h. valid)
            | inl bound ↦
                let s' = get_local_address net true w' s in
                (
                  true,
                  w',
                  s',
                  rw (valid, same, bound) refl,
                  record { table = v.table; io = v.io; tracked = v.tracked },
                  λ h. valid,
                )
          ]
    ]
  ]

  pub bind-IsValid :
      (w : World K) (s : Socket) (addr : SockAddr)
      → IsValid w s
      → (done : Bool) × (w' : World K) × (s' : Socket) × (bind net true w s addr
          ≡ ok (done, w', s'))
        × IsValid w' s'
        × (done ≡ true → is_valid s' ≡ true)
  unfolding bind
  bind-IsValid w s addr v =
      let (w1, s1, run, v1) = ensured-IsValid w s v in
      let (done, w', s', run', v', there) = bind_sock-IsValid addr w1 s1 v1 in
      (done, w', s', rw (run, run') refl, v', there)

  failed_connect :
      (w : World K) (s : Socket) (fails : Bool) (e : ℕ)
      → IsValid w s
      → (done : Bool) × (w' : World K) × (s' : Socket) × (connect_done net true w s fails (failed e)
          ≡ ok (done, w', s'))
        × IsValid w' s'
  failed_connect w s fails e v =
      let (done, w', s', run, v', none_there, off) = close-IsValid w s fails v in
      (false, w', s', rw run refl, v')

  connect_done-IsValid :
      (w : World K) (s : Socket) (fails : Bool) (a : Answer) (n : ℕ)
      → s.sock ≡ pos n
      → IsValid w s
      → (done : Bool) × (w' : World K) × (s' : Socket) × (connect_done net true w s fails a
          ≡ ok (done, w', s'))
        × IsValid w' s'
  unfolding get_local_address get_remote_address
  connect_done-IsValid w s fails (failed e) n has v = failed_connect w s fails e v
  connect_done-IsValid w s fails (returned k) n has v = elim (Bool-cases (k == 0)) [
    | inr nonzero ↦
        let (done, w', s', run, v') = failed_connect w s fails 0 v in
        (done, w', s', rw nonzero run, v')
    | inl z ↦
        let s' =
          get_local_address net true w
            (get_remote_address net true w (record s { is_connected = true })) in
        let t : Tracked w.fds (pos n) true =
          subst (λ x. Tracked w.fds x s.is_connected) has v.tracked in
        (
          true,
          w,
          s',
          rw z refl,
          record {
            table = v.table;
            io = v.io;
            tracked = subst (λ x. Tracked w.fds x true) (sym has) t;
          },
        )
  ]

  -- A connect that the system answers at once does not wait.
  awaited-at_once :
      (io : Option IoManager) (ctx : Option FdCtx) (fd : ℤ) (answer : Answer) (wake : Wake)
      (fiber : ℕ)
      → answer ≢ failed einprogress
      → awaited true io ctx fd answer wake fiber ≡ ok false
  unfolding awaited
  awaited-at_once io ctx fd answer wake fiber ne =
      let off : in_progress answer ≡ false = answered answer ne in
      elim (Bool-cases (may_wait true ctx)) [
        | inl may ↦ rw (may, off) refl
        | inr not_so ↦ rw not_so refl
      ]

  pub connect-IsValid :
      (w : World K) (s : Socket) (addr : SockAddr) (timeout_ms configured : ℕ) (c : Connection)
      (fails : Bool)
      → c.answer ≢ failed einprogress
      → IsValid w s
      → (done : Bool) × (w' : World K) × (s' : Socket) × (connect net true w s addr timeout_ms
            configured c fails
          ≡ ok (done, w', s'))
        × IsValid w' s'
  unfolding connect
  connect-IsValid w s addr timeout_ms configured c fails ne v =
      let (w1, s1, run, v1) = ensured-IsValid w s v in
      elim (valid-cases w1 s1 v1) [
        | inr (not_valid, none_there, off) ↦ (false, w1, s1, rw (run, not_valid) refl, v1)
        | inl (n, has, valid) ↦ elim (Bool-cases (addr.family == s1.family)) [
          | inr differs ↦ (false, w1, s1, rw (run, valid, differs) refl, v1)
          | inl same ↦
              let a : Answer =
                connect_with_timeout true (find w1.fds s1.sock)
                  (if timeout_ms == no_timeout then configured else timeout_ms) c.answer c.error
                  c.wake in
              let (done, w', s', run', v') = connect_done-IsValid w1 s1 fails a n has v1 in
              let wait =
                awaited-at_once w1.io (find w1.fds s1.sock) s1.sock c.answer c.wake c.fiber ne in
              (done, w', s', rw (run, valid, same, wait, run') refl, v')
        ]
      ]
