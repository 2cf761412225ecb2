-- ===== src/TcpServer/Binding.antt =====
-- linko/tcp_server.cc: `bind` opens a socket for every address, or leaves none.
use link_server.Base.{
  ℕ, ◌+◌, ◌≡◌, ◌≢◌, refl, sym, ap, ◌∙◌, ◌⊎◌, inl, inr, List, [], ◌∷◌, ◌++◌, Option, none, some,
  Bool, true, false, length, length-append, ok, pos, negsuc, arith, Bool-cases, List-cases, subst,
}
use mathlib.Core.List.{append_assoc, append-nil}
use link_server.FdManager.{FdManager, lookup}
use link_server.FdManager.Access
use link_server.Hook.Descriptors.{World}
use link_server.Socket.{SockAddr, Socket, Net, make_socket, listen, close}
use link_server.Socket.Contexts.{IoIsValid, IsValid}
use link_server.Socket.State.{
  hooked_close_lem, valid-cases, kernel-IsValid, bind-IsValid, close-IsValid,
}
use link_server.TcpServer.{
  TcpServer, create_tcp, close_all, open_one, kept, failing, open_all, bind_all,
}

-- A table of 64 elements or more, with a valid manager or none.
abbrev pub WorldIsValid : {K : Type 0} → World K → Type 0
WorldIsValid w = Access.IsValid w.fds × IoIsValid w.io

abbrev pub Opened : Socket → Type 0
Opened s = (n : ℕ) × (s.sock ≡ pos n)

abbrev pub AllOpened : List Socket → Type 0
AllOpened [] = Unit {0}
AllOpened (s ∷ socks) = Opened s × AllOpened socks

-- The descriptor of each socket has no context any more.
abbrev pub AllClosed : FdManager → List Socket → Type 0
AllClosed m [] = Unit {0}
AllClosed m (s ∷ socks) = ((n : ℕ) × (s.sock ≡ pos n) × (lookup m n ≡ none)) × AllClosed m socks

abbrev MaybeOpened : Option Socket → Type 0
MaybeOpened none = Unit {0}
MaybeOpened (some s) = Opened s

module _ {K : Type 0} (net : Net K) (backlog : ℕ) (fails : Bool) where
  close-Opened :
      (w : World K) (s : Socket)
      → WorldIsValid w
      → Opened s
      → (done : Bool) × (w' : World K) × (s' : Socket) × (close net true w s fails
          ≡ ok (done, w', s'))
        × WorldIsValid w'
        × ((n : ℕ) × (s.sock ≡ pos n) × (lookup w'.fds n ≡ none))
        × ((i : ℕ) → lookup w.fds i ≡ none → lookup w'.fds i ≡ none)
  unfolding close
  close-Opened w s (v, i) (n, e) =
      let (a, w', run, v', i', freed, frees) = hooked_close_lem net w n fails v i in
      let s' : Socket = record s { is_connected = false; sock = negsuc 0 } in
      elim (Bool-cases s.is_connected) [
        | inl on ↦ (false, w', s', rw (on, e, run) refl, (v', i'), (n, e, freed), frees)
        | inr off ↦ (false, w', s', rw (off, e, run) refl, (v', i'), (n, e, freed), frees)
      ]

  close_all_lem :
      (w : World K) (socks : List Socket)
      → WorldIsValid w
      → AllOpened socks
      → (w' : World K) × (close_all net backlog fails w socks ≡ ok w')
        × WorldIsValid w'
        × AllClosed w'.fds socks
        × ((i : ℕ) → lookup w.fds i ≡ none → lookup w'.fds i ≡ none)
  unfolding close_all
  close_all_lem w [] v o = (w, refl, v, tt, λ i free. free)
  close_all_lem w (s ∷ socks) v (o, os) =
      let (done, w1, s1, run, v1, (n, e, freed), frees) = close-Opened w s v o in
      let (w', run', v', closed, frees') = close_all_lem w1 socks v1 os in
      (w', rw run run', v', ((n, e, frees' n freed), closed), λ i free. frees' i (frees i free))

  new-IsValid : (w : World K) (addr : SockAddr) → WorldIsValid w → IsValid w (create_tcp addr)
  unfolding make_socket
  new-IsValid w addr (v, i) = record { table = v; io = i; tracked = (refl, refl) }

  open_one_lem :
      (w : World K) (addr : SockAddr)
      → WorldIsValid w
      → (r : Option Socket) × (w' : World K) × (open_one net backlog fails w addr ≡ ok (r, w'))
        × WorldIsValid w'
        × MaybeOpened r
  unfolding open_one close_all listen
  open_one_lem w addr v =
      let (done, w1, s1, run, v1, there) =
        bind-IsValid net w (create_tcp addr) addr (new-IsValid w addr v) in
      elim (Bool-cases done) [
        | inr off ↦
            let (d, w2, s2, run2, v2, none_there, off2) = close-IsValid net w1 s1 fails v1 in
            (none, w2, rw (run, off, run2) refl, (v2.table, v2.io), tt)
        | inl on ↦
            let k = (net.listen w1.kernel s1.sock backlog).1 in
            let w1' : World K = record w1 { kernel = k } in
            let valid = there on in
            elim (Bool-cases (net.listen w1.kernel s1.sock backlog).0) [
              | inl listening ↦
                  let o : Opened s1 = elim (valid-cases w1 s1 v1) [
                    | inl (n, e, y) ↦ (n, e)
                    | inr (n, rest, off) ↦ let z : true ≡ false = sym valid ∙ n in ground (arith, z)
                  ] in
                  (some s1, w1', rw (run, on, valid, listening) refl, (v1.table, v1.io), o)
              | inr failing ↦
                  let (d, w2, s2, run2, v2, none_there, off2) =
                    close-IsValid net w1' s1 fails (kernel-IsValid w1 s1 k v1) in
                  (none, w2, rw (run, on, valid, failing, run2) refl, (v2.table, v2.io), tt)
            ]
      ]

  AllOpened-snoc :
      (socks : List Socket) (s : Socket)
      → AllOpened socks
      → Opened s
      → AllOpened (socks ++ (s ∷ []))
  AllOpened-snoc [] s os o = (o, tt)
  AllOpened-snoc (t ∷ socks) s (p, os) o = (p, AllOpened-snoc socks s os o)

  kept_lem :
      (r : Option Socket) (socks : List Socket) (failed : List SockAddr) (addr : SockAddr)
      → AllOpened socks
      → MaybeOpened r
      → AllOpened (kept net backlog fails socks r)
        × ((more : List Socket) × (kept net backlog fails socks r ≡ socks ++ more))
        × (length (kept net backlog fails socks r)
              + length (failing net backlog fails failed addr r)
            ≡ length socks + length failed + 1)
  kept_lem none socks failed addr os o =
      (os, ([], sym (append-nil socks)), omega (arith, length-append failed (addr ∷ [])))
  kept_lem (some s) socks failed addr os o =
      (AllOpened-snoc socks s os o, (s ∷ [], refl), omega (arith, length-append socks (s ∷ [])))

  open_all_lem :
      (addrs : List SockAddr) (w : World K) (socks : List Socket) (failed : List SockAddr)
      → WorldIsValid w
      → AllOpened socks
      → (w' : World K) × (socks' : List Socket) × (failed' : List SockAddr) × (open_all net backlog
            fails w addrs socks failed
          ≡ ok (w', socks', failed'))
        × WorldIsValid w'
        × AllOpened socks'
        × ((more : List Socket) × (socks' ≡ socks ++ more))
        × (length socks' + length failed' ≡ length socks + length failed + length addrs)
  unfolding open_all
  open_all_lem [] w socks failed v os =
      (w, socks, failed, refl, v, os, ([], sym (append-nil socks)), omega arith)
  open_all_lem (addr ∷ addrs) w socks failed v os =
      let (r, w1, run, v1, o) = open_one_lem w addr v in
      let (os1, (more1, e1), n1) = kept_lem r socks failed addr os o in
      let (w', socks', failed', run', v', os', (more, e), n') =
        open_all_lem addrs w1 (kept net backlog fails socks r)
          (failing net backlog fails failed addr r) v1 os1 in
      (
        w',
        socks',
        failed',
        rw run run',
        v',
        os',
        (more1 ++ more, e ∙ ap (λ xs. xs ++ more) e1 ∙ append_assoc socks more1 more),
        omega (arith, n', n1),
      )

  -- On a table of 64 elements or more with a valid manager or none, of a server whose sockets have
  -- descriptors, and with no address named as failed before: whatever the system answers, `bind`
  -- does not fail an assertion or go out of bounds, and either no address fails and the server has
  -- its sockets and one more for each address, each with a descriptor, or some address fails, the
  -- server has no socket left, and the descriptors of all the sockets that it had and of those that
  -- were opened before have no context any more.
  pub bind_all_lem :
      (w : World K) (t : TcpServer) (addrs : List SockAddr)
      → WorldIsValid w
      → AllOpened t.socks
      → (w1 : World K) × (more : List Socket) × (done : Bool) × (w' : World K) × (t' : TcpServer)
        × (failed : List SockAddr) × (open_all net backlog fails w addrs t.socks []
            ≡ ok (w1, t.socks ++ more, failed))
        × (bind_all net backlog fails w t addrs [] ≡ ok (done, w', t', failed))
        × WorldIsValid w'
        × AllOpened t'.socks
        × (((done ≡ true)
              × (failed ≡ [])
              × (t'.socks ≡ t.socks ++ more)
              × (length more ≡ length addrs))
            ⊎ (done ≡ false) × (failed ≢ []) × (t'.socks ≡ []) × AllClosed w'.fds (t.socks ++ more))
  unfolding bind_all
  bind_all_lem w t addrs v os =
      let (w1, socks, failed, run, v1, os1, (more, extends), n) =
        open_all_lem addrs w t.socks [] v os in
      let run' : open_all net backlog fails w addrs t.socks [] ≡ ok (w1, t.socks ++ more, failed) =
        subst (λ xs. open_all net backlog fails w addrs t.socks [] ≡ ok (w1, xs, failed)) extends
          run in
      elim (List-cases failed) [
        | inl e ↦
            let len = ap length extends ∙ length-append t.socks more in
            (
              w1,
              more,
              true,
              w1,
              record t { socks = socks },
              failed,
              run',
              rw (run, e) refl,
              v1,
              os1,
              inl (refl, e, extends, omega (arith, n, len, ap length e)),
            )
        | inr (a, rest, e) ↦
            let (w2, run2, v2, closed, frees) = close_all_lem w1 socks v1 os1 in
            (
              w1,
              more,
              false,
              w2,
              record t { socks = [] },
              failed,
              run',
              rw (run, e, run2) refl,
              v2,
              tt,
              inr (
                refl,
                (λ h. ground (arith, h, e)),
                refl,
                subst (AllClosed w2.fds) extends closed,
              ),
            )
      ]
