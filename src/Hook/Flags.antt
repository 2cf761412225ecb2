-- ===== src/Hook/Flags.antt =====
-- linko/hook.cc: the O_NONBLOCK flag of a socket as its user sets and sees it, and the kernel's.
use link_server.Base.{
  ℕ, zero, suc, ◌/◌, ◌%◌, ◌≡◌, ◌≢◌, refl, sym, ap, [], ◌∷◌, some, Bool, true, false, set,
  get_elem?-set_ne, pos, arith, inl, inr, Bool-cases,
}
use link_server.FdManager.{FdCtx, FdManager, lookup, join}
use link_server.Hook.Descriptors.{
  Os, World, has_nonblock, put_nonblock, is_other, fcntl_setfl, fcntl_getfl,
}

put_nonblock-has_nonblock : (b : Bool) (a : ℕ) → has_nonblock (put_nonblock b a) ≡ b
unfolding put_nonblock
put_nonblock-has_nonblock true a = elim (Bool-cases (has_nonblock a)) [
  | inl e ↦ rw (e, e) refl
  | inr e ↦ rw e (ground (arith, e))
]
put_nonblock-has_nonblock false a = elim (Bool-cases (has_nonblock a)) [
  | inl e ↦ rw e (ground (arith, e))
  | inr e ↦ rw (e, e) refl
]

-- Every other bit stays.
put_nonblock-others :
    (b : Bool) (a : ℕ) → (put_nonblock b a % 2048 ≡ a % 2048) × (put_nonblock b a / 4096 ≡ a / 4096)
unfolding put_nonblock
put_nonblock-others true a = elim (Bool-cases (has_nonblock a)) [
  | inl e ↦ rw e (refl, refl)
  | inr e ↦ rw e (ground (arith, e), ground (arith, e))
]
put_nonblock-others false a = elim (Bool-cases (has_nonblock a)) [
  | inl e ↦ rw e (ground (arith, e), ground (arith, e))
  | inr e ↦ rw e (refl, refl)
]

-- A context in the vector is there after it is set, and the others stay.
pub lookup-set :
    (m : FdManager) (fd : ℕ) (c c' : FdCtx)
    → lookup m fd ≡ some c
    → lookup (set m fd (some c')) fd ≡ some c'
lookup-set [] fd c c' e = ground (arith, e)
lookup-set (x ∷ m) zero c c' e = refl
lookup-set (x ∷ m) (suc fd) c c' e = lookup-set m fd c c' e

pub lookup-set_ne :
    (m : FdManager) (fd i : ℕ) (c : FdCtx) → i ≢ fd → lookup (set m fd (some c)) i ≡ lookup m i
lookup-set_ne m fd i c ne = ap join (get_elem?-set_ne m (some c) (λ e. ne (sym e)))

module _ {K : Type 0} (os : Os K) (w : World K) (fd : ℕ) (c : FdCtx)
    (here : lookup w.fds fd ≡ some c) (open_socket : is_other c ≡ false) where
  -- On a socket that is open and has a context: after F_SETFL of `a`, F_GETFL shows the user's
  -- flag O_NONBLOCK as in `a`, and the hooked calls know it; the kernel was given O_NONBLOCK as it
  -- was set when the context was made, whatever the user asks, and every other bit as in `a`; and
  -- the contexts of other descriptors are left as they were.
  pub fcntl_lem :
      (a : ℕ)
      → let r = fcntl_setfl os w (pos fd) a in
        (has_nonblock (fcntl_getfl os r.1 (pos fd)) ≡ has_nonblock a)
        × (lookup r.1.fds fd ≡ some (record c { user_nonblock = has_nonblock a }))
        × (given : ℕ) × ((r.0, r.1.kernel) ≡ os.setfl w.kernel (pos fd) given)
        × (has_nonblock given ≡ c.sys_nonblock)
        × (given % 2048 ≡ a % 2048)
        × (given / 4096 ≡ a / 4096)
        × ((i : ℕ) → i ≢ fd → lookup r.1.fds i ≡ lookup w.fds i)
  unfolding fcntl_setfl fcntl_getfl
  fcntl_lem a =
      let c' : FdCtx = record c { user_nonblock = has_nonblock a } in
      let there = lookup-set w.fds fd c c' here in
      let (low, high) = put_nonblock-others c.sys_nonblock a in
      rw (here, open_socket, there, open_socket)
        (
          put_nonblock-has_nonblock (has_nonblock a) _,
          refl,
          put_nonblock c.sys_nonblock a,
          refl,
          put_nonblock-has_nonblock c.sys_nonblock a,
          low,
          high,
          λ i ne. lookup-set_ne w.fds fd i c' ne,
        )
