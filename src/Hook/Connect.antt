-- ===== src/Hook/Connect.antt =====
-- linko/hook.cc: when a hooked connect succeeds.
use link_server.Base.{
  ℕ, zero, suc, ◌≡◌, refl, ap, ◌↔◌, ◌⊎◌, inl, inr, some, Bool, true, false, not, ◌==◌, arith,
  Bool-cases,
}
use link_server.FdManager.{FdCtx, no_timeout}
use link_server.Hook.{Answer, returned, failed, Wake, not_added, timed_out, ready}
use link_server.Hook.Calls.{einprogress, so_error, connect_woken, connect_with_timeout}

-- The timer wakes the fiber, where there is one.
abbrev pub is_late : ℕ → Wake → Bool
is_late timeout_ms timed_out = not (timeout_ms == no_timeout)
is_late timeout_ms ready = false
is_late timeout_ms (not_added e) = false

-- What getsockopt tells of a connection that is there.
so_error_lem : (error : Answer) → (so_error error ≡ returned 0) ↔ (error ≡ returned 0)
so_error_lem (failed e) = (λ h. ground (arith, h), λ h. ground (arith, h))
so_error_lem (returned zero) = (λ h. refl, λ h. refl)
so_error_lem (returned (suc n)) = (λ h. ground (arith, h), λ h. ground (arith, h))

woken_lem :
    (timeout_ms : ℕ) (error : Answer) (wake : Wake)
    → (connect_woken timeout_ms error wake ≡ returned 0)
      ↔ (is_late timeout_ms wake ≡ false) × (error ≡ returned 0)
woken_lem timeout_ms error (not_added e) =
    let (to, from) = so_error_lem error in (λ h. (refl, to h), λ (r, h). from h)
woken_lem timeout_ms error ready =
    let (to, from) = so_error_lem error in (λ h. (refl, to h), λ (r, h). from h)
woken_lem timeout_ms error timed_out = elim (Bool-cases (timeout_ms == no_timeout)) [
  | inl e ↦ let (to, from) = so_error_lem error in rw e (λ h. (refl, to h), λ (r, h). from h)
  | inr e ↦ rw e (λ h. ground (arith, h), λ (r, h). ground (arith, r))
]

-- On an open socket that its user did not set to non-blocking, the hooked connect succeeds just
-- where the system's connect does at once, or is in progress, the timer does not wake the fiber, and
-- getsockopt then shows no error, whether or not the event that tells of the connection was added.
pub connect_with_timeout_lem :
    (c : FdCtx) (timeout_ms : ℕ) (answer error : Answer) (wake : Wake)
    → c.is_closed ≡ false
    → c.is_socket ≡ true
    → c.user_nonblock ≡ false
    → (connect_with_timeout true (some c) timeout_ms answer error wake ≡ returned 0)
      ↔ (answer ≡ returned 0)
        ⊎ (answer ≡ failed einprogress) × (is_late timeout_ms wake ≡ false) × (error ≡ returned 0)
unfolding connect_with_timeout
connect_with_timeout_lem c timeout_ms (returned n) error wake o s b =
    rw (o, s, b)
      (λ h. inl h, λ h. elim h [ inl e ↦ e | inr (e, late, none_shown) ↦ ground (arith, e) ])
connect_with_timeout_lem c timeout_ms (failed e) error wake o s b =
    let (to, from) = woken_lem timeout_ms error wake in
    elim (Bool-cases (e == einprogress)) [
      | inl p ↦
          let same : e ≡ einprogress = ground (arith, p) in
          rw (o, s, b, p)
            (
              λ h. let (late, none_shown) = to h in inr (ap failed same, late, none_shown),
              λ h. elim h [
                | inl z ↦ ground (arith, z)
                | inr (z, late, none_shown) ↦ from (late, none_shown)
              ],
            )
      | inr n ↦
          rw (o, s, b, n)
            (
              λ h. ground (arith, h),
              λ h. elim h [
                | inl z ↦ ground (arith, z)
                | inr (z, late, none_shown) ↦ ground (arith, z, n)
              ],
            )
    ]
