-- ===== src/Hook/Sleep.antt =====
-- linko/hook.cc: when a fiber that sleeps is woken.
use link_server.Base.{
  ℕ, ◌+◌, ◌*◌, ◌/◌, ◌%◌, ◌^◌, ◌<◌, ◌≡◌, refl, ap, ap₂, ◌∙◌, List, [], ◌∷◌, some, Bool, true, false,
  leb, ◌&&◌, ◌==◌, arith, inl, inr, Bool-cases,
}
use link_server.Timer.{TimerManager, direct, add, add_timer, is_rollover}
use link_server.Timer.Sets.{mem}
use link_server.Timer.Invariant.{IsValid}
use link_server.Timer.Operations.{add_timer_lem}
use link_server.Timer.Expiry.{filter, expired}
use link_server.Hook.Calls.{sleep, nanosleep, sleep_for, int_to_u64}

and-false : (b : Bool) → (b && false) ≡ false
and-false true = refl
and-false false = refl

mem-filter : (p : ℕ → Bool) (a : ℕ) (bs : List ℕ) → mem a (filter p bs) ≡ (mem a bs && p a)
mem-filter p a [] = refl
mem-filter p a (b ∷ bs) = elim (Bool-cases (a == b)) [
  | inl e ↦
      let same : a ≡ b = ground (arith, e) in
      elim (Bool-cases (p b)) [
        | inl y ↦ let y' : p a ≡ true = ap p same ∙ y in rw (y, e, y') refl
        | inr n ↦
            let n' : p a ≡ false = ap p same ∙ n in
            rw (n, e, mem-filter p a bs, n', and-false (mem a bs)) refl
      ]
  | inr e ↦ elim (Bool-cases (p b)) [
    | inl y ↦ rw (y, e, mem-filter p a bs) refl
    | inr n ↦ rw (n, e, mem-filter p a bs) refl
  ]
]

module _ (m : TimerManager) (fresh now fiber : ℕ) (v : IsValid m)
    (out : mem fresh m.timers ≡ false) where
  sleep_for_lem :
      (ms later : ℕ)
      → now + ms < 2 ^ 64
      → is_rollover m later ≡ false
      → let m' = (sleep_for m fresh now ms fiber).1 in
        IsValid m'
        × ((m'.store fresh).cb ≡ some (direct fiber))
        × (mem fresh (expired m' later) ≡ leb (now + ms) later)
  unfolding add_timer add
  sleep_for_lem ms later fits fwd =
      let (moved, noted) = add_timer_lem m fresh now ms (direct fiber) false v out in
      let m' : TimerManager = (sleep_for m fresh now ms fiber).1 in
      let next : (m'.store fresh).next ≡ now + ms =
        ap (λ t. t.next) moved.value ∙ omega (arith, fits) in
      let same : is_rollover m' later ≡ false = fwd in
      (
        moved.valid,
        ap (λ t. t.cb) moved.value,
        rw same (
            mem-filter (λ b. leb (m'.store b).next later) fresh m'.timers
            ∙ ap₂ (λ x y. x && leb y later) moved.member next),
      )

  -- On a valid manager, with the clock within 64 bits: a fiber that sleeps for less than 4294968
  -- seconds is in the timer of a valid manager, and that timer is among those that are due at a
  -- later time, the clock not being set back by an hour, just where the seconds have gone by.
  pub sleep_lem :
      (seconds later : ℕ)
      → seconds < 4294968
      → now + seconds * 1000 < 2 ^ 64
      → is_rollover m later ≡ false
      → let m' = (sleep m fresh now seconds fiber).1 in
        IsValid m'
        × ((m'.store fresh).cb ≡ some (direct fiber))
        × (mem fresh (expired m' later) ≡ leb (now + seconds * 1000) later)
  unfolding sleep
  sleep_lem seconds later short fits fwd =
      let ms : seconds * 1000 % 2 ^ 32 ≡ seconds * 1000 = omega (arith, short) in
      rw ms (sleep_for_lem (seconds * 1000) later fits fwd)

  -- Of nanosleep, for less than 2147483 seconds: the milliseconds are rounded down.
  pub nanosleep_lem :
      (sec nsec later : ℕ)
      → sec < 2147483
      → nsec < 1000000000
      → now + sec * 1000 + nsec / 1000000 < 2 ^ 64
      → is_rollover m later ≡ false
      → let m' = (nanosleep m fresh now sec nsec fiber).1 in
        IsValid m'
        × ((m'.store fresh).cb ≡ some (direct fiber))
        × (mem fresh (expired m' later) ≡ leb (now + (sec * 1000 + nsec / 1000000)) later)
  unfolding nanosleep
  nanosleep_lem sec nsec later short below fits fwd =
      let ms : int_to_u64 ((sec * 1000 + nsec / 1000 / 1000) % 2 ^ 32)
          ≡ sec * 1000 + nsec / 1000000 =
        ground (arith, short, below) in
      rw ms (sleep_for_lem (sec * 1000 + nsec / 1000000) later (omega (arith, fits)) fwd)
