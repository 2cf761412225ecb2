-- ===== src/Fiber.antt =====
-- linko/fiber.h and linko/fiber.cc: the state of a coroutine. What the coroutine's function does
-- between two switches is an outcome; the machine contexts, stacks and counters are left out.
use link_server.Base.{
  ℕ, Option, none, some, Bool, true, false, not, if◌then◌else◌, Result, ok, err, assertion,
}

pub data State : Type 0 where
  init hold exec term ready except : State

-- `has_stack` is false for the main coroutine of a thread.
pub record Fiber : Type 0 where
  pub state : State
  pub cb : Option ℕ
  pub has_stack : Bool

abbrev pub main_fiber : Fiber
main_fiber = record { state = exec; cb = none; has_stack = false }

abbrev pub new_fiber : Option ℕ → Fiber
new_fiber cb = record { state = init; cb = cb; has_stack = true }

abbrev pub is_exec : State → Bool
is_exec exec = true
is_exec _ = false

abbrev pub is_ready : State → Bool
is_ready ready = true
is_ready _ = false

-- The coroutine's function has ended.
abbrev pub is_over : State → Bool
is_over term = true
is_over except = true
is_over _ = false

abbrev pub is_idle : State → Bool
is_idle init = true
is_idle s = is_over s

abbrev is_null : Option ℕ → Bool
is_null none = true
is_null (some f) = false

-- The assertions of the destructor.
unfoldable pub may_destroy : Fiber → Bool
may_destroy f =
    if f.has_stack then is_idle f.state else if is_null f.cb then is_exec f.state else false

unfoldable pub reset : Fiber → Option ℕ → Result Fiber
reset f cb =
    if not f.has_stack
    then err assertion
    else if not (is_idle f.state)
    then err assertion
    else ok (record f { state = init; cb = cb })

-- `swapIn`, and `call`.
unfoldable pub swap_in : Fiber → Result Fiber
swap_in f = if is_exec f.state then err assertion else ok (record f { state = exec })

-- What the function does until it switches back: YieldToReady, YieldToHold, a bare swapOut, its
-- end, or an exception.
pub data Outcome : Type 0 where
  yields_ready yields_hold swaps_out returns throws : Outcome

unfoldable pub yield_to_ready : Fiber → Fiber
yield_to_ready f = record f { state = ready }

unfoldable pub yield_to_hold : Fiber → Fiber
yield_to_hold f = record f { state = hold }

-- The end of `MainFunc` and `CallerMainFunc`.
unfoldable pub main_func : Bool → Fiber → Fiber
main_func false f = record f { state = term; cb = none }
main_func true f = record f { state = except }

unfoldable pub swap_out : Outcome → Fiber → Fiber
swap_out yields_ready f = yield_to_ready f
swap_out yields_hold f = yield_to_hold f
swap_out swaps_out f = f
swap_out returns f = main_func false f
swap_out throws f = main_func true f
