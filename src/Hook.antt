-- ===== src/Hook.antt =====
-- linko/hook.cc: do_io, by which a system call on a socket suspends its fiber in place of its thread. What the
-- call answers, whether addEvent fails and how the fiber is woken are given round by round.
pub mod Blocking
pub mod Descriptors
pub mod Flags
pub mod Lifetime
pub mod Calls
mod Sleep
mod Connect
pub mod Samples
mod DescriptorRuns
mod Runs
use link_server.Base.{
  ℕ, List, [], ◌∷◌, Option, none, some, Bool, true, false, not, ◌==◌, ◌&&◌, ◌||◌, if◌then◌else◌,
  Result, ok, err, no_fuel,
}

-- A call returns a number, or -1 and an error number.
pub data Answer : Type 0 where
  returned failed : ℕ → Answer

abbrev pub ebadf : ℕ
ebadf = 9

abbrev pub eintr : ℕ
eintr = 4

abbrev pub eagain : ℕ
eagain = 11

abbrev pub etimedout : ℕ
etimedout = 110

-- After a call would block: addEvent fails, with what errno then is, or the fiber is woken, by the timer
-- or not. The thread has a manager, whose addEvent meets no failing assertion.
pub data Wake : Type 0 where
  not_added : ℕ → Wake
  timed_out ready : Wake

-- `timeout` is false for -1, where there is no timer. The result is there once the call is not
-- repeated.
abbrev pub woken : Bool → Result Answer → Wake → Result Answer
woken timeout later (not_added e) = ok (failed e)
woken timeout later timed_out = if timeout then ok (failed etimedout) else later
woken timeout later ready = later

unfoldable pub retry : Bool → List Answer → List Wake → Result Answer
retry timeout [] wakes = err no_fuel
retry timeout (returned n ∷ answers) wakes = ok (returned n)
retry timeout (failed e ∷ answers) [] =
    let later = retry timeout answers [] in
    if e == eintr then later else if e == eagain then err no_fuel else ok (failed e)
retry timeout (failed e ∷ answers) (w ∷ wakes) =
    let again = retry timeout answers (w ∷ wakes) in
    let later = retry timeout answers wakes in
    if e == eintr then again else if e == eagain then woken timeout later w else ok (failed e)

-- What do_io asks of the context of the descriptor.
pub record Ctx : Type 0 where
  pub is_closed : Bool
  pub is_socket : Bool
  pub user_nonblock : Bool
  pub has_timeout : Bool

-- The call as it is.
abbrev pub first : List Answer → Result Answer
first [] = err no_fuel
first (a ∷ answers) = ok a

abbrev pub with_ctx : Option Ctx → List Answer → List Wake → Result Answer
with_ctx none answers wakes = first answers
with_ctx (some c) answers wakes =
    if c.is_closed
    then ok (failed ebadf)
    else if not c.is_socket || c.user_nonblock
    then first answers
    else retry c.has_timeout answers wakes

unfoldable pub do_io : Bool → Option Ctx → List Answer → List Wake → Result Answer
do_io hook_enable ctx answers wakes =
    if hook_enable then with_ctx ctx answers wakes else first answers
