-- ===== src/Hook/Runs.antt =====
-- Runs of a hooked call (linko/hook.cc).
use link_server.Base.{◌≡◌, refl, List, [], ◌∷◌, some, true, false, ok}
use link_server.Hook.{Answer, returned, failed, ready, Ctx, do_io}
use link_server.Hook.Blocking.{blocking, do_io-blocking}

abbrev socket : Ctx
socket = record { is_closed = false; is_socket = true; user_nonblock = false; has_timeout = true }

abbrev answers : List Answer
answers = failed 4 ∷ failed 11 ∷ returned 5 ∷ []

do_io-blocking_example :
    do_io true (some socket) answers (ready ∷ ready ∷ ready ∷ []) ≡ blocking answers
do_io-blocking_example =
    do_io-blocking socket answers (ready ∷ ready ∷ ready ∷ []) refl refl refl
      (refl, (refl, (refl, tt)))

answers_five : blocking answers ≡ ok (returned 5)
answers_five = refl
