-- ===== src/Stream/Runs.antt =====
-- Runs of the loops of a fixed size (linko/stream.cc) on concrete answers.
use link_server.Base.{◌≡◌, refl, [], ◌∷◌, some, ok, pos}
use link_server.Stream.{read_fix_size, fix_loop}

-- Four bytes arrive as two and two: only the last two are in the buffer.
read_twice :
    read_fix_size (some (1 ∷ 2 ∷ []) ∷ some (3 ∷ 4 ∷ []) ∷ []) 4 (0 ∷ 0 ∷ 0 ∷ 0 ∷ [])
    ≡ ok (pos 4, 3 ∷ 4 ∷ 0 ∷ 0 ∷ [], [])
unfolding read_fix_size fix_loop
read_twice = refl
