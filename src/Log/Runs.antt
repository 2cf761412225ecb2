-- ===== src/Log/Runs.antt =====
-- Runs of the formatter of logs (linko/log.cc) on concrete patterns.
use link_server.Base.{◌≡◌, refl, List, [], ◌∷◌, false, ok, none}
use link_server.Http.{codes}
use link_server.Log.{Piece, literal, item, parse_pattern, init, log, debug, warn}
use link_server.Log.Pattern.{IsPrintable, print_pattern, Returns, parse_pattern-Returns}
use link_server.Log.Items.{AllKnown, items, init-print_pattern}

-- `%d{%Y}[%p]`
abbrev pieces : List Piece
pieces =
    item (codes "d") (codes "%Y")
    ∷ literal (codes "[")
    ∷ item (codes "p") []
    ∷ literal (codes "]")
    ∷ []

pieces-IsPrintable : IsPrintable pieces
pieces-IsPrintable = (
  tt,
  (refl, tt),
  (refl, (refl, tt)),
  tt,
  (tt, (refl, tt), refl, (tt, (refl, tt), tt, refl, (tt, (refl, tt), refl, tt))),
)

pieces-AllKnown : AllKnown pieces
pieces-AllKnown = ((_, refl), ((_, refl), tt))

init-print_pattern_example : init (print_pattern pieces) ≡ ok (items pieces, false)
init-print_pattern_example = init-print_pattern pieces pieces-IsPrintable pieces-AllKnown

parse_pattern-Returns_example : Returns (parse_pattern (codes "%d{%Y"))
parse_pattern-Returns_example = parse_pattern-Returns (codes "%d{%Y")

-- Only the appender for debug messages writes one.
two_appenders :
    log
      (record {
        level = debug;
        appenders = record { index = 1; level = debug } ∷ record { index = 2; level = warn } ∷ [];
        root = none;
      })
      debug
    ≡ 1 ∷ []
unfolding log
two_appenders = refl
