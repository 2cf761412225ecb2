-- ===== src/Uri.antt =====
-- linko/uri.h and the hand-written end of linko/uri.rl.cc (from linko/uri.rl): the port, the path and the text
-- of a URI. A port is not negative.
pub mod Port
use link_server.Base.{ℕ, [], ◌∷◌, ◌++◌, Bool, true, false, not, ◌==◌, ◌||◌, if◌then◌else◌}
use link_server.Http.{Text, codes, eq_text}
use link_server.Http.Dump.{decimal}

pub record Uri : Type 0 where
  pub scheme : Text
  pub userinfo : Text
  pub host : Text
  pub path : Text
  pub query : Text
  pub fragment : Text
  pub port : ℕ

-- The schemes on port 80, and those on port 443.
abbrev pub is_plain : Text → Bool
is_plain s = eq_text s (codes "http") || eq_text s (codes "ws")

abbrev pub is_secure : Text → Bool
is_secure s = eq_text s (codes "https") || eq_text s (codes "wss")

unfoldable pub is_default_port : Uri → Bool
is_default_port u =
    if u.port == 0
    then true
    else if is_plain u.scheme
    then u.port == 80
    else if is_secure u.scheme
    then u.port == 443
    else false

unfoldable pub get_path : Uri → Text
get_path u = if eq_text u.path [] then codes "/" else u.path

unfoldable pub get_port : Uri → ℕ
get_port u =
    if not (u.port == 0)
    then u.port
    else if is_plain u.scheme
    then 80
    else if is_secure u.scheme
    then 443
    else u.port

-- A part with its mark in front, unless it is empty.
abbrev pub marked : ℕ → Text → Text
marked c [] = []
marked c (d ∷ s) = c ∷ d ∷ s

abbrev pub with_at : Text → Text
with_at [] = []
with_at (c ∷ s) = (c ∷ s) ++ codes "@"

unfoldable pub dump_uri : Uri → Text
dump_uri u =
    u.scheme
    ++ (codes "://"
        ++ (with_at u.userinfo
            ++ (u.host
                ++ ((if is_default_port u then [] else 58 ∷ decimal u.port)
                    ++ (get_path u ++ (marked 63 u.query ++ marked 35 u.fragment))))))
