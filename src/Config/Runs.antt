-- ===== src/Config/Runs.antt =====
-- Runs of the settings (linko/config.h) on concrete names.
use link_server.Base.{ℕ, ◌≡◌, ◌≢◌, refl, ap, [], ◌∷◌, some, Bool, ◌==◌, if◌then◌else◌, length}
use link_server.Http.{codes}
use link_server.Config.{Config, returns, returns_null, throws, lookup, lookup_base, ConfigVar}
use link_server.Config.Lookup.{kept_or, lookup_lem}

abbrev empty : Config
empty = record { datas = []; type_of = λ a. 0; value_of = λ a. 0 }

invalid_name : (lookup (codes "A") 1 50 7 empty).0 ≡ throws
unfolding lookup
invalid_name = refl

abbrev one_setting : Config
one_setting = (lookup (codes "a.b") 1 50 7 empty).1

valid_name : (lookup (codes "a.b") 1 50 7 empty).0 ≡ returns 7
unfolding lookup
valid_name = refl

other_name : codes "c" ≢ codes "a.b"
other_name e = let k : length (codes "c") ≡ length (codes "a.b") = ap length e in cc k

-- The second Lookup has another type and another default.
lookup_lem_example :
    (lookup_base (codes "a.b") one_setting ≡ some 7)
    × (one_setting.value_of 7 ≡ kept_or (lookup_base (codes "a.b") empty) 50 0)
    × (lookup_base (codes "c") one_setting ≡ lookup_base (codes "c") empty)
    × (lookup (codes "a.b") 2 60 8 one_setting
        ≡ ((if 1 == 2 then returns 7 else returns_null), one_setting))
lookup_lem_example =
    lookup_lem (codes "a.b") (codes "c") 1 2 50 60 7 8 7 empty other_name valid_name

abbrev same_number : ℕ → ℕ → Bool
same_number a b = a == b

abbrev setting : ConfigVar ℕ
setting = record { val = 5; cbs = (3, 30) ∷ [] }
