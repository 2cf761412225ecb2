-- ===== src/Address.antt =====
-- linko/address.cc: the split of a host from its service, the masks of prefixes, and the order of
-- addresses by their bytes. The look-up of names is the system's.
pub mod Split
pub mod Masks
mod Ipv6
mod Runs
use link_server.Base.{
  ℕ, ◌+◌, ◌-◌, ◌%◌, ◌^◌, List, [], ◌∷◌, Option, none, some, Bool, true, false, ◌==◌, ltb, ◌&&◌,
  if◌then◌else◌, length, min, take,
}
use link_server.Http.{Text, eq_text, text_less}

-- `memchr`: what stands before the first `c`, and what behind it.
abbrev pub cons_before : ℕ → Option (Text × Text) → Option (Text × Text)
cons_before d none = none
cons_before d (some (before, after)) = some (d ∷ before, after)

abbrev pub memchr : ℕ → Text → Option (Text × Text)
memchr c [] = none
memchr c (d ∷ s) = if d == c then some ([], s) else cons_before d (memchr c s)

-- A node, empty where none was found yet, and a service, which may be null.
abbrev pub Target : Type 0
Target = Text × Option Text

-- What stands behind the bracket: a colon and a service, or something else.
abbrev pub service_of : Text → Option Text
service_of [] = none
service_of (c ∷ s) = if c == 58 then some s else none

abbrev pub in_brackets : Option (Text × Text) → Target
in_brackets none = ([], none)
in_brackets (some (node, rest)) = (node, service_of rest)

-- `[node]:service`
abbrev pub split_v6 : Text → Target
split_v6 [] = ([], none)
split_v6 (c ∷ s) = if c == 91 then in_brackets (memchr 93 s) else ([], none)

-- Where a second colon follows, the service is left at the first.
abbrev pub with_second : Text → Text → Option (Text × Text) → Target
with_second node service none = (node, some service)
with_second node service (some after) = ([], some (58 ∷ service))

abbrev pub at_colon : Option (Text × Text) → Target
at_colon none = ([], none)
at_colon (some (node, service)) = with_second node service (memchr 58 service)

-- `node:service`
abbrev pub split_v4 : Text → Target → Target
split_v4 host ([], service) = at_colon (memchr 58 host)
split_v4 host (c ∷ node, service) = (c ∷ node, service)

abbrev pub or_host : Text → Target → Target
or_host host ([], service) = (host, service)
or_host host (c ∷ node, service) = (c ∷ node, service)

-- The arguments that `Lookup` calls getaddrinfo with.
unfoldable pub split_host : Text → Target
split_host host = or_host host (split_v4 host (split_v6 host))

-- `~(1 << k) - 1` on `int`, as a number of `w` bits: minus 2 ^ k, minus 1, minus 1.
unfoldable pub create_mask : ℕ → ℕ → ℕ
create_mask w bits = (2 ^ 33 - 2 ^ (w - bits) - 1 - 1) % 2 ^ w

-- The order of two addresses by their bytes, and then by their lengths.
unfoldable pub address_less : List ℕ → List ℕ → Bool
address_less a b =
    let n = min (length a) (length b) in
    if text_less (take n a) (take n b)
    then true
    else if text_less (take n b) (take n a)
    then false
    else ltb (length a) (length b)

unfoldable pub address_eq : List ℕ → List ℕ → Bool
address_eq a b = length a == length b && eq_text a b
