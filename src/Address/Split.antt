-- ===== src/Address/Split.antt =====
-- Hosts are split as they were joined.
use link_server.Base.{ℕ, ◌≡◌, refl, [], ◌∷◌, ◌++◌, none, some, true, false, ◌==◌, arith}
use link_server.Http.{Text}
use link_server.Address.{memchr, split_host}

abbrev pub HasNo : ℕ → Text → Type 0
HasNo c [] = Unit {0}
HasNo c (d ∷ s) = ((d == c) ≡ false) × HasNo c s

abbrev pub IsNonEmpty : Text → Type 0
IsNonEmpty [] = ⊥
IsNonEmpty (c ∷ s) = Unit {0}

memchr-append : (c : ℕ) (s t : Text) → HasNo c s → memchr c (s ++ (c ∷ t)) ≡ some (s, t)
memchr-append c [] t h = let e : (c == c) ≡ true = ground arith in rw e refl
memchr-append c (d ∷ s) t (n, h) = rw (n, memchr-append c s t h) refl

memchr-HasNo : (c : ℕ) (s : Text) → HasNo c s → memchr c s ≡ none
memchr-HasNo c [] h = refl
memchr-HasNo c (d ∷ s) (n, h) = rw (n, memchr-HasNo c s h) refl

split_host-v4 :
    (node service : Text)
    → IsNonEmpty node
    → HasNo 58 node
    → HasNo 91 node
    → HasNo 58 service
    → split_host (node ++ (58 ∷ service)) ≡ (node, some service)
unfolding split_host
split_host-v4 [] service n h b s = absurd n
split_host-v4 (d ∷ node) service n h (b, b') s =
    rw (b, memchr-append 58 (d ∷ node) service h, memchr-HasNo 58 service s) refl

split_host-v6 :
    (node service : Text)
    → IsNonEmpty node
    → HasNo 93 node
    → (split_host (91 ∷ (node ++ (93 ∷ 58 ∷ service))) ≡ (node, some service))
      × (split_host (91 ∷ (node ++ (93 ∷ []))) ≡ (node, none))
unfolding split_host
split_host-v6 [] service n h = absurd n
split_host-v6 (d ∷ node) service n h = (
  rw (memchr-append 93 (d ∷ node) (58 ∷ service) h) refl,
  rw (memchr-append 93 (d ∷ node) [] h) refl,
)

-- Hosts are split as they were joined, for nodes that are not empty: a node without colons and
-- brackets, a colon and a service without colons; a node without closing brackets in brackets,
-- whatever colons it has, with a colon and any service behind it; and such a node in brackets alone.
pub split_host_lem :
    (node v6 service : Text)
    → IsNonEmpty node
    → HasNo 58 node
    → HasNo 91 node
    → HasNo 58 service
    → IsNonEmpty v6
    → HasNo 93 v6
    → (split_host (node ++ (58 ∷ service)) ≡ (node, some service))
      × (split_host (91 ∷ (v6 ++ (93 ∷ 58 ∷ service))) ≡ (v6, some service))
      × (split_host (91 ∷ (v6 ++ (93 ∷ []))) ≡ (v6, none))
split_host_lem node v6 service n h b s n' h' = (
  split_host-v4 node service n h b s,
  (split_host-v6 v6 service n' h').0,
  (split_host-v6 v6 service n' h').1,
)

-- A host with two colons that does not begin with a bracket, as an IPv6 address is written, is the node
-- itself, with all of it from the first colon on as the service.
pub split_host-colons :
    (before between after : Text)
    → IsNonEmpty before
    → HasNo 58 before
    → HasNo 91 before
    → HasNo 58 between
    → split_host (before ++ (58 ∷ (between ++ (58 ∷ after))))
      ≡ (before ++ (58 ∷ (between ++ (58 ∷ after))), some (58 ∷ (between ++ (58 ∷ after))))
unfolding split_host
split_host-colons [] between after n h b s = absurd n
split_host-colons (d ∷ before) between after n h (b, b') s =
    rw
      (
        b,
        memchr-append 58 (d ∷ before) (between ++ (58 ∷ after)) h,
        memchr-append 58 between after s,
      )
      refl
