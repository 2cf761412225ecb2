-- ===== src/Address/Runs.antt =====
-- Runs of the addresses (linko/address.cc) on concrete texts.
use link_server.Address.Ipv6.{colon, hex, insert_loop, insert_groups, join, insert_groups_lem}
use link_server.Base.{◌≡◌, refl, some, none, replicate, ◌++◌, [], ◌∷◌}
use link_server.Http.{codes}
use link_server.Address.{split_host}
use link_server.Address.Split.{split_host_lem}

split_host_lem_example :
    (split_host (codes "h:80") ≡ (codes "h", some (codes "80")))
    × (split_host (codes "[::1]:80") ≡ (codes "::1", some (codes "80")))
    × (split_host (codes "[::1]") ≡ (codes "::1", none))
split_host_lem_example =
    split_host_lem (codes "h") (codes "::1") (codes "80") tt (refl, tt) (refl, tt)
      (refl, (refl, tt)) tt (refl, (refl, (refl, tt)))

-- fe80::1.
insert_groups_lem_example :
    (insert_groups (65152 ∷ []) ≡ join (65152 ∷ []))
    × (insert_groups ((65152 ∷ []) ++ (replicate 6 0 ++ (1 ∷ [])))
        ≡ join (65152 ∷ []) ++ (colon ∷ colon ∷ join (1 ∷ [])))
insert_groups_lem_example = insert_groups_lem (65152 ∷ []) (1 ∷ []) 5 (refl, tt) refl

loopback : insert_groups (replicate 7 0 ++ (1 ∷ [])) ≡ colon ∷ colon ∷ hex 1 ∷ []
unfolding insert_groups insert_loop
loopback = refl
