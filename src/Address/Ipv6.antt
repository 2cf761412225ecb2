-- ===== src/Address/Ipv6.antt =====
-- linko/address.cc: the text of an IPv6 address. The groups are the eight numbers of 16 bits in the
-- host's order; the text is a list of colons and of groups, which are printed in hexadecimal.
use link_server.Base.{
  ℕ, zero, suc, ◌≡◌, refl, List, [], ◌∷◌, ◌++◌, Bool, true, false, not, ◌&&◌, ◌||◌, ◌==◌,
  if◌then◌else◌, replicate,
}

pub data Token : Type 0 where
  colon : Token
  hex : ℕ → Token

-- The group before, where there is one, is 0.
pub data Before : Type 0 where
  start : Before
  group : ℕ → Before

abbrev pub is_zero_group : Before → Bool
is_zero_group start = false
is_zero_group (group g) = g == 0

abbrev pub separator : Before → List Token
separator start = []
separator (group g) = colon ∷ []

abbrev pub gap_mark : Bool → List Token
gap_mark true = colon ∷ []
gap_mark false = []

-- The loop, with the group before and whether zeros were used, and what is printed behind it.
unfoldable pub insert_loop : Before → Bool → List ℕ → List Token
insert_loop before used [] = if not used && is_zero_group before then colon ∷ colon ∷ [] else []
insert_loop before used (g ∷ groups) =
    let gap = is_zero_group before && not used in
    let skipped = insert_loop (group g) used groups in
    let printed = insert_loop (group g) (used || gap) groups in
    if g == 0 && not used then skipped else gap_mark gap ++ separator before ++ (hex g ∷ printed)

-- `insert`, between the brackets.
unfoldable pub insert_groups : List ℕ → List Token
insert_groups groups = insert_loop start false groups

-- Groups with a colon before each, and with a colon between any two.
abbrev pub follow : List ℕ → List Token
follow [] = []
follow (g ∷ groups) = colon ∷ hex g ∷ follow groups

abbrev pub join : List ℕ → List Token
join [] = []
join (g ∷ groups) = hex g ∷ follow groups

abbrev pub NoZero : List ℕ → Type 0
NoZero [] = Unit {0}
NoZero (g ∷ groups) = ((g == 0) ≡ false) × NoZero groups

abbrev pub StartsNonzero : List ℕ → Type 0
StartsNonzero [] = Unit {0}
StartsNonzero (g ∷ groups) = (g == 0) ≡ false

and-false : (b : Bool) → (b && false) ≡ false
and-false true = refl
and-false false = refl

-- Once zeros were used, every group is printed.
used-follow : (groups : List ℕ) (p : ℕ) → insert_loop (group p) true groups ≡ follow groups
unfolding insert_loop
used-follow [] p = refl
used-follow (g ∷ groups) p = rw (and-false (g == 0), and-false (p == 0), used-follow groups g) refl

zeros-join :
    (k : ℕ) (ts : List ℕ)
    → StartsNonzero ts
    → insert_loop (group 0) false (replicate k 0 ++ ts) ≡ colon ∷ colon ∷ join ts
unfolding insert_loop
zeros-join (suc k) ts h = zeros-join k ts h
zeros-join zero [] h = refl
zeros-join zero (t ∷ ts) h = rw (h, used-follow ts t) refl

front-follow :
    (ns : List ℕ) (p k : ℕ) (ts : List ℕ)
    → (p == 0) ≡ false
    → NoZero ns
    → StartsNonzero ts
    → insert_loop (group p) false (ns ++ (0 ∷ (replicate k 0 ++ ts)))
      ≡ follow ns ++ (colon ∷ colon ∷ join ts)
unfolding insert_loop
front-follow [] p k ts np nz h = zeros-join k ts h
front-follow (n ∷ ns) p k ts np (nn, nz) h = rw (nn, np, front-follow ns n k ts nn nz h) refl

all-follow :
    (ns : List ℕ) (p : ℕ)
    → (p == 0) ≡ false
    → NoZero ns
    → insert_loop (group p) false ns ≡ follow ns
unfolding insert_loop
all-follow [] p np nz = rw np refl
all-follow (n ∷ ns) p np (nn, nz) = rw (nn, np, all-follow ns n nn nz) refl

-- The text of groups none of which is zero is these with colons between them; of groups with a
-- first run of zeros, `k + 1` of them, behind groups without zero and before none or one that is
-- not zero, it is the groups before, two colons, and the groups behind, zeros among them printed.
pub insert_groups_lem :
    (ns ts : List ℕ) (k : ℕ)
    → NoZero ns
    → StartsNonzero ts
    → (insert_groups ns ≡ join ns)
      × (insert_groups (ns ++ (replicate (suc k) 0 ++ ts)) ≡ join ns ++ (colon ∷ colon ∷ join ts))
unfolding insert_groups insert_loop
insert_groups_lem [] ts k nz h = (refl, zeros-join k ts h)
insert_groups_lem (n ∷ ns) ts k (nn, nz) h =
    (rw (nn, all-follow ns n nn nz) refl, rw (nn, front-follow ns n k ts nn nz h) refl)
