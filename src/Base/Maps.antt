-- ===== src/Base/Maps.antt =====
-- Ordered maps: `std::map` with a comparator, as a list of pairs in the order of the keys.
use mathlib.Core.Path.{◌≡◌, refl}
use mathlib.Core.Logic.{◌⊎◌, inl, inr}
use mathlib.Core.Bool.{Bool, true, false, ◌||◌}
use mathlib.Core.Option.{Option, none, some}
use mathlib.Core.List.{List, [], ◌∷◌}
use native.Mathlib.Omega.{arith}
use link_server.Base.Tests.{if◌then◌else◌, Bool-cases}

-- What `std::map` asks of its comparator: a strict weak order.
pub record IsStrictWeak {ℓ} {K : Type ℓ} (less : K → K → Bool) : Type ℓ where
  pub irrefl : (a : K) → less a a ≡ false
  pub trans : (a b c : K) → less a b ≡ true → less b c ≡ true → less a c ≡ true
  pub cotrans : (a b c : K) → less a c ≡ true → (less a b || less b c) ≡ true

-- Neither key comes first.
abbrev pub Same {ℓ} : {K : Type ℓ} → (K → K → Bool) → K → K → Type 0
Same less a b = (less a b ≡ false) × (less b a ≡ false)

module _ {ℓ} {K : Type ℓ} {V : Type 0} (less : K → K → Bool) where
  -- `find`, the value found.
  abbrev pub find : K → List (K × V) → Option V
  find k [] = none
  find k ((j, w) ∷ m) = if less j k then find k m else if less k j then none else some w

  -- `m[k] = v`: the key that is there stays.
  abbrev pub assign : K → V → List (K × V) → List (K × V)
  assign k v [] = (k, v) ∷ []
  assign k v ((j, w) ∷ m) =
      if less j k
      then (j, w) ∷ assign k v m
      else if less k j
      then (k, v) ∷ (j, w) ∷ m
      else (j, v) ∷ m

  abbrev pub erase : K → List (K × V) → List (K × V)
  erase k [] = []
  erase k ((j, w) ∷ m) = if less j k then (j, w) ∷ erase k m else if less k j then (j, w) ∷ m else m

  -- The first key, if any, comes after `a`.
  abbrev pub Below : K → List (K × V) → Type 0
  Below a [] = Unit {0}
  Below a ((j, w) ∷ m) = less a j ≡ true

  abbrev pub IsSortedMap : List (K × V) → Type 0
  IsSortedMap [] = Unit {0}
  IsSortedMap ((j, w) ∷ m) = Below j m × IsSortedMap m

module _ {ℓ} {K : Type ℓ} (less : K → K → Bool) (o : IsStrictWeak less) where
  -- A key that comes after another comes after what is the same as it.
  less-Same : (a b c : K) → less a b ≡ true → Same less b c → less a c ≡ true
  less-Same a b c h (n, n') = ground (arith, o.cotrans a c b h, h)

  Same-less : (a b c : K) → Same less a b → less b c ≡ true → less a c ≡ true
  Same-less a b c (n, n') h = ground (arith, o.cotrans b a c h, h)

  Same-sym : (a b : K) → Same less a b → Same less b a
  Same-sym a b (n, n') = (n', n)

  not_less : (a b c : K) → less a b ≡ false → less b c ≡ false → less a c ≡ false
  not_less a b c h k = elim (Bool-cases (less a c)) [
    | inl e ↦ ground (arith, o.cotrans a b c e, h, k)
    | inr e ↦ e
  ]

  Same-trans : (a b c : K) → Same less a b → Same less b c → Same less a c
  Same-trans a b c (n, n') (k, k') = (not_less a b c n k, not_less c b a k' n')

  asymm : (a b : K) → less a b ≡ true → less b a ≡ false
  asymm a b h = elim (Bool-cases (less b a)) [
    | inl e ↦ ground (arith, o.trans a b a h e, o.irrefl a)
    | inr e ↦ e
  ]

module _ {ℓ} {K : Type ℓ} {V : Type 0} (less : K → K → Bool) (o : IsStrictWeak less) where
  -- What is assigned to a key is found under every key that is the same.
  pub find-assign-Same :
      (j k : K) (v : V) (m : List (K × V))
      → Same less j k
      → find less j (assign less k v m) ≡ some v
  find-assign-Same j k v [] (n, n') = ground (arith, n, n')
  find-assign-Same j k v ((i, w) ∷ m) (n, n') =
      let ih = find-assign-Same j k v m (n, n') in
      elim (Bool-cases (less i k)) [
        | inl e ↦ let e' = less-Same less o i k j e (n', n) in ground (arith, e, e', ih)
        | inr e ↦ elim (Bool-cases (less k i)) [
          | inl e' ↦ ground (arith, e, e', n, n')
          | inr e' ↦
              let (l, l') = Same-trans less o i k j (e, e') (n', n) in ground (arith, e, e', l, l')
        ]
      ]

  -- What is found under other keys stays.
  pub find-assign_other :
      (j k : K) (v : V) (m : List (K × V))
      → (less j k ≡ true) ⊎ (less k j ≡ true)
      → find less j (assign less k v m) ≡ find less j m
  find-assign_other j k v [] (inl h) = ground (arith, h, asymm less o j k h)
  find-assign_other j k v [] (inr h) = ground (arith, h, asymm less o k j h)
  find-assign_other j k v ((i, w) ∷ m) h =
      let ih = find-assign_other j k v m h in
      elim (Bool-cases (less i k)) [
        | inl e ↦ ground (arith, e, ih)
        | inr e ↦ elim (Bool-cases (less k i)) [
          | inl e' ↦ elim h [
            | inl l ↦
                let l' = o.trans j k i l e' in
                ground (arith, e, e', l, l', asymm less o j k l, asymm less o j i l')
            | inr l ↦ ground (arith, e, e', l, asymm less o k j l)
          ]
          | inr e' ↦ elim h [
            | inl l ↦
                let l' = less-Same less o j k i l (e', e) in
                ground (arith, e, e', l', asymm less o j i l')
            | inr l ↦
                let l' = Same-less less o i k j (e, e') l in
                ground (arith, e, e', l', asymm less o i j l')
          ]
        ]
      ]

  -- A key that comes before those of a sorted map is not found in it.
  find-Below : (j k : K) (m : List (K × V)) → Below less k m → Same less j k → find less j m ≡ none
  find-Below j k [] h s = refl
  find-Below j k ((i, w) ∷ m) h s =
      let l = Same-less less o j k i s h in ground (arith, l, asymm less o j i l)

  find-before :
      (j k : K) (m : List (K × V)) → Below less k m → less j k ≡ true → find less j m ≡ none
  find-before j k [] h l = refl
  find-before j k ((i, w) ∷ m) h l =
      let l' = o.trans j k i l h in ground (arith, l', asymm less o j i l')

  Below-trans : (i j : K) (m : List (K × V)) → less i j ≡ true → Below less j m → Below less i m
  Below-trans i j [] h b = tt
  Below-trans i j ((k, w) ∷ m) h b = o.trans i j k h b

  -- In a sorted map an erased key is not found, nor one that is the same.
  pub find-erase-Same :
      (j k : K) (m : List (K × V))
      → IsSortedMap less m
      → Same less j k
      → find less j (erase less k m) ≡ none
  find-erase-Same j k [] u s = refl
  find-erase-Same j k ((i, w) ∷ m) (b, u) (n, n') =
      let ih = find-erase-Same j k m u (n, n') in
      elim (Bool-cases (less i k)) [
        | inl e ↦ let e' = less-Same less o i k j e (n', n) in ground (arith, e, e', ih)
        | inr e ↦ elim (Bool-cases (less k i)) [
          | inl e' ↦
              let l = Same-less less o j k i (n, n') e' in
              ground (arith, e, e', l, asymm less o j i l)
          | inr e' ↦
              let gone = find-Below j i m b (Same-trans less o j k i (n, n') (e', e)) in
              ground (arith, e, e', gone)
        ]
      ]

  pub find-erase_other :
      (j k : K) (m : List (K × V))
      → IsSortedMap less m
      → (less j k ≡ true) ⊎ (less k j ≡ true)
      → find less j (erase less k m) ≡ find less j m
  find-erase_other j k [] u h = refl
  find-erase_other j k ((i, w) ∷ m) (b, u) h =
      let ih = find-erase_other j k m u h in
      elim (Bool-cases (less i k)) [
        | inl e ↦ ground (arith, e, ih)
        | inr e ↦ elim (Bool-cases (less k i)) [
          | inl e' ↦ ground (arith, e, e')
          | inr e' ↦ elim h [
            | inl l ↦
                let l' = less-Same less o j k i l (e', e) in
                let gone = find-before j i m b l' in
                ground (arith, e, e', l', asymm less o j i l', gone)
            | inr l ↦ let l' = Same-less less o i k j (e, e') l in ground (arith, e, e', l')
          ]
        ]
      ]

  Below-assign :
      (i k : K) (v : V) (m : List (K × V))
      → less i k ≡ true
      → Below less i m
      → Below less i (assign less k v m)
  Below-assign i k v [] h b = h
  Below-assign i k v ((j, w) ∷ m) h b = elim (Bool-cases (less j k)) [
    | inl e ↦ rw e b
    | inr e ↦ elim (Bool-cases (less k j)) [ inl e' ↦ rw (e, e') h | inr e' ↦ rw (e, e') b ]
  ]

  -- Assignments and erasures keep a map sorted.
  pub assign-IsSortedMap :
      (k : K) (v : V) (m : List (K × V)) → IsSortedMap less m → IsSortedMap less (assign less k v m)
  assign-IsSortedMap k v [] u = (tt, tt)
  assign-IsSortedMap k v ((j, w) ∷ m) (b, u) = elim (Bool-cases (less j k)) [
    | inl e ↦ rw e (Below-assign j k v m e b, assign-IsSortedMap k v m u)
    | inr e ↦ elim (Bool-cases (less k j)) [
      | inl e' ↦ rw (e, e') (e', (b, u))
      | inr e' ↦ rw (e, e') (b, u)
    ]
  ]

  Below-erase :
      (i k : K) (m : List (K × V))
      → Below less i m
      → IsSortedMap less m
      → Below less i (erase less k m)
  Below-erase i k [] b u = tt
  Below-erase i k ((j, w) ∷ m) b (b', u) = elim (Bool-cases (less j k)) [
    | inl e ↦ rw e b
    | inr e ↦ elim (Bool-cases (less k j)) [
      | inl e' ↦ rw (e, e') b
      | inr e' ↦ rw (e, e') (Below-trans i j m b b')
    ]
  ]

  pub erase-IsSortedMap :
      (k : K) (m : List (K × V)) → IsSortedMap less m → IsSortedMap less (erase less k m)
  erase-IsSortedMap k [] u = tt
  erase-IsSortedMap k ((j, w) ∷ m) (b, u) = elim (Bool-cases (less j k)) [
    | inl e ↦ rw e (Below-erase j k m b u, erase-IsSortedMap k m u)
    | inr e ↦ elim (Bool-cases (less k j)) [ inl e' ↦ rw (e, e') (b, u) | inr e' ↦ rw (e, e') u ]
  ]
