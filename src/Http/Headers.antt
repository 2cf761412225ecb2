-- ===== src/Http/Headers.antt =====
-- The comparator of header names is a strict weak order, so that headers are found by name in
-- whatever case.
use link_server.Base.{
  ◌≡◌, ◌≢◌, refl, sym, ap, ap₂, ◌∙◌, [], ◌∷◌, true, false, ◌||◌, Bool-cases, ◌⊎◌, inl, inr, arith,
  Option, ◌==◌,
}
use link_server.Base.Maps.{
  IsStrictWeak, IsSortedMap, Same, find-assign-Same, find-assign_other, find-erase-Same,
  find-erase_other, assign-IsSortedMap, erase-IsSortedMap,
}
use link_server.Http.{
  Text, MapType, eq_text, text_less, less, fold_case, get_header, set_header, del_header,
  has_header, or_default, has_value,
}

pub text_less_irrefl : (s : Text) → text_less s s ≡ false
text_less_irrefl [] = refl
text_less_irrefl (a ∷ s) = ground (arith, text_less_irrefl s)

text_less_trans :
    (s t u : Text) → text_less s t ≡ true → text_less t u ≡ true → text_less s u ≡ true
text_less_trans [] [] u h k = ground (arith, h)
text_less_trans [] (b ∷ t) [] h k = ground (arith, k)
text_less_trans [] (b ∷ t) (c ∷ u) h k = refl
text_less_trans (a ∷ s) [] u h k = ground (arith, h)
text_less_trans (a ∷ s) (b ∷ t) [] h k = ground (arith, k)
text_less_trans (a ∷ s) (b ∷ t) (c ∷ u) h k =
    let ih = text_less_trans s t u in ground (arith, h, k, ih)

pub text_less_total : (s t : Text) → text_less s t ≡ false → text_less t s ≡ false → s ≡ t
text_less_total [] [] h k = refl
text_less_total [] (b ∷ t) h k = ground (arith, h)
text_less_total (a ∷ s) [] h k = ground (arith, k)
text_less_total (a ∷ s) (b ∷ t) h k =
    let same : a ≡ b = ground (arith, h, k) in
    ap₂ (λ x xs. x ∷ xs) same (text_less_total s t (ground (arith, h, k)) (ground (arith, h, k)))

text_less_cotrans : (s t u : Text) → text_less s u ≡ true → (text_less s t || text_less t u) ≡ true
text_less_cotrans [] [] u h = h
text_less_cotrans [] (b ∷ t) u h = refl
text_less_cotrans (a ∷ s) t [] h = ground (arith, h)
text_less_cotrans (a ∷ s) [] (c ∷ u) h = refl
text_less_cotrans (a ∷ s) (b ∷ t) (c ∷ u) h =
    let ih = text_less_cotrans s t u in ground (arith, h, ih)

pub eq_text_self : (s : Text) → eq_text s s ≡ true
eq_text_self [] = refl
eq_text_self (a ∷ s) = let e : (a == a) ≡ true = ground arith in rw e (eq_text_self s)

pub eq_text_eq : (s t : Text) → eq_text s t ≡ true → s ≡ t
eq_text_eq [] [] h = refl
eq_text_eq [] (b ∷ t) h = cc h
eq_text_eq (a ∷ s) [] h = cc h
eq_text_eq (a ∷ s) (b ∷ t) h =
    let same : a ≡ b = ground (arith, h) in
    let rest : s ≡ t = eq_text_eq s t (ground (arith, h)) in rw (same, rest)

pub eq_text-false : (s t : Text) → s ≢ t → eq_text s t ≡ false
eq_text-false s t ne = elim (Bool-cases (eq_text s t)) [
  | inl e ↦ absurd (ne (eq_text_eq s t e))
  | inr e ↦ e
]

pub text_less-IsStrictWeak : IsStrictWeak text_less
text_less-IsStrictWeak = record {
  irrefl = text_less_irrefl;
  trans = text_less_trans;
  cotrans = text_less_cotrans;
}

pub other_text : (s t : Text) → s ≢ t → (text_less s t ≡ true) ⊎ (text_less t s ≡ true)
other_text s t ne = elim (Bool-cases (text_less s t)) [
  | inl e ↦ inl e
  | inr e ↦ elim (Bool-cases (text_less t s)) [
    | inl e' ↦ inr e'
    | inr e' ↦ absurd (ne (text_less_total s t e e'))
  ]
]

pub less-IsStrictWeak : IsStrictWeak less
unfolding less
less-IsStrictWeak = record {
  irrefl = λ a. text_less_irrefl (fold_case a);
  trans = λ a b c. text_less_trans (fold_case a) (fold_case b) (fold_case c);
  cotrans = λ a b c. text_less_cotrans (fold_case a) (fold_case b) (fold_case c);
}

name-Same : (j k : Text) → fold_case j ≡ fold_case k → Same less j k
unfolding less
name-Same j k e = (
  ap (text_less (fold_case j)) (sym e) ∙ text_less_irrefl (fold_case j),
  ap (λ t. text_less t (fold_case j)) (sym e) ∙ text_less_irrefl (fold_case j),
)

pub same_fold : (j k : Text) → less j k ≡ false → less k j ≡ false → fold_case j ≡ fold_case k
unfolding less
same_fold j k e e' = text_less_total (fold_case j) (fold_case k) e e'

other_name : (j k : Text) → fold_case j ≢ fold_case k → (less j k ≡ true) ⊎ (less k j ≡ true)
unfolding less
other_name j k ne = elim (Bool-cases (less j k)) [
  | inl e ↦ inl e
  | inr e ↦ elim (Bool-cases (less k j)) [
    | inl e' ↦ inr e'
    | inr e' ↦ absurd (ne (text_less_total (fold_case j) (fold_case k) e e'))
  ]
]

-- After setHeader a header has the value under its name in whatever case, and headers of other
-- names have their values; the map stays sorted if it was.
pub get_header-set_header :
    (m : MapType) (key key' val def : Text)
    → (fold_case key' ≡ fold_case key → get_header (set_header m key val) key' def ≡ val)
      × (fold_case key' ≢ fold_case key
          → get_header (set_header m key val) key' def ≡ get_header m key' def)
      × (IsSortedMap less m → IsSortedMap less (set_header m key val))
unfolding get_header set_header
get_header-set_header m key key' val def = (
  λ e.
      ap (λ o. or_default o def)
        (find-assign-Same less less-IsStrictWeak key' key val m (name-Same key' key e)),
  λ ne.
      ap (λ o. or_default o def)
        (find-assign_other less less-IsStrictWeak key' key val m (other_name key' key ne)),
  assign-IsSortedMap less less-IsStrictWeak key val m,
)

-- After delHeader on sorted headers no header of that name is there in whatever case, for getHeader
-- and for hasHeader, which then leaves its target as it was; headers of other names have their
-- values, and the map stays sorted.
pub get_header-del_header :
    (m : MapType) (key key' def : Text) (val : Option Text)
    → IsSortedMap less m
    → (fold_case key' ≡ fold_case key
        → (get_header (del_header m key) key' def ≡ def)
          × (has_header (del_header m key) key' val ≡ (false, val)))
      × (fold_case key' ≢ fold_case key
          → get_header (del_header m key) key' def ≡ get_header m key' def)
      × IsSortedMap less (del_header m key)
unfolding get_header del_header has_header
get_header-del_header m key key' def val u = (
  λ e. (
    ap (λ o. or_default o def)
        (find-erase-Same less less-IsStrictWeak key' key m u (name-Same key' key e)),
    ap (λ o. has_value o val)
        (find-erase-Same less less-IsStrictWeak key' key m u (name-Same key' key e)),
  ),
  λ ne.
      ap (λ o. or_default o def)
        (find-erase_other less less-IsStrictWeak key' key m u (other_name key' key ne)),
  erase-IsSortedMap less less-IsStrictWeak key m u,
)
