-- ===== src/Servlet/Routes.antt =====
-- The servlet that a path is answered by, after servlets are added and deleted.
use link_server.Base.{
  ℕ, ◌≡◌, ◌≢◌, refl, sym, ap, ◌∙◌, List, [], ◌∷◌, ◌++◌, Option, none, some, Bool, true, false,
  if◌then◌else◌, Bool-cases, ◌⊎◌, inl, inr, arith, Option-cases,
}
use link_server.Base.Maps.{
  IsSortedMap, Same, find, find-assign-Same, find-assign_other, find-erase-Same, find-erase_other,
  assign-IsSortedMap, erase-IsSortedMap,
}
use link_server.Http.{Text, eq_text, text_less}
use link_server.Http.Headers.{
  other_text, eq_text_self, eq_text_eq, eq_text-false, text_less-IsStrictWeak, text_less_irrefl,
}
use link_server.Servlet.{
  Ptr, ServletDispatch, add_servlet, del_servlet, erase_first, add_glob_servlet, del_glob_servlet,
  first_glob, matches, get_global_servlet, get_matched_servlet, or_else, or_null,
}

-- No glob of this pattern.
abbrev pub HasNo : Text → List (Text × Ptr) → Type 0
HasNo uri [] = Unit {0}
HasNo uri ((u, s) ∷ gs) = (eq_text u uri ≡ false) × HasNo uri gs

-- No pattern stands twice, and the map is one.
abbrev pub AllDistinct : List (Text × Ptr) → Type 0
AllDistinct [] = Unit {0}
AllDistinct ((u, s) ∷ gs) = HasNo u gs × AllDistinct gs

pub record IsValid (d : ServletDispatch) : Type 0 where
  pub datas_ok : IsSortedMap text_less d.datas
  pub globs_ok : AllDistinct d.globs

-- Erasing keeps the other patterns in their order, and leaves none of the erased one.
HasNo-erase_first :
    (u uri : Text) (gs : List (Text × Ptr)) → HasNo u gs → HasNo u (erase_first gs uri)
HasNo-erase_first u uri [] h = tt
HasNo-erase_first u uri ((v, s) ∷ gs) (n, h) = elim (Bool-cases (eq_text v uri)) [
  | inl e ↦ rw e h
  | inr e ↦ rw e (n, HasNo-erase_first u uri gs h)
]

HasNo-erased :
    (uri : Text) (gs : List (Text × Ptr)) → AllDistinct gs → HasNo uri (erase_first gs uri)
HasNo-erased uri [] a = tt
HasNo-erased uri ((v, s) ∷ gs) (n, a) = elim (Bool-cases (eq_text v uri)) [
  | inl e ↦ let same = eq_text_eq v uri e in rw e (rw (← same) n)
  | inr e ↦ rw e (e, HasNo-erased uri gs a)
]

erase_first-AllDistinct :
    (uri : Text) (gs : List (Text × Ptr)) → AllDistinct gs → AllDistinct (erase_first gs uri)
erase_first-AllDistinct uri [] a = tt
erase_first-AllDistinct uri ((v, s) ∷ gs) (n, a) = elim (Bool-cases (eq_text v uri)) [
  | inl e ↦ rw e a
  | inr e ↦ rw e (HasNo-erase_first v uri gs n, erase_first-AllDistinct uri gs a)
]

eq_text_comm : (s t : Text) → eq_text s t ≡ false → eq_text t s ≡ false
eq_text_comm s t h = eq_text-false t s (λ e. ground (arith, h, eq_text_self s, ap (eq_text s) e))

HasNo-last :
    (u uri : Text) (slt : Ptr) (gs : List (Text × Ptr))
    → HasNo u gs
    → eq_text uri u ≡ false
    → HasNo u (gs ++ ((uri, slt) ∷ []))
HasNo-last u uri slt [] h n = (n, tt)
HasNo-last u uri slt ((v, s) ∷ gs) (k, h) n = (k, HasNo-last u uri slt gs h n)

last-AllDistinct :
    (uri : Text) (slt : Ptr) (gs : List (Text × Ptr))
    → AllDistinct gs
    → HasNo uri gs
    → AllDistinct (gs ++ ((uri, slt) ∷ []))
last-AllDistinct uri slt [] a h = (tt, tt)
last-AllDistinct uri slt ((v, s) ∷ gs) (n, a) (k, h) =
    (HasNo-last v uri slt gs n (eq_text_comm v uri k), last-AllDistinct uri slt gs a h)

-- The first glob of a list with one more at its end.
first_glob-append :
    (p : Text → Bool) (gs : List (Text × Ptr)) (uri : Text) (slt : Ptr)
    → first_glob p (gs ++ ((uri, slt) ∷ []))
      ≡ elim (first_glob p gs) [ some s ↦ some s | none ↦ if p uri then some slt else none ]
first_glob-append p [] uri slt = refl
first_glob-append p ((u, s) ∷ gs) uri slt = elim (Bool-cases (p u)) [
  | inl e ↦ rw e
  | inr e ↦ rw e (first_glob-append p gs uri slt)
]

first_glob-HasNo :
    (uri : Text) (gs : List (Text × Ptr)) → HasNo uri gs → first_glob (λ u. eq_text u uri) gs ≡ none
first_glob-HasNo uri [] h = refl
first_glob-HasNo uri ((u, s) ∷ gs) (n, h) = rw n (first_glob-HasNo uri gs h)

first_glob-erase_first :
    (v uri : Text) (gs : List (Text × Ptr))
    → uri ≢ v
    → first_glob (λ u. eq_text u v) (erase_first gs uri) ≡ first_glob (λ u. eq_text u v) gs
first_glob-erase_first v uri [] ne = refl
first_glob-erase_first v uri ((u, s) ∷ gs) ne = elim (Bool-cases (eq_text u uri)) [
  | inl e ↦ let n = eq_text-false u v (λ k. ne (sym (eq_text_eq u uri e) ∙ k)) in rw (e, n)
  | inr e ↦ rw e (ap (λ r. if eq_text u v then some s else r) (first_glob-erase_first v uri gs ne))
]

Same-text : (s : Text) → Same text_less s s
Same-text s = (text_less_irrefl s, text_less_irrefl s)

-- What answers a path that no servlet is registered for by name.
abbrev pub from_globs : (Text → Text → ℕ) → ServletDispatch → Text → Ptr
from_globs fnmatch d uri = or_else (first_glob (matches fnmatch uri) d.globs) d.default_servlet

-- After addServlet its path is answered by the new servlet, whatever the globs, and every other path
-- as before; after delServlet, on valid routes, its path is answered by the first glob that matches
-- it, or the default servlet, and every other path as before. Both keep the routes valid.
pub get_matched_servlet-add_servlet :
    (fnmatch : Text → Text → ℕ) (d : ServletDispatch) (uri path : Text) (slt : Ptr)
    → IsValid d
    → path ≢ uri
    → (get_matched_servlet fnmatch (add_servlet d uri slt) uri ≡ slt)
      × (get_matched_servlet fnmatch (del_servlet d uri) uri ≡ from_globs fnmatch d uri)
      × (get_matched_servlet fnmatch (add_servlet d uri slt) path
          ≡ get_matched_servlet fnmatch d path)
      × (get_matched_servlet fnmatch (del_servlet d uri) path ≡ get_matched_servlet fnmatch d path)
      × IsValid (add_servlet d uri slt)
      × IsValid (del_servlet d uri)
unfolding get_matched_servlet add_servlet del_servlet
get_matched_servlet-add_servlet fnmatch d uri path slt v ne =
    let o = text_less-IsStrictWeak in
    (
      ap (λ f. or_else f (from_globs fnmatch d uri))
          (find-assign-Same text_less o uri uri slt d.datas (Same-text uri)),
      ap (λ f. or_else f (from_globs fnmatch d uri))
          (find-erase-Same text_less o uri uri d.datas v.datas_ok (Same-text uri)),
      ap (λ f. or_else f (from_globs fnmatch d path))
          (find-assign_other text_less o path uri slt d.datas (other_text path uri ne)),
      ap (λ f. or_else f (from_globs fnmatch d path))
          (find-erase_other text_less o path uri d.datas v.datas_ok (other_text path uri ne)),
      record {
        datas_ok = assign-IsSortedMap text_less o uri slt d.datas v.datas_ok;
        globs_ok = v.globs_ok;
      },
      record {
        datas_ok = erase-IsSortedMap text_less o uri d.datas v.datas_ok;
        globs_ok = v.globs_ok;
      },
    )

or_else-last :
    (b : Bool) (o : Option Ptr) (slt def : Ptr)
    → or_else (elim o [ some s ↦ some s | none ↦ if b then some slt else none ]) def
      ≡ or_else o (if b then slt else def)
or_else-last true none slt def = refl
or_else-last false none slt def = refl
or_else-last b (some s) slt def = refl

or_null-last :
    (b : Bool) (o : Option Ptr) (slt : Ptr)
    → b ≡ false
    → or_null (elim o [ some s ↦ some s | none ↦ if b then some slt else none ]) ≡ or_null o
or_null-last true o slt h = cc h
or_null-last false none slt h = refl
or_null-last false (some s) slt h = refl

-- On valid routes addGlobServlet and delGlobServlet keep them valid. After addGlobServlet its
-- pattern has the new servlet, after delGlobServlet none, and every other pattern what it had. A
-- path that is registered by name is answered as before; any other is answered, after
-- delGlobServlet, by the first of the remaining globs that matches it or the default servlet, and
-- after addGlobServlet by the same, with the new servlet tried after those globs and before the
-- default.
pub get_matched_servlet-add_glob_servlet :
    (fnmatch : Text → Text → ℕ) (d : ServletDispatch) (uri pattern path : Text) (slt : Ptr)
    → IsValid d
    → uri ≢ pattern
    → IsValid (add_glob_servlet d uri slt)
      × IsValid (del_glob_servlet d uri)
      × (get_global_servlet (add_glob_servlet d uri slt) uri ≡ slt)
      × (get_global_servlet (del_glob_servlet d uri) uri ≡ none)
      × (get_global_servlet (add_glob_servlet d uri slt) pattern ≡ get_global_servlet d pattern)
      × (get_global_servlet (del_glob_servlet d uri) pattern ≡ get_global_servlet d pattern)
      × ((find text_less path d.datas ≡ none)
            × (get_matched_servlet fnmatch (del_glob_servlet d uri) path
                ≡ or_else
                    (first_glob (matches fnmatch path) (erase_first d.globs uri))
                    d.default_servlet)
            × (get_matched_servlet fnmatch (add_glob_servlet d uri slt) path
                ≡ or_else
                    (first_glob (matches fnmatch path) (erase_first d.globs uri))
                    (if matches fnmatch path uri then slt else d.default_servlet))
          ⊎ (s : Ptr) × (find text_less path d.datas ≡ some s)
            × (get_matched_servlet fnmatch (del_glob_servlet d uri) path ≡ s)
            × (get_matched_servlet fnmatch (add_glob_servlet d uri slt) path ≡ s))
unfolding get_matched_servlet get_global_servlet add_glob_servlet del_glob_servlet
get_matched_servlet-add_glob_servlet fnmatch d uri pattern path slt v ne =
    let same = first_glob-erase_first pattern uri d.globs ne in
    let other = eq_text-false uri pattern ne in
    let rest = erase_first d.globs uri in
    let gone = HasNo-erased uri d.globs v.globs_ok in
    let distinct = erase_first-AllDistinct uri d.globs v.globs_ok in
    let none_left = first_glob-HasNo uri rest gone in
    (
      record { datas_ok = v.datas_ok; globs_ok = last-AllDistinct uri slt rest distinct gone },
      record { datas_ok = v.datas_ok; globs_ok = distinct },
      rw (first_glob-append, none_left, eq_text_self uri),
      rw none_left,
      rw (first_glob-append, same)
          (or_null-last (eq_text uri pattern) (first_glob (λ u. eq_text u pattern) d.globs) slt
            other),
      rw same,
      elim (Option-cases (find text_less path d.datas)) [
        | inl e ↦ inl (
          e,
          rw e,
          rw (e, first_glob-append)
              (or_else-last (matches fnmatch path uri) (first_glob (matches fnmatch path) rest) slt
                d.default_servlet),
        )
        | inr (s, e) ↦ inr (s, e, rw e, rw e)
      ],
    )
