-- ===== src/Config/Lookup.antt =====
-- Settings are found again under their names.
use link_server.Base.{
  ℕ, ◌≡◌, ◌≢◌, refl, sym, ap, ◌∙◌, subst, Option, none, some, true, ◌==◌, if◌then◌else◌, Bool-cases,
  ◌⊎◌, inl, inr, arith,
}
use link_server.Base.Maps.{find, find-assign-Same, find-assign_other}
use link_server.Http.{Text, text_less}
use link_server.Http.Headers.{text_less-IsStrictWeak, text_less_irrefl, other_text}
use link_server.Config.{
  Config, Looked, returns, returns_null, throws, is_valid_name, lookup_found, lookup, lookup_base,
}

abbrev address : Looked → ℕ → ℕ
address (returns a) b = a
address returns_null b = b
address throws b = b

-- The value of the setting at `a`: the default where the name was not there, else as it was.
abbrev pub kept_or : Option ℕ → ℕ → ℕ → ℕ
kept_or none default_value old = default_value
kept_or (some b) default_value old = old

-- What is found afterwards under the name, and under any other.
abbrev Found : Text → Text → ℕ → ℕ → ℕ → Option ℕ → ℕ → Config → Config → Type 0
Found name other ty ty' dv found a c c' =
    (find text_less name c'.datas ≡ some a)
    × (find text_less other c'.datas ≡ find text_less other c.datas)
    × ((c'.type_of a == ty') ≡ (ty == ty'))
    × (c'.value_of a ≡ kept_or found dv (c.value_of a))

abbrev Looks : Text → Text → ℕ → ℕ → ℕ → Option ℕ → Config → Looked × Config → Type 0
Looks name other ty ty' dv found c r =
    (r.0 ≡ returns_null)
    ⊎ (r.0 ≡ throws)
    ⊎ (a : ℕ) × (r.0 ≡ returns a) × Found name other ty ty' dv found a c r.1

lookup_found-Looks :
    (name other : Text) (ty ty' dv fresh : ℕ) (c : Config) (found : Option ℕ)
    → other ≢ name
    → find text_less name c.datas ≡ found
    → Looks name other ty ty' dv found c (lookup_found found name ty dv fresh c)
lookup_found-Looks name other ty ty' dv fresh c none ne e = elim (Bool-cases (is_valid_name name)) [
  | inl v ↦
      let self : (fresh == fresh) ≡ true = ground arith in
      rw v (
        inr (
          inr (
            fresh,
            refl,
            (
              find-assign-Same text_less text_less-IsStrictWeak name name fresh c.datas
                  (text_less_irrefl name, text_less_irrefl name),
              find-assign_other text_less text_less-IsStrictWeak other name fresh c.datas
                  (other_text other name ne),
              rw self refl,
              rw self refl,
            ),
          )))
  | inr v ↦ rw v (inr (inl refl))
]
lookup_found-Looks name other ty ty' dv fresh c (some a) ne e =
    elim (Bool-cases (c.type_of a == ty)) [
      | inl t ↦
          let same : c.type_of a ≡ ty = ground (arith, t) in
          rw t (inr (inr (a, refl, (e, refl, ap (λ x. x == ty') same, refl))))
      | inr t ↦ rw t (inl refl)
    ]

-- Where Lookup returns a setting, the name is found with it, with the default as its value if the name
-- was not there and with its old value if it was, and every other name is found as before; and a
-- second Lookup of the name, with any default, changes no name, type or value: it returns the same setting
-- for the same type and null for any other.
pub lookup_lem :
    (name other : Text) (ty ty' dv dv' fresh fresh' a : ℕ) (c : Config)
    → other ≢ name
    → (lookup name ty dv fresh c).0 ≡ returns a
    → (lookup_base name (lookup name ty dv fresh c).1 ≡ some a)
      × ((lookup name ty dv fresh c).1.value_of a ≡ kept_or (lookup_base name c) dv (c.value_of a))
      × (lookup_base other (lookup name ty dv fresh c).1 ≡ lookup_base other c)
      × (lookup name ty' dv' fresh' (lookup name ty dv fresh c).1
          ≡ ((if ty == ty' then returns a else returns_null), (lookup name ty dv fresh c).1))
unfolding lookup lookup_base
lookup_lem name other ty ty' dv dv' fresh fresh' a c ne h =
    let found = find text_less name c.datas in
    let r = lookup_found found name ty dv fresh c in
    elim (lookup_found-Looks name other ty ty' dv fresh c found ne refl) [
      | inl e ↦ absurd (cc (h, e))
      | inr (inl e) ↦ absurd (cc (h, e))
      | inr (inr (b, e, (f, g, t, v))) ↦
          let same : b ≡ a = ap (λ x. address x a) (sym e ∙ h) in
          let f' : find text_less name r.1.datas ≡ some a = f ∙ ap (λ x. some x) same in
          let t' : (r.1.type_of a == ty') ≡ (ty == ty') =
            ap (λ x. r.1.type_of x == ty') (sym same) ∙ t in
          let v' : r.1.value_of a ≡ kept_or found dv (c.value_of a) =
            subst (λ x. r.1.value_of x ≡ kept_or found dv (c.value_of x)) same v in
          (f', v', g, rw (f', t') refl)
    ]
