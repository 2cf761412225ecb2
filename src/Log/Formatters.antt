-- ===== src/Log/Formatters.antt =====
-- linko/log.cc: which formatter an appender prints with. Appenders stand in a store that is indexed by
-- address, since loggers share them; a formatter is a number that names it, null is `none`.
use link_server.Base.{
  ℕ, ◌≡◌, refl, sym, subst, ap, ◌∙◌, ◌⊎◌, inl, inr, List, [], ◌∷◌, ◌++◌, Option, none, some, Bool,
  true, false, ◌==◌, if◌then◌else◌, arith, Bool-cases,
}

pub record LogAppender : Type 0 where
  pub formatter : Option ℕ
  pub has_formatter : Bool

pub record Formatted : Type 0 where
  pub formatter : ℕ
  pub appenders : List ℕ

abbrev pub Store : Type 0
Store = ℕ → LogAppender

abbrev pub put_appender : Store → ℕ → LogAppender → Store
put_appender s a x b = if a == b then x else s b

abbrev pub is_set : Option ℕ → Bool
is_set none = false
is_set (some f) = true

-- `LogAppender::setFormatter`.
unfoldable pub set_own : Store → ℕ → Option ℕ → Store
set_own s a val = put_appender s a (record { formatter = val; has_formatter = is_set val })

-- An appender without a formatter gets that of the logger.
unfoldable pub add_appender : Store → Formatted → ℕ → Store × Formatted
add_appender s l a = (
  if is_set (s a).formatter
      then s
      else put_appender s a (record (s a) { formatter = some l.formatter }),
  record l { appenders = l.appenders ++ (a ∷ []) },
)

abbrev pub erase_appender : ℕ → List ℕ → List ℕ
erase_appender a [] = []
erase_appender a (b ∷ apps) = if b == a then apps else b ∷ erase_appender a apps

unfoldable pub del_appender : Formatted → ℕ → Formatted
del_appender l a = record l { appenders = erase_appender a l.appenders }

abbrev pub follow_logger : Store → ℕ → ℕ → Store
follow_logger s f a =
    if (s a).has_formatter then s else put_appender s a (record (s a) { formatter = some f })

abbrev pub follow_all : Store → ℕ → List ℕ → Store
follow_all s f [] = s
follow_all s f (a ∷ apps) = follow_all (follow_logger s f a) f apps

-- `setFormatter`, also of those appenders that have none of their own.
unfoldable pub set_formatter : Store → Formatted → ℕ → Store × Formatted
set_formatter s l f = (follow_all s f l.appenders, record l { formatter = f })

abbrev pub member : ℕ → List ℕ → Bool
member a [] = false
member a (b ∷ apps) = if a == b then true else member a apps

-- What `setFormatter` makes of the appender at `x`.
abbrev pub followed : Bool → ℕ → LogAppender → LogAppender
followed false f x = x
followed true f x = if x.has_formatter then x else record x { formatter = some f }

followed-twice :
    (b : Bool) (f : ℕ) (x : LogAppender) → followed b f (followed true f x) ≡ followed true f x
followed-twice false f x = refl
followed-twice true f x = elim (Bool-cases x.has_formatter) [
  | inl y ↦ rw y refl
  | inr n ↦ rw n refl
]

put_self : (s : Store) (a : ℕ) (v : LogAppender) → put_appender s a v a ≡ v
put_self s a v = let self : (a == a) ≡ true = ground arith in rw self refl

unless_self :
    (b : Bool) (s : Store) (a : ℕ) (v : LogAppender)
    → (if b then s else put_appender s a v) a ≡ (if b then s a else v)
unless_self true s a v = refl
unless_self false s a v = put_self s a v

follow_logger_self : (s : Store) (f a : ℕ) → follow_logger s f a a ≡ followed true f (s a)
follow_logger_self s f a = unless_self (s a).has_formatter s a (record (s a) { formatter = some f })

follow_logger_lem : (s : Store) (f a x : ℕ) → follow_logger s f a x ≡ followed (x == a) f (s x)
follow_logger_lem s f a x = elim (Bool-cases (x == a)) [
  | inl y ↦
      let same : x ≡ a = ground (arith, y) in
      rw y (
        subst (λ t. follow_logger s f a t ≡ followed true f (s t)) (sym same)
          (follow_logger_self s f a))
  | inr n ↦
      let other : (a == x) ≡ false = ground (arith, n) in
      elim (Bool-cases (s a).has_formatter) [
        | inl y ↦ rw (n, y) refl
        | inr m ↦ rw (n, m, other) refl
      ]
]

-- `setFormatter` gives its formatter to every appender of the logger that has none of its own, and
-- changes no other.
pub follow_all_lem :
    (s : Store) (f : ℕ) (apps : List ℕ) (x : ℕ)
    → follow_all s f apps x ≡ followed (member x apps) f (s x)
follow_all_lem s f [] x = refl
follow_all_lem s f (a ∷ apps) x =
    follow_all_lem (follow_logger s f a) f apps x
    ∙ ap (followed (member x apps) f) (follow_logger_lem s f a x)
    ∙ elim (Bool-cases (x == a)) [
      | inl y ↦ rw y (followed-twice (member x apps) f (s x))
      | inr n ↦ rw n refl
    ]

-- Every appender of the logger has a formatter to print with.
abbrev pub AllSet : Store → List ℕ → Type 0
AllSet s apps = (x : ℕ) → member x apps ≡ true → is_set (s x).formatter ≡ true

followed-set :
    (b : Bool) (f : ℕ) (x : LogAppender)
    → is_set x.formatter ≡ true
    → is_set (followed b f x).formatter ≡ true
followed-set false f x h = h
followed-set true f x h = elim (Bool-cases x.has_formatter) [ inl y ↦ rw y h | inr n ↦ rw n refl ]

member-snoc :
    (x a : ℕ) (apps : List ℕ)
    → member x (apps ++ (a ∷ [])) ≡ true
    → (member x apps ≡ true) ⊎ (x ≡ a)
member-snoc x a [] h = inr (ground (arith, h))
member-snoc x a (b ∷ apps) h = elim (Bool-cases (x == b)) [
  | inl y ↦ inl (rw y refl)
  | inr n ↦ elim (member-snoc x a apps (ground (arith, n, h))) [
    | inl m ↦ inl (rw n m)
    | inr e ↦ inr e
  ]
]

member-erase :
    (x a : ℕ) (apps : List ℕ) → member x (erase_appender a apps) ≡ true → member x apps ≡ true
member-erase x a [] h = h
member-erase x a (b ∷ apps) h = elim (Bool-cases (b == a)) [
  | inl y ↦ ground (arith, y, h)
  | inr n ↦ elim (Bool-cases (x == b)) [
    | inl y ↦ rw y refl
    | inr m ↦ rw m (member-erase x a apps (ground (arith, n, m, h)))
  ]
]

add_appender-store :
    (s : Store) (l : Formatted) (a x : ℕ)
    → (is_set (s x).formatter ≡ true) ⊎ (x ≡ a)
    → is_set ((add_appender s l a).0 x).formatter ≡ true
unfolding add_appender
add_appender-store s l a x h = elim (Bool-cases (is_set (s a).formatter)) [
  | inl y ↦ elim h [
    | inl k ↦ rw y k
    | inr e ↦ rw y (subst (λ t. is_set (s t).formatter ≡ true) (sym e) y)
  ]
  | inr n ↦ elim (Bool-cases (a == x)) [
    | inl y ↦ rw (n, y) refl
    | inr m ↦ elim h [ inl k ↦ rw (n, m) k | inr e ↦ absurd (ground (arith, m, e)) ]
  ]
]

-- Adding an appender, deleting one and setting the formatter of a logger keep a formatter for every
-- appender of it, so that none prints through a null one.
pub formatters-AllSet :
    (s : Store) (l : Formatted) (a f : ℕ)
    → AllSet s l.appenders
    → AllSet (add_appender s l a).0 (add_appender s l a).1.appenders
      × AllSet s (del_appender l a).appenders
      × AllSet (set_formatter s l f).0 (set_formatter s l f).1.appenders
unfolding add_appender del_appender set_formatter
formatters-AllSet s l a f h = (
  λ x m.
      add_appender-store s l a x
        (elim (member-snoc x a l.appenders m) [ inl k ↦ inl (h x k) | inr e ↦ inr e ]),
  λ x m. h x (member-erase x a l.appenders m),
  λ x m.
      ap (λ t. is_set t.formatter) (follow_all_lem s f l.appenders x)
      ∙ followed-set (member x l.appenders) f (s x) (h x m),
)
