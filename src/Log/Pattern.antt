-- ===== src/Log/Pattern.antt =====
-- The pattern of a formatter: patterns are read as they were printed, and the loops end.
use mathlib.Core.List.{append_assoc, append-nil}
use link_server.Base.{
  ℕ, zero, suc, ◌-◌, ◌≤◌, ◌≡◌, refl, ap, ◌∙◌, List, [], ◌∷◌, ◌++◌, Bool, true, false, ◌==◌, ok,
  length, Bool-cases, ◌⊎◌, inl, inr, arith, length-append,
}
use link_server.Http.{Text}
use link_server.Log.{
  Piece, literal, item, is_alnum, ends_name, Scan, found, unclosed, scan_fmt, scan_name, flush,
  is_percent, Parsed, after_scan, init_loop, parse_pattern,
}

-- No character is `c`; all are letters or digits.
abbrev pub HasNo : ℕ → Text → Type 0
HasNo c [] = Unit {0}
HasNo c (d ∷ s) = ((d == c) ≡ false) × HasNo c s

abbrev pub AllAlnum : Text → Type 0
AllAlnum [] = Unit {0}
AllAlnum (d ∷ s) = (is_alnum d ≡ true) × AllAlnum s

abbrev pub IsNonEmpty : Text → Type 0
IsNonEmpty [] = ⊥
IsNonEmpty (c ∷ s) = Unit {0}

-- The format of an item in braces, unless it is empty.
abbrev pub print_fmt : Text → Text
print_fmt [] = []
print_fmt (c ∷ s) = 123 ∷ ((c ∷ s) ++ (125 ∷ []))

abbrev pub print_pattern : List Piece → Text
print_pattern [] = []
print_pattern (literal t ∷ ps) = t ++ print_pattern ps
print_pattern (item str fmt ∷ ps) = 37 ∷ (str ++ (print_fmt fmt ++ print_pattern ps))

-- Where a name without a format must end: before the end or a character that ends names.
abbrev pub EndsName : Text → Text → Type 0
EndsName (c ∷ fmt) s = Unit {0}
EndsName [] [] = Unit {0}
EndsName [] (c ∷ s) = ends_name c ≡ true

abbrev pub starts_literal : List Piece → Bool
starts_literal (literal t ∷ ps) = true
starts_literal _ = false

-- Pieces that a pattern can be printed from: literals are not empty, have no `%` and do not follow one
-- another, names are letters and digits, and formats have no closing brace.
abbrev pub IsPrintable : List Piece → Type 0
IsPrintable [] = Unit {0}
IsPrintable (literal t ∷ ps) =
    IsNonEmpty t × HasNo 37 t × (starts_literal ps ≡ false) × IsPrintable ps
IsPrintable (item str fmt ∷ ps) =
    IsNonEmpty str × AllAlnum str × HasNo 125 fmt × EndsName fmt (print_pattern ps) × IsPrintable ps

scan_fmt-append :
    (str acc fmt s : Text)
    → HasNo 125 fmt
    → scan_fmt str acc (fmt ++ (125 ∷ s)) ≡ found str (acc ++ fmt) s
scan_fmt-append str acc [] s h = rw (append-nil acc) refl
scan_fmt-append str acc (c ∷ fmt) s (n, h) = rw n (
    scan_fmt-append str (acc ++ (c ∷ [])) fmt s h
    ∙ ap (λ f. found str f s) (append_assoc acc (c ∷ []) fmt))

alnum_not :
    (c : ℕ) → is_alnum c ≡ true → (ends_name c ≡ false) × ((c == 123) ≡ false) × ((c == 37) ≡ false)
alnum_not c h = (ground (arith, h), ground (arith, h), ground (arith, h))

scan_name-append :
    (acc str s : Text) → AllAlnum str → scan_name acc (str ++ s) ≡ scan_name (acc ++ str) s
scan_name-append acc [] s h = rw (append-nil acc) refl
scan_name-append acc (c ∷ str) s (a, h) =
    let (n, b, p) = alnum_not c a in
    rw (n, b)
      (scan_name-append (acc ++ (c ∷ [])) str s h
        ∙ ap (λ t. scan_name t s) (append_assoc acc (c ∷ []) str))

-- What follows the name of an item.
scan_name-fmt :
    (str fmt s : Text)
    → HasNo 125 fmt
    → EndsName fmt s
    → scan_name str (print_fmt fmt ++ s) ≡ found str fmt s
scan_name-fmt str [] [] h e = refl
scan_name-fmt str [] (c ∷ s) h e = rw e refl
scan_name-fmt str (c ∷ fmt) s h e =
    ap (scan_fmt str []) (append_assoc (c ∷ fmt) (125 ∷ []) s)
    ∙ scan_fmt-append str [] (c ∷ fmt) s h

-- Literal text goes to `nstr`.
pub init_loop-literal :
    (k : ℕ) (t s nstr : Text) (vec : List Piece) (e : Bool)
    → HasNo 37 t
    → length t ≤ k
    → init_loop k (t ++ s) nstr vec e ≡ init_loop (k - length t) s (nstr ++ t) vec e
unfolding init_loop
init_loop-literal k [] s nstr vec e h l =
    let z : k - 0 ≡ k = omega arith in rw (append-nil nstr, z) refl
init_loop-literal zero (c ∷ t) s nstr vec e h l = absurd (omega (arith, l))
init_loop-literal (suc k) (c ∷ t) s nstr vec e (n, h) l =
    let d : suc k - suc (length t) ≡ k - length t = omega arith in
    rw (n, d)
      (init_loop-literal k t s (nstr ++ (c ∷ [])) vec e h (omega (arith, l))
        ∙ ap (λ x. init_loop (k - length t) s x vec e) (append_assoc nstr (c ∷ []) t))

is_percent-alnum : (str s : Text) → IsNonEmpty str → AllAlnum str → is_percent (str ++ s) ≡ false
is_percent-alnum [] s h a = absurd h
is_percent-alnum (c ∷ str) s h (a, as') = (alnum_not c a).2

starts-flush : (t : Text) → IsNonEmpty t → flush t ≡ literal t ∷ []
starts-flush [] h = absurd h
starts-flush (c ∷ t) h = refl

-- One round of the outer loop at an item.
init_loop-item :
    (k : ℕ) (str fmt s nstr : Text) (vec : List Piece) (e : Bool)
    → IsNonEmpty str
    → AllAlnum str
    → HasNo 125 fmt
    → EndsName fmt s
    → init_loop (suc k) (37 ∷ (str ++ (print_fmt fmt ++ s))) nstr vec e
      ≡ init_loop k s [] (vec ++ (flush nstr ++ (item str fmt ∷ []))) e
unfolding init_loop
init_loop-item k str fmt s nstr vec e n a h ends =
    let p = is_percent-alnum str (print_fmt fmt ++ s) n a in
    let f = scan_name-append [] str (print_fmt fmt ++ s) a ∙ scan_name-fmt str fmt s h ends in
    rw (p, f) refl

init_loop-print :
    (ps : List Piece) (k : ℕ) (nstr : Text) (vec : List Piece) (e : Bool)
    → IsPrintable ps
    → (nstr ≡ []) ⊎ (starts_literal ps ≡ false)
    → length (print_pattern ps) ≤ k
    → init_loop k (print_pattern ps) nstr vec e ≡ ok (vec ++ (flush nstr ++ ps), e)
unfolding init_loop
init_loop-print [] k nstr vec e h s l = rw (append-nil (flush nstr)) refl
init_loop-print (literal t ∷ ps) k nstr vec e (n, p, q, h) s l =
    let len = length-append t (print_pattern ps) in
    let empty : nstr ≡ [] = elim s [ inl z ↦ z | inr z ↦ absurd (cc z) ] in
    let ih = init_loop-print ps (k - length t) t vec e h (inr q) (omega (arith, l, len)) in
    rw empty (
      init_loop-literal k t (print_pattern ps) [] vec e p (omega (arith, l, len))
      ∙ ih
      ∙ ap (λ x. ok (vec ++ (x ++ ps), e)) (starts-flush t n))
init_loop-print (item str fmt ∷ ps) zero nstr vec e h s l = absurd (omega (arith, l))
init_loop-print (item str fmt ∷ ps) (suc k) nstr vec e (n, a, f, ends, h) s l =
    let l1 = length-append str (print_fmt fmt ++ print_pattern ps) in
    let l2 = length-append (print_fmt fmt) (print_pattern ps) in
    let ih =
      init_loop-print ps k [] (vec ++ (flush nstr ++ (item str fmt ∷ []))) e h (inl refl)
        (omega (arith, l, l1, l2)) in
    init_loop-item k str fmt (print_pattern ps) nstr vec e n a f ends
    ∙ ih
    ∙ ap (λ x. ok (x, e))
        (append_assoc vec (flush nstr ++ (item str fmt ∷ [])) ps
          ∙ ap (λ x. vec ++ x) (append_assoc (flush nstr) (item str fmt ∷ []) ps))

-- A pattern that is printed from literals and items is read as these, without an error: literals are not
-- empty, have no `%` and do not follow one another; names are letters and digits, one at least, and end
-- where no format follows; formats have no closing brace.
pub parse_pattern-print_pattern :
    (ps : List Piece) → IsPrintable ps → parse_pattern (print_pattern ps) ≡ ok (ps, false)
parse_pattern-print_pattern ps h =
    init_loop-print ps (length (print_pattern ps)) [] [] false h (inl refl) (omega arith)

-- What is left after an item is no longer than what was scanned.
abbrev Leaves : ℕ → Scan → Type 0
Leaves n (found str fmt rest) = length rest ≤ n
Leaves n unclosed = Unit {0}

scan_fmt-Leaves : (str acc s : Text) (n : ℕ) → length s ≤ n → Leaves n (scan_fmt str acc s)
scan_fmt-Leaves str acc [] n h = tt
scan_fmt-Leaves str acc (c ∷ s) n h = elim (Bool-cases (c == 125)) [
  | inl e ↦ rw e (omega (arith, h))
  | inr e ↦ rw e (scan_fmt-Leaves str (acc ++ (c ∷ [])) s n (omega (arith, h)))
]

scan_name-Leaves : (acc s : Text) (n : ℕ) → length s ≤ n → Leaves n (scan_name acc s)
scan_name-Leaves acc [] n h = omega arith
scan_name-Leaves acc (c ∷ s) n h = elim (Bool-cases (ends_name c)) [
  | inl e ↦ rw e h
  | inr e ↦ elim (Bool-cases (c == 123)) [
    | inl b ↦ rw (e, b) (scan_fmt-Leaves acc [] s n (omega (arith, h)))
    | inr b ↦ rw (e, b) (scan_name-Leaves (acc ++ (c ∷ [])) s n (omega (arith, h)))
  ]
]

abbrev pub Returns : Parsed → Type 0
Returns r = (vec : List Piece) × (e : Bool) × (r ≡ ok (vec, e))

after_scan-Returns :
    (k : ℕ) (later : Text → Text → List Piece → Bool → Parsed) (r : Scan) (s nstr : Text)
    (vec : List Piece) (e : Bool)
    → ((s' nstr' : Text) (vec' : List Piece) (e' : Bool)
        → length s' ≤ k
        → Returns (later s' nstr' vec' e'))
    → Leaves k r
    → length s ≤ k
    → Returns (after_scan later r s nstr vec e)
after_scan-Returns k later (found str fmt rest) s nstr vec e ih l h = ih rest [] _ e l
after_scan-Returns k later unclosed s nstr vec e ih l h = ih s nstr _ true h

init_loop-Returns :
    (k : ℕ) (s nstr : Text) (vec : List Piece) (e : Bool)
    → length s ≤ k
    → Returns (init_loop k s nstr vec e)
unfolding init_loop
init_loop-Returns k [] nstr vec e h = (vec ++ flush nstr, e, refl)
init_loop-Returns zero (c ∷ s) nstr vec e h = absurd (omega (arith, h))
init_loop-Returns (suc k) (c ∷ s) nstr vec e h =
    let l : length s ≤ k = omega (arith, h) in
    elim (Bool-cases (c == 37)) [
      | inr p ↦ rw p (init_loop-Returns k s (nstr ++ (c ∷ [])) vec e l)
      | inl p ↦ elim (Bool-cases (is_percent s)) [
        | inl q ↦ rw (p, q) (init_loop-Returns k s (nstr ++ (37 ∷ [])) vec e l)
        | inr q ↦
            rw (p, q)
              (after_scan-Returns k (init_loop k) (scan_name [] s) s nstr vec e
                (λ s' nstr' vec' e'. init_loop-Returns k s' nstr' vec' e')
                (scan_name-Leaves [] s k l) l)
      ]
    ]

-- The loops of init end on every pattern: its length is fuel enough.
pub parse_pattern-Returns : (pattern : Text) → Returns (parse_pattern pattern)
parse_pattern-Returns pattern = init_loop-Returns (length pattern) pattern [] [] false (omega arith)
