-- ===== src/Log/Items.antt =====
-- The items that a formatter makes of its pattern.
use link_server.Base.{
  ℕ, ◌-◌, ◌≡◌, refl, ap, ◌∙◌, List, [], ◌∷◌, ◌++◌, some, true, false, ok, length, arith,
  length-append,
}
use link_server.Http.{Text, codes}
use link_server.Log.{
  Level, unknow, debug, info, warn, error, fatal, to_string, from_string, Piece, literal, item,
  flush, init_loop, init, format_items, find_item, FormatItem, string_item, item_of, items_of,
  ItemKind,
}
use link_server.Log.Pattern.{
  HasNo, IsPrintable, print_pattern, parse_pattern-print_pattern, init_loop-literal,
}

-- The name of every item is known.
abbrev pub AllKnown : List Piece → Type 0
AllKnown [] = Unit {0}
AllKnown (literal t ∷ ps) = AllKnown ps
AllKnown (item str fmt ∷ ps) =
    ((k : ItemKind) × (find_item str format_items ≡ some k)) × AllKnown ps

abbrev pub items : List Piece → List FormatItem
items [] = []
items (p ∷ ps) = (item_of p).0 ∷ items ps

items_of-AllKnown : (ps : List Piece) → AllKnown ps → items_of ps false ≡ (items ps, false)
items_of-AllKnown [] h = refl
items_of-AllKnown (literal t ∷ ps) h = rw (items_of-AllKnown ps h) refl
items_of-AllKnown (item str fmt ∷ ps) ((k, e), h) = rw (e, items_of-AllKnown ps h) refl

-- A pattern that is printed from printable pieces whose names are all known makes the items of these
-- pieces, in their order, and no error.
pub init-print_pattern :
    (ps : List Piece)
    → IsPrintable ps
    → AllKnown ps
    → init (print_pattern ps) ≡ ok (items ps, false)
unfolding init
init-print_pattern ps h k = rw (parse_pattern-print_pattern ps h, items_of-AllKnown ps k) refl

not_empty : (t : Text) (c : ℕ) → flush (t ++ (c ∷ [])) ≡ literal (t ++ (c ∷ [])) ∷ []
not_empty [] c = refl
not_empty (d ∷ t) c = refl

-- A pattern of text without `%` that ends in `%%` is an error, and its second `%` is an item without a
-- name behind the text with the first.
pub init-percent :
    (t : Text)
    → HasNo 37 t
    → init (t ++ (37 ∷ 37 ∷ []))
      ≡ ok (string_item (t ++ (37 ∷ [])) ∷ string_item (codes "<<error_format %>>") ∷ [], true)
unfolding init init_loop
init-percent t h =
    let len = length-append t (37 ∷ 37 ∷ []) in
    let left : length (t ++ (37 ∷ 37 ∷ [])) - length t ≡ 2 = omega (arith, len) in
    let run =
      init_loop-literal (length (t ++ (37 ∷ 37 ∷ []))) t (37 ∷ 37 ∷ []) [] [] false h
        (omega (arith, len))
      ∙ ap (λ k. init_loop k (37 ∷ 37 ∷ []) t [] false) left in
    rw (run, not_empty t 37) refl

-- The name of every level is read back as that level.
pub from_string-to_string : (l : Level) → from_string (to_string l) ≡ l
unfolding from_string to_string
from_string-to_string unknow = refl
from_string-to_string debug = refl
from_string-to_string info = refl
from_string-to_string warn = refl
from_string-to_string error = refl
from_string-to_string fatal = refl
