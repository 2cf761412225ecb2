-- ===== src/Log.antt =====
-- linko/log.h and linko/log.cc: levels, the pattern of a formatter, and which appenders write an event.
-- What an item of a pattern prints, the streams and YAML are left out.
pub mod Pattern
pub mod Items
mod Formatters
mod Runs
use link_server.Base.{
  ℕ, zero, suc, List, [], ◌∷◌, ◌++◌, Option, none, some, Bool, true, false, not, ◌==◌, leb, ◌&&◌,
  ◌||◌, if◌then◌else◌, Result, ok, err, no_fuel, ◌>>=◌, length, map,
}
use link_server.Http.{Text, codes, eq_text, to_lower}

pub data Level : Type 0 where
  unknow debug info warn error fatal : Level

abbrev pub level_number : Level → ℕ
level_number unknow = 0
level_number debug = 1
level_number info = 2
level_number warn = 3
level_number error = 4
level_number fatal = 5

unfoldable pub to_string : Level → Text
to_string unknow = codes "UNKNOW"
to_string debug = codes "DEBUG"
to_string info = codes "INFO"
to_string warn = codes "WARN"
to_string error = codes "ERROR"
to_string fatal = codes "FATAL"

-- `boost::iequals` on ASCII letters.
abbrev pub iequals : Text → Text → Bool
iequals s t = eq_text (map to_lower s) (map to_lower t)

unfoldable pub from_string : Text → Level
from_string s =
    if iequals s (codes "debug")
    then debug
    else if iequals s (codes "info")
    then info
    else if iequals s (codes "warn")
    then warn
    else if iequals s (codes "error")
    then error
    else if iequals s (codes "fatal")
    then fatal
    else unknow

-- A tuple of `vec`: literal text, or an item with its format.
pub data Piece : Type 0 where
  literal : Text → Piece
  item : Text → Text → Piece

abbrev pub is_alnum : ℕ → Bool
is_alnum c = leb 48 c && leb c 57 || (leb 65 c && leb c 90 || leb 97 c && leb c 122)

-- What ends the name of an item.
abbrev pub ends_name : ℕ → Bool
ends_name c = not (is_alnum c) && (not (c == 123) && not (c == 125))

-- The inner loop of init: the name and the format of an item, with the rest of the pattern, or a brace
-- that is not closed.
pub data Scan : Type 0 where
  found : Text → Text → Text → Scan
  unclosed : Scan

-- `fmt_status` 1.
abbrev pub scan_fmt : Text → Text → Text → Scan
scan_fmt str fmt [] = unclosed
scan_fmt str fmt (c ∷ s) = if c == 125 then found str fmt s else scan_fmt str (fmt ++ (c ∷ [])) s

-- `fmt_status` 0.
abbrev pub scan_name : Text → Text → Scan
scan_name str [] = found str [] []
scan_name str (c ∷ s) =
    if ends_name c
    then found str [] (c ∷ s)
    else if c == 123
    then scan_fmt str [] s
    else scan_name (str ++ (c ∷ [])) s

abbrev pub flush : Text → List Piece
flush [] = []
flush (c ∷ s) = literal (c ∷ s) ∷ []

abbrev pub is_percent : Text → Bool
is_percent [] = false
is_percent (c ∷ s) = c == 37

-- The pieces so far, and whether there was an error.
abbrev pub Parsed : Type 0
Parsed = Result (List Piece × Bool)

abbrev pub after_scan :
    (Text → Text → List Piece → Bool → Parsed) → Scan → Text → Text → List Piece → Bool → Parsed
after_scan later (found str fmt rest) s nstr vec e =
    later rest [] (vec ++ (flush nstr ++ (item str fmt ∷ []))) e
after_scan later unclosed s nstr vec e =
    later s nstr (vec ++ (literal (codes "<<pattern_error>>") ∷ [])) true

-- The outer loop, on fuel.
unfoldable pub init_loop : ℕ → Text → Text → List Piece → Bool → Parsed
init_loop fuel [] nstr vec e = ok (vec ++ flush nstr, e)
init_loop zero (c ∷ s) nstr vec e = err no_fuel
init_loop (suc fuel) (c ∷ s) nstr vec e =
    let later = init_loop fuel in
    if not (c == 37)
    then later s (nstr ++ (c ∷ [])) vec e
    else if is_percent s
    then later s (nstr ++ (37 ∷ [])) vec e
    else after_scan later (scan_name [] s) s nstr vec e

abbrev pub parse_pattern : Text → Parsed
parse_pattern pattern = init_loop (length pattern) pattern [] [] false

pub data ItemKind : Type 0 where
  message level elapse name thread_id new_line date_time filename line tab fiber_id thread_name :
      ItemKind

-- `s_format_items`.
abbrev pub format_items : List (Text × ItemKind)
format_items =
    (codes "m", message)
    ∷ (codes "p", level)
    ∷ (codes "r", elapse)
    ∷ (codes "c", name)
    ∷ (codes "t", thread_id)
    ∷ (codes "n", new_line)
    ∷ (codes "d", date_time)
    ∷ (codes "f", filename)
    ∷ (codes "l", line)
    ∷ (codes "T", tab)
    ∷ (codes "F", fiber_id)
    ∷ (codes "N", thread_name)
    ∷ []

abbrev pub find_item : Text → List (Text × ItemKind) → Option ItemKind
find_item s [] = none
find_item s ((k, i) ∷ rows) = if eq_text k s then some i else find_item s rows

pub data FormatItem : Type 0 where
  string_item : Text → FormatItem
  known_item : ItemKind → Text → FormatItem

abbrev pub known_or_error : Option ItemKind → Text → Text → FormatItem × Bool
known_or_error none str fmt = (string_item (codes "<<error_format %" ++ (str ++ codes ">>")), true)
known_or_error (some k) str fmt = (known_item k fmt, false)

abbrev pub item_of : Piece → FormatItem × Bool
item_of (literal t) = (string_item t, false)
item_of (item str fmt) = known_or_error (find_item str format_items) str fmt

abbrev pub items_of : List Piece → Bool → List FormatItem × Bool
items_of [] e = ([], e)
items_of (p ∷ ps) e =
    let (i, bad) = item_of p in let (items, e') = items_of ps (e || bad) in (i ∷ items, e')

-- `LogFormatter::init`: the items, and `m_error`.
unfoldable pub init : Text → Result (List FormatItem × Bool)
init pattern = do (vec, e) ← parse_pattern pattern; ok (items_of vec e)

-- An appender by its level; `index` tells appenders apart.
pub record Appender : Type 0 where
  pub index : ℕ
  pub level : Level

-- The appenders of a logger; `root` has those of the root logger with its level.
pub record Logger : Type 0 where
  pub level : Level
  pub appenders : List Appender
  pub root : Option (Level × List Appender)

abbrev pub reaches : Level → Level → Bool
reaches l bound = leb (level_number bound) (level_number l)

-- The appenders that write an event.
abbrev pub written : Level → List Appender → List ℕ
written l [] = []
written l (a ∷ rest) = if reaches l a.level then a.index ∷ written l rest else written l rest

abbrev pub log_root : Level → Option (Level × List Appender) → List ℕ
log_root l none = []
log_root l (some (bound, apps)) = if reaches l bound then written l apps else []

abbrev pub or_root : List Appender → Option (Level × List Appender) → Level → List ℕ
or_root [] root l = log_root l root
or_root (a ∷ rest) root l = written l (a ∷ rest)

unfoldable pub log : Logger → Level → List ℕ
log g l = if reaches l g.level then or_root g.appenders g.root l else []
