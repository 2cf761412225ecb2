-- ===== src/Http.antt =====
-- linko/http/http.h and linko/http/http.cc: methods, statuses, and the headers of requests and
-- responses with their text form. A text is the list of its bytes.
mod Names
pub mod Methods
pub mod Headers
pub mod Dump
mod Runs
use Prim.Native.String.{String}
use Prim.Native.Char.{code}
unfoldable pub use Names.*
use link_server.Base.{
  ℕ, ◌+◌, ◌/◌, ◌%◌, List, [], ◌∷◌, ◌++◌, map, Option, none, some, Bool, true, false, not, ltb, leb,
  ◌==◌, ◌&&◌, if◌then◌else◌, length, get_elem?,
}
use link_server.Base.Maps.{find, assign, erase}

-- `strcasecmp` compares bytes with the capital letters made small.
abbrev pub to_lower : ℕ → ℕ
to_lower c = if leb 65 c && leb c 90 then c + 32 else c

abbrev pub fold_case : Text → Text
fold_case s = map to_lower (c_str s)

abbrev pub text_less : Text → Text → Bool
text_less [] [] = false
text_less [] (b ∷ t) = true
text_less (a ∷ s) [] = false
text_less (a ∷ s) (b ∷ t) = if ltb a b then true else if ltb b a then false else text_less s t

-- `CaseInsensitiveLess`.
unfoldable pub less : Text → Text → Bool
less a b = text_less (fold_case a) (fold_case b)

abbrev pub MapType : Type 0
MapType = List (Text × Text)

pub record HttpRequest : Type 0 where
  pub method : HttpMethod
  pub version : ℕ
  pub close : Bool
  pub path : Text
  pub query : Text
  pub fragment : Text
  pub body : Text
  pub headers : MapType
  pub params : MapType
  pub cookies : MapType

pub record HttpResponse : Type 0 where
  pub status : ℕ
  pub version : ℕ
  pub close : Bool
  pub body : Text
  pub reason : Text
  pub headers : MapType

abbrev pub make_request : ℕ → Bool → HttpRequest
make_request version close = record {
  method = get_method;
  version = version;
  close = close;
  path = codes "/";
  query = [];
  fragment = [];
  body = [];
  headers = [];
  params = [];
  cookies = [];
}

abbrev pub make_response : ℕ → Bool → HttpResponse
make_response version close = record {
  status = 200;
  version = version;
  close = close;
  body = [];
  reason = [];
  headers = [];
}

-- The result of `find`, or the default.
abbrev pub or_default : Option Text → Text → Text
or_default none def = def
or_default (some v) def = v

unfoldable pub get_header : MapType → Text → Text → Text
get_header m key def = or_default (find less key m) def

unfoldable pub set_header : MapType → Text → Text → MapType
set_header m key val = assign less key val m

unfoldable pub del_header : MapType → Text → MapType
del_header m key = erase less key m

-- Whether the key is there, and the new value behind the pointer `val`, null where it is `none`.
abbrev pub has_value : Option Text → Option Text → Bool × Option Text
has_value none val = (false, val)
has_value (some v) none = (true, none)
has_value (some v) (some old) = (true, some v)

unfoldable pub has_header : MapType → Text → Option Text → Bool × Option Text
has_header m key val = has_value (find less key m) val
