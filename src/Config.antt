-- ===== src/Config.antt =====
-- linko/config.h and linko/config.cc: the settings by name, their values and listeners. A setting stands at an
-- address; its type is a number, which stands for what dynamic_pointer_cast compares, and its value is
-- a number as well.
pub mod Lookup
pub mod Listeners
mod Runs
use link_server.Base.{
  ℕ, List, [], ◌∷◌, ◌++◌, map, Option, none, some, Bool, true, false, not, ◌==◌, ltb, leb, ◌&&◌,
  ◌||◌, if◌then◌else◌, add64,
}
use link_server.Base.Maps.{find, assign, erase}
use link_server.Http.{Text, text_less, to_lower}

-- `find_first_not_of` finds nothing.
abbrev pub is_name_char : ℕ → Bool
is_name_char c = leb 97 c && leb c 122 || (c == 46 || (c == 95 || leb 48 c && leb c 57))

abbrev pub is_valid_name : Text → Bool
is_valid_name [] = true
is_valid_name (c ∷ s) = is_name_char c && is_valid_name s

-- `datas` has the addresses of the settings, `type_of` their types, `value_of` their values.
pub record Config : Type 0 where
  pub datas : List (Text × ℕ)
  pub type_of : ℕ → ℕ
  pub value_of : ℕ → ℕ

-- What Lookup does: it returns a setting, returns null, or throws.
pub data Looked : Type 0 where
  returns : ℕ → Looked
  returns_null throws : Looked

abbrev pub put_at : (ℕ → ℕ) → ℕ → ℕ → ℕ → ℕ
put_at s a n b = if a == b then n else s b

abbrev pub cast : (ℕ → ℕ) → ℕ → ℕ → Looked
cast type_of ty a = if type_of a == ty then returns a else returns_null

abbrev pub insert_new : Text → ℕ → ℕ → ℕ → Config → Looked × Config
insert_new name ty default_value fresh c =
    if is_valid_name name
    then (
      returns fresh,
      record {
        datas = assign text_less name fresh c.datas;
        type_of = put_at c.type_of fresh ty;
        value_of = put_at c.value_of fresh default_value;
      },
    )
    else (throws, c)

abbrev pub lookup_found : Option ℕ → Text → ℕ → ℕ → ℕ → Config → Looked × Config
lookup_found none name ty default_value fresh c = insert_new name ty default_value fresh c
lookup_found (some a) name ty default_value fresh c = (cast c.type_of ty a, c)

-- `Lookup` with a default; a new setting stands at `fresh`.
unfoldable pub lookup : Text → ℕ → ℕ → ℕ → Config → Looked × Config
lookup name ty default_value fresh c =
    lookup_found (find text_less name c.datas) name ty default_value fresh c

unfoldable pub lookup_base : Text → Config → Option ℕ
lookup_base name c = find text_less name c.datas

-- One setting: its value and its listeners by their keys.
pub record ConfigVar (T : Type 0) : Type 0 where
  pub val : T
  pub cbs : List (ℕ × ℕ)

-- A call of a listener: which, and the old and the new value.
abbrev pub Call : Type 0 → Type 0
Call T = ℕ × T × T

module _ {T : Type 0} (eq : T → T → Bool) where
  unfoldable pub set_value : T → ConfigVar T → List (Call T) × ConfigVar T
  set_value val v =
      if eq val v.val
      then ([], v)
      else (map (λ (cb : ℕ × ℕ). (cb.1, v.val, val)) v.cbs, record v { val = val })

-- `s_fun_id` is shared by all settings of a type.
unfoldable pub add_listener : {T : Type 0} → ℕ → ℕ → ConfigVar T → ℕ × ConfigVar T
add_listener cb fun_id v = (add64 fun_id 1, record v { cbs = assign ltb (add64 fun_id 1) cb v.cbs })

unfoldable pub del_listener : {T : Type 0} → ℕ → ConfigVar T → ConfigVar T
del_listener key v = record v { cbs = erase ltb key v.cbs }
