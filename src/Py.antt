-- ===== src/Py.antt =====
-- Python values as the program meets them in a YAML configuration, in a Meshtastic packet (a dict)
-- and in what a library call returns. A dict has string keys, in insertion order, none twice; an
-- object of any other class is `obj` with the name of its type and its attributes. A float is finite
-- and counted in thousandths.
use meshtastic_matrix_relay.Base.{
  ℕ, ◌+◌, ◌*◌, negate, String, Bool, true, false, not, Option, none, some, List, [], ◌∷◌, ◌==◌,
  str_eq, ◌||◌, ℤ, pos, negsuc, if◌then◌else◌, eqb_ℤ,
}
use Prim.Native.Nat.{◌/◌}
mod Text
mod Number
unfoldable pub use Number.{parse_int}
unfoldable pub use Text.{
  is_space, strip, startswith, lower_is, lower_contains, append, int_text, codes, is_prefix,
  has_infix, lower_code, same_codes, lower_codes,
}
pub use Text.{lower_is_unique, same_codes-eq}

mutual
  pub data Value : Type 0 where
    null : Value
    bool : Bool → Value
    int : ℤ → Value
    float : ℤ → Value
    str : String → Value
    list tuple set : Items → Value
    dict : Fields → Value
    obj : String → Fields → Value

  pub data Items : Type 0 where
    nil : Items
    cons : Value → Items → Items

  pub data Fields : Type 0 where
    end : Fields
    field : String → Value → Fields → Fields

-- `d[k]`, where it is there
abbrev pub lookup : String → Fields → Option Value
lookup k end = none
lookup k (field j v d) = if str_eq j k then some v else lookup k d

abbrev pub or_else {ℓ} : {A : Type ℓ} → Option A → A → A
or_else none d = d
or_else (some a) _ = a

-- `d.get(k, default)`; `d.get(k)` has the default `None`
abbrev pub get : Fields → String → Value → Value
get d k default = or_else (lookup k d) default

-- `isinstance(v, dict)`, and the dict
abbrev pub as_dict : Value → Option Fields
as_dict (dict d) = some d
as_dict _ = none

abbrev pub is_null : Value → Bool
is_null null = true
is_null _ = false

abbrev pub is_zero_int : ℤ → Bool
is_zero_int z = eqb_ℤ z (pos 0)

-- `bool(v)`. An object is true, as is every object that the program tests in this way.
abbrev pub truthy : Value → Bool
truthy null = false
truthy (bool b) = b
truthy (int z) = not (is_zero_int z)
truthy (float z) = not (is_zero_int z)
truthy (str s) = not (str_eq s "")
truthy (list nil) = false
truthy (list (cons _ _)) = true
truthy (tuple nil) = false
truthy (tuple (cons _ _)) = true
truthy (set nil) = false
truthy (set (cons _ _)) = true
truthy (dict end) = false
truthy (dict (field _ _ _)) = true
truthy (obj _ _) = true

-- `type(v).__name__`
unfoldable pub type_name : Value → String
type_name null = "NoneType"
type_name (bool _) = "bool"
type_name (int _) = "int"
type_name (float _) = "float"
type_name (str _) = "str"
type_name (list _) = "list"
type_name (tuple _) = "tuple"
type_name (set _) = "set"
type_name (dict _) = "dict"
type_name (obj name _) = name

-- `float(z)`
abbrev pub thousandths : ℤ → ℤ
thousandths (pos n) = pos (1000 * n)
thousandths (negsuc n) = negsuc (1000 * n + 999)

-- `v == z`, for an integer `z`: a bool counts as 0 or 1
unfoldable pub eq_int : Value → ℤ → Bool
eq_int (int x) z = eqb_ℤ x z
eq_int (float x) z = eqb_ℤ x (thousandths z)
eq_int (bool true) z = eqb_ℤ (pos 1) z
eq_int (bool false) z = eqb_ℤ (pos 0) z
eq_int _ z = false

-- `v == s`, for a text `s`
abbrev pub eq_str : Value → String → Bool
eq_str (str t) s = str_eq t s
eq_str _ s = false

-- `s in set_of_texts`
abbrev pub contains : String → List String → Bool
contains s [] = false
contains s (t ∷ l) = str_eq s t || contains s l

-- `int(v)`, `none` for its TypeError and ValueError
unfoldable pub int_of : Value → Option ℤ
int_of (int z) = some z
int_of (bool true) = some (pos 1)
int_of (bool false) = some (pos 0)
int_of (float (pos n)) = some (pos (n / 1000))
int_of (float (negsuc n)) = some (negate ((n + 1) / 1000))
int_of (str s) = parse_int (strip s)
int_of _ = none

-- `float(v)` in thousandths, `none` for its errors. Of the texts only those of integers are read.
unfoldable pub float_of : Value → Option ℤ
float_of (float z) = some z
float_of (int z) = some (thousandths z)
float_of (bool true) = some (pos 1000)
float_of (bool false) = some (pos 0)
float_of (str s) = elim (parse_int (strip s)) [ none ↦ none | some z ↦ some (thousandths z) ]
float_of _ = none
