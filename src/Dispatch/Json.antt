-- ===== src/Dispatch/Json.antt =====
-- A decoded JSON message of src/elke27_lib/dispatcher_loop.py, and what Python's `dict.get`,
-- `isinstance` and `or` say of it.
use text.Mathlib.Text.{◌==◌ as str_eq}
use elke.Base.{
  ℕ, Bool, true, false, not, Option, none, some, List, [], ◌∷◌, String, ◌==◌, if◌then◌else◌,
}
use elke.Dispatch.IntText.{is_int_text}

pub data ℤ : Type 0 where
  pos negsuc : ℕ → ℤ

mutual
  -- A float is its text and whether it is zero.
  pub data Json : Type 0 where
    null : Json
    bool : Bool → Json
    int : ℤ → Json
    float : String → Bool → Json
    str : String → Json
    array : Items → Json
    object : Members → Json

  pub data Items : Type 0 where
    no_items : Items
    item : Json → Items → Items

  -- A dict's items in order.
  pub data Members : Type 0 where
    empty : Members
    member : String → Json → Members → Members

-- `list(d.keys())`
abbrev pub keys : Members → List String
keys empty = []
keys (member k v m) = k ∷ keys m

-- `d.get(k)`, with `None` for a missing key.
abbrev pub get : String → Members → Json
get k empty = null
get k (member j v m) = if str_eq k j then v else get k m

-- `k in d`
abbrev pub has : String → Members → Bool
has k empty = false
has k (member j v m) = if str_eq k j then true else has k m

-- `d[k] = v`
abbrev pub put : String → Json → Members → Members
put k v empty = member k v empty
put k v (member j w m) = if str_eq k j then member k v m else member j w (put k v m)

-- `v` where `isinstance(v, int)`; a bool is an int.
abbrev pub as_int : Json → Option ℤ
as_int (bool true) = some (pos 1)
as_int (bool false) = some (pos 0)
as_int (int z) = some z
as_int _ = none

-- `v` where `isinstance(v, Mapping)`
abbrev pub as_mapping : Json → Option Members
as_mapping (object m) = some m
as_mapping _ = none

abbrev pub is_mapping : Json → Bool
is_mapping (object _) = true
is_mapping _ = false

-- Whether `int(...)` of the code leaves an int: an int, or a text that `int` accepts.
abbrev pub is_code : Json → Bool
is_code (bool _) = true
is_code (int _) = true
is_code (str s) = is_int_text s
is_code _ = false

is_zero : ℤ → Bool
is_zero (pos n) = n == 0
is_zero (negsuc _) = false

-- `bool(v)`
unfoldable pub truthy : Json → Bool
unfolding is_zero
truthy null = false
truthy (bool b) = b
truthy (int z) = not (is_zero z)
truthy (float _ zero) = not zero
truthy (str s) = not (str_eq s "")
truthy (array no_items) = false
truthy (array (item _ _)) = true
truthy (object empty) = false
truthy (object (member _ _ _)) = true

-- `isinstance(v, str) and v`
abbrev pub is_text : Json → Bool
is_text (str s) = not (str_eq s "")
is_text _ = false

-- `type(v).__name__`
abbrev pub type_name : Json → String
type_name null = "NoneType"
type_name (bool _) = "bool"
type_name (int _) = "int"
type_name (float _ _) = "float"
type_name (str _) = "str"
type_name (array _) = "list"
type_name (object _) = "dict"
