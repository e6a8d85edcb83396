-- ===== src/Json.antt =====
-- JSON values: what the code sees of `nlohmann::json`. Parsing and printing are parameters where they
-- are used. A number that is no integer is carried as its text. An object's keys are distinct.
pub mod Depth
use tool_smith.Base.Int.{ℤ}
use tool_smith.Base.{
  ℕ, Bool, true, false, Option, none, some, Bytes, str_eq, if◌then◌else◌, List, [], ◌∷◌,
}

mutual
  pub data Json : Type 0 where
    null : Json
    bool : Bool → Json
    int : ℤ → Json
    real : Bytes → Json
    str : Bytes → Json
    arr : Elems → Json
    obj : Fields → Json

  pub data Elems : Type 0 where
    nil : Elems
    cons : Json → Elems → Elems

  pub data Fields : Type 0 where
    end : Fields
    field : Bytes → Json → Fields → Fields

abbrev pub elems : Elems → List Json
elems nil = []
elems (cons j js) = j ∷ elems js

abbrev pub is_object : Json → Bool
is_object (obj fs) = true
is_object _ = false

abbrev pub is_array : Json → Bool
is_array (arr js) = true
is_array _ = false

abbrev pub is_string : Json → Bool
is_string (str s) = true
is_string _ = false

abbrev pub is_null : Json → Bool
is_null null = true
is_null _ = false

-- `empty()`: null, and a container with nothing in it.
abbrev pub is_empty_json : Json → Bool
is_empty_json null = true
is_empty_json (arr nil) = true
is_empty_json (obj end) = true
is_empty_json _ = false

unfoldable pub find_field : Bytes → Fields → Option Json
find_field k end = none
find_field k (field j v fs) = if str_eq j k then some v else find_field k fs

-- `j.contains(k)` and `j[k]`: `none` also where `j` is no object.
abbrev pub find : Bytes → Json → Option Json
find k (obj fs) = find_field k fs
find k _ = none

abbrev pub has : Bytes → Json → Bool
has k j = elim (find k j) [ none ↦ false | some v ↦ true ]

unfoldable pub set_field : Bytes → Json → Fields → Fields
set_field k v end = field k v end
set_field k v (field j w fs) = if str_eq j k then field j v fs else field j w (set_field k v fs)

-- A member that is a string, and a member that is an array.
abbrev pub string_of : Option Json → Option Bytes
string_of (some (str s)) = some s
string_of _ = none

abbrev pub array_in : Option Json → Option Elems
array_in (some (arr js)) = some js
array_in _ = none
