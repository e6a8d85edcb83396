-- ===== src/Skills/FrontMatter.antt =====
-- src/skills/YamlFrontmatter.cpp: the head of a SKILL.md file. The printer of JSON is a parameter.
pub mod Entries
pub mod Lines
pub mod Mark
use tool_smith.Base.{
  ℕ, zero, suc, ◌+◌, ◌-◌, Bool, true, false, not, ◌&&◌, ◌||◌, Option, none, some, List, [], ◌∷◌,
  ◌++◌, Bytes, ascii, is_empty, length, leb, ltb, ◌==◌, if◌then◌else◌, take, drop, Dict, str_eq,
}
use tool_smith.Json.{
  Json, null, bool, int, real, str, arr, obj, Elems, nil, cons, Fields, end, field, find_field,
  set_field,
}

-- `std::isspace` in the C locale.
abbrev pub is_white : ℕ → Bool
is_white c = (leb 9 c && leb c 13) || (c == 32)

unfoldable pub drop_spaces : Bytes → Bytes
drop_spaces [] = []
drop_spaces (c ∷ s) = let rest = drop_spaces s in if is_white c then rest else c ∷ s

unfoldable pub drop_last_spaces : Bytes → Bytes
drop_last_spaces [] = []
drop_last_spaces (c ∷ s) =
    let rest = drop_last_spaces s in if is_empty rest && is_white c then [] else c ∷ rest

unfoldable pub trim : Bytes → Bytes
trim s = drop_last_spaces (drop_spaces s)

unfoldable pub last_byte : ℕ → Bytes → ℕ
last_byte c [] = c
last_byte c (d ∷ s) = last_byte d s

abbrev pub is_quoted : Bytes → Bool
is_quoted (c ∷ d ∷ s) =
    let back = last_byte d s in ((c == b'"') && (back == b'"')) || ((c == 39) && (back == 39))
is_quoted _ = false

unfoldable pub unquote : Bytes → Bytes
unquote s = let t = trim s in if is_quoted t then take (length t - 2) (drop 1 t) else t

unfoldable pub indent_of : Bytes → ℕ
indent_of [] = 0
indent_of (c ∷ s) =
    let rest = indent_of s in if c == b' ' then 1 + rest else if c == 9 then 2 + rest else 0

-- What stands before the first byte `c` and behind it.
unfoldable pub split_byte : ℕ → Bytes → Option (Bytes × Bytes)
split_byte c [] = none
split_byte c (d ∷ s) =
    let rest = split_byte c s in
    if d == c
    then some ([], s)
    else elim rest [ none ↦ none | some (before, behind) ↦ some (d ∷ before, behind) ]

-- What stands behind `\n---` at the start.
abbrev pub behind_mark : Bytes → Option Bytes
behind_mark (a ∷ b ∷ c ∷ d ∷ s) =
    if (a == b'\n') && (b == b'-') && (c == b'-') && (d == b'-') then some s else none
behind_mark _ = none

unfoldable pub split_mark : Bytes → Option (Bytes × Bytes)
split_mark [] = none
split_mark (c ∷ s) =
    let rest = split_mark s in
    elim (behind_mark (c ∷ s)) [
      | some behind ↦ some ([], behind)
      | none ↦ elim rest [ none ↦ none | some (before, behind) ↦ some (c ∷ before, behind) ]
    ]

abbrev pub on_first : ℕ → List Bytes → List Bytes
on_first c [] = (c ∷ []) ∷ []
on_first c (l ∷ ls) = (c ∷ l) ∷ ls

-- The lines that `std::getline` gives.
unfoldable pub get_lines : Bytes → List Bytes
get_lines [] = []
get_lines (c ∷ s) = let rest = get_lines s in if c == b'\n' then [] ∷ rest else on_first c rest

unfoldable pub drop_cr : Bytes → Bytes
drop_cr [] = []
drop_cr (c ∷ []) = if c == b'\r' then [] else c ∷ []
drop_cr (c ∷ d ∷ s) = c ∷ drop_cr (d ∷ s)

pub data Mode : Type 0 where
  top : Mode
  map : Mode
  list : Mode

abbrev pub in_map : Mode → Bool
in_map map = true
in_map _ = false

-- The variables of the loop over the lines.
pub record Reading : Type 0 where
  pub fields : Fields
  pub current_key : Bytes
  pub mode : Mode

unfoldable pub push_back : Json → Elems → Elems
push_back j nil = cons j nil
push_back j (cons i js) = cons i (push_back j js)

abbrev pub elems_or_none : Option Json → Elems
elems_or_none (some (arr js)) = js
elems_or_none _ = nil

abbrev pub fields_or_none : Option Json → Fields
fields_or_none (some (obj fs)) = fs
fields_or_none _ = end

unfoldable pub read_item : Bytes → Reading → Reading
read_item item r = if is_empty r.current_key then r else record r {
  fields =
      set_field r.current_key
        (arr (push_back (str (unquote item)) (elems_or_none (find_field r.current_key r.fields))))
        r.fields;
  mode = list;
}

unfoldable pub read_entry : ℕ → Bytes → Bytes → Reading → Reading
read_entry indent key value r =
    if ltb 0 indent && not (is_empty r.current_key) && in_map r.mode
    then record r {
      fields =
          set_field r.current_key
            (obj (
              set_field key (str (unquote value))
                (fields_or_none (find_field r.current_key r.fields))))
            r.fields;
    }
    else if is_empty value
    then record r { current_key = key; mode = map }
    else record {
      fields = set_field key (str (unquote value)) r.fields;
      current_key = key;
      mode = top;
    }

abbrev pub item_of : Bytes → Option Bytes
item_of (c ∷ d ∷ s) = if (c == b'-') && (d == b' ') then some s else none
item_of _ = none

-- A line without its blanks, and how far it is indented.
unfoldable pub read_trimmed : ℕ → Bytes → Reading → Reading
read_trimmed indent [] r = r
read_trimmed indent (c ∷ s) r = if c == b'#' then r else elim (item_of (c ∷ s)) [
  | some item ↦ read_item item r
  | none ↦ elim (split_byte b':' (c ∷ s)) [
    | none ↦ r
    | some (key, value) ↦ read_entry indent (trim key) (trim value) r
  ]
]

unfoldable pub read_line : Bytes → Reading → Reading
read_line raw r = let line = drop_cr raw in read_trimmed (indent_of line) (trim line) r

unfoldable pub read_all : List Bytes → Reading → Reading
read_all [] r = r
read_all (l ∷ ls) r = read_all ls (read_line l r)

abbrev pub beginning : Reading
beginning = record { fields = end; current_key = []; mode = top }

pub record YamlFrontmatter : Type 0 where
  pub fields : Fields
  pub body : Bytes
  pub error : Bytes

abbrev pub failed_with : Bytes → YamlFrontmatter
failed_with error = record { fields = end; body = []; error = error }

unfoldable pub strip_bom : Bytes → Bytes
strip_bom (a ∷ b ∷ c ∷ s) = if (a == 239) && (b == 187) && (c == 191) then s else a ∷ b ∷ c ∷ s
strip_bom s = s

-- What stands behind `---` at the start.
abbrev pub behind_dashes : Bytes → Option Bytes
behind_dashes (a ∷ b ∷ c ∷ s) = if (a == b'-') && (b == b'-') && (c == b'-') then some s else none
behind_dashes _ = none

unfoldable pub drop_newlines : Bytes → Bytes
drop_newlines [] = []
drop_newlines (c ∷ s) =
    let rest = drop_newlines s in if (c == b'\n') || (c == b'\r') then rest else c ∷ s

-- The body begins on the line after the closing mark.
unfoldable pub body_of : Bytes → Bytes
body_of behind = elim (split_byte b'\n' behind) [
  | none ↦ []
  | some (line, body) ↦ drop_newlines body
]

unfoldable pub read_parts : Option (Bytes × Bytes) → YamlFrontmatter
read_parts none = failed_with (ascii "SKILL.md frontmatter is unclosed")
read_parts (some (yaml, behind)) = record {
  fields = (read_all (get_lines yaml) beginning).fields;
  body = body_of behind;
  error = [];
}

unfoldable pub parse_yaml_frontmatter : Bytes → YamlFrontmatter
parse_yaml_frontmatter content = elim (behind_dashes (strip_bom content)) [
  | none ↦ failed_with (ascii "SKILL.md has no valid YAML frontmatter")
  | some text ↦ read_parts (split_mark text)
]

abbrev pub is_scalar : Json → Bool
is_scalar (int n) = true
is_scalar (real s) = true
is_scalar (bool b) = true
is_scalar _ = false

-- A string as it is, a number or a truth value as it is printed.
abbrev pub scalar_text : (Json → Bytes) → Json → Option Bytes
scalar_text dump (str s) = some s
scalar_text dump j = if is_scalar j then some (dump j) else none

unfoldable pub get_string : (Json → Bytes) → YamlFrontmatter → Bytes → Bytes
get_string dump fm key = elim (find_field key fm.fields) [
  | none ↦ []
  | some v ↦ elim (scalar_text dump v) [ none ↦ [] | some s ↦ s ]
]

unfoldable pub strings_of : Elems → List Bytes
strings_of nil = []
strings_of (cons (str s) js) = s ∷ strings_of js
strings_of (cons _ js) = strings_of js

unfoldable pub get_string_list : YamlFrontmatter → Bytes → List Bytes
get_string_list fm key = strings_of (elems_or_none (find_field key fm.fields))

unfoldable pub map_texts : (Json → Bytes) → Fields → Dict Bytes
map_texts dump end = []
map_texts dump (field k v fs) =
    let rest = map_texts dump fs in
    elim (scalar_text dump v) [ none ↦ rest | some s ↦ (k, s) ∷ rest ]

unfoldable pub get_string_map : (Json → Bytes) → YamlFrontmatter → Bytes → Dict Bytes
get_string_map dump fm key = map_texts dump (fields_or_none (find_field key fm.fields))
