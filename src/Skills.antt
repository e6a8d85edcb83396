-- ===== src/Skills.antt =====
-- src/skills/SkillEngine.cpp, include/skills/SkillEngine.h and SkillDefinition.h: the prompts by name, and
-- how a prompt is made from its template. Loading them from files is not modelled.
pub mod Braces
pub mod FrontMatter
pub mod Parts
use tool_smith.Base.{
  ℕ, zero, suc, ◌+◌, Bool, true, false, not, ◌&&◌, ◌||◌, Option, none, some, List, [], ◌∷◌, ◌++◌,
  Bytes, ascii, is_empty, length, leb, ◌==◌, if◌then◌else◌, Dict, lookup, insert, keys,
}
use tool_smith.Base.Except.{Except, ok, throw, invalid_argument, ◌>>=◌}
use tool_smith.Json.{Json, str, arr, obj, Elems, nil, cons, Fields, end, field, find, has}

pub data SkillType : Type 0 where
  llm : SkillType
  command : SkillType

pub record SkillDefinition : Type 0 where
  pub name : Bytes
  pub description : Bytes
  pub prompt_template : Bytes
  pub default_model : Bytes
  pub default_parameters : Json
  pub required_variables : List Bytes
  pub system_prompt : Bytes
  pub rules : List Bytes
  pub skill_type : SkillType
  pub command_template : Bytes

abbrev pub SkillEngine : Type 0
SkillEngine = Dict SkillDefinition

unfoldable pub load_skill : SkillDefinition → SkillEngine → Except SkillEngine
load_skill skill engine =
    if is_empty skill.name
    then throw (invalid_argument (ascii "Skill name cannot be empty"))
    else ok (insert skill.name skill engine)

unfoldable pub find_skill : SkillEngine → Bytes → Option SkillDefinition
find_skill engine name = lookup name engine

unfoldable pub list_skills : SkillEngine → List Bytes
list_skills engine = keys engine

abbrev string_items : List Bytes → Elems
string_items [] = nil
string_items (v ∷ vs) = cons (str v) (string_items vs)

unfoldable pub list_skills_json : SkillEngine → List Json
list_skills_json [] = []
list_skills_json ((name, skill) ∷ rest) =
    obj (
      field (ascii "name") (str skill.name) (
        field (ascii "description") (str skill.description) (
          field (ascii "default_model") (str skill.default_model) (
            field (ascii "required_variables") (arr (string_items skill.required_variables)) end))))
    ∷ list_skills_json rest

-- The text without the first two equal bytes `c` in a row; `none` where there are none.
unfoldable pub erase_pair : ℕ → Bytes → Option Bytes
erase_pair c [] = none
erase_pair c (x ∷ []) = none
erase_pair c (x ∷ y ∷ s) =
    let rest = erase_pair c (y ∷ s) in
    if (x == c) && (y == c) then some s else elim rest [ none ↦ none | some t ↦ some (x ∷ t) ]

-- The loop that erases them, on fuel.
unfoldable pub erase_pairs : ℕ → ℕ → Bytes → Bytes
erase_pairs zero c s = s
erase_pairs (suc n) c s = elim (erase_pair c s) [ none ↦ s | some t ↦ erase_pairs n c t ]

unfoldable pub without_pairs : ℕ → Bytes → Bytes
without_pairs c s = erase_pairs (length s) c s

unfoldable pub sanitize_variable : Bytes → Bytes
sanitize_variable value = without_pairs b'}' (without_pairs b'{' value)

-- `\w`.
abbrev pub is_word : ℕ → Bool
is_word c =
    (leb b'a' c && leb c b'z')
    || (leb b'A' c && leb c b'Z')
    || (leb b'0' c && leb c b'9')
    || (c == b'_')

-- The longest word at the start, and what stands behind it.
unfoldable pub split_word : Bytes → Bytes × Bytes
split_word [] = ([], [])
split_word (c ∷ s) =
    let (word, rest) = split_word s in if is_word c then (c ∷ word, rest) else ([], c ∷ s)

abbrev pub closes : Bytes → Bool
closes (a ∷ b ∷ s) = (a == b'}') && (b == b'}')
closes _ = false

abbrev pub named : Bytes × Bytes → Option Bytes
named (word, rest) = if not (is_empty word) && closes rest then some word else none

-- The name of the placeholder that starts here.
unfoldable pub match_at : Bytes → Option Bytes
match_at (a ∷ b ∷ s) = if (a == b'{') && (b == b'{') then named (split_word s) else none
match_at _ = none

abbrev pub placeholder : Bytes → Bytes
placeholder name = b'{' ∷ b'{' ∷ (name ++ (b'}' ∷ b'}' ∷ []))

-- What stands for a placeholder: the sanitised value, or the placeholder itself.
abbrev pub filled : Bytes → Option Bytes → Bytes
filled name none = placeholder name
filled name (some value) = sanitize_variable value

-- The scan; the second argument is the number of bytes still to be passed over.
unfoldable pub scan : (Bytes → Except (Option Bytes)) → ℕ → Bytes → Except Bytes
scan value skip [] = ok []
scan value (suc skip) (c ∷ s) = scan value skip s
scan value zero (c ∷ s) =
    let kept = scan value zero s in
    elim (match_at (c ∷ s)) [
      | none ↦ kept >>= (λ t. ok (c ∷ t))
      | some name ↦
          let later = scan value (3 + length name) s in
          value name >>= (λ v. later >>= (λ t. ok (filled name v ++ t)))
    ]

-- The text of a variable: a string as it is, any other value as it is printed, which throws on text that is
-- not UTF-8.
abbrev pub shown : (Json → Except Bytes) → Option Json → Except (Option Bytes)
shown dump none = ok none
shown dump (some (str s)) = ok (some s)
shown dump (some j) = dump j >>= (λ s. ok (some s))

unfoldable pub interpolate : (Json → Except Bytes) → Bytes → Json → Except Bytes
interpolate dump template vars = scan (λ name. shown dump (find name vars)) zero template

unfoldable pub missing_variable : List Bytes → Json → Option Bytes
missing_variable [] vars = none
missing_variable (v ∷ vs) vars =
    let rest = missing_variable vs vars in if has v vars then rest else some v

unfoldable pub render_prompt : (Json → Except Bytes) → SkillDefinition → Json → Except Bytes
render_prompt dump skill vars = elim (missing_variable skill.required_variables vars) [
  | some v ↦ throw (invalid_argument (ascii "Missing required variable: " ++ v))
  | none ↦ interpolate dump skill.prompt_template vars
]
