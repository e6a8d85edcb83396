-- ===== src/Tests/Prompts.antt =====
-- A prompt, a value that tries to get a placeholder in, and heads of SKILL.md files.
use tool_smith.Base.{◌≡◌, refl, [], ◌∷◌, List, Bytes, ascii, str_eq, All}
use tool_smith.Base.Except.{ok}
use tool_smith.Json.{Json, str, obj, end, field, find_field, set_field}
use tool_smith.Skills.{erase_pair, erase_pairs, without_pairs, sanitize_variable, interpolate}
use tool_smith.Skills.FrontMatter.{
  map_texts, strip_bom, read_parts, split_mark, read_all, get_lines, read_line, read_trimmed, trim,
  drop_last_spaces, drop_spaces, drop_cr, split_byte, read_entry, indent_of, body_of, drop_newlines,
  last_byte, push_back, read_item, unquote, strings_of, get_string_list, parse_yaml_frontmatter,
  get_string_map,
}
use tool_smith.Skills.FrontMatter.Entries.{IsEntry, print_file, parse_yaml_frontmatter-print_file}
use tool_smith.Skills.Parts.{Part, text, hole, IsPart, print_parts, interpolate-parts}
use tool_smith.Skills.Braces.{sanitize_variable-split_braces}

abbrev template : List Part
template =
    text (ascii "Review ") ∷ hole (ascii "language") ∷ text (ascii ": ") ∷ hole (ascii "code") ∷ []

template-IsPart : All IsPart template
template-IsPart = (refl, ((refl, refl), (refl, ((refl, refl), tt))))

abbrev variables : Json
variables = obj (field (ascii "language") (str (ascii "{{code}}")) end)

interpolate-parts_example :
    interpolate (λ j. ok []) (print_parts template) variables ≡ ok (ascii "Review code: {{code}}")
unfolding erase_pair erase_pairs without_pairs sanitize_variable find_field str_eq
interpolate-parts_example = interpolate-parts (λ j. ok []) template variables template-IsPart

sanitize_variable-split_braces_example : sanitize_variable (ascii "{}}{code") ≡ ascii "{{code"
sanitize_variable-split_braces_example = sanitize_variable-split_braces (ascii "code") refl refl

abbrev entries : List (Bytes × Bytes)
entries =
    (ascii "name", ascii "reviewer") ∷ (ascii "description", ascii "Use when: the user asks") ∷ []

entries-IsEntry : All IsEntry entries
unfolding drop_spaces drop_last_spaces last_byte
entries-IsEntry = (
  record {
    given = refl;
    word = refl;
    filled = refl;
    begins = refl;
    ends = refl;
    blanks = refl;
    bare = refl;
  },
  (
    record {
      given = refl;
      word = refl;
      filled = refl;
      begins = refl;
      ends = refl;
      blanks = refl;
      bare = refl;
    },
    tt,
  ),
)

-- The test UnquotedColonInDescription, without the blank line.
parse_yaml_frontmatter-print_file_example :
    parse_yaml_frontmatter (print_file entries (ascii "Body")) ≡ record {
      fields =
          field
            (ascii "name")
            (str (ascii "reviewer"))
            (field (ascii "description") (str (ascii "Use when: the user asks")) end);
      body = ascii "Body";
      error = [];
    }
unfolding set_field str_eq
parse_yaml_frontmatter-print_file_example =
    parse_yaml_frontmatter-print_file entries (ascii "Body") entries-IsEntry refl

nested_map :
    get_string_map
      (λ j. [])
      (parse_yaml_frontmatter
        (ascii "---\nname: mapped\nmetadata:\n  author: rakesh\n  os: linux\n---\n"))
      (ascii "metadata")
    ≡ (ascii "author", ascii "rakesh") ∷ (ascii "os", ascii "linux") ∷ []
unfolding parse_yaml_frontmatter get_string_map find_field set_field str_eq map_texts strip_bom
    read_parts split_mark read_all get_lines read_line read_trimmed trim drop_last_spaces
    drop_spaces drop_cr split_byte read_entry indent_of body_of drop_newlines last_byte push_back
    read_item unquote
nested_map = refl

string_list :
    get_string_list
      (parse_yaml_frontmatter (ascii "---\nname: n\nvariables:\n  - code\n  - 'a: b'\n---\n"))
      (ascii "variables")
    ≡ ascii "code" ∷ ascii "a: b" ∷ []
unfolding parse_yaml_frontmatter get_string_list strings_of find_field set_field str_eq strip_bom
    read_parts split_mark read_all get_lines read_line read_trimmed trim drop_last_spaces
    drop_spaces drop_cr split_byte read_entry indent_of body_of drop_newlines last_byte push_back
    read_item unquote
string_list = refl
