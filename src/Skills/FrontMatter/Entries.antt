-- ===== src/Skills/FrontMatter/Entries.antt =====
-- A head that is made of entries, one to a line.
use tool_smith.Base.{
  ℕ, ◌≡◌, refl, ◌∙◌, ap, true, false, not, ◌&&◌, none, List, [], ◌∷◌, ◌++◌, arith, map, append-nil,
  Bytes, is_empty, any, all, ◌==◌, All,
}
use tool_smith.Json.{str, Fields, end, set_field}
use tool_smith.Skills.{is_word}
use tool_smith.Skills.FrontMatter.{
  is_white, is_quoted, split_mark, get_lines, drop_cr, drop_spaces, drop_last_spaces, trim, unquote,
  read_entry, read_trimmed, read_line, read_all, Reading, top, beginning, parse_yaml_frontmatter,
}
use tool_smith.Skills.FrontMatter.Mark.{closed, begins_plainly, parse_yaml_frontmatter-parts}
use tool_smith.Skills.FrontMatter.Lines.{
  any-append, other_byte, no_byte-word, no_byte-blanks, get_lines-line, get_lines-last,
  drop_cr-none, drop_last_spaces-append, drop_last_spaces-word, split_byte-word, behind_mark-line,
  split_mark-line, drop_spaces-first, trim-whole, trim-blank, unquote-bare, indent_of-word,
  item_of-word,
}

-- The key is a word; the value is not empty and not quoted, has no white byte at either end, and no
-- white byte but blanks.
pub record IsEntry (e : Bytes × Bytes) : Type 0 where
  pub given : is_empty e.0 ≡ false
  pub word : all is_word e.0 ≡ true
  pub filled : is_empty e.1 ≡ false
  pub begins : drop_spaces e.1 ≡ e.1
  pub ends : drop_last_spaces e.1 ≡ e.1
  pub blanks : any (λ c. is_white c && not (c == b' ')) e.1 ≡ false
  pub bare : is_quoted e.1 ≡ false

abbrev pub print_entry : Bytes × Bytes → Bytes
print_entry (key, value) = key ++ b':' ∷ b' ' ∷ value

abbrev pub print_head : List (Bytes × Bytes) → Bytes
print_head [] = []
print_head (e ∷ es) = b'\n' ∷ (print_entry e ++ print_head es)

abbrev pub set_all : List (Bytes × Bytes) → Fields → Fields
set_all [] fs = fs
set_all ((key, value) ∷ es) fs = set_all es (set_field key (str value) fs)

no_byte-entry :
    (e : Bytes × Bytes) (c : ℕ)
    → (is_white c && not (c == b' ')) ≡ true
    → is_word c ≡ false
    → IsEntry e
    → any (λ d. d == c) (print_entry e) ≡ false
no_byte-entry (key, value) c w n v =
    any-append (λ d. d == c) key (b':' ∷ b' ' ∷ value) (no_byte-word key c n v.word)
      (no_byte-blanks (b':' ∷ b' ' ∷ value) c w v.blanks)

split_mark-print_head :
    (es : List (Bytes × Bytes)) → All IsEntry es → split_mark (print_head es) ≡ none
unfolding split_mark
split_mark-print_head [] h = refl
split_mark-print_head (([], value) ∷ es) (v, h) = let wrong : true ≡ false = v.given in absurd cc
split_mark-print_head ((c ∷ key, value) ∷ es) (v, h) =
    let word : is_word c ≡ true = ground (arith, v.word) in
    let line = no_byte-entry (c ∷ key, value) b'\n' refl refl v in
    let rest =
      split_mark-line (print_entry (c ∷ key, value)) (print_head es) line
        (split_mark-print_head es h) in
    rw (behind_mark-line c _ (other_byte is_word c b'-' word refl), rest) refl

drop_last_spaces-entry :
    (key value : Bytes)
    → is_empty value ≡ false
    → drop_last_spaces value ≡ value
    → drop_last_spaces (key ++ b':' ∷ b' ' ∷ value) ≡ key ++ b':' ∷ b' ' ∷ value
drop_last_spaces-entry key [] h k = absurd cc
drop_last_spaces-entry key (c ∷ value) h k =
    drop_last_spaces-append key b':' (b' ' ∷ c ∷ value)
      (drop_last_spaces-append (b':' ∷ b' ' ∷ []) c value k)

abbrev pub read_to : Bytes → Bytes → Reading → Reading
read_to key value r = record {
  fields = set_field key (str value) r.fields;
  current_key = key;
  mode = top;
}

read_entry-plain :
    (key value : Bytes) (r : Reading)
    → is_empty value ≡ false
    → unquote value ≡ value
    → read_entry 0 key value r ≡ read_to key value r
unfolding read_entry
read_entry-plain key value r filled bare = rw (filled, bare) refl

-- The line of an entry, without the blanks at its ends.
read_trimmed-entry :
    (c : ℕ) (key value : Bytes) (r : Reading)
    → IsEntry (c ∷ key, value)
    → read_trimmed 0 (print_entry (c ∷ key, value)) r ≡ read_to (c ∷ key) value r
unfolding read_trimmed
read_trimmed-entry c key value r v =
    let word : is_word c ≡ true = ground (arith, v.word) in
    let white : is_white c ≡ false = ground arith in
    let hash = other_byte is_word c b'#' word refl in
    let item = item_of-word c (key ++ b':' ∷ b' ' ∷ value) word in
    let parts =
      split_byte-word (c ∷ key) (b' ' ∷ value) b':' (no_byte-word (c ∷ key) b':' refl v.word) in
    let key_whole =
      trim-whole (c ∷ key) (drop_spaces-first c key white)
        (drop_last_spaces-word (c ∷ key) v.word) in
    let value_whole = trim-whole value v.begins v.ends in
    let value_trimmed = trim-blank value ∙ value_whole in
    rw (hash, item, parts, key_whole, value_trimmed)
      (read_entry-plain (c ∷ key) value r v.filled (unquote-bare value value_whole v.bare))

read_line-entry :
    (e : Bytes × Bytes) (r : Reading) → IsEntry e → read_line (print_entry e) r ≡ read_to e.0 e.1 r
unfolding read_line
read_line-entry ([], value) r v = let wrong : true ≡ false = v.given in absurd cc
read_line-entry (c ∷ key, value) r v =
    let word : is_word c ≡ true = ground (arith, v.word) in
    let white : is_white c ≡ false = ground arith in
    let cr =
      drop_cr-none (print_entry (c ∷ key, value))
        (no_byte-entry (c ∷ key, value) b'\r' refl refl v) in
    let whole =
      trim-whole (print_entry (c ∷ key, value)) (drop_spaces-first c _ white)
        (drop_last_spaces-entry (c ∷ key) value v.filled v.ends) in
    rw (cr, read_line, whole, indent_of-word c (key ++ b':' ∷ b' ' ∷ value) word)
      (read_trimmed-entry c key value r v)

read_all-entries :
    (es : List (Bytes × Bytes)) (r : Reading)
    → All IsEntry es
    → (read_all (map print_entry es) r).fields ≡ set_all es r.fields
unfolding read_all
read_all-entries [] r h = refl
read_all-entries (e ∷ es) r (v, h) =
    rw (read_line-entry e r v, read_all) (read_all-entries es (read_to e.0 e.1 r) h)

get_lines-print_head :
    (e : Bytes × Bytes) (es : List (Bytes × Bytes))
    → IsEntry e
    → All IsEntry es
    → get_lines (print_entry e ++ print_head es) ≡ print_entry e ∷ map print_entry es
get_lines-print_head ([], value) [] v h = let wrong : true ≡ false = v.given in absurd cc
get_lines-print_head (c ∷ key, value) [] v h =
    ap get_lines (append-nil (print_entry (c ∷ key, value)))
    ∙ get_lines-last c (key ++ b':' ∷ b' ' ∷ value)
        (no_byte-entry (c ∷ key, value) b'\n' refl refl v)
get_lines-print_head e (f ∷ es) v (w, h) =
    get_lines-line (print_entry e) (print_entry f ++ print_head es)
      (no_byte-entry e b'\n' refl refl v)
    ∙ ap (λ t. print_entry e ∷ t) (get_lines-print_head f es w h)

read_head :
    (es : List (Bytes × Bytes))
    → All IsEntry es
    → (read_all (get_lines (print_head es)) beginning).fields ≡ set_all es end
unfolding read_all get_lines read_line read_trimmed trim drop_last_spaces drop_spaces drop_cr
read_head [] h = refl
read_head (e ∷ es) (v, h) =
    ap (λ ls. (read_all ls (read_line [] beginning)).fields) (get_lines-print_head e es v h)
    ∙ read_all-entries (e ∷ es) beginning (v, h)

abbrev pub print_file : List (Bytes × Bytes) → Bytes → Bytes
print_file es body = b'-' ∷ b'-' ∷ b'-' ∷ closed (print_head es) (b'\n' ∷ body)

-- The front matter of a SKILL.md file printed from entries, each a word and a value, is read back
-- as these entries, set in order, with the body behind it: for values that are not empty and not
-- quoted, have no white byte at either end and none but blanks inside, and a body that begins with
-- no line break. Colons in a value are kept.
pub parse_yaml_frontmatter-print_file :
    (es : List (Bytes × Bytes)) (body : Bytes)
    → All IsEntry es
    → begins_plainly body ≡ true
    → parse_yaml_frontmatter (print_file es body)
      ≡ record { fields = set_all es end; body = body; error = [] }
parse_yaml_frontmatter-print_file es body h plain =
    parse_yaml_frontmatter-parts (print_head es) body (split_mark-print_head es h) plain
    ∙ ap (λ fs. record { fields = fs; body = body; error = [] }) (read_head es h)
