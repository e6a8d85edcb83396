-- ===== src/Tests/Hashing.antt =====
-- The inputs of tests/Hashline_test.cpp.
use tool_smith.Base.Int.{pos}
use tool_smith.Base.{str_eq, ◌≡◌, refl, Bytes, ascii, [], ◌∷◌, ◌++◌}
use tool_smith.Hashline.Hash.{line_hash}
use tool_smith.Hashline.Parse.{parse_file, make_line}
use tool_smith.Hashline.Edit.{
  Hunk, done, apply_hunks, apply_all, apply_hunk, apply_at, end_anchored, replace_lines, find_line,
  content_lines, renumber, join_lines, sort_by, overlapping, descending, ascending,
}

hash_hello : line_hash (ascii "  hello  ") ≡ ascii "2cab"
unfolding line_hash
hash_hello = refl

hash_empty : line_hash [] ≡ ascii "9dc5"
unfolding line_hash
hash_empty = refl

abbrev three : Bytes
three = ascii "aaa" ++ b'\n' ∷ (ascii "bbb" ++ b'\n' ∷ (ascii "ccc" ++ b'\n' ∷ []))

abbrev middle : Hunk
middle = record {
  start_line = pos 2;
  start_hash = line_hash (ascii "bbb");
  end_line = pos 0;
  end_hash = [];
  content = ascii "BBB" ++ b'\n' ∷ [];
}

replace_middle :
    apply_hunks (parse_file three) (middle ∷ [])
    ≡ done (ascii "aaa" ++ b'\n' ∷ (ascii "BBB" ++ b'\n' ∷ (ascii "ccc" ++ b'\n' ∷ [])))
unfolding apply_hunks apply_all apply_hunk apply_at end_anchored replace_lines find_line
    content_lines renumber join_lines sort_by overlapping descending ascending parse_file make_line
    line_hash str_eq
replace_middle = refl
