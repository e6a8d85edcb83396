-- ===== src/Tests/Editing.antt =====
-- Files, reads and edits on three lines.
use tool_smith.Base.{
  ◌≡◌, ◌-◌, ◌+◌, ◌++◌, ℕ, refl, true, false, Bytes, ascii, List, [], ◌∷◌, All, arith, some, str_eq,
}
use tool_smith.Base.Int.{pos}
use tool_smith.Hashline.Hash.{line_hash, is_space}
use tool_smith.Hashline.Hash.Canonical.{IsSpace}
use tool_smith.Hashline.Parse.{Line, parse_file, make_line, texts}
use tool_smith.Hashline.Parse.RoundTrip.{texts-parse_file, print, NotCr, NotNewline}
use tool_smith.Hashline.Read.{format_read, read_loop}
use tool_smith.Hashline.Read.Window.{format_read_continues}
use tool_smith.Hashline.Edit.{
  Hunk, done, undefined, apply_hunks, apply_all, apply_hunk, apply_at, end_anchored, replace_lines,
  find_line, content_lines, renumber, join_lines, sort_by, overlapping, descending, ascending,
}
use tool_smith.Hashline.Edit.Order.{IsProper}
use tool_smith.Hashline.Edit.Steps.{IsFresh}
use tool_smith.Hashline.Edit.Patch.{apply_hunks-patch, join_texts, patch}
use tool_smith.Hashline.Edit.PastEnd.{apply_hunks-past_end}

abbrev line_at : ℕ → Bytes → Line
line_at n text = record { number = n; hash = line_hash text; text = text }

abbrev three : List Line
three = line_at 1 (ascii "aaa") ∷ line_at 2 (ascii "bbb") ∷ line_at 3 (ascii "ccc") ∷ []

abbrev body : Bytes
body = ascii "aaa" ++ (b'\n' ∷ ascii "bbb")

abbrev tab : Bytes
tab = b'\t' ∷ []

spaces : All IsSpace (ascii "  ") × All IsSpace tab
unfolding is_space
spaces = ((refl, (refl, tt)), (refl, tt))

no_cr : All NotCr body
no_cr = (
  omega arith,
  (omega arith, (omega arith, (omega arith, (omega arith, (omega arith, (omega arith, tt)))))),
)

abbrev two : List Bytes
two = ascii "a" ∷ [] ∷ []

two_plain : All (λ t. All NotNewline t × All NotCr t) two
two_plain = (((omega arith, tt), (omega arith, tt)), ((tt, tt), tt))

texts-parse_file_example : texts (parse_file (print two)) ≡ two
texts-parse_file_example = texts-parse_file two two_plain

first_truncated : (format_read three (pos 0) (pos 2) false).truncated ≡ true
unfolding format_read read_loop
first_truncated = refl

format_read_continues_example :
    ((format_read three (pos 0) (pos 2) false).next_line ≡ 0 + 2 + 1)
    × ((format_read three (pos 0) (pos 2) false).text
          ++ (format_read three
              (pos ((format_read three (pos 0) (pos 2) false).next_line - 1))
              (pos 1)
              false).text
        ≡ (format_read three (pos 0) (pos (2 + 1)) false).text)
format_read_continues_example =
    format_read_continues three 0 2 1 false (refl, (refl, (refl, tt))) first_truncated

abbrev join_two : Hunk
join_two = record {
  start_line = pos 2;
  start_hash = line_hash (ascii "bbb");
  end_line = pos 3;
  end_hash = line_hash (ascii "ccc");
  content = ascii "X";
}

abbrev above : Hunk
above = record {
  start_line = pos 1;
  start_hash = line_hash (ascii "aaa");
  end_line = pos 0;
  end_hash = [];
  content = ascii "Y" ++ (b'\n' ∷ ascii "Z");
}

abbrev edited : Bytes
edited = ascii "Y" ++ (b'\n' ∷ ascii "Z" ++ (b'\n' ∷ ascii "X" ++ b'\n' ∷ []))

edit : apply_hunks three (above ∷ join_two ∷ []) ≡ done edited
unfolding apply_hunks apply_all apply_hunk apply_at end_anchored replace_lines find_line
    content_lines renumber join_lines sort_by overlapping descending ascending make_line line_hash
    str_eq
edit = refl

apply_hunks-patch_example :
    All IsProper (above ∷ join_two ∷ [])
    × All (IsFresh three) (above ∷ join_two ∷ [])
    × (edited ≡ join_texts (patch (texts three) (sort_by descending (above ∷ join_two ∷ []))))
apply_hunks-patch_example = apply_hunks-patch three (above ∷ join_two ∷ []) edited edit

abbrev too_long : Hunk
too_long = record {
  start_line = pos 2;
  start_hash = line_hash (ascii "bbb");
  end_line = pos 9;
  end_hash = [];
  content = [];
}

too_long-IsProper : IsProper too_long
too_long-IsProper = record { first = refl; last = refl; positive = omega arith; ends = omega arith }

second_line : find_line three (pos 2) ≡ some (line_at 2 (ascii "bbb"))
unfolding find_line
second_line = refl

apply_hunks-past_end_example : apply_hunks three (too_long ∷ []) ≡ undefined
apply_hunks-past_end_example =
    apply_hunks-past_end three too_long (line_at 2 (ascii "bbb")) too_long-IsProper second_line refl
      refl (omega arith)
