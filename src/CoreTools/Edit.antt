-- ===== src/CoreTools/Edit.antt =====
-- `EditCommand`: anchors and hunks read from the request, applied to a file in the workspace.
pub mod Anchors
pub mod Reading
pub mod Safety
use tool_smith.Base.Int.{ℤ, pos, negsuc, lt_int}
use tool_smith.Base.{
  ℕ, zero, suc, ◌+◌, ◌*◌, ◌-◌, ◌^◌, Bool, true, false, not, ◌&&◌, Option, none, some, List, [], ◌∷◌,
  ◌++◌, Bytes, ascii, is_empty, length, leb, ltb, ◌==◌, if◌then◌else◌, ◌⊎◌, inl, inr, decimal,
}
use tool_smith.Base.Except.{Except, ok, throw, type_error, ◌>>=◌}
use tool_smith.Base.FilePath.{FilePath}
use tool_smith.Json.{Json, str, arr, obj, Elems, nil, cons, find, elems, string_of}
use tool_smith.Registry.Chain.{text_or}
use tool_smith.Hashline.Hash.{is_space}
use tool_smith.Hashline.Parse.{parse_file}
use tool_smith.Hashline.Edit.{Hunk, Outcome, done, refused, undefined, apply_hunks}
use tool_smith.Jail.{Disk, WorkspaceJail, ResolveResult, resolve}
use tool_smith.CoreTools.{payload, ok_result, err_result, looks_binary}

-- What the tools see of the files: `fs::is_regular_file`, `ReadAll`, with `none` where the file cannot
-- be opened, and whether the file can be opened to write.
pub record Files : Type 0 where
  pub is_regular_file : FilePath → Bool
  pub read_all : FilePath → Option Bytes
  pub can_write : FilePath → Bool

abbrev is_digit : ℕ → Bool
is_digit c = leb b'0' c && leb c b'9'

-- The number that a run of digits stands for; `none` where there is no digit.
unfoldable pub digits_from : Option ℕ → Bytes → Option ℕ
digits_from seen [] = seen
digits_from seen (c ∷ s) =
    let more = digits_from (some (10 * elim seen [ none ↦ 0 | some n ↦ n ] + (c - b'0'))) s in
    if is_digit c then more else seen

abbrev in_range : Bool → Option ℕ → Option ℤ
in_range negative none = none
in_range true (some zero) = some (pos 0)
in_range true (some (suc n)) = if ltb n (2 ^ 31) then some (negsuc n) else none
in_range false (some n) = if ltb n (2 ^ 31) then some (pos n) else none

abbrev signed : Bytes → Option ℤ
signed [] = none
signed (c ∷ s) =
    let negative = in_range true (digits_from none s) in
    let positive = in_range false (digits_from none s) in
    let plain = in_range false (digits_from none (c ∷ s)) in
    if c == b'-' then negative else if c == b'+' then positive else plain

-- `std::stoi`; `none` where it throws.
unfoldable pub stoi : Bytes → Option ℤ
unfolding digits_from is_space
stoi [] = none
stoi (c ∷ s) = let rest = stoi s in let here = signed (c ∷ s) in if is_space c then rest else here

-- What stands before and after the first colon.
unfoldable pub split_colon : Bytes → Option (Bytes × Bytes)
split_colon [] = none
split_colon (c ∷ s) =
    let rest = split_colon s in
    if c == b':' then some ([], s) else elim rest [ none ↦ none | some (l, h) ↦ some (c ∷ l, h) ]

abbrev pub well_formed : ℤ → Bytes → Bool
well_formed line hash = lt_int (pos 0) line && (length hash == 4)

abbrev pub line_anchor : Bytes → Option ℤ → Option (ℤ × Bytes)
line_anchor hash none = none
line_anchor hash (some line) = if well_formed line hash then some (line, hash) else none

abbrev pub anchor_of : Option (Bytes × Bytes) → Option (ℤ × Bytes)
anchor_of none = none
anchor_of (some (l, hash)) = line_anchor hash (stoi l)

-- `parseAnchor`: LINE:HASH with a positive line and a hash of four bytes.
unfoldable pub parse_anchor : Bytes → Option (ℤ × Bytes)
unfolding stoi split_colon
parse_anchor a = anchor_of (split_colon a)

abbrev bad_start : Bytes
bad_start = ascii "Invalid hunk start anchor (want LINE:HASH)"

abbrev bad_end : Bytes
bad_end = ascii "Invalid hunk end anchor (want LINE:HASH)"

abbrev pub with_content : ℤ × Bytes → ℤ × Bytes → Option Bytes → Bytes ⊎ Hunk
with_content start end none = inl (ascii "Hunk missing content string")
with_content (start_line, start_hash) (end_line, end_hash) (some content) = inr (record {
  start_line = start_line;
  start_hash = start_hash;
  end_line = end_line;
  end_hash = end_hash;
  content = content;
})

-- An end anchor that is not given leaves line 0 and no hash.
abbrev pub end_of : Bytes → Option (ℤ × Bytes)
end_of [] = some (pos 0, [])
end_of (c ∷ s) = parse_anchor (c ∷ s)

abbrev pub hunk_of : Option (ℤ × Bytes) → Option (ℤ × Bytes) → Option Bytes → Bytes ⊎ Hunk
hunk_of none end content = inl bad_start
hunk_of (some start) none content = inl bad_end
hunk_of (some start) (some end) content = with_content start end content

unfoldable pub make_hunk : Bytes → Bytes → Option Json → Bytes ⊎ Hunk
make_hunk start end content = hunk_of (parse_anchor start) (end_of end) (string_of content)

abbrev pub hunk_with : Except Bytes → Except Bytes → Option Json → Except (Bytes ⊎ Hunk)
hunk_with (throw e) end content = throw e
hunk_with (ok start) (throw e) content = throw e
hunk_with (ok start) (ok end) content = ok (make_hunk start end content)

-- One round of the loop over the hunks; `value` throws where the hunk is no object.
unfoldable pub read_hunk : Json → Except (Bytes ⊎ Hunk)
read_hunk (obj h) =
    hunk_with (text_or [] (find (ascii "start") (obj h))) (text_or [] (find (ascii "end") (obj h)))
      (find (ascii "content") (obj h))
read_hunk _ = throw type_error

abbrev pub then_hunk : Hunk → Except (Bytes ⊎ List Hunk) → Except (Bytes ⊎ List Hunk)
then_hunk h (throw e) = throw e
then_hunk h (ok (inl message)) = ok (inl message)
then_hunk h (ok (inr hs)) = ok (inr (h ∷ hs))

abbrev pub after_hunk :
    Except (Bytes ⊎ Hunk) → Except (Bytes ⊎ List Hunk) → Except (Bytes ⊎ List Hunk)
after_hunk (throw e) rest = throw e
after_hunk (ok (inl message)) rest = ok (inl message)
after_hunk (ok (inr h)) rest = then_hunk h rest

-- The hunks in order, or what the loop returns at the first that is wrong.
unfoldable pub read_hunks : List Json → Except (Bytes ⊎ List Hunk)
read_hunks [] = ok (inr [])
read_hunks (j ∷ js) = after_hunk (read_hunk j) (read_hunks js)

-- What the command does: it answers and leaves the files alone, or writes one file and answers; or
-- what it does is undefined.
pub data EditReply : Type 0 where
  answered : Json → EditReply
  wrote : FilePath → Bytes → Json → EditReply
  broken : EditReply

abbrev pub updated : Disk → FilePath → List Hunk → Json
updated disk path hunks = obj (
    ok_result
      (ascii "Updated "
        ++ (disk.text path ++ (ascii " (" ++ (decimal (length hunks) ++ ascii " hunks)"))))
      false)

unfoldable pub store : Disk → Files → FilePath → List Hunk → Outcome Bytes → EditReply
store disk files path hunks (refused message) = answered (err_result message)
store disk files path hunks undefined = broken
store disk files path hunks (done next) =
    if not (files.can_write path)
    then answered (err_result (ascii "Cannot write file: " ++ disk.text path))
    else wrote path next (updated disk path hunks)

unfoldable pub edit_with :
    Disk → Files → FilePath → Bytes → Except (Bytes ⊎ List Hunk) → Except EditReply
unfolding store
edit_with disk files path bytes (throw e) = throw e
edit_with disk files path bytes (ok (inl message)) = ok (answered (err_result message))
edit_with disk files path bytes (ok (inr hunks)) =
    ok (store disk files path hunks (apply_hunks (parse_file bytes) hunks))

abbrev pub hunks_given : Option Json → Bytes ⊎ List Json
hunks_given (some (arr nil)) = inl (ascii "hunks must not be empty")
hunks_given (some (arr (cons j js))) = inr (j ∷ elems js)
hunks_given _ = inl (ascii "Missing required argument: hunks")

abbrev pub edit_read : Disk → Files → FilePath → List Json → Option Bytes → Except EditReply
edit_read disk files path hunks none =
    ok (answered (err_result (ascii "Cannot read file: " ++ disk.text path)))
edit_read disk files path hunks (some bytes) =
    if looks_binary bytes
    then ok (answered (err_result (ascii "Refusing to edit binary file")))
    else edit_with disk files path bytes (read_hunks hunks)

abbrev pub edit_file : Disk → Files → FilePath → Bytes ⊎ List Json → Except EditReply
edit_file disk files path (inl message) = ok (answered (err_result message))
edit_file disk files path (inr hunks) =
    if not (files.is_regular_file path)
    then ok (answered (err_result (ascii "File not found: " ++ disk.text path)))
    else edit_read disk files path hunks (files.read_all path)

unfoldable pub edit_at : Disk → Files → Json → ResolveResult → Except EditReply
edit_at disk files p resolved =
    if not (is_empty resolved.error)
    then ok (answered (err_result resolved.error))
    else edit_file disk files resolved.path (hunks_given (find (ascii "hunks") p))

unfoldable pub edit : Disk → Files → WorkspaceJail → Json → Except EditReply
edit disk files jail request = do
  path ← text_or [] (find (ascii "path") (payload request))
  edit_at disk files (payload request) (resolve disk jail path true)
