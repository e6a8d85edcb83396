-- ===== src/CoreTools/Read.antt =====
-- `ReadCommand`: a window of a file's lines, inside or outside the workspace.
pub mod Flags
use tool_smith.Base.Int.{ℤ, pos, negsuc, lt_int, le_int}
use tool_smith.Base.{
  ℕ, Bool, true, false, not, ◌&&◌, Option, none, some, List, [], ◌∷◌, ◌++◌, Bytes, ascii, is_empty,
  length, if◌then◌else◌,
}
use tool_smith.Base.Except.{Except, ok, throw, ◌>>=◌}
use tool_smith.Base.FilePath.{FilePath}
use tool_smith.Json.{Json, bool, int, str, obj, Fields, end, field, find}
use tool_smith.Registry.Chain.{text_or}
use tool_smith.Hashline.Parse.{Line, parse_file}
use tool_smith.Hashline.Read.{ReadResult, format_read}
use tool_smith.Jail.{Disk, WorkspaceJail, ResolveResult, resolve}
use tool_smith.CoreTools.{
  payload, cap_head, err_result, ok_fields, clamp_int, looks_binary, wrap_int, int_or, bool_or,
}
use tool_smith.CoreTools.Edit.{Files}

-- What the command answers: an error, or the lines; `next_line` is there when lines are left.
pub record ReadPage : Type 0 where
  pub content : Bytes × Bool
  pub truncated : Bool
  pub outside_workspace : Bool
  pub next_line : Option ℕ

pub data ReadReply : Type 0 where
  failed : Bytes → ReadReply
  page : ReadPage → ReadReply

abbrev next_field : Option ℕ → Fields
next_field none = end
next_field (some n) = field (ascii "next_line") (int (pos n)) end

abbrev append_fields : Fields → Fields → Fields
append_fields end gs = gs
append_fields (field k v fs) gs = field k v (append_fields fs gs)

unfoldable pub read_json : ReadReply → Json
read_json (failed message) = err_result message
read_json (page p) = obj (
    append_fields (ok_fields p.content p.truncated)
      (field (ascii "outside_workspace") (bool p.outside_workspace) (next_field p.next_line)))

-- A limit that is given as an integer is positive.
abbrev pub bad_limit : Option Json → Bool
bad_limit (some (int n)) = le_int (wrap_int n) (pos 0)
bad_limit _ = false

abbrev pub default_lines : ℤ
default_lines = pos 200

abbrev pub max_lines : ℤ
max_lines = pos 500

abbrev pub page_of : Bool → ReadResult → ReadPage
page_of outside r = record {
  content = cap_head r.text;
  truncated = r.truncated;
  outside_workspace = outside;
  next_line = if r.truncated then some r.next_line else none;
}

-- From the lines and the arguments on.
unfoldable pub read_lines : Bool → List Line → ℤ → ℤ → Bool → ReadReply
read_lines outside lines offset limit hashes =
    if lt_int (pos (length lines)) offset
    then failed (ascii "offset is past end of file")
    else page (page_of outside (format_read lines offset limit hashes))

unfoldable pub read_checked : Json → Bool → Bytes → ℤ → ℤ → Except ReadReply
read_checked p outside bytes offset limit =
    if bad_limit (find (ascii "limit") p)
    then ok (failed (ascii "limit must be > 0"))
    else if lt_int offset (pos 0)
    then ok (failed (ascii "offset must be >= 0"))
    else do
      hashes ← bool_or true (find (ascii "hashes") p)
      ok (read_lines outside (parse_file bytes) offset limit hashes)

unfoldable pub read_text : (Bytes → ℤ) → Json → Bool → Bytes → Except ReadReply
read_text truncate p outside bytes = do
  offset ← int_or truncate (pos 0) (find (ascii "offset") p)
  limit ← int_or truncate default_lines (find (ascii "limit") p)
  read_checked p outside bytes offset (clamp_int limit (pos 1) max_lines default_lines)

unfoldable pub read_bytes :
    (Bytes → ℤ) → Disk → Json → ResolveResult → Option Bytes → Except ReadReply
read_bytes truncate disk p resolved none =
    ok (failed (ascii "Cannot read file: " ++ disk.text resolved.path))
read_bytes truncate disk p resolved (some bytes) =
    if looks_binary bytes
    then ok (failed (ascii "Refusing to read binary file: " ++ disk.text resolved.path))
    else read_text truncate p resolved.outside_workspace bytes

unfoldable pub read_at : (Bytes → ℤ) → Disk → Files → Json → ResolveResult → Except ReadReply
read_at truncate disk files p resolved =
    if not (is_empty resolved.error)
    then ok (failed resolved.error)
    else if not (files.is_regular_file resolved.path)
    then ok (failed (ascii "Not a regular file: " ++ disk.text resolved.path))
    else read_bytes truncate disk p resolved (files.read_all resolved.path)

unfoldable pub read : (Bytes → ℤ) → Disk → Files → WorkspaceJail → Json → Except ReadReply
read truncate disk files jail request = do
  path ← text_or [] (find (ascii "path") (payload request))
  read_at truncate disk files (payload request) (resolve disk jail path false)
