-- ===== src/Tests/Workspaces.antt =====
-- Paths, reads, edits and programs in a small workspace.
use tool_smith.Base.{◌≡◌, ◌↔◌, refl, true, false, [], ◌∷◌, ◌++◌, some, Bytes, ascii, str_eq, any}
use tool_smith.Base.Int.{ℤ, pos}
use tool_smith.Base.Except.{ok}
use tool_smith.Base.FilePath.{
  FilePath, root_directory, path_eq, to_path, elements, lexically_relative, relative_from,
  relative_rest, rest_by, up_from, beneath, climb,
}
use tool_smith.Json.{Json, str, arr, obj, nil, cons, Fields, end, field, find, find_field}
use tool_smith.Registry.Chain.{text_or}
use tool_smith.Hashline.Parse.{parse_file, parse_from}
use tool_smith.Hashline.Read.{format_read}
use tool_smith.Hashline.Hash.{line_hash}
use tool_smith.Jail.{
  Disk, WorkspaceJail, resolve, admit_path, canonical_path, contains_path, inside, search_start,
  is_dot_dot,
}
use tool_smith.Jail.Inside.{IsPlain, IsCanonical, Below, inside_iff}
use tool_smith.Jail.Confined.{IsJailed, IsConfined, resolve-write}
use tool_smith.Jail.Detect.{IsNearest, Detects, detect_root-IsNearest}
use tool_smith.CoreTools.{payload, looks_binary, int_or, bool_or, clamp_int}
use tool_smith.CoreTools.Edit.{Files, edit}
use tool_smith.CoreTools.Edit.Safety.{IsSafe, edit-IsSafe}
use tool_smith.CoreTools.Read.{
  ReadPage, page, read, read_at, read_bytes, read_text, read_checked, read_lines, page_of,
}
use tool_smith.CoreTools.Read.Flags.{IsPageOf, read-IsPageOf}

abbrev pub slashed : FilePath → Bytes
slashed [] = []
slashed (e ∷ p) = b'/' ∷ (e ++ slashed p)

-- Every path is canonical as it is; ".git" stands in "/w".
abbrev pub disk : Disk
disk = record {
  current_path = root_directory ∷ [];
  absolute = λ p. some p;
  canonical = λ p. some p;
  weakly_canonical = λ p. some p;
  exists = λ p. path_eq p (root_directory ∷ ascii "w" ∷ ascii ".git" ∷ []);
  is_directory = λ p. true;
  text = slashed;
}

abbrev pub root : FilePath
root = root_directory ∷ ascii "w" ∷ []

abbrev pub jail : WorkspaceJail
jail = record { root = root; allow = [] }

IsPlain-root : IsPlain root_directory
unfolding str_eq
IsPlain-root = record { not_empty = refl; not_dot = refl; not_dot_dot = refl }

IsPlain-w : IsPlain (ascii "w")
unfolding str_eq
IsPlain-w = record { not_empty = refl; not_dot = refl; not_dot_dot = refl }

IsPlain-a : IsPlain (ascii "a")
unfolding str_eq
IsPlain-a = record { not_empty = refl; not_dot = refl; not_dot_dot = refl }

root-IsCanonical : IsCanonical root
unfolding str_eq
root-IsCanonical = record { absolute = refl; plain = (IsPlain-root, (IsPlain-w, tt)) }

abbrev below : FilePath
below = root_directory ∷ ascii "w" ∷ ascii "a" ∷ []

below-IsCanonical : IsCanonical below
unfolding str_eq
below-IsCanonical = record { absolute = refl; plain = (IsPlain-root, (IsPlain-w, (IsPlain-a, tt))) }

pub jailed : IsJailed jail
jailed = record { root = root-IsCanonical; allow = tt }

inside_iff_example : (inside root below ≡ true) ↔ Below root below
inside_iff_example = inside_iff root below root-IsCanonical below-IsCanonical

accepted : (resolve disk jail (ascii "a") true).error ≡ []
unfolding resolve admit_path canonical_path contains_path inside lexically_relative relative_from
    relative_rest rest_by up_from beneath to_path elements climb str_eq
accepted = refl

resolve-write_example :
    IsConfined jail (resolve disk jail (ascii "a") true).path
    × (any is_dot_dot (resolve disk jail (ascii "a") true).path ≡ false)
resolve-write_example = resolve-write disk jail (ascii "a") jailed accepted

detect_root-IsNearest_example :
    (q : FilePath) × IsNearest disk q (search_start disk below) × Detects disk below q
detect_root-IsNearest_example = detect_root-IsNearest disk below

-- One file of two lines, which may be written.
abbrev files : Files
files = record {
  is_regular_file = λ p. true;
  read_all = λ p. some (ascii "aaa" ++ b'\n' ∷ ascii "bbb");
  can_write = λ p. true;
}

abbrev pub request : Fields → Json
request fs = obj (field (ascii "payload") (obj fs) end)

abbrev hunk : Json
hunk = obj (
    field (ascii "start") (str (ascii "2:" ++ line_hash (ascii "bbb")))
      (field (ascii "content") (str (ascii "ccc")) end))

abbrev edit_request : Json
edit_request =
    request
      (field (ascii "path") (str (ascii "a")) (field (ascii "hunks") (arr (cons hunk nil)) end))

edit-IsSafe_example : IsSafe files jail (edit disk files jail edit_request)
edit-IsSafe_example = edit-IsSafe disk files jail edit_request jailed

abbrev read_request : Json
read_request = request (field (ascii "path") (str (ascii "a")) end)

abbrev pub no_real : Bytes → ℤ
no_real s = pos 0

abbrev shown_page : ReadPage
shown_page =
    page_of false
      (format_read (parse_file (ascii "aaa" ++ b'\n' ∷ ascii "bbb")) (pos 0) (pos 200) true)

given : text_or [] (find (ascii "path") (payload read_request)) ≡ ok (ascii "a")
unfolding text_or payload find_field str_eq
given = refl

shown : read no_real disk files jail read_request ≡ ok (page shown_page)
unfolding read read_at read_bytes read_text read_checked read_lines resolve admit_path
    canonical_path contains_path inside lexically_relative relative_from relative_rest rest_by
    up_from beneath to_path elements climb str_eq text_or payload find_field looks_binary int_or
    bool_or clamp_int parse_file parse_from
shown = refl

read-IsPageOf_example :
    IsPageOf files (resolve disk jail (ascii "a") false) shown_page
    × (shown_page.outside_workspace ≡ false
        → IsConfined jail (resolve disk jail (ascii "a") false).path)
read-IsPageOf_example =
    read-IsPageOf no_real disk files jail read_request (ascii "a") shown_page jailed given shown
