-- ===== src/CoreTools/Edit/Safety.antt =====
-- What the edit tool may do to the files.
use tool_smith.Base.{
  ◌≡◌, ◌≢◌, refl, true, List, [], ◌∷◌, Bool-cases, inl, inr, ◌⊎◌, some, none, Option, Bytes, ascii,
  is_empty, All,
}
use tool_smith.Base.Except.{Except, Exn, ok, throw, Except-cases}
use tool_smith.Base.FilePath.{FilePath}
use tool_smith.Json.{Json, find}
use tool_smith.Registry.Chain.{text_or}
use tool_smith.Hashline.Parse.{parse_file}
use tool_smith.Hashline.Edit.{Hunk, Outcome, done, refused, undefined, apply_hunks}
use tool_smith.Jail.{Disk, WorkspaceJail, ResolveResult, resolve}
use tool_smith.Jail.Confined.{IsJailed, IsConfined, resolve-write}
use tool_smith.CoreTools.{payload, looks_binary}
use tool_smith.CoreTools.Edit.{
  Files, EditReply, answered, wrote, read_hunks, store, edit_with, edit_file, edit_at, edit,
  edit_read, hunks_given,
}
use tool_smith.CoreTools.Edit.Anchors.{IsAnchored, apply_hunks-defined}
use tool_smith.CoreTools.Edit.Reading.{read_hunks-All}

-- What may come of an edit: the files are left alone, or one file in the workspace is written with what
-- `ApplyHunks` makes of its old lines.
pub data IsSafe (files : Files) (jail : WorkspaceJail) : Except EditReply → Type 0 where
  safe_throw : (e : Exn) → IsSafe files jail (throw e)
  safe_answer : (j : Json) → IsSafe files jail (ok (answered j))
  safe_write :
      (path : FilePath) (old next : Bytes) (hunks : List Hunk) (j : Json)
      → IsConfined jail path
      → files.read_all path ≡ some old
      → apply_hunks (parse_file old) hunks ≡ done next
      → IsSafe files jail (ok (wrote path next j))

module _ (disk : Disk) (files : Files) (jail : WorkspaceJail) (path : FilePath)
    (held : IsConfined jail path) where
  store-IsSafe :
      (old : Bytes) (hunks : List Hunk) (o : Outcome Bytes)
      → files.read_all path ≡ some old
      → apply_hunks (parse_file old) hunks ≡ o
      → o ≢ undefined
      → IsSafe files jail (ok (store disk files path hunks o))
  unfolding store
  store-IsSafe old hunks (refused m) r e d = safe_answer _
  store-IsSafe old hunks undefined r e d = absurd (d refl)
  store-IsSafe old hunks (done next) r e d = elim (Bool-cases (files.can_write path)) [
    | inl may ↦ rw may (safe_write path old next hunks _ held r e)
    | inr not_may ↦ rw not_may (safe_answer _)
  ]

  edit_with-IsSafe :
      (old : Bytes) (read : Except (Bytes ⊎ List Hunk))
      → files.read_all path ≡ some old
      → ((hs : List Hunk) → read ≡ ok (inr hs) → All IsAnchored hs)
      → IsSafe files jail (edit_with disk files path old read)
  unfolding edit_with
  edit_with-IsSafe old (throw x) r a = safe_throw x
  edit_with-IsSafe old (ok (inl m)) r a = safe_answer _
  edit_with-IsSafe old (ok (inr hs)) r a =
      store-IsSafe old hs (apply_hunks (parse_file old) hs) r refl
        (apply_hunks-defined (parse_file old) hs (a hs refl))

  edit_read-IsSafe :
      (hunks : List Json) (o : Option Bytes)
      → files.read_all path ≡ o
      → IsSafe files jail (edit_read disk files path hunks o)
  edit_read-IsSafe hunks none r = safe_answer _
  edit_read-IsSafe hunks (some old) r = elim (Bool-cases (looks_binary old)) [
    | inl binary ↦ rw binary (safe_answer _)
    | inr text ↦ rw text (edit_with-IsSafe old (read_hunks hunks) r (read_hunks-All hunks))
  ]

  edit_file-IsSafe :
      (given : Bytes ⊎ List Json) → IsSafe files jail (edit_file disk files path given)
  edit_file-IsSafe (inl m) = safe_answer _
  edit_file-IsSafe (inr hunks) = elim (Bool-cases (files.is_regular_file path)) [
    | inl regular ↦ rw regular (edit_read-IsSafe hunks (files.read_all path) refl)
    | inr other ↦ rw other (safe_answer _)
  ]

no_text : (s : Bytes) → is_empty s ≡ true → s ≡ []
no_text [] e = refl
no_text (c ∷ s) e = absurd cc

edit_at-IsSafe :
    (disk : Disk) (files : Files) (jail : WorkspaceJail) (p : Json) (r : ResolveResult)
    → (r.error ≡ [] → IsConfined jail r.path)
    → IsSafe files jail (edit_at disk files p r)
unfolding edit_at
edit_at-IsSafe disk files jail p r held = elim (Bool-cases (is_empty r.error)) [
  | inl fine ↦ rw fine (
      edit_file-IsSafe disk files jail r.path (held (no_text r.error fine))
        (hunks_given (find (ascii "hunks") p)))
  | inr bad ↦ rw bad (safe_answer _)
]

-- In a jail whose directories are canonical, a call of the edit tool, whatever the request, throws,
-- answers and leaves the files alone, or writes one file, which lies below the root or an allowed
-- directory, with what ApplyHunks makes of the lines that the file held: no request makes the edit
-- erase past the end of the file.
pub edit-IsSafe :
    (disk : Disk) (files : Files) (jail : WorkspaceJail) (request : Json)
    → IsJailed jail
    → IsSafe files jail (edit disk files jail request)
unfolding edit
edit-IsSafe disk files jail request h =
    elim (Except-cases (text_or [] (find (ascii "path") (payload request)))) [
      | inl (path, e) ↦ rw e (
          edit_at-IsSafe disk files jail (payload request) (resolve disk jail path true)
            (λ q. (resolve-write disk jail path h q).0))
      | inr (x, e) ↦ rw e (safe_throw x)
    ]
