-- ===== src/CoreTools/Read/Flags.antt =====
-- What the read tool shows: a window of the file, flagged when the file is outside the workspace.
use tool_smith.Base.Int.{ℤ, pos, negsuc, lt_int, clamp}
use tool_smith.Base.{
  ℕ, ◌≤◌, ◌≡◌, refl, sym, ◌∙◌, ap, subst, Bool, true, false, not, [], arith, Bool-cases, inl, inr,
  Option, none, some, Bytes, ascii, is_empty, length, if◌then◌else◌, ltb,
}
use tool_smith.Base.Except.{Except, Exn, ok, throw, ◌>>=◌}
use tool_smith.Json.{Json, find}
use tool_smith.Registry.Chain.{text_or}
use tool_smith.Hashline.Parse.{parse_file}
use tool_smith.Hashline.Read.{format_read}
use tool_smith.Jail.{Disk, WorkspaceJail, ResolveResult, resolve}
use tool_smith.Jail.Confined.{IsJailed, IsConfined, resolve-IsConfined}
use tool_smith.CoreTools.{payload, int_or, bool_or, looks_binary}
use tool_smith.CoreTools.Edit.{Files}
use tool_smith.CoreTools.Read.{
  ReadReply, ReadPage, failed, page, page_of, bad_limit, default_lines, read_lines, read_checked,
  read_text, read_bytes, read_at, read,
}
use tool_smith.CoreTools.Run.Plans.{clamp_int-within, no_text}

-- A page is a window of the lines of the file, of 500 lines at most.
pub record IsWindow (outside : Bool) (bytes : Bytes) (p : ReadPage) : Type 0 where
  pub offset : ℕ
  pub limit : ℤ
  pub hashes : Bool
  pub page : p ≡ page_of outside (format_read (parse_file bytes) (pos offset) limit hashes)
  pub within : offset ≤ length (parse_file bytes)
  pub least : 1 ≤ clamp limit
  pub most : clamp limit ≤ 500

pub data Shows (P : ReadPage → Type 0) : Except ReadReply → Type 0 where
  throws : (e : Exn) → Shows P (throw e)
  fails : (message : Bytes) → Shows P (ok (failed message))
  shows : (p : ReadPage) → P p → Shows P (ok (page p))

Shows-bind :
    {A : Type 0} (P : ReadPage → Type 0) (x : Except A) (f : A → Except ReadReply)
    → ((a : A) → Shows P (f a))
    → Shows P (x >>= f)
Shows-bind P (ok a) f h = h a
Shows-bind P (throw e) f h = throws e

Shows-if :
    (P : ReadPage → Type 0) (b : Bool) (x y : Except ReadReply)
    → (b ≡ true → Shows P x)
    → (b ≡ false → Shows P y)
    → Shows P (if b then x else y)
Shows-if P true x y t f = t refl
Shows-if P false x y t f = f refl

Shows-page :
    (P : ReadPage → Type 0) (x : Except ReadReply) (p : ReadPage)
    → Shows P x
    → x ≡ ok (page p)
    → P p
Shows-page P x p (throws e) q = absurd cc
Shows-page P x p (fails message) q = absurd cc
Shows-page P x p (shows r h) q = let same : r ≡ p = cc in subst P same h

module _ (outside : Bool) (bytes : Bytes) where
  read_lines-IsWindow :
      (offset limit : ℤ) (hashes : Bool)
      → lt_int offset (pos 0) ≡ false
      → 1 ≤ clamp limit
      → clamp limit ≤ 500
      → Shows
          (IsWindow outside bytes)
          (ok (read_lines outside (parse_file bytes) offset limit hashes))
  unfolding read_lines
  read_lines-IsWindow (negsuc n) limit hashes neg least most = absurd cc
  read_lines-IsWindow (pos n) limit hashes neg least most =
      elim (Bool-cases (ltb (length (parse_file bytes)) n)) [
        | inl past ↦ rw past (fails _)
        | inr fits ↦ rw fits (
            shows _ (record {
              offset = n;
              limit = limit;
              hashes = hashes;
              page = refl;
              within = ground arith;
              least = least;
              most = most;
            }))
      ]

  read_checked-IsWindow :
      (p : Json) (offset limit : ℤ)
      → 1 ≤ clamp limit
      → clamp limit ≤ 500
      → Shows (IsWindow outside bytes) (read_checked p outside bytes offset limit)
  unfolding read_checked
  read_checked-IsWindow p offset limit least most =
      let P = IsWindow outside bytes in
      Shows-if P (bad_limit (find (ascii "limit") p)) _ _ (λ _. fails _)
        (λ _.
          Shows-if P (lt_int offset (pos 0)) _ _ (λ _. fails _)
            (λ from.
              Shows-bind P (bool_or true (find (ascii "hashes") p)) _
                (λ hashes. read_lines-IsWindow offset limit hashes from least most)))

  read_text-IsWindow :
      (truncate : Bytes → ℤ) (p : Json)
      → Shows (IsWindow outside bytes) (read_text truncate p outside bytes)
  unfolding read_text
  read_text-IsWindow truncate p =
      let P = IsWindow outside bytes in
      Shows-bind P (int_or truncate (pos 0) (find (ascii "offset") p)) _ (λ offset.
        Shows-bind P (int_or truncate default_lines (find (ascii "limit") p)) _ (λ limit.
          let (least, most) =
            clamp_int-within limit 1 500 200 (omega arith) (omega arith) (omega arith) in
          read_checked-IsWindow p offset _ least most))

-- The page is of the file that was resolved, and its flag is the jail's.
pub record IsPageOf (files : Files) (r : ResolveResult) (p : ReadPage) : Type 0 where
  pub bytes : Bytes
  pub found : files.read_all r.path ≡ some bytes
  pub fine : r.error ≡ []
  pub window : IsWindow r.outside_workspace bytes p

Shows-map :
    (P Q : ReadPage → Type 0) (x : Except ReadReply)
    → ((p : ReadPage) → P p → Q p)
    → Shows P x
    → Shows Q x
Shows-map P Q x f (throws e) = throws e
Shows-map P Q x f (fails message) = fails message
Shows-map P Q x f (shows p h) = shows p (f p h)

module _ (truncate : Bytes → ℤ) (disk : Disk) (files : Files) (p : Json) (r : ResolveResult) where
  read_bytes-IsPageOf :
      (o : Option Bytes)
      → files.read_all r.path ≡ o
      → r.error ≡ []
      → Shows (IsPageOf files r) (read_bytes truncate disk p r o)
  unfolding read_bytes
  read_bytes-IsPageOf none q fine = fails _
  read_bytes-IsPageOf (some bytes) q fine =
      Shows-if (IsPageOf files r) (looks_binary bytes) _ _ (λ _. fails _)
        (λ _.
          Shows-map (IsWindow r.outside_workspace bytes) (IsPageOf files r) _
            (λ shown w. record { bytes = bytes; found = q; fine = fine; window = w })
            (read_text-IsWindow r.outside_workspace bytes truncate p))

  read_at-IsPageOf : Shows (IsPageOf files r) (read_at truncate disk files p r)
  unfolding read_at
  read_at-IsPageOf =
      Shows-if (IsPageOf files r) (not (is_empty r.error)) _ _ (λ _. fails _)
        (λ fine.
          Shows-if (IsPageOf files r) (not (files.is_regular_file r.path)) _ _ (λ _. fails _)
            (λ _.
              read_bytes-IsPageOf (files.read_all r.path) refl
                (no_text r.error (ground (arith, fine)))))

abbrev flag_of : ReadPage → Bool
flag_of p = p.outside_workspace

-- In a jail whose directories are canonical, a page that the read tool shows for a path is a window
-- of the lines of the file that the path resolves to, of 500 lines at most and cut to the size
-- limit; a page that is not flagged is of a file below the root or an allowed directory.
pub read-IsPageOf :
    (truncate : Bytes → ℤ) (disk : Disk) (files : Files) (jail : WorkspaceJail) (request : Json)
    (user : Bytes) (p : ReadPage)
    → IsJailed jail
    → text_or [] (find (ascii "path") (payload request)) ≡ ok user
    → read truncate disk files jail request ≡ ok (page p)
    → IsPageOf files (resolve disk jail user false) p
      × (p.outside_workspace ≡ false → IsConfined jail (resolve disk jail user false).path)
unfolding read
read-IsPageOf truncate disk files jail request user p h given shown =
    let r = resolve disk jail user false in
    let here : Shows (IsPageOf files r) (read truncate disk files jail request) =
      rw given (read_at-IsPageOf truncate disk files (payload request) r) in
    let made = Shows-page (IsPageOf files r) _ p here shown in
    (
      made,
      λ inside.
          resolve-IsConfined disk jail user false h made.fine
            (sym (ap flag_of made.window.page) ∙ inside),
    )
