-- ===== src/Hashline/Read/Window.antt =====
-- A read shows a window of the lines, and says where the next one starts.
use tool_smith.Base.Int.{ℤ, pos, clamp}
use tool_smith.Base.{
  ℕ, zero, suc, ◌+◌, ◌-◌, ◌<◌, ◌≡◌, refl, sym, ◌∙◌, ap, Bool, true, false, List, [], ◌∷◌, ◌++◌,
  arith, append_assoc, append-nil, leb, ltb, Bytes, take, drop, length, length-drop, take-nil,
  drop-nil, tests, drop-drop, take-add,
}
use native.Mathlib.Nat.{add-zero}
use tool_smith.Hashline.Parse.{Line, NumberedFrom}
use tool_smith.Hashline.Read.{ReadResult, row, read_loop, format_read}

abbrev pub rows : Bool → List Line → Bytes
rows hashes [] = []
rows hashes (l ∷ ls) = row hashes l ++ rows hashes ls

-- The number of the first line that is left over; zero if there is none.
abbrev pub next_number : List Line → ℕ
next_number [] = 0
next_number (l ∷ ls) = l.number

abbrev window : Bool → ℕ → List Line → Bytes → ReadResult
window hashes room lines out = record {
  text = out ++ rows hashes (take room lines);
  truncated = ltb room (length lines);
  next_line = next_number (drop room lines);
}

ReadResult_path :
    {s t : Bytes} {b c : Bool} {m n : ℕ}
    → s ≡ t
    → b ≡ c
    → m ≡ n
    → ◌≡◌ {A = ReadResult}
        (record { text = s; truncated = b; next_line = m })
        (record { text = t; truncated = c; next_line = n })
ReadResult_path p q r = λ i. record { text = p i; truncated = q i; next_line = r i }

read_loop-window :
    (limit : ℕ) (hashes : Bool) (lines : List Line) (emitted room : ℕ) (out : Bytes)
    → limit ≡ emitted + room
    → read_loop limit hashes emitted lines out ≡ window hashes room lines out
unfolding read_loop
read_loop-window limit hashes [] emitted room out e =
    rw (take-nil Line room, drop-nil Line room)
      (ReadResult_path (sym (append-nil out)) (ground arith) refl)
read_loop-window limit hashes (l ∷ lines) emitted zero out e =
    let full : leb limit emitted ≡ true = ground arith in
    rw full (ReadResult_path (sym (append-nil out)) (ground arith) refl)
read_loop-window limit hashes (l ∷ lines) emitted (suc room) out e =
    let more : leb limit emitted ≡ false = ground arith in
    rw more (
      read_loop-window limit hashes lines (suc emitted) room (out ++ row hashes l) (omega arith)
      ∙ ReadResult_path (append_assoc out (row hashes l) (rows hashes (take room lines)))
          (ground arith) refl)

-- A read shows the rows of the lines from offset on, limit of them at most (negative bounds count
-- as zero); it is marked as truncated exactly when lines are left over, and then names the first of
-- them.
pub format_read-window :
    (lines : List Line) (offset limit : ℤ) (hashes : Bool)
    → format_read lines offset limit hashes ≡ record {
      text = rows hashes (take (clamp limit) (drop (clamp offset) lines));
      truncated = ltb (clamp limit) (length (drop (clamp offset) lines));
      next_line = next_number (drop (clamp limit) (drop (clamp offset) lines));
    }
unfolding format_read
format_read-window lines offset limit hashes =
    read_loop-window (clamp limit) hashes (drop (clamp offset) lines) 0 (clamp limit) []
      (omega arith)

NumberedFrom-drop :
    (k n : ℕ) (ls : List Line) → NumberedFrom n ls → NumberedFrom (n + k) (drop k ls)
NumberedFrom-drop zero n ls h = rw add-zero h
NumberedFrom-drop (suc k) n [] h = tt
NumberedFrom-drop (suc k) n (l ∷ ls) (e, h) =
    let step : suc n + k ≡ n + suc k = omega arith in rw step at (NumberedFrom-drop k (suc n) ls h)

rows-append :
    (hashes : Bool) (xs ys : List Line) → rows hashes (xs ++ ys) ≡ rows hashes xs ++ rows hashes ys
rows-append hashes [] ys = refl
rows-append hashes (l ∷ xs) ys =
    ap (◌++◌ (row hashes l)) (rows-append hashes xs ys)
    ∙ sym (append_assoc (row hashes l) (rows hashes xs) (rows hashes ys))

first_number : (n : ℕ) (ls : List Line) → NumberedFrom n ls → 0 < length ls → next_number ls ≡ n
first_number n [] h p = absurd (omega arith)
first_number n (l ∷ ls) (e, h) p = e

-- For lines numbered from one: a truncated read names the line after its last, and its text
-- followed by that of a read from there on is the text of one longer read.
pub format_read_continues :
    (lines : List Line) (offset limit more : ℕ) (hashes : Bool)
    → NumberedFrom 1 lines
    → (format_read lines (pos offset) (pos limit) hashes).truncated ≡ true
    → let first = format_read lines (pos offset) (pos limit) hashes in
      (first.next_line ≡ offset + limit + 1)
      × (first.text ++ (format_read lines (pos (first.next_line - 1)) (pos more) hashes).text
          ≡ (format_read lines (pos offset) (pos (limit + more)) hashes).text)
format_read_continues lines offset limit more hashes n t =
    let after = drop limit (drop offset lines) in
    let first = format_read-window lines (pos offset) (pos limit) hashes in
    let left : ltb limit (length (drop offset lines)) ≡ true =
      ap (λ r. r.truncated) (sym first) ∙ t in
    let start =
      NumberedFrom-drop limit (1 + offset) (drop offset lines)
        (NumberedFrom-drop offset 1 lines n) in
    let next : next_number after ≡ offset + limit + 1 =
      first_number (1 + offset + limit) after start
        (omega (tests, left, length-drop limit (drop offset lines)))
      ∙ omega arith in
    let ahead : next_number after - 1 ≡ offset + limit = omega (arith, next) in
    rw (first, format_read-window lines (pos offset) (pos (limit + more)) hashes)
      (
        next,
        rw (ahead, format_read-window lines (pos (offset + limit)) (pos more) hashes)
            (sym (
              ap (rows hashes) (take-add limit more (drop offset lines))
              ∙ rows-append hashes (take limit (drop offset lines)) (take more after)
              ∙ ap
                  (λ ls. rows hashes (take limit (drop offset lines)) ++ rows hashes (take more ls))
                  (drop-drop offset limit lines))),
      )
