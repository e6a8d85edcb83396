-- ===== src/Hashline/Edit.antt =====
-- `Hunk`, `FindLine` and `ApplyHunks`.
pub mod Steps
pub mod Patch
pub mod PastEnd
pub mod Order
use tool_smith.Base.Int.{ℤ, pos, negsuc, lt_int, le_int, clamp}
use tool_smith.Base.{
  ℕ, zero, suc, ◌+◌, ◌-◌, Bool, true, false, not, ◌&&◌, List, [], ◌∷◌, ◌++◌, Option, none, some,
  ltb, leb, ◌==◌, if◌then◌else◌, Bytes, ascii, str_eq, decimal, is_empty, take, drop, length,
  get_elem?,
}
use tool_smith.Hashline.Parse.{Line, make_line, strip_cr}

pub record Hunk : Type 0 where
  pub start_line : ℤ
  pub start_hash : Bytes
  pub end_line : ℤ
  pub end_hash : Bytes
  pub content : Bytes

-- `undefined`: an iterator past the end of the vector.
pub data Outcome {ℓ} (A : Type ℓ) : Type ℓ where
  done : A → Outcome A
  refused : Bytes → Outcome A
  undefined : Outcome A

infixl 5 ◌>>=◌
abbrev pub ◌>>=◌ {ℓ κ} : {A : Type ℓ} {B : Type κ} → Outcome A → (A → Outcome B) → Outcome B
done a >>= f = f a
refused e >>= f = refused e
undefined >>= f = undefined

abbrev pub last_line : Hunk → ℤ
last_line h = if lt_int (pos 0) h.end_line then h.end_line else h.start_line

-- `std::sort` by start line; hunks of one start line keep their order.
unfoldable pub insert_by : (Hunk → Hunk → Bool) → Hunk → List Hunk → List Hunk
insert_by before h [] = h ∷ []
insert_by before h (k ∷ ks) = if before k h then k ∷ insert_by before h ks else h ∷ k ∷ ks

unfoldable pub sort_by : (Hunk → Hunk → Bool) → List Hunk → List Hunk
unfolding insert_by
sort_by before [] = []
sort_by before (h ∷ hs) = insert_by before h (sort_by before hs)

-- Some hunk, in the order of the start lines, begins before the one above it ends.
unfoldable pub overlapping : List Hunk → Bool
overlapping [] = false
overlapping (h ∷ []) = false
overlapping (h ∷ k ∷ ks) = if le_int k.start_line (last_line h) then true else overlapping (k ∷ ks)

unfoldable pub find_line : List Line → ℤ → Option Line
find_line lines (negsuc n) = none
find_line lines (pos zero) = none
find_line lines (pos (suc n)) = elim (get_elem? lines n) [
  | none ↦ none
  | some l ↦ if l.number == suc n then some l else none
]

-- The replacement as lines; a carriage return before a newline or at the end is dropped.
unfoldable pub content_lines : ℕ → Bytes → Bytes → List Line
content_lines num cur [] = if is_empty cur then [] else make_line num cur ∷ []
content_lines num cur (c ∷ content) =
    let flushed = make_line num cur ∷ content_lines (suc num) [] content in
    let longer = content_lines num (cur ++ c ∷ []) content in if c == b'\n' then flushed else longer

unfoldable pub renumber : ℕ → List Line → List Line
renumber n [] = []
renumber n (l ∷ ls) = record l { number = n } ∷ renumber (suc n) ls

abbrev pub stale_missing : Hunk → Bytes
stale_missing h =
    ascii "Stale hunk: start line " ++ (decimal (clamp h.start_line) ++ ascii " does not exist")

abbrev stale_hash : Hunk → Line → Bytes
stale_hash h l =
    ascii "Stale hunk: expected "
    ++ (decimal (clamp h.start_line)
        ++ (b':'
            ∷ (h.start_hash ++ (ascii " but file has " ++ (decimal l.number ++ (b':' ∷ l.hash))))))

abbrev stale_end : ℕ → Bytes
stale_end end = ascii "Stale hunk: end anchor mismatch at line " ++ decimal end

abbrev pub hash_matches : Option Line → Bytes → Bool
hash_matches none hash = false
hash_matches (some l) hash = str_eq l.hash hash

-- The end anchor is looked at only if it is given and the hunk has more than one line.
unfoldable pub end_anchored : List Line → Hunk → ℕ → Bool
end_anchored working h end =
    if not (is_empty h.end_hash) && not (end == clamp h.start_line)
    then hash_matches (find_line working (pos end)) h.end_hash
    else true

-- `erase` of the lines `start` to `end`, `insert`, and the renumbering.
unfoldable pub replace_lines : List Line → ℕ → ℕ → Bytes → Outcome (List Line)
replace_lines working start end content =
    if ltb (length working) end
    then undefined
    else done (
        renumber 1
          (take (start - 1) working ++ (content_lines start [] content ++ drop end working)))

-- One round of the loop, from the start anchor on; `start` and `end` are positive.
unfoldable pub apply_at : List Line → Hunk → ℕ → ℕ → Outcome (List Line)
apply_at working h start end = elim (find_line working (pos start)) [
  | none ↦ refused (stale_missing h)
  | some l ↦
      if not (str_eq l.hash h.start_hash)
      then refused (stale_hash h l)
      else if not (end_anchored working h end)
      then refused (stale_end end)
      else replace_lines working start end h.content
]

unfoldable pub apply_hunk : List Line → Hunk → Outcome (List Line)
apply_hunk working h =
    if le_int h.start_line (pos 0)
    then refused (ascii "Invalid hunk start line")
    else if lt_int (last_line h) h.start_line
    then refused (ascii "Hunk end line is before start line")
    else apply_at working h (clamp h.start_line) (clamp (last_line h))

unfoldable pub apply_all : List Line → List Hunk → Outcome (List Line)
apply_all working [] = done working
apply_all working (h ∷ hs) = do working' ← apply_hunk working h; apply_all working' hs

-- The texts, with a newline between.
unfoldable pub join_lines : List Line → Bytes
join_lines [] = []
join_lines (l ∷ []) = l.text
join_lines (l ∷ k ∷ ls) = l.text ++ b'\n' ∷ join_lines (k ∷ ls)

unfoldable pub descending : Hunk → Hunk → Bool
descending a b = lt_int b.start_line a.start_line

unfoldable pub ascending : Hunk → Hunk → Bool
ascending a b = lt_int a.start_line b.start_line

unfoldable pub apply_hunks : List Line → List Hunk → Outcome Bytes
apply_hunks lines hunks =
    if is_empty hunks
    then refused (ascii "hunks must not be empty")
    else if overlapping (sort_by ascending hunks)
    then refused (ascii "Overlapping hunks are not allowed")
    else do
      working ← apply_all lines (sort_by descending hunks)
      done (if is_empty lines then join_lines working else join_lines working ++ b'\n' ∷ [])
