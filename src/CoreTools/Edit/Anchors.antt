-- ===== src/CoreTools/Edit/Anchors.antt =====
-- Hunks whose end, where it lies behind their start, is anchored: they never erase past the end.
use tool_smith.Base.Int.{pos, clamp}
use tool_smith.Base.{
  ℕ, zero, suc, ◌≤◌, ◌<◌, ◌≡◌, ◌≢◌, refl, Bool, true, false, List, [], ◌∷◌, arith, Bool-cases, inl,
  inr, Option-cases, some, none, Option, Bytes, str_eq, if◌then◌else◌, ltb, ◌==◌, is_empty, length,
  get_elem?, All,
}
use tool_smith.Hashline.Parse.{Line}
use tool_smith.Hashline.Edit.{
  Hunk, Outcome, hash_matches, done, refused, undefined, last_line, find_line, end_anchored,
  replace_lines, apply_at, apply_hunk, apply_all, ◌>>=◌, apply_hunks, sort_by, descending,
  ascending, overlapping,
}
use tool_smith.Hashline.Edit.Order.{All-sort_by}

abbrev pub IsAnchored : Hunk → Type 0
IsAnchored h = is_empty h.end_hash ≡ true → last_line h ≡ h.start_line

get_elem?-within : (ls : List Line) (n : ℕ) (l : Line) → get_elem? ls n ≡ some l → n < length ls
get_elem?-within [] n l e = absurd cc
get_elem?-within (k ∷ ls) zero l e = omega arith
get_elem?-within (k ∷ ls) (suc n) l e = omega (arith, get_elem?-within ls n l e)

find_line-within :
    (ls : List Line) (n : ℕ) (l : Line) → find_line ls (pos n) ≡ some l → n ≤ length ls
unfolding find_line
find_line-within ls zero l e = omega arith
find_line-within ls (suc n) l e = elim (Option-cases (get_elem? ls n)) [
  | inl missing ↦ let wrong : none ≡ some l = rw (missing, find_line) at e in absurd cc
  | inr (k, found) ↦ omega (arith, get_elem?-within ls n k found)
]

replace_lines-defined :
    (working : List Line) (start end : ℕ) (content : Bytes)
    → end ≤ length working
    → replace_lines working start end content ≢ undefined
unfolding replace_lines
replace_lines-defined working start end content le e =
    let within : ltb (length working) end ≡ false = ground arith in
    let wrong : done _ ≡ undefined = rw (within, replace_lines) at e in cc

hash_matches-found :
    (o : Option Line) (hash : Bytes) → hash_matches o hash ≡ true → (l : Line) × (o ≡ some l)
hash_matches-found none hash e = absurd cc
hash_matches-found (some l) hash e = (l, refl)

-- The end that is anchored is a line of the file.
end_anchored-within :
    (working : List Line) (h : Hunk) (end : ℕ)
    → is_empty h.end_hash ≡ false
    → clamp h.start_line ≤ length working
    → end_anchored working h end ≡ true
    → end ≤ length working
unfolding end_anchored
end_anchored-within working h end given le e = elim (Bool-cases (end == clamp h.start_line)) [
  | inl same ↦ ground arith
  | inr other ↦
      let hit : hash_matches (find_line working (pos end)) h.end_hash ≡ true =
        rw (given, other) at e in
      let (l, found) = hash_matches-found (find_line working (pos end)) h.end_hash hit in
      find_line-within working end l found
]

-- The same, whether or not an end anchor is given.
ends_within :
    (working : List Line) (h : Hunk)
    → IsAnchored h
    → clamp h.start_line ≤ length working
    → end_anchored working h (clamp (last_line h)) ≡ true
    → clamp (last_line h) ≤ length working
ends_within working h a le e = elim (Bool-cases (is_empty h.end_hash)) [
  | inl open_end ↦ rw (a open_end) le
  | inr given ↦ end_anchored-within working h (clamp (last_line h)) given le e
]

apply_at-defined :
    (working : List Line) (h : Hunk)
    → IsAnchored h
    → apply_at working h (clamp h.start_line) (clamp (last_line h)) ≢ undefined
unfolding apply_at
apply_at-defined working h a e =
    elim (Option-cases (find_line working (pos (clamp h.start_line)))) [
      | inl missing ↦ let wrong : refused _ ≡ undefined = rw (missing, apply_at) at e in cc
      | inr (l, found) ↦
          let here = find_line-within working (clamp h.start_line) l found in
          elim (Bool-cases (str_eq l.hash h.start_hash)) [
            | inr stale ↦ let wrong : refused _ ≡ undefined = rw (found, apply_at, stale) at e in cc
            | inl fresh ↦ elim (Bool-cases (end_anchored working h (clamp (last_line h)))) [
              | inr loose ↦
                  let wrong : refused _ ≡ undefined = rw (found, apply_at, fresh, loose) at e in cc
              | inl tied ↦
                  replace_lines-defined working (clamp h.start_line) (clamp (last_line h)) h.content
                    (ends_within working h a here tied) (rw (found, apply_at, fresh, tied) at e)
            ]
          ]
    ]

apply_hunk-defined :
    (working : List Line) (h : Hunk) → IsAnchored h → apply_hunk working h ≢ undefined
unfolding apply_hunk
apply_hunk-defined working h a e = apply_at-defined working h a (ground arith)

bind-defined :
    {A B : Type 0} (o : Outcome A) (f : A → Outcome B)
    → o ≢ undefined
    → ((a : A) → f a ≢ undefined)
    → (o >>= f) ≢ undefined
bind-defined (done a) f p q = q a
bind-defined (refused m) f p q = λ e. cc
bind-defined undefined f p q = λ e. p refl

apply_all-defined :
    (working : List Line) (hs : List Hunk) → All IsAnchored hs → apply_all working hs ≢ undefined
unfolding apply_all
apply_all-defined working [] a = λ e. cc
apply_all-defined working (h ∷ hs) (v, a) =
    bind-defined (apply_hunk working h) (λ next. apply_all next hs) (apply_hunk-defined working h v)
      (λ next. apply_all-defined next hs a)

refused_or :
    {A : Type 0} (b : Bool) (m : Bytes) (o : Outcome A)
    → o ≢ undefined
    → (if b then refused m else o) ≢ undefined
refused_or true m o p = λ e. cc
refused_or false m o p = p

pub apply_hunks-defined :
    (lines : List Line) (hunks : List Hunk)
    → All IsAnchored hunks
    → apply_hunks lines hunks ≢ undefined
unfolding apply_hunks
apply_hunks-defined lines hunks a = refused_or (is_empty hunks) _ _ (
    refused_or (overlapping (sort_by ascending hunks)) _ _ (
      bind-defined (apply_all lines (sort_by descending hunks)) _
        (apply_all-defined lines (sort_by descending hunks)
          (All-sort_by descending IsAnchored hunks a))
        (λ working e. cc)))
