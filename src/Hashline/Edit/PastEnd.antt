-- ===== src/Hashline/Edit/PastEnd.antt =====
-- A range that runs past the end of the file.
use tool_smith.Base.Int.{ℤ, pos, lt_int, le_int}
use tool_smith.Base.{
  ℕ, ◌<◌, ◌≡◌, refl, ◌∙◌, Bool, true, false, List, [], ◌∷◌, arith, some, if◌then◌else◌, length,
  str_eq, str_eq_refl, leb, ltb,
}
use tool_smith.Hashline.Parse.{Line}
use tool_smith.Hashline.Edit.{
  Hunk, find_line, last_line, apply_at, apply_hunk, apply_all, apply_hunks, end_anchored,
  replace_lines, undefined, sort_by, insert_by, overlapping,
}
use tool_smith.Hashline.Edit.Order.{IsProper, first_of_hunk, last_of_hunk}

both_pass {ℓ} :
    {A : Type ℓ} (b c : Bool) (x y z : A) {w : A}
    → b ≡ false
    → c ≡ false
    → z ≡ w
    → (if b then x else if c then y else z) ≡ w
both_pass b c x y z p q r = rw (p, q) r

le_int-leb : (x y : ℤ) (a b : ℕ) → x ≡ pos a → y ≡ pos b → le_int x y ≡ leb a b
le_int-leb x y a b p q = rw (p, q)

lt_int-ltb : (x y : ℤ) (a b : ℕ) → x ≡ pos a → y ≡ pos b → lt_int x y ≡ ltb a b
lt_int-ltb x y a b p q = rw (p, q)

apply_at-undefined :
    (lines : List Line) (h : Hunk) (l : Line) (start end : ℕ)
    → find_line lines (pos start) ≡ some l
    → l.hash ≡ h.start_hash
    → h.end_hash ≡ []
    → length lines < end
    → apply_at lines h start end ≡ undefined
unfolding apply_at end_anchored replace_lines
apply_at-undefined lines h l start end found same open_end past =
    let hit : str_eq l.hash h.start_hash ≡ true = rw same (str_eq_refl h.start_hash) in
    let long : ltb (length lines) end ≡ true = ground arith in
    rw (found, apply_at, hit, open_end, long) refl

apply_hunk-undefined :
    (lines : List Line) (h : Hunk) (l : Line)
    → IsProper h
    → find_line lines (pos (first_of_hunk h)) ≡ some l
    → l.hash ≡ h.start_hash
    → h.end_hash ≡ []
    → length lines < last_of_hunk h
    → apply_hunk lines h ≡ undefined
unfolding apply_hunk
apply_hunk-undefined lines h l p found same open_end past =
    both_pass _ _ _ _ _ (le_int-leb h.start_line (pos 0) _ _ p.first refl ∙ ground arith)
      (lt_int-ltb (last_line h) h.start_line _ _ p.last p.first ∙ ground arith)
      (apply_at-undefined lines h l _ _ found same open_end past)

-- A proper hunk with a fresh start anchor, no end anchor, and a last line past the end of the file
-- is not refused: the code goes on to erase past the end of its vector.
pub apply_hunks-past_end :
    (lines : List Line) (h : Hunk) (l : Line)
    → IsProper h
    → find_line lines (pos (first_of_hunk h)) ≡ some l
    → l.hash ≡ h.start_hash
    → h.end_hash ≡ []
    → length lines < last_of_hunk h
    → apply_hunks lines (h ∷ []) ≡ undefined
unfolding apply_hunks apply_all sort_by insert_by overlapping
apply_hunks-past_end lines h l p found same open_end past =
    rw (apply_hunk-undefined lines h l p found same open_end past)
