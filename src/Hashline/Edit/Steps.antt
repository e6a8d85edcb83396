-- ===== src/Hashline/Edit/Steps.antt =====
-- What one round of the loop has checked, and what it makes of the lines, if it succeeds.
use tool_smith.Base.Int.{ℤ, pos, negsuc, lt_int, le_int, clamp}
use tool_smith.Base.{
  ℕ, zero, suc, ◌-◌, ◌≤◌, ◌<◌, ◌≡◌, refl, sym, ◌∙◌, ap, true, false, List, [], ◌++◌, arith,
  Bool-cases, inl, inr, Option-cases, Option, none, some, if◌then◌else◌, ltb, leb, Bytes, str_eq,
  str_eq_sound, length, take, drop, get_elem?, get_elem?-map, ◌==◌,
}
use tool_smith.Hashline.Parse.{Line, hashes_of}
use tool_smith.Hashline.Edit.{
  Hunk, last_line, find_line, content_lines, renumber, replace_lines, apply_at, apply_hunk,
  stale_missing, done, refused, undefined,
}
use tool_smith.Hashline.Edit.Order.{IsProper, first_of_hunk, last_of_hunk}

-- The start anchor names a line of the file, by its number and its hash.
abbrev pub IsFresh : List Line → Hunk → Type 0
IsFresh lines h = get_elem? (hashes_of lines) (first_of_hunk h - 1) ≡ some h.start_hash

pub record Round (working result : List Line) (h : Hunk) : Type 0 where
  pub proper : IsProper h
  pub fresh : IsFresh working h
  pub fits : last_of_hunk h ≤ length working
  pub replaced :
      result
      ≡ renumber 1 (
          take (first_of_hunk h - 1) working
          ++ (content_lines (first_of_hunk h) [] h.content ++ drop (last_of_hunk h) working))

IsProper-of :
    (h : Hunk)
    → le_int h.start_line (pos 0) ≡ false
    → lt_int (last_line h) h.start_line ≡ false
    → IsProper h
IsProper-of h p q = go h.start_line (last_line h) refl refl
  where
    go : (s l : ℤ) → h.start_line ≡ s → last_line h ≡ l → IsProper h
    go (pos a) (pos b) e f =
        let above : leb a 0 ≡ false = rw e at p in
        let order : ltb b a ≡ false = rw (f, e) at q in
        let start = ap clamp e in
        let stop = ap clamp f in
        record {
          first = e ∙ ap pos (sym start);
          last = f ∙ ap pos (sym stop);
          positive = rw start (ground arith);
          ends = rw (start, stop) (ground arith);
        }
    go (pos a) (negsuc b) e f = let wrong : true ≡ false = rw (f, e) at q in cc
    go (negsuc a) l e f = let wrong : true ≡ false = rw e at p in cc

find_line-get :
    (ls : List Line) (n : ℕ) (l : Line)
    → 0 < n
    → find_line ls (pos n) ≡ some l
    → get_elem? ls (n - 1) ≡ some l
unfolding find_line
find_line-get ls zero l p e = absurd (omega arith)
find_line-get ls (suc n) l p e = elim (Option-cases (get_elem? ls n)) [
  | inl missing ↦ let wrong : none ≡ some l = rw (missing, find_line) at e in cc
  | inr (k, found) ↦
      let here : (if k.number == suc n then some k else none) ≡ some l =
        rw (found, find_line) at e in
      let index : suc n - 1 ≡ n = omega arith in
      rw (index, found)
        (elim (Bool-cases (k.number == suc n)) [
          | inl same ↦ rw same at here
          | inr other ↦ let wrong : none ≡ some l = rw other at here in cc
        ])
]

replace_lines-done :
    (working result : List Line) (start end : ℕ) (content : Bytes)
    → replace_lines working start end content ≡ done result
    → (end ≤ length working)
      × (result
          ≡ renumber 1
              (take (start - 1) working ++ (content_lines start [] content ++ drop end working)))
unfolding replace_lines
replace_lines-done working result start end content e =
    elim (Bool-cases (ltb (length working) end)) [
      | inl past ↦ let wrong : undefined ≡ done result = rw (past, replace_lines) at e in cc
      | inr within ↦
          let same : done (
                renumber 1 (
                  take (start - 1) working ++ (content_lines start [] content ++ drop end working)))
              ≡ done result =
            rw (within, replace_lines) at e in
          (ground arith, cc)
    ]

apply_at-done :
    (working result : List Line) (h : Hunk) (start end : ℕ)
    → apply_at working h start end ≡ done result
    → (l : Line) × (find_line working (pos start) ≡ some l)
      × (l.hash ≡ h.start_hash)
      × (replace_lines working start end h.content ≡ done result)
unfolding apply_at
apply_at-done working result h start end e = go (find_line working (pos start)) refl
  where
    go :
        (o : Option Line)
        → find_line working (pos start) ≡ o
        → (l : Line) × (find_line working (pos start) ≡ some l)
          × (l.hash ≡ h.start_hash)
          × (replace_lines working start end h.content ≡ done result)
    go none missing =
        let wrong : refused (stale_missing h) ≡ done result = rw (missing, apply_at) at e in cc
    go (some l) found =
        let matched : str_eq l.hash h.start_hash ≡ true = ground arith in
        (l, found, str_eq_sound l.hash h.start_hash matched, ground arith)

pub apply_hunk-Round :
    (working result : List Line) (h : Hunk)
    → apply_hunk working h ≡ done result
    → Round working result h
unfolding apply_hunk
apply_hunk-Round working result h e =
    let positive : le_int h.start_line (pos 0) ≡ false = ground arith in
    let order : lt_int (last_line h) h.start_line ≡ false = ground arith in
    let applied : apply_at working h (first_of_hunk h) (last_of_hunk h) ≡ done result =
      ground arith in
    let proper = IsProper-of h positive order in
    let (l, found, same, made) =
      apply_at-done working result h (first_of_hunk h) (last_of_hunk h) applied in
    let (fits, made') =
      replace_lines-done working result (first_of_hunk h) (last_of_hunk h) h.content made in
    record {
      proper = proper;
      fresh =
          get_elem?-map (λ k. k.hash) working (first_of_hunk h - 1)
            (find_line-get working (first_of_hunk h) l proper.positive found)
          ∙ ap some same;
      fits = fits;
      replaced = made';
    }
