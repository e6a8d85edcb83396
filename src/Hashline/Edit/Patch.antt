-- ===== src/Hashline/Edit/Patch.antt =====
-- A successful edit, against its specification on the lines of the file as it was read.
use mathlib.Core.List.{map-append}
use tool_smith.Base.{
  ℕ, suc, ◌-◌, ◌≤◌, ◌<◌, ◌≡◌, refl, sym, ◌∙◌, ap, false, List, [], ◌∷◌, ◌++◌, arith, if◌then◌else◌,
  Bytes, length, take, drop, get_elem?, is_empty, All, append_assoc, map-take, map-drop, length-map,
  length-take, take_append_left, drop_append_left, get_elem?-append_left, get_elem?-take,
}
use tool_smith.Hashline.Parse.{Line, texts, hashes_of}
use tool_smith.Hashline.Edit.{
  Hunk, content_lines, renumber, apply_hunk, apply_all, apply_hunks, Outcome, ◌>>=◌, done, refused,
  undefined, join_lines, sort_by, ascending, descending, overlapping,
}
use tool_smith.Hashline.Edit.Order.{
  IsProper, first_of_hunk, last_of_hunk, Above, Upward, sort_by-Upward, sort_by-All,
}
use tool_smith.Hashline.Edit.Steps.{Round, IsFresh, apply_hunk-Round}

-- The texts with the range of each hunk replaced, all ranges taken in the given texts; the hunks stand
-- in the order of `apply_all`, the lowest of the file first.
abbrev pub patch : List Bytes → List Hunk → List Bytes
patch ts [] = ts
patch ts (h ∷ hs) =
    patch (take (first_of_hunk h - 1) ts) hs
    ++ (texts (content_lines (first_of_hunk h) [] h.content) ++ drop (last_of_hunk h) ts)

texts-renumber : (n : ℕ) (ls : List Line) → texts (renumber n ls) ≡ texts ls
unfolding renumber
texts-renumber n [] = refl
texts-renumber n (l ∷ ls) = ap (◌∷◌ l.text) (texts-renumber (suc n) ls)

hashes_of-renumber : (n : ℕ) (ls : List Line) → hashes_of (renumber n ls) ≡ hashes_of ls
unfolding renumber
hashes_of-renumber n [] = refl
hashes_of-renumber n (l ∷ ls) = ap (◌∷◌ l.hash) (hashes_of-renumber (suc n) ls)

patch-append :
    (ts us : List Bytes) (hs : List Hunk)
    → All IsProper hs
    → All (λ h. last_of_hunk h ≤ length ts) hs
    → patch (ts ++ us) hs ≡ patch ts hs ++ us
patch-append ts us [] p f = refl
patch-append ts us (h ∷ hs) (p, _) (f, _) =
    let start : first_of_hunk h - 1 ≤ length ts = omega (arith, p.ends) in
    rw
      (
        take_append_left (first_of_hunk h - 1) ts us start,
        drop_append_left (last_of_hunk h) ts us f,
      )
      (simp append_assoc)

module _ (h : Hunk) (working result : List Line) (r : Round working result h) where
  texts-Round :
      texts result
      ≡ take (first_of_hunk h - 1) (texts working)
        ++ (texts (content_lines (first_of_hunk h) [] h.content)
            ++ drop (last_of_hunk h) (texts working))
  texts-Round = rw (r.replaced, texts-renumber) (simp (map-append, map-take, map-drop))

  hashes_of-Round :
      hashes_of result
      ≡ take (first_of_hunk h - 1) (hashes_of working)
        ++ (hashes_of (content_lines (first_of_hunk h) [] h.content)
            ++ drop (last_of_hunk h) (hashes_of working))
  hashes_of-Round = rw (r.replaced, hashes_of-renumber) (simp (map-append, map-take, map-drop))

  -- A hunk that lies above `h` is as fresh after the round as before it.
  IsFresh-before : (k : Hunk) → IsProper k → Above k h → IsFresh result k → IsFresh working k
  IsFresh-before k p a e =
      let kept = take (first_of_hunk h - 1) (hashes_of working) in
      let index : first_of_hunk k - 1 < first_of_hunk h - 1 = omega (arith, p.ends, p.positive) in
      let inside : first_of_hunk k - 1 < length kept = omega (
        arith,
        index,
        length-take (first_of_hunk h - 1) (hashes_of working),
        length-map (λ l. l.hash) working,
        r.fits,
        r.proper.ends,
      ) in
      sym (get_elem?-take (first_of_hunk h - 1) (first_of_hunk k - 1) (hashes_of working) index)
      ∙ sym (get_elem?-append_left kept _ (first_of_hunk k - 1) inside)
      ∙ ap (λ hs. get_elem? hs (first_of_hunk k - 1)) (sym hashes_of-Round)
      ∙ e

  -- What is left above `h` has room for each hunk above it.
  room-Above :
      (k : Hunk) → Above k h → last_of_hunk k ≤ length (take (first_of_hunk h - 1) (texts working))
  room-Above k a = omega (
    arith,
    length-take (first_of_hunk h - 1) (texts working),
    length-map (λ l. l.text) working,
    r.fits,
    r.proper.ends,
  )

  All-room :
      (hs : List Hunk)
      → All (λ k. Above k h) hs
      → All (λ k. last_of_hunk k ≤ length (take (first_of_hunk h - 1) (texts working))) hs
  All-room [] a = tt
  All-room (k ∷ hs) (a, as') = (room-Above k a, All-room hs as')

  All-IsFresh_before :
      (hs : List Hunk)
      → All IsProper hs
      → All (λ k. Above k h) hs
      → All (IsFresh result) hs
      → All (IsFresh working) hs
  All-IsFresh_before [] p a f = tt
  All-IsFresh_before (k ∷ hs) (p, ps) (a, above) (f, fs) =
      (IsFresh-before k p a f, All-IsFresh_before hs ps above fs)

bind-done {ℓ κ} :
    {A : Type ℓ} {B : Type κ} (m : Outcome A) (f : A → Outcome B) {b : B}
    → (m >>= f) ≡ done b
    → (a : A) × (m ≡ done a) × (f a ≡ done b)
bind-done (done a) f h = (a, refl, h)
bind-done (refused e) f h = cc
bind-done undefined f h = cc

-- A run of `apply_all` that succeeds found every hunk proper.
apply_all-IsProper :
    (working result : List Line) (hs : List Hunk)
    → apply_all working hs ≡ done result
    → All IsProper hs
unfolding apply_all
apply_all-IsProper working result [] e = tt
apply_all-IsProper working result (h ∷ hs) e =
    let (next, first, rest) = bind-done (apply_hunk working h) (λ w. apply_all w hs) e in
    ((apply_hunk-Round working next h first).proper, apply_all-IsProper next result hs rest)

-- And, if the hunks go upward, every hunk fresh in the lines at the start; it is a patch of these.
apply_all-patch :
    (hs : List Hunk) (working result : List Line)
    → Upward hs
    → apply_all working hs ≡ done result
    → All (IsFresh working) hs × (texts result ≡ patch (texts working) hs)
unfolding apply_all
apply_all-patch [] working result u e = (tt, ap texts cc)
apply_all-patch (h ∷ hs) working result (above, u) e =
    let (next, first, rest) = bind-done (apply_hunk working h) (λ w. apply_all w hs) e in
    let r = apply_hunk-Round working next h first in
    let proper = apply_all-IsProper next result hs rest in
    let (fresh, same) = apply_all-patch hs next result u rest in
    (
      (r.fresh, All-IsFresh_before h working next r hs proper above fresh),
      same
          ∙ ap (λ ts. patch ts hs) (texts-Round h working next r)
          ∙ patch-append _ _ hs proper (All-room h working next r hs above),
    )

-- The texts with a newline behind each; one newline alone where there is none.
abbrev pub join_texts : List Bytes → Bytes
join_texts [] = b'\n' ∷ []
join_texts (t ∷ []) = t ++ b'\n' ∷ []
join_texts (t ∷ u ∷ ts) = t ++ b'\n' ∷ join_texts (u ∷ ts)

join_lines-texts : (ls : List Line) → join_lines ls ++ b'\n' ∷ [] ≡ join_texts (texts ls)
unfolding join_lines
join_lines-texts [] = refl
join_lines-texts (l ∷ []) = refl
join_lines-texts (l ∷ k ∷ ls) =
    append_assoc l.text (b'\n' ∷ join_lines (k ∷ ls)) (b'\n' ∷ [])
    ∙ ap (λ t. l.text ++ b'\n' ∷ t) (join_lines-texts (k ∷ ls))

lines_of_fresh :
    (lines : List Line) (hunks : List Hunk)
    → is_empty hunks ≡ false
    → All (IsFresh lines) hunks
    → is_empty lines ≡ false
lines_of_fresh lines [] e f = cc
lines_of_fresh [] (h ∷ hs) e (f, _) = cc
lines_of_fresh (l ∷ ls) (h ∷ hs) e f = refl

written_of_done : {s t : Bytes} → done s ≡ done t → s ≡ t
written_of_done e = cc

-- An edit that succeeds has found every hunk proper (its first line positive and not past its last)
-- and fresh (its start anchor's hash is that of the named line in the file as read), and writes the
-- lines of that file with each hunk's range replaced by the hunk's lines, all ranges counted in the
-- file as it was read.
pub apply_hunks-patch :
    (lines : List Line) (hunks : List Hunk) (written : Bytes)
    → apply_hunks lines hunks ≡ done written
    → All IsProper hunks
      × All (IsFresh lines) hunks
      × (written ≡ join_texts (patch (texts lines) (sort_by descending hunks)))
unfolding apply_hunks
apply_hunks-patch lines hunks written e =
    let some_hunk : is_empty hunks ≡ false = ground arith in
    let apart : overlapping (sort_by ascending hunks) ≡ false = ground arith in
    let finish : List Line → Outcome Bytes =
      λ w. done (if is_empty lines then join_lines w else join_lines w ++ b'\n' ∷ []) in
    let run : (apply_all lines (sort_by descending hunks) >>= finish) ≡ done written =
      rw (some_hunk, apart, apply_hunks) at e in
    let (result, all_done, last) =
      bind-done (apply_all lines (sort_by descending hunks)) finish run in
    let proper = apply_all-IsProper lines result (sort_by descending hunks) all_done in
    let (fresh, same) =
      apply_all-patch (sort_by descending hunks) lines result (sort_by-Upward hunks proper apart)
        all_done in
    let fresh' = sort_by-All descending (IsFresh lines) hunks fresh in
    let shown : done (join_lines result ++ b'\n' ∷ []) ≡ done written =
      rw (lines_of_fresh lines hunks some_hunk fresh') at last in
    (
      sort_by-All descending IsProper hunks proper,
      fresh',
      sym (written_of_done shown) ∙ join_lines-texts result ∙ ap join_texts same,
    )
