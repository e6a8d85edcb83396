-- ===== src/CoreTools/Edit/Reading.antt =====
-- Hunks read from a request are anchored.
use tool_smith.Base.Int.{ℤ, pos}
use tool_smith.Base.{
  ◌≡◌, refl, true, false, List, [], ◌∷◌, arith, Bool-cases, inl, inr, ◌⊎◌, some, none, Option,
  Bytes, subst, is_empty, length, ◌==◌, All,
}
use tool_smith.Base.Except.{Except, ok, throw}
use tool_smith.Json.{Json, null, bool, int, real, str, arr, obj, string_of}
use tool_smith.Hashline.Edit.{Hunk}
use tool_smith.CoreTools.Edit.{
  parse_anchor, make_hunk, read_hunk, read_hunks, well_formed, line_anchor, anchor_of, hunk_of,
  hunk_with, then_hunk, after_hunk, stoi, split_colon, end_of,
}
use tool_smith.CoreTools.Edit.Anchors.{IsAnchored}

hash-given : (hash : Bytes) → (length hash == 4) ≡ true → is_empty hash ≡ false
hash-given [] e = absurd cc
hash-given (c ∷ hash) e = refl

line_anchor-hash :
    (hash : Bytes) (o : Option ℤ) {a : ℤ × Bytes}
    → line_anchor hash o ≡ some a
    → is_empty a.1 ≡ false
line_anchor-hash hash none e = absurd cc
line_anchor-hash hash (some line) {a} e = elim (Bool-cases (well_formed line hash)) [
  | inl good ↦
      let same : some (line, hash) ≡ some a = rw good at e in
      let four : (length hash == 4) ≡ true = ground arith in
      let mine : hash ≡ a.1 = cc in subst (λ s. is_empty s ≡ false) mine (hash-given hash four)
  | inr bad ↦ let wrong : none ≡ some a = rw bad at e in absurd cc
]

anchor_of-hash :
    (o : Option (Bytes × Bytes)) {a : ℤ × Bytes} → anchor_of o ≡ some a → is_empty a.1 ≡ false
anchor_of-hash none e = absurd cc
anchor_of-hash (some (l, hash)) e = line_anchor-hash hash (stoi l) e

parse_anchor-hash : (s : Bytes) {a : ℤ × Bytes} → parse_anchor s ≡ some a → is_empty a.1 ≡ false
unfolding parse_anchor
parse_anchor-hash s e = anchor_of-hash (split_colon s) e

-- Without an end anchor the last line is the first.
end_of-open : (s : Bytes) (e : ℤ × Bytes) → end_of s ≡ some e → is_empty e.1 ≡ true → e.0 ≡ pos 0
end_of-open [] (line, hash) q open_end = cc
end_of-open (c ∷ s) (line, hash) q open_end = absurd (ground (arith, parse_anchor-hash (c ∷ s) q))

hunk_at-IsAnchored : (h : Hunk) → (is_empty h.end_hash ≡ true → h.end_line ≡ pos 0) → IsAnchored h
hunk_at-IsAnchored h opens open_end = rw (opens open_end) refl

hunk_of-IsAnchored :
    (start end : Option (ℤ × Bytes)) (content : Option Bytes) (h : Hunk)
    → ((e : ℤ × Bytes) → end ≡ some e → is_empty e.1 ≡ true → e.0 ≡ pos 0)
    → hunk_of start end content ≡ inr h
    → IsAnchored h
hunk_of-IsAnchored none end content h opens e = absurd cc
hunk_of-IsAnchored (some start) none content h opens e = absurd cc
hunk_of-IsAnchored (some start) (some end) none h opens e = absurd cc
hunk_of-IsAnchored (some (a, b)) (some (line, hash)) (some content) h opens e =
    let made : Hunk = record {
      start_line = a;
      start_hash = b;
      end_line = line;
      end_hash = hash;
      content = content;
    } in
    let same : made ≡ h = cc in
    subst IsAnchored same (hunk_at-IsAnchored made (opens (line, hash) refl))

-- Every hunk that is read from a request.
make_hunk-IsAnchored :
    (start end : Bytes) (content : Option Json) (h : Hunk)
    → make_hunk start end content ≡ inr h
    → IsAnchored h
unfolding make_hunk
make_hunk-IsAnchored start end content h e =
    hunk_of-IsAnchored (parse_anchor start) (end_of end) (string_of content) h (end_of-open end) e

ok_inj : {A : Type 0} {x y : A} → ok x ≡ ok y → x ≡ y
ok_inj e = cc

hunk_with-IsAnchored :
    (start end : Except Bytes) (content : Option Json) (h : Hunk)
    → hunk_with start end content ≡ ok (inr h)
    → IsAnchored h
hunk_with-IsAnchored (throw x) end content h e = absurd cc
hunk_with-IsAnchored (ok start) (throw x) content h e = absurd cc
hunk_with-IsAnchored (ok start) (ok end) content h e =
    make_hunk-IsAnchored start end content h (ok_inj e)

read_hunk-IsAnchored : (j : Json) (h : Hunk) → read_hunk j ≡ ok (inr h) → IsAnchored h
unfolding read_hunk
read_hunk-IsAnchored (obj f) h e = hunk_with-IsAnchored _ _ _ h e
read_hunk-IsAnchored null h e = absurd cc
read_hunk-IsAnchored (bool b) h e = absurd cc
read_hunk-IsAnchored (int n) h e = absurd cc
read_hunk-IsAnchored (real t) h e = absurd cc
read_hunk-IsAnchored (str t) h e = absurd cc
read_hunk-IsAnchored (arr js) h e = absurd cc

then_hunk-All :
    (h : Hunk) (rest : Except (Bytes ⊎ List Hunk)) (hs : List Hunk)
    → IsAnchored h
    → ((ks : List Hunk) → rest ≡ ok (inr ks) → All IsAnchored ks)
    → then_hunk h rest ≡ ok (inr hs)
    → All IsAnchored hs
then_hunk-All h (throw x) hs v k e = absurd cc
then_hunk-All h (ok (inl m)) hs v k e = absurd cc
then_hunk-All h (ok (inr ks)) hs v k e =
    let same : h ∷ ks ≡ hs = cc in subst (All IsAnchored) same (v, k ks refl)

after_hunk-All :
    (first : Except (Bytes ⊎ Hunk)) (rest : Except (Bytes ⊎ List Hunk)) (hs : List Hunk)
    → ((h : Hunk) → first ≡ ok (inr h) → IsAnchored h)
    → ((ks : List Hunk) → rest ≡ ok (inr ks) → All IsAnchored ks)
    → after_hunk first rest ≡ ok (inr hs)
    → All IsAnchored hs
after_hunk-All (throw x) rest hs v k e = absurd cc
after_hunk-All (ok (inl m)) rest hs v k e = absurd cc
after_hunk-All (ok (inr h)) rest hs v k e = then_hunk-All h rest hs (v h refl) k e

pub read_hunks-All :
    (js : List Json) (hs : List Hunk) → read_hunks js ≡ ok (inr hs) → All IsAnchored hs
unfolding read_hunks
read_hunks-All [] hs e = let same : [] ≡ hs = cc in subst (All IsAnchored) same tt
read_hunks-All (j ∷ js) hs e =
    after_hunk-All (read_hunk j) (read_hunks js) hs (read_hunk-IsAnchored j) (read_hunks-All js) e
