-- ===== src/Hashline/Parse/RoundTrip.antt =====
-- Splitting a file into lines, and putting the lines together again.
use tool_smith.Base.{
  ℕ, suc, ◌≡◌, ◌≢◌, refl, sym, ◌∙◌, ap, false, List, [], ◌∷◌, ◌++◌, arith, append_assoc, append-nil,
  Bytes, All, All-append, Bool-cases, inl, inr, ◌==◌,
}
use tool_smith.Hashline.Parse.{texts, NumberedFrom, strip_cr, make_line, parse_from, parse_file}

parse_from-NumberedFrom :
    (num : ℕ) (raw content : Bytes) → NumberedFrom num (parse_from num raw content)
unfolding parse_from
parse_from-NumberedFrom num [] [] = tt
parse_from-NumberedFrom num (d ∷ raw) [] = (refl, tt)
parse_from-NumberedFrom num raw (c ∷ content) = elim (Bool-cases (c == b'\n')) [
  | inl newline ↦ rw newline (refl, parse_from-NumberedFrom (suc num) [] content)
  | inr other ↦ rw other (parse_from-NumberedFrom num (raw ++ c ∷ []) content)
]

-- The lines of a file are numbered from one, without a gap.
pub parse_file-NumberedFrom : (content : Bytes) → NumberedFrom 1 (parse_file content)
unfolding parse_file
parse_file-NumberedFrom content = parse_from-NumberedFrom 1 [] content

-- Each text with a newline behind it.
abbrev pub print : List Bytes → Bytes
print [] = []
print (t ∷ ts) = t ++ b'\n' ∷ print ts

abbrev pub NotCr : ℕ → Type 0
NotCr c = c ≢ b'\r'

abbrev pub NotNewline : ℕ → Type 0
NotNewline c = c ≢ b'\n'

strip_cr_same : (s : Bytes) → All NotCr s → strip_cr s ≡ s
unfolding strip_cr
strip_cr_same [] h = refl
strip_cr_same (c ∷ []) h = ground arith
strip_cr_same (c ∷ d ∷ s) h = ap (◌∷◌ c) (strip_cr_same (d ∷ s) h.1)

print-parse_from :
    (num : ℕ) (raw content : Bytes)
    → All NotCr raw
    → All NotCr content
    → print (texts (parse_from num raw (content ++ b'\n' ∷ []))) ≡ raw ++ (content ++ b'\n' ∷ [])
unfolding parse_from
print-parse_from num raw [] h k = rw (strip_cr_same raw h) refl
print-parse_from num raw (c ∷ content) h k = elim (Bool-cases (c == b'\n')) [
  | inl newline ↦
      let same : c ≡ b'\n' = ground arith in
      rw (newline, strip_cr_same raw h, print-parse_from (suc num) [] content tt k.1)
        (ap (λ d. raw ++ d ∷ (content ++ b'\n' ∷ [])) (sym same))
  | inr other ↦ rw other (
      print-parse_from num (raw ++ c ∷ []) content (All-append NotCr raw (c ∷ []) h (k.0, tt)) k.1
      ∙ append_assoc raw (c ∷ []) _)
]

-- A file that ends in a newline and has no carriage return is given back by its lines.
pub print-parse_file :
    (content : Bytes)
    → All NotCr content
    → print (texts (parse_file (content ++ b'\n' ∷ []))) ≡ content ++ b'\n' ∷ []
unfolding parse_file
print-parse_file content h = print-parse_from 1 [] content tt h

parse_from-line :
    (num : ℕ) (raw text rest : Bytes)
    → All NotNewline text
    → parse_from num raw (text ++ b'\n' ∷ rest)
      ≡ make_line num (raw ++ text) ∷ parse_from (suc num) [] rest
unfolding parse_from
parse_from-line num raw [] rest h = rw (append-nil raw)
parse_from-line num raw (c ∷ text) rest h =
    let other : (c == b'\n') ≡ false = ground arith in
    rw other (
      parse_from-line num (raw ++ c ∷ []) text rest h.1
      ∙ ap (λ s. make_line num s ∷ parse_from (suc num) [] rest) (append_assoc raw (c ∷ []) text))

parse_from-nil : (num : ℕ) → parse_from num [] [] ≡ []
unfolding parse_from
parse_from-nil num = refl

texts-parse_from :
    (num : ℕ) (ts : List Bytes)
    → All (λ t. All NotNewline t × All NotCr t) ts
    → texts (parse_from num [] (print ts)) ≡ ts
unfolding make_line
texts-parse_from num [] h = ap texts (parse_from-nil num)
texts-parse_from num (t ∷ ts) ((p, q), h) =
    rw (parse_from-line num [] t (print ts) p, strip_cr_same t q)
      (ap (◌∷◌ t) (texts-parse_from (suc num) ts h))

-- Texts without a newline or a carriage return, each with a newline behind it, are given back by
-- splitting, empty texts too.
pub texts-parse_file :
    (ts : List Bytes)
    → All (λ t. All NotNewline t × All NotCr t) ts
    → texts (parse_file (print ts)) ≡ ts
unfolding parse_file
texts-parse_file ts h = texts-parse_from 1 ts h
