-- ===== src/Hashline/Parse.antt =====
-- `Line` and `ParseFile`.
pub mod RoundTrip
use tool_smith.Base.{
  ℕ, suc, ◌+◌, Bool, List, [], ◌∷◌, ◌++◌, ◌==◌, if◌then◌else◌, Bytes, is_empty, ◌≡◌, map,
}
use tool_smith.Hashline.Hash.{line_hash}

pub record Line : Type 0 where
  pub number : ℕ
  pub hash : Bytes
  pub text : Bytes

-- Remove one carriage return at the end.
unfoldable pub strip_cr : Bytes → Bytes
strip_cr [] = []
strip_cr (c ∷ []) = if c == b'\r' then [] else c ∷ []
strip_cr (c ∷ d ∷ s) = c ∷ strip_cr (d ∷ s)

unfoldable pub make_line : ℕ → Bytes → Line
unfolding strip_cr
make_line number raw =
    let text = strip_cr raw in record { number = number; hash = line_hash text; text = text }

-- The loop; `raw` is the content from `start` up to `i`. No line follows a newline at the end.
unfoldable pub parse_from : ℕ → Bytes → Bytes → List Line
unfolding make_line
parse_from num raw [] = if is_empty raw then [] else make_line num raw ∷ []
parse_from num raw (c ∷ content) =
    let next = make_line num raw ∷ parse_from (suc num) [] content in
    let same = parse_from num (raw ++ c ∷ []) content in if c == b'\n' then next else same

unfoldable pub parse_file : Bytes → List Line
unfolding parse_from
parse_file content = parse_from 1 [] content

-- The lines are numbered in sequence from `n`.
abbrev pub NumberedFrom : ℕ → List Line → Type 0
NumberedFrom n [] = Unit {0}
NumberedFrom n (l ∷ ls) = (l.number ≡ n) × NumberedFrom (suc n) ls

abbrev pub texts : List Line → List Bytes
texts = map (λ l. l.text)

abbrev pub hashes_of : List Line → List Bytes
hashes_of = map (λ l. l.hash)
