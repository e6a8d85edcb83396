-- ===== src/Skills/FrontMatter/Lines.antt =====
-- What the reader of a head does with a line, a word and a text without blanks at its ends.
use tool_smith.Base.{
  ℕ, ◌≡◌, refl, ◌∙◌, ap, Bool, true, false, not, ◌&&◌, none, some, [], ◌∷◌, ◌++◌, arith, Bool-cases,
  inl, inr, Bytes, any, all, ◌==◌,
}
use tool_smith.Skills.{is_word}
use tool_smith.Skills.FrontMatter.{
  is_white, is_quoted, behind_mark, split_mark, split_byte, get_lines, drop_cr, indent_of,
  drop_spaces, drop_last_spaces, trim, unquote, item_of,
}

pub any-append :
    (P : ℕ → Bool) (s t : Bytes) → any P s ≡ false → any P t ≡ false → any P (s ++ t) ≡ false
any-append P [] t h k = k
any-append P (c ∷ s) t h k =
    let later : any P s ≡ false = ground arith in
    let rest = any-append P s t later k in ground arith

pub other_byte : (P : ℕ → Bool) (d c : ℕ) → P d ≡ true → P c ≡ false → (d == c) ≡ false
other_byte P d c h k = elim (Bool-cases (d == c)) [
  | inl e ↦ let same : d ≡ c = ground arith in absurd cc
  | inr e ↦ e
]

pub no_byte-word :
    (s : Bytes) (c : ℕ) → is_word c ≡ false → all is_word s ≡ true → any (λ d. d == c) s ≡ false
no_byte-word [] c h w = refl
no_byte-word (d ∷ s) c h w =
    let later : all is_word s ≡ true = ground arith in
    let rest = no_byte-word s c h later in
    let here : (d == c) ≡ false = other_byte is_word d c (ground arith) h in rw (here, rest) refl

pub no_byte-blanks :
    (s : Bytes) (c : ℕ)
    → (is_white c && not (c == b' ')) ≡ true
    → any (λ c. is_white c && not (c == b' ')) s ≡ false
    → any (λ d. d == c) s ≡ false
no_byte-blanks [] c h w = refl
no_byte-blanks (d ∷ s) c h w =
    let later : any (λ c. is_white c && not (c == b' ')) s ≡ false = ground arith in
    let rest = no_byte-blanks s c h later in
    let here : (d == c) ≡ false =
      (other_byte (λ c. not (is_white c && not (c == b' '))) d c (ground arith) (ground arith)) in
    rw (here, rest) refl

pub get_lines-line :
    (l rest : Bytes)
    → any (λ d. d == b'\n') l ≡ false
    → get_lines (l ++ b'\n' ∷ rest) ≡ l ∷ get_lines rest
unfolding get_lines
get_lines-line [] rest h = refl
get_lines-line (c ∷ l) rest h =
    let here : (c == b'\n') ≡ false = ground arith in
    let later : any (λ d. d == b'\n') l ≡ false = ground arith in
    rw (get_lines-line l rest later, here) refl

pub get_lines-last :
    (c : ℕ) (l : Bytes) → any (λ d. d == b'\n') (c ∷ l) ≡ false → get_lines (c ∷ l) ≡ (c ∷ l) ∷ []
unfolding get_lines
get_lines-last c [] h = ground arith
get_lines-last c (d ∷ l) h =
    let here : (c == b'\n') ≡ false = ground arith in
    let later : any (λ d. d == b'\n') (d ∷ l) ≡ false = ground arith in
    rw (get_lines-last d l later, here, get_lines) refl

pub drop_cr-none : (s : Bytes) → any (λ d. d == b'\r') s ≡ false → drop_cr s ≡ s
unfolding drop_cr
drop_cr-none [] h = refl
drop_cr-none (c ∷ []) h = ground arith
drop_cr-none (c ∷ d ∷ s) h = ap (λ t. c ∷ t) (drop_cr-none (d ∷ s) (ground arith))

pub drop_last_spaces-append :
    (s : Bytes) (c : ℕ) (t : Bytes)
    → drop_last_spaces (c ∷ t) ≡ c ∷ t
    → drop_last_spaces (s ++ c ∷ t) ≡ s ++ c ∷ t
unfolding drop_last_spaces
drop_last_spaces-append [] c t h = h
drop_last_spaces-append (d ∷ []) c t h = rw h refl
drop_last_spaces-append (d ∷ e ∷ s) c t h = rw (drop_last_spaces-append (e ∷ s) c t h) refl

pub drop_last_spaces-word : (s : Bytes) → all is_word s ≡ true → drop_last_spaces s ≡ s
unfolding drop_last_spaces
drop_last_spaces-word [] h = refl
drop_last_spaces-word (c ∷ s) h =
    let here : is_white c ≡ false = ground arith in
    let later : all is_word s ≡ true = ground arith in
    rw (drop_last_spaces-word s later, here) (ground arith)

pub split_byte-word :
    (s rest : Bytes) (c : ℕ)
    → any (λ d. d == c) s ≡ false
    → split_byte c (s ++ c ∷ rest) ≡ some (s, rest)
unfolding split_byte
split_byte-word [] rest c h = ground arith
split_byte-word (d ∷ s) rest c h =
    let here : (d == c) ≡ false = ground arith in
    let later : any (λ d. d == c) s ≡ false = ground arith in
    rw (split_byte-word s rest c later, here) refl

pub behind_mark-other : (c : ℕ) (s : Bytes) → (c == b'\n') ≡ false → behind_mark (c ∷ s) ≡ none
behind_mark-other c [] h = refl
behind_mark-other c (d ∷ []) h = refl
behind_mark-other c (d ∷ e ∷ []) h = refl
behind_mark-other c (d ∷ e ∷ f ∷ s) h = rw h refl

pub behind_mark-line :
    (c : ℕ) (s : Bytes) → (c == b'-') ≡ false → behind_mark (b'\n' ∷ c ∷ s) ≡ none
behind_mark-line c [] h = refl
behind_mark-line c (d ∷ []) h = refl
behind_mark-line c (d ∷ e ∷ s) h = rw h refl

pub split_mark-line :
    (l rest : Bytes)
    → any (λ d. d == b'\n') l ≡ false
    → split_mark rest ≡ none
    → split_mark (l ++ rest) ≡ none
unfolding split_mark
split_mark-line [] rest h k = k
split_mark-line (c ∷ l) rest h k =
    let here : (c == b'\n') ≡ false = ground arith in
    let later : any (λ d. d == b'\n') l ≡ false = ground arith in
    rw (behind_mark-other c (l ++ rest) here, split_mark-line l rest later k, split_mark) refl

pub drop_spaces-first : (c : ℕ) (s : Bytes) → is_white c ≡ false → drop_spaces (c ∷ s) ≡ c ∷ s
unfolding drop_spaces
drop_spaces-first c s h = rw h refl

pub trim-whole : (s : Bytes) → drop_spaces s ≡ s → drop_last_spaces s ≡ s → trim s ≡ s
unfolding trim
trim-whole s h k = ap drop_last_spaces h ∙ k

pub trim-blank : (s : Bytes) → trim (b' ' ∷ s) ≡ trim s
unfolding trim drop_spaces
trim-blank s = refl

pub unquote-bare : (s : Bytes) → trim s ≡ s → is_quoted s ≡ false → unquote s ≡ s
unfolding unquote
unquote-bare s h k = rw (h, k) refl

pub indent_of-word : (c : ℕ) (s : Bytes) → is_word c ≡ true → indent_of (c ∷ s) ≡ 0
unfolding indent_of
indent_of-word c s word =
    let blank = other_byte is_word c b' ' word refl in
    let tab = other_byte is_word c 9 word refl in rw (blank, tab) refl

pub item_of-word : (c : ℕ) (s : Bytes) → is_word c ≡ true → item_of (c ∷ s) ≡ none
item_of-word c [] word = refl
item_of-word c (d ∷ s) word = rw (other_byte is_word c b'-' word refl) refl
