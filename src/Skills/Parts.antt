-- ===== src/Skills/Parts.antt =====
-- A template as a sequence of parts: plain text and placeholders.
use tool_smith.Base.{
  ℕ, zero, ◌+◌, ◌≡◌, refl, sym, ◌∙◌, ap, true, false, Option, none, some, List, [], ◌∷◌, ◌++◌,
  arith, Bytes, is_empty, length, all, any, ◌==◌, append_assoc, length-append, All,
}
use tool_smith.Base.Except.{Except, ok, throw, ◌>>=◌}
use tool_smith.Json.{Json, find}
use tool_smith.Skills.{is_word, split_word, match_at, placeholder, filled, scan, shown, interpolate}

pub data Part : Type 0 where
  text : Bytes → Part
  hole : Bytes → Part

-- A text has no opening brace; a placeholder's name is a word.
abbrev pub IsPart : Part → Type 0
IsPart (text s) = any (λ c. c == b'{') s ≡ false
IsPart (hole name) = (is_empty name ≡ false) × (all is_word name ≡ true)

abbrev pub print_parts : List Part → Bytes
print_parts [] = []
print_parts (text s ∷ ps) = s ++ print_parts ps
print_parts (hole name ∷ ps) = placeholder name ++ print_parts ps

-- What is made of the parts: the text as it is, each placeholder replaced on its own, or what the first
-- value throws that cannot be shown.
abbrev pub fill_parts : (Bytes → Except (Option Bytes)) → List Part → Except Bytes
fill_parts value [] = ok []
fill_parts value (text s ∷ ps) = fill_parts value ps >>= (λ t. ok (s ++ t))
fill_parts value (hole name ∷ ps) =
    value name >>= (λ v. fill_parts value ps >>= (λ t. ok (filled name v ++ t)))

bind_ok-id : (x : Except Bytes) → (x >>= (λ t. ok t)) ≡ x
bind_ok-id (ok t) = refl
bind_ok-id (throw e) = refl

bind-cons :
    (c : ℕ) (s : Bytes) (x : Except Bytes)
    → ((x >>= (λ t. ok (s ++ t))) >>= (λ t. ok (c ∷ t))) ≡ (x >>= (λ t. ok (c ∷ (s ++ t))))
bind-cons c s (ok t) = refl
bind-cons c s (throw e) = refl

split_word-word :
    (name rest : Bytes)
    → all is_word name ≡ true
    → split_word (name ++ b'}' ∷ rest) ≡ (name, b'}' ∷ rest)
unfolding split_word
split_word-word [] rest h = refl
split_word-word (c ∷ name) rest h =
    let here : is_word c ≡ true = ground arith in
    let later : all is_word name ≡ true = ground arith in
    rw (split_word-word name rest later, here) refl

match_at-text : (c : ℕ) (s : Bytes) → (c == b'{') ≡ false → match_at (c ∷ s) ≡ none
unfolding match_at
match_at-text c [] h = refl
match_at-text c (d ∷ s) h = rw h refl

match_at-hole :
    (name rest : Bytes)
    → is_empty name ≡ false
    → all is_word name ≡ true
    → match_at (placeholder name ++ rest) ≡ some name
unfolding match_at
match_at-hole name rest given word =
    let tail : (name ++ b'}' ∷ b'}' ∷ []) ++ rest ≡ name ++ b'}' ∷ b'}' ∷ rest =
      append_assoc name (b'}' ∷ b'}' ∷ []) rest in
    rw (tail, split_word-word name (b'}' ∷ rest) word, given) refl

scan-skip :
    (value : Bytes → Except (Option Bytes)) (s rest : Bytes)
    → scan value (length s) (s ++ rest) ≡ scan value zero rest
unfolding scan
scan-skip value [] rest = refl
scan-skip value (c ∷ s) rest = scan-skip value s rest

scan-closed :
    (value : Bytes → Except (Option Bytes)) (name rest : Bytes)
    → scan value (3 + length name) (b'{' ∷ ((name ++ b'}' ∷ b'}' ∷ []) ++ rest))
      ≡ scan value zero rest
scan-closed value name rest =
    let passed : 3 + length name ≡ length (b'{' ∷ (name ++ b'}' ∷ b'}' ∷ [])) =
      omega (arith, length-append name (b'}' ∷ b'}' ∷ [])) in
    ap (λ n. scan value n (b'{' ∷ ((name ++ b'}' ∷ b'}' ∷ []) ++ rest))) passed
    ∙ scan-skip value (b'{' ∷ (name ++ b'}' ∷ b'}' ∷ [])) rest

scan-text :
    (value : Bytes → Except (Option Bytes)) (s rest : Bytes)
    → any (λ c. c == b'{') s ≡ false
    → scan value zero (s ++ rest) ≡ (scan value zero rest >>= (λ t. ok (s ++ t)))
unfolding scan
scan-text value [] rest h = sym (bind_ok-id (scan value zero rest))
scan-text value (c ∷ s) rest h =
    let here : (c == b'{') ≡ false = ground arith in
    let later : any (λ d. d == b'{') s ≡ false = ground arith in
    rw (match_at-text c (s ++ rest) here, scan)
      (ap (λ x. x >>= (λ t. ok (c ∷ t))) (scan-text value s rest later)
        ∙ bind-cons c s (scan value zero rest))

scan-hole :
    (value : Bytes → Except (Option Bytes)) (name rest : Bytes)
    → is_empty name ≡ false
    → all is_word name ≡ true
    → scan value zero (placeholder name ++ rest)
      ≡ (value name >>= (λ v. scan value zero rest >>= (λ t. ok (filled name v ++ t))))
unfolding scan
scan-hole value name rest given word =
    rw (match_at-hole name rest given word, scan)
      (ap (λ x. value name >>= (λ v. x >>= (λ t. ok (filled name v ++ t))))
        (scan-closed value name rest))

pub scan-parts :
    (value : Bytes → Except (Option Bytes)) (ps : List Part)
    → All IsPart ps
    → scan value zero (print_parts ps) ≡ fill_parts value ps
unfolding scan
scan-parts value [] h = refl
scan-parts value (text s ∷ ps) (v, h) =
    scan-text value s (print_parts ps) v
    ∙ ap (λ x. x >>= (λ t. ok (s ++ t))) (scan-parts value ps h)
scan-parts value (hole name ∷ ps) ((g, w), h) =
    scan-hole value name (print_parts ps) g w
    ∙ ap (λ x. value name >>= (λ v. x >>= (λ t. ok (filled name v ++ t)))) (scan-parts value ps h)

-- A template printed from texts without an opening brace and placeholders whose names are words
-- becomes the same texts, with each placeholder replaced on its own by the sanitised value of its
-- variable, or left as it is where there is none: a value is never read as a template. Where the
-- printer throws on a value that is no string, the first such exception is thrown.
pub interpolate-parts :
    (dump : Json → Except Bytes) (ps : List Part) (vars : Json)
    → All IsPart ps
    → interpolate dump (print_parts ps) vars ≡ fill_parts (λ name. shown dump (find name vars)) ps
unfolding interpolate
interpolate-parts dump ps vars h = scan-parts (λ name. shown dump (find name vars)) ps h
