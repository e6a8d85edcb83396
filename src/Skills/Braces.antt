-- ===== src/Skills/Braces.antt =====
-- What `SanitizeVariable` takes out, and what it leaves.
use tool_smith.Base.{
  ℕ, zero, suc, ◌≤◌, ◌≡◌, refl, sym, ◌∙◌, ap, Bool, false, ◌&&◌, ◌||◌, none, some, [], ◌∷◌, arith,
  Bool-cases, Option-cases, inl, inr, Bytes, length, any, ◌==◌,
}
use tool_smith.Skills.{erase_pair, erase_pairs, without_pairs, sanitize_variable}

-- Two bytes `c` in a row.
abbrev pub has_pair : ℕ → Bytes → Bool
has_pair c [] = false
has_pair c (x ∷ []) = false
has_pair c (x ∷ y ∷ s) = ((x == c) && (y == c)) || has_pair c (y ∷ s)

erase_pair-none : (c : ℕ) (s : Bytes) → erase_pair c s ≡ none → has_pair c s ≡ false
unfolding erase_pair
erase_pair-none c [] h = refl
erase_pair-none c (x ∷ []) h = refl
erase_pair-none c (x ∷ y ∷ s) h = elim (Bool-cases ((x == c) && (y == c))) [
  | inl pair ↦ let wrong : some s ≡ none = rw (pair, erase_pair) at h in absurd cc
  | inr other ↦ elim (Option-cases (erase_pair c (y ∷ s))) [
    | inl no_more ↦ rw other (erase_pair-none c (y ∷ s) no_more)
    | inr (t, more) ↦
        let wrong : some (x ∷ t) ≡ none = rw (other, more, erase_pair) at h in absurd cc
  ]
]

erase_pair-shorter :
    (c : ℕ) (s t : Bytes) → erase_pair c s ≡ some t → suc (suc (length t)) ≡ length s
unfolding erase_pair
erase_pair-shorter c [] t h = absurd cc
erase_pair-shorter c (x ∷ []) t h = absurd cc
erase_pair-shorter c (x ∷ y ∷ s) t h = elim (Bool-cases ((x == c) && (y == c))) [
  | inl pair ↦
      let same : some s ≡ some t = rw (pair, erase_pair) at h in
      let tail : s ≡ t = cc in ap (λ u. suc (suc (length u))) (sym tail)
  | inr other ↦ elim (Option-cases (erase_pair c (y ∷ s))) [
    | inl no_more ↦ let wrong : none ≡ some t = rw (other, no_more, erase_pair) at h in absurd cc
    | inr (u, more) ↦
        let same : some (x ∷ u) ≡ some t = rw (other, more, erase_pair) at h in
        let tail : x ∷ u ≡ t = cc in
        ap (λ v. suc (suc (length v))) (sym tail) ∙ ap suc (erase_pair-shorter c (y ∷ s) u more)
  ]
]

erase_pairs-clean : (n c : ℕ) (s : Bytes) → length s ≤ n → has_pair c (erase_pairs n c s) ≡ false
unfolding erase_pairs
erase_pairs-clean zero c [] le = refl
erase_pairs-clean zero c (x ∷ s) le = absurd (omega arith)
erase_pairs-clean (suc n) c s le = elim (Option-cases (erase_pair c s)) [
  | inl clean ↦ rw (clean, erase_pairs) (erase_pair-none c s clean)
  | inr (t, more) ↦
      rw (more, erase_pairs)
        (erase_pairs-clean n c t (omega (arith, erase_pair-shorter c s t more)))
]

pub without_pairs-clean : (c : ℕ) (s : Bytes) → has_pair c (without_pairs c s) ≡ false
unfolding without_pairs
without_pairs-clean c s = erase_pairs-clean (length s) c s (omega arith)

-- Without the byte there is nothing to erase.
erase_pair-absent : (c : ℕ) (s : Bytes) → any (λ x. x == c) s ≡ false → erase_pair c s ≡ none
unfolding erase_pair
erase_pair-absent c [] h = refl
erase_pair-absent c (x ∷ []) h = refl
erase_pair-absent c (x ∷ y ∷ s) h =
    let here : ((x == c) && (y == c)) ≡ false = ground arith in
    let rest = erase_pair-absent c (y ∷ s) (ground arith) in rw (here, rest) refl

erase_pairs-none : (n c : ℕ) (s : Bytes) → erase_pair c s ≡ none → erase_pairs n c s ≡ s
unfolding erase_pairs
erase_pairs-none zero c s h = refl
erase_pairs-none (suc n) c s h = rw (h, erase_pairs) refl

abbrev pub split_braces : Bytes → Bytes
split_braces s = b'{' ∷ b'}' ∷ b'}' ∷ b'{' ∷ s

abbrev pub double_braces : Bytes → Bytes
double_braces s = b'{' ∷ b'{' ∷ s

erase_pair-behind : (c : ℕ) (s : Bytes) → any (λ x. x == c) s ≡ false → erase_pair c (c ∷ s) ≡ none
unfolding erase_pair
erase_pair-behind c [] h = refl
erase_pair-behind c (y ∷ s) h =
    let here : ((c == c) && (y == c)) ≡ false = ground arith in
    let rest = erase_pair-absent c (y ∷ s) h in rw (here, rest) refl

open_none : (s : Bytes) → any (λ x. x == b'{') s ≡ false → erase_pair b'{' (split_braces s) ≡ none
unfolding erase_pair
open_none s h = rw (erase_pair-behind b'{' s h) refl

close_some : (s : Bytes) → erase_pair b'}' (split_braces s) ≡ some (double_braces s)
unfolding erase_pair
close_some s = refl

erase_pairs-step :
    (n c : ℕ) (s t : Bytes)
    → erase_pair c s ≡ some t
    → erase_pair c t ≡ none
    → erase_pairs (suc n) c s ≡ t
unfolding erase_pairs
erase_pairs-step n c s t h k = rw (h, erase_pairs) (erase_pairs-none n c t k)

close_pairs :
    (s : Bytes)
    → any (λ x. x == b'}') s ≡ false
    → without_pairs b'}' (split_braces s) ≡ double_braces s
unfolding without_pairs
close_pairs s h =
    erase_pairs-step _ b'}' (split_braces s) (double_braces s) (close_some s)
      (erase_pair-absent b'}' (double_braces s) h)

open_pairs :
    (s : Bytes)
    → any (λ x. x == b'{') s ≡ false
    → without_pairs b'{' (split_braces s) ≡ split_braces s
unfolding without_pairs
open_pairs s h = erase_pairs-none _ b'{' (split_braces s) (open_none s h)

-- Of a text that is {}}{ and then s, where s has no brace, {{ and then s is left: two opening
-- braces pass, since the closing ones are erased last.
pub sanitize_variable-split_braces :
    (s : Bytes)
    → any (λ x. x == b'{') s ≡ false
    → any (λ x. x == b'}') s ≡ false
    → sanitize_variable (split_braces s) ≡ double_braces s
unfolding sanitize_variable
sanitize_variable-split_braces s no_open no_close =
    ap (without_pairs b'}') (open_pairs s no_open) ∙ close_pairs s no_close

-- No two closing braces are left.
pub sanitize_variable-clean : (s : Bytes) → has_pair b'}' (sanitize_variable s) ≡ false
unfolding sanitize_variable
sanitize_variable-clean s = without_pairs-clean b'}' (without_pairs b'{' s)
