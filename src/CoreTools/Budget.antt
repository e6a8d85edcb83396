-- ===== src/CoreTools/Budget.antt =====
-- The limits of the results: 32768 bytes at most, and what was cut off is reported.
use tool_smith.Base.{
  ℕ, ◌≤◌, ◌-◌, ◌≡◌, refl, sym, ap, Bool, true, false, [], ◌∷◌, ◌++◌, arith, Bool-cases, inl, inr,
  Bytes, length, take, drop, leb, ltb, ◌==◌, any, zero, suc, if◌then◌else◌, append-nil,
  take-append-drop,
}
use tool_smith.CoreTools.{max_result_bytes, escape, cap_head, cap_tail, strip_from, strip_ansi}

-- A part of the text, with what stands before it and behind it.
pub record IsPart (text before behind : Bytes) (capped : Bytes × Bool) : Type 0 where
  pub parts : text ≡ before ++ (capped.0 ++ behind)
  pub short : length capped.0 ≤ max_result_bytes
  pub whole : capped.1 ≡ ltb max_result_bytes (length text)

take-short : (n : ℕ) (xs : Bytes) → length (take n xs) ≤ n
take-short zero xs = omega arith
take-short (suc n) [] = omega arith
take-short (suc n) (x ∷ xs) = omega (arith, take-short n xs)

drop-nothing : (n : ℕ) (xs : Bytes) → length xs ≤ n → drop n xs ≡ []
drop-nothing zero [] le = refl
drop-nothing zero (x ∷ xs) le = absurd (omega arith)
drop-nothing (suc n) [] le = refl
drop-nothing (suc n) (x ∷ xs) le = drop-nothing n xs (omega arith)

length-drop : (n : ℕ) (xs : Bytes) → length (drop n xs) ≡ length xs - n
length-drop zero xs = omega arith
length-drop (suc n) [] = omega arith
length-drop (suc n) (x ∷ xs) = omega (arith, length-drop n xs)

-- Both for any limit.
abbrev Part : ℕ → Bytes → Bytes → Bytes → Bytes × Bool → Type 0
Part limit text before behind capped =
    (text ≡ before ++ (capped.0 ++ behind))
    × (length capped.0 ≤ limit)
    × (capped.1 ≡ ltb limit (length text))

limited_head :
    (limit : ℕ) (text : Bytes)
    → Part limit text []
        (drop limit text)
        (if leb (length text) limit then (text, false) else (take limit text, true))
limited_head limit text = elim (Bool-cases (leb (length text) limit)) [
  | inl fits ↦
      let le : length text ≤ limit = ground arith in
      rw (fits, drop-nothing limit text le) (sym (append-nil text), le, ground arith)
  | inr long ↦ rw long (sym (take-append-drop limit text), take-short limit text, ground arith)
]

limited_tail :
    (limit : ℕ) (text : Bytes)
    → Part limit text
        (take (length text - limit) text)
        []
        (if leb (length text) limit then (text, false) else (drop (length text - limit) text, true))
limited_tail limit text = elim (Bool-cases (leb (length text) limit)) [
  | inl fits ↦
      let le : length text ≤ limit = ground arith in
      let none_before : length text - limit ≡ 0 = omega arith in
      rw (fits, none_before) (sym (append-nil text), le, ground arith)
  | inr long ↦
      let cut = length-drop (length text - limit) text in
      rw (long, append-nil (drop (length text - limit) text))
        (sym (take-append-drop (length text - limit) text), ground (arith, cut), ground arith)
]

-- A result that is too long is cut at its end, or at its start.
pub cap_head-IsPart : (text : Bytes) → IsPart text [] (drop max_result_bytes text) (cap_head text)
unfolding cap_head
cap_head-IsPart text =
    let (parts, short, whole) = limited_head max_result_bytes text in
    record { parts = parts; short = short; whole = whole }

pub cap_tail-IsPart :
    (text : Bytes) → IsPart text (take (length text - max_result_bytes) text) [] (cap_tail text)
unfolding cap_tail
cap_tail-IsPart text =
    let (parts, short, whole) = limited_tail max_result_bytes text in
    record { parts = parts; short = short; whole = whole }

-- A text without the escape byte is left as it is.
abbrev pub IsPlainText : Bytes → Type 0
IsPlainText s = any (λ c. c == escape) s ≡ false

strip_from-same : (s : Bytes) → IsPlainText s → strip_from false s ≡ s
unfolding strip_from
strip_from-same [] h = refl
strip_from-same (c ∷ []) h = refl
strip_from-same (c ∷ d ∷ s) h =
    let first : (c == escape) ≡ false = ground arith in
    let rest = strip_from-same (d ∷ s) (ground (arith, h)) in rw first (ap (λ t. c ∷ t) rest)

pub strip_ansi-same : (s : Bytes) → IsPlainText s → strip_ansi s ≡ s
unfolding strip_ansi
strip_ansi-same s h = strip_from-same s h
