-- ===== src/Validation/Sanitize.antt =====
-- The sanitiser against its specification.
use tool_smith.Base.{
  ℕ, zero, suc, ◌-◌, ◌≤◌, ◌≡◌, refl, sym, ◌∙◌, ap, Bool, true, [], ◌∷◌, ◌++◌, arith, append_assoc,
  append-nil, length, length-append, take, keep, Bytes, Bool-cases, inl, inr, ltb, All, All-take,
}
use tool_smith.Validation.{is_allowed, sanitize_from, sanitize_string}

take-nil : (n : ℕ) (xs : Bytes) → xs ≡ [] → take n xs ≡ []
take-nil zero xs e = refl
take-nil (suc n) xs e = rw e

-- The loop, with a result that still has room, adds the first allowed bytes of the input.
sanitize_from-take :
    (most : ℕ) (result input : Bytes)
    → length result ≤ most
    → sanitize_from most result input
      ≡ result ++ take (most - length result) (keep is_allowed input)
unfolding sanitize_from
sanitize_from-take most result [] h =
    rw (take-nil (most - length result) [] refl) (sym (append-nil result))
sanitize_from-take most result (c ∷ input) h = elim (Bool-cases (ltb (length result) most)) [
  | inr full ↦
      let none_left : most - length result ≡ 0 = ground arith in
      rw (full, none_left) (sym (append-nil result))
  | inl room ↦ elim (Bool-cases (is_allowed c)) [
    | inr dropped ↦ rw (room, dropped) (sanitize_from-take most result input h)
    | inl kept ↦
        let more : most - length result ≡ suc (most - length result - 1) = ground arith in
        let size = length-append result (c ∷ []) in
        let left : most - length (result ++ c ∷ []) ≡ most - length result - 1 = omega arith in
        rw (room, kept, more)
          (sanitize_from-take most (result ++ c ∷ []) input (ground arith)
            ∙ rw left (append_assoc result (c ∷ []) _))
  ]
]

-- The sanitised string is the first max_length of the allowed bytes of the input, in order.
pub sanitize_string-take :
    (input : Bytes) (max_length : ℕ)
    → sanitize_string input max_length ≡ take max_length (keep is_allowed input)
unfolding sanitize_string
sanitize_string-take input max_length =
    let whole : max_length - 0 ≡ max_length = omega arith in
    sanitize_from-take max_length [] input (omega arith)
    ∙ ap (λ n. take n (keep is_allowed input)) whole

IsAllowed-keep : (p : ℕ → Bool) (xs : Bytes) → All (λ c. p c ≡ true) (keep p xs)
IsAllowed-keep p [] = tt
IsAllowed-keep p (x ∷ xs) = ground (arith, IsAllowed-keep p xs)

keep-All : (p : ℕ → Bool) (xs : Bytes) → All (λ c. p c ≡ true) xs → keep p xs ≡ xs
keep-All p [] h = refl
keep-All p (x ∷ xs) (e, h) = rw e (ap (◌∷◌ x) (keep-All p xs h))

take-take : (n : ℕ) (xs : Bytes) → take n (take n xs) ≡ take n xs
take-take zero xs = refl
take-take (suc n) [] = refl
take-take (suc n) (x ∷ xs) = ap (◌∷◌ x) (take-take n xs)

-- Sanitising a second time, under the same bound, changes nothing.
pub sanitize_string_idempotent :
    (input : Bytes) (max_length : ℕ)
    → sanitize_string (sanitize_string input max_length) max_length
      ≡ sanitize_string input max_length
sanitize_string_idempotent input max_length =
    let once = sanitize_string-take input max_length in
    let allowed =
      All-take (λ c. is_allowed c ≡ true) max_length (keep is_allowed input)
        (IsAllowed-keep is_allowed input) in
    sanitize_string-take (sanitize_string input max_length) max_length
    ∙ rw (once, keep-All is_allowed _ allowed) (take-take max_length (keep is_allowed input))
