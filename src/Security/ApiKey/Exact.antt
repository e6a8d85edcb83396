-- ===== src/Security/ApiKey/Exact.antt =====
-- The constant-time comparison decides equality of keys.
use Prim.Native.Nat.{bit_or, bit_xor}
use mathlib.Core.Path.{ap₂}
use tool_smith.Base.Bits.{bit_or-zero, bit_xor-zero, bit_xor_self}
use tool_smith.Base.{
  ℕ, ◌≡◌, ◌≢◌, ◌<◌, ◌↔◌, ◌++◌, refl, sym, ◌∙◌, All-drop, true, false, [], ◌∷◌, length, take, drop,
  Bytes, str_eq, str_eq_refl, str_eq_sound, arith, All, take-append-drop, length-drop,
}
use tool_smith.Security.ApiKey.{promote, differences, bearer, validate}

abbrev pub IsByte : ℕ → Type 0
IsByte c = c < 256

promote_injective : (a b : ℕ) → IsByte a → IsByte b → promote a ≡ promote b → a ≡ b
unfolding promote
promote_injective a b p q h = ground arith

differences-zero :
    (result : ℕ) (s t : Bytes)
    → length s ≡ length t
    → All IsByte s
    → All IsByte t
    → differences result s t ≡ 0
    → (result ≡ 0) × (s ≡ t)
unfolding differences
differences-zero result [] [] e p q h = (h, refl)
differences-zero result [] (b ∷ t) e p q h = absurd (omega arith)
differences-zero result (a ∷ s) [] e p q h = absurd (omega arith)
differences-zero result (a ∷ s) (b ∷ t) e p q h =
    let (first, rest) =
      differences-zero (bit_or result (bit_xor (promote a) (promote b))) s t (omega arith) p.1 q.1
        h in
    let (none_before, same) = bit_or-zero result (bit_xor (promote a) (promote b)) first in
    let byte = promote_injective a b p.0 q.0 (bit_xor-zero (promote a) (promote b) same) in
    (none_before, cc)

differences_self : (s : Bytes) → differences 0 s s ≡ 0
unfolding differences
differences_self [] = refl
differences_self (a ∷ s) = rw (bit_xor_self (promote a)) (differences_self s)

validate-empty_key :
    (header : Bytes) → validate (record { expected_key = []; enabled = true }) header ≡ false
unfolding validate
validate-empty_key header = ground (arith, length-drop 7 header)

-- With the check enabled, a header is accepted exactly when the key is not empty and the header is
-- "Bearer " and the key; header and key are made of bytes.
pub validate_iff :
    (key header : Bytes)
    → All IsByte key
    → All IsByte header
    → (validate (record { expected_key = key; enabled = true }) header ≡ true)
      ↔ ((key ≢ []) × (header ≡ bearer ++ key))
unfolding validate
validate_iff key header p q = (λ h. (not_empty h, accepted h), λ (k, e). rw e (passes k))
  where
    accepted :
        validate (record { expected_key = key; enabled = true }) header ≡ true
        → header ≡ bearer ++ key
    accepted h =
        let prefix : str_eq (take 7 header) bearer ≡ true = ground arith in
        let sizes : length (drop 7 header) ≡ length key = ground arith in
        let zero_sum : differences 0 (drop 7 header) key ≡ 0 = ground arith in
        let rest =
          differences-zero 0 (drop 7 header) key sizes (All-drop IsByte 7 header q) p zero_sum in
        sym (take-append-drop 7 header)
        ∙ ap₂ ◌++◌ (str_eq_sound (take 7 header) bearer prefix) rest.1

    not_empty : validate (record { expected_key = key; enabled = true }) header ≡ true → key ≢ []
    not_empty h e =
        let same : validate (record { expected_key = []; enabled = true }) header ≡ true =
          rw e at h in
        cc (validate-empty_key header)

    passes :
        key ≢ [] → validate (record { expected_key = key; enabled = true }) (bearer ++ key) ≡ true
    passes k =
        let longer : 0 < length key = ground arith in
        ground (arith, longer, str_eq_refl bearer, differences_self key)
