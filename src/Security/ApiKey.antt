-- ===== src/Security/ApiKey.antt =====
-- src/security/ApiKeyValidator.cpp and include/security/ApiKeyValidator.h.
pub mod Exact
use Prim.Native.Nat.{bit_or, bit_xor}
use tool_smith.Base.{
  ℕ, ◌-◌, ◌+◌, ◌^◌, ◌≡◌, Bool, true, false, not, List, [], ◌∷◌, length, take, drop, leb, ltb, ◌==◌,
  if◌then◌else◌, Bytes, ascii, str_eq,
}

pub record ApiKeyValidator : Type 0 where
  pub expected_key : Bytes
  pub enabled : Bool

-- `char` is signed, and is promoted to a 32-bit `int` before `^`: the bit pattern of the result.
unfoldable pub promote : ℕ → ℕ
promote c = if ltb c 128 then c else c + (2 ^ 32 - 256)

-- `result |= provided[i] ^ expected[i]`, over keys of one length. The loop reads every byte.
unfoldable pub differences : ℕ → Bytes → Bytes → ℕ
unfolding promote
differences result (a ∷ provided) (b ∷ expected) =
    differences (bit_or result (bit_xor (promote a) (promote b))) provided expected
differences result [] _ = result
differences result _ [] = result

abbrev pub bearer : Bytes
bearer = ascii "Bearer "

unfoldable pub validate : ApiKeyValidator → Bytes → Bool
unfolding differences
validate v header =
    if not v.enabled
    then true
    else if leb (length header) (length bearer)
    then false
    else if not (str_eq (take (length bearer) header) bearer)
    then false
    else let provided = drop (length bearer) header in
      if not (length provided == length v.expected_key)
      then false
      else differences 0 provided v.expected_key == 0
