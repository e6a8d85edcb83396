-- ===== src/Hashline/Hash.antt =====
-- `NormalizeLine` and `LineHash`.
pub mod Canonical
use Prim.Native.Nat.{bit_and, bit_xor}
use tool_smith.Base.{
  ℕ, ◌+◌, ◌-◌, ◌*◌, ◌/◌, ◌%◌, ◌^◌, Bool, ◌&&◌, ◌||◌, List, [], ◌∷◌, map, ltb, leb, ◌==◌,
  if◌then◌else◌, Bytes,
}

-- `std::isspace` in the "C" locale.
unfoldable pub is_space : ℕ → Bool
is_space c = c == 32 || (leb 9 c && leb c 13)

abbrev pub untab : ℕ → ℕ
untab c = if c == b'\t' then 32 else c

unfoldable pub trim_start : Bytes → Bytes
unfolding is_space
trim_start [] = []
trim_start (c ∷ s) = if is_space c then trim_start s else c ∷ s

-- Erase what stands after the last byte that is no space.
unfoldable pub trim_end : Bytes → Bytes
unfolding is_space
trim_end [] = []
trim_end (c ∷ s) = elim (trim_end s) [ [] ↦ if is_space c then [] else c ∷ [] | d ∷ t ↦ c ∷ d ∷ t ]

unfoldable pub normalize_line : Bytes → Bytes
unfolding trim_start trim_end
normalize_line line = trim_end (trim_start (map untab line))

-- FNV-1a over 32 bits.
unfoldable pub fnv : ℕ → Bytes → ℕ
fnv h [] = h
fnv h (c ∷ s) = fnv (bit_xor h c * 16777619 % 2 ^ 32) s

abbrev pub hex_digit : ℕ → ℕ
hex_digit d = if ltb d 10 then d + b'0' else d - 10 + b'a'

-- `%04x` of a number below 2 ^ 16.
unfoldable pub hex4 : ℕ → Bytes
hex4 n =
    hex_digit (n / 4096 % 16)
    ∷ hex_digit (n / 256 % 16)
    ∷ hex_digit (n / 16 % 16)
    ∷ hex_digit (n % 16)
    ∷ []

unfoldable pub line_hash : Bytes → Bytes
unfolding normalize_line fnv hex4
line_hash line = hex4 (bit_and (fnv 2166136261 (normalize_line line)) 0xffff)
