-- ===== src/Hashline/Read.antt =====
-- `FormatRead`: a window of the lines as text.
pub mod Window
use tool_smith.Base.Int.{ℤ, clamp}
use tool_smith.Base.{
  ℕ, suc, Bool, true, false, List, [], ◌∷◌, ◌++◌, leb, if◌then◌else◌, Bytes, decimal, drop,
}
use tool_smith.Hashline.Parse.{Line}

pub record ReadResult : Type 0 where
  pub text : Bytes
  pub truncated : Bool
  pub next_line : ℕ

unfoldable pub row : Bool → Line → Bytes
row hashes l =
    if hashes
    then decimal l.number ++ b'|' ∷ (l.hash ++ b'|' ∷ (l.text ++ b'\n' ∷ []))
    else decimal l.number ++ b'|' ∷ (l.text ++ b'\n' ∷ [])

unfoldable pub read_loop : ℕ → Bool → ℕ → List Line → Bytes → ReadResult
read_loop limit hashes emitted [] out = record { text = out; truncated = false; next_line = 0 }
read_loop limit hashes emitted (l ∷ lines) out =
    let rest = read_loop limit hashes (suc emitted) lines (out ++ row hashes l) in
    if leb limit emitted
    then record { text = out; truncated = true; next_line = l.number }
    else rest

unfoldable pub format_read : List Line → ℤ → ℤ → Bool → ReadResult
unfolding read_loop row
format_read lines offset limit hashes =
    read_loop (clamp limit) hashes 0 (drop (clamp offset) lines) []
