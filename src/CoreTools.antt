-- ===== src/CoreTools.antt =====
-- src/commands/CoreTools.cpp and include/core/ResultBudget.h: the tools that the server brings along.
-- What stands here is shared by them: the payload of a request, the form of the results, the limits.
-- A request is what `ExecuteAsync` gets; a JSON type error is thrown (`Except`).
pub mod Budget
pub mod Edit
pub mod Read
pub mod Run
pub mod Packs
use tool_smith.Base.Int.{ℤ, pos, negsuc, lt_int}
use tool_smith.Base.{
  ℕ, zero, suc, ◌-◌, ◌%◌, ◌^◌, Bool, true, false, not, ◌&&◌, ◌||◌, Option, none, some, List, [],
  ◌∷◌, ◌++◌, Bytes, ascii, is_empty, any, take, drop, length, leb, ltb, ◌==◌, if◌then◌else◌,
}
use tool_smith.Base.Except.{Except, ok, throw, type_error}
use tool_smith.Json.{Json, null, bool, int, real, str, arr, obj, Fields, end, field, find}

abbrev pub max_result_bytes : ℕ
max_result_bytes = 32768

-- `Payload`.
unfoldable pub payload : Json → Json
payload request = elim (find (ascii "payload") request) [ some (obj p) ↦ obj p | _ ↦ obj end ]

-- `CapHead` and `CapTail`: the text, and whether something was cut off.
unfoldable pub cap_head : Bytes → Bytes × Bool
cap_head text =
    if leb (length text) max_result_bytes then (text, false) else (take max_result_bytes text, true)

unfoldable pub cap_tail : Bytes → Bytes × Bool
cap_tail text =
    if leb (length text) max_result_bytes
    then (text, false)
    else (drop (length text - max_result_bytes) text, true)

abbrev pub ok_fields : Bytes × Bool → Bool → Fields
ok_fields (content, cut) truncated = field (ascii "status") (str (ascii "ok")) (
    field (ascii "content") (str content) (field (ascii "truncated") (bool (truncated || cut)) end))

-- The members of `Ok(content, truncated)`.
unfoldable pub ok_result : Bytes → Bool → Fields
ok_result content truncated = ok_fields (cap_head content) truncated

abbrev pub err_fields : Bytes → Fields
err_fields message =
    field (ascii "status") (str (ascii "error")) (field (ascii "error") (str message) end)

abbrev pub err_result : Bytes → Json
err_result message = obj (err_fields message)

unfoldable pub clamp_int : ℤ → ℤ → ℤ → ℤ → ℤ
clamp_int v lo hi fallback =
    if is_zero v then fallback else if lt_int v lo then lo else if lt_int hi v then hi else v
  where
    is_zero : ℤ → Bool
    is_zero (pos n) = n == 0
    is_zero (negsuc n) = false

-- A NUL among the first 8192 bytes.
unfoldable pub looks_binary : Bytes → Bool
looks_binary bytes = any (λ b. b == 0) (take 8192 bytes)

abbrev pub escape : ℕ
escape = 27

abbrev is_final : ℕ → Bool
is_final c = leb b'@' c && leb c b'~'

-- The first argument tells whether a control sequence is being skipped.
unfoldable pub strip_from : Bool → Bytes → Bytes
strip_from skipping [] = []
strip_from true (c ∷ s) = strip_from (not (is_final c)) s
strip_from false (c ∷ []) = c ∷ []
strip_from false (c ∷ d ∷ s) =
    let skipped = strip_from true s in
    let kept = strip_from false (d ∷ s) in
    if (c == escape) && (d == b'[') then skipped else c ∷ kept

unfoldable pub strip_ansi : Bytes → Bytes
unfolding strip_from
strip_ansi s = strip_from false s

-- The conversion of a 64-bit number to `int`.
unfoldable pub wrap_int : ℤ → ℤ
wrap_int (pos n) =
    let low = n % 2 ^ 32 in if ltb low (2 ^ 31) then pos low else negsuc (2 ^ 32 - 1 - low)
wrap_int (negsuc n) =
    let low = n % 2 ^ 32 in if ltb low (2 ^ 31) then negsuc low else pos (2 ^ 32 - 1 - low)

-- `p.value(key, default)` for an `int`; `truncate` converts a number that is no integer.
unfoldable pub int_or : (Bytes → ℤ) → ℤ → Option Json → Except ℤ
unfolding wrap_int
int_or truncate default none = ok default
int_or truncate default (some (int v)) = ok (wrap_int v)
int_or truncate default (some (real text)) = ok (truncate text)
int_or truncate default (some (bool b)) = ok (pos (if b then 1 else 0))
int_or truncate default (some _) = throw type_error

unfoldable pub bool_or : Bool → Option Json → Except Bool
bool_or default none = ok default
bool_or default (some (bool b)) = ok b
bool_or default (some _) = throw type_error
