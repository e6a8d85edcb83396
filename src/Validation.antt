-- ===== src/Validation.antt =====
-- src/validation/InputSanitizer.cpp and include/validation/InputSanitizer.h.
pub mod Sanitize
pub mod Nesting
use tool_smith.Base.{
  ℕ, suc, ◌+◌, Bool, true, false, ◌&&◌, ◌||◌, List, [], ◌∷◌, ◌++◌, ltb, leb, ◌==◌, if◌then◌else◌,
  Bytes, length,
}
use tool_smith.Json.{
  Json, null, bool, int, real, str, arr, obj, Elems, nil, cons, Fields, end, field,
}

-- `char` is signed: a byte from 128 up is negative, and fails `c >= 32`.
unfoldable pub is_allowed : ℕ → Bool
is_allowed c = (leb 32 c && ltb c 128) || c == b'\n' || c == b'\r' || c == b'\t'

-- The loop stops when the input ends or the result is full.
unfoldable pub sanitize_from : ℕ → Bytes → Bytes → Bytes
unfolding is_allowed
sanitize_from max_length result [] = result
sanitize_from max_length result (c ∷ input) =
    let rest = sanitize_from max_length (if is_allowed c then result ++ c ∷ [] else result) input in
    if ltb (length result) max_length then rest else result

unfoldable pub sanitize_string : Bytes → ℕ → Bytes
unfolding sanitize_from
sanitize_string input max_length = sanitize_from max_length [] input

unfoldable pub validate_payload_size : Bytes → ℕ → Bool
validate_payload_size body max_bytes = leb (length body) max_bytes

unfoldable mutual
  pub check_depth : Json → ℕ → ℕ → Bool
  check_depth (obj fs) current most =
      if ltb most current then false else check_fields fs (current + 1) most
  check_depth (arr js) current most =
      if ltb most current then false else check_elems js (current + 1) most
  check_depth _ current most = if ltb most current then false else true

  pub check_elems : Elems → ℕ → ℕ → Bool
  check_elems nil current most = true
  check_elems (cons j js) current most = check_depth j current most && check_elems js current most

  pub check_fields : Fields → ℕ → ℕ → Bool
  check_fields end current most = true
  check_fields (field k j fs) current most =
      check_depth j current most && check_fields fs current most

abbrev pub default_max_depth : ℕ
default_max_depth = 32

unfoldable pub validate_json_depth : Json → ℕ → Bool
unfolding check_depth
validate_json_depth j max_depth = check_depth j 0 max_depth
