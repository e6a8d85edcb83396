-- ===== src/Tests/Inputs.antt =====
-- The API key and the sanitiser on small inputs.
use tool_smith.Base.{◌≡◌, ◌≢◌, ◌↔◌, ◌++◌, true, arith, Bytes, ascii, [], ◌∷◌, leb}
use tool_smith.Base.Int.{pos}
use tool_smith.Json.{Json, arr, obj, int, nil, cons, field, end}
use tool_smith.Json.Depth.{height}
use tool_smith.Security.ApiKey.{validate, bearer}
use tool_smith.Security.ApiKey.Exact.{validate_iff}
use tool_smith.Validation.{validate_json_depth}
use tool_smith.Validation.Nesting.{validate_json_depth-height}

validate_iff_example :
    (validate (record { expected_key = ascii "k1"; enabled = true }) (ascii "Bearer k1") ≡ true)
    ↔ ((ascii "k1" ≢ []) × (ascii "Bearer k1" ≡ bearer ++ ascii "k1"))
validate_iff_example =
    validate_iff (ascii "k1") (ascii "Bearer k1") (omega arith, (omega arith, tt))
      (
        omega arith,
        (
          omega arith,
          (
            omega arith,
            (
              omega arith,
              (omega arith, (omega arith, (omega arith, (omega arith, (omega arith, tt))))),
            ),
          ),
        ),
      )

abbrev nested : Json
nested = obj (field (ascii "a") (arr (cons (int (pos 1)) nil)) end)

validate_json_depth-height_example : validate_json_depth nested 2 ≡ leb (height nested) 2
validate_json_depth-height_example = validate_json_depth-height nested 2

abbrev raw : Bytes
raw = 7 ∷ b'a' ∷ b'\n' ∷ 200 ∷ b'b' ∷ b'c' ∷ []
