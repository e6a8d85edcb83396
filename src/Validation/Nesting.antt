-- ===== src/Validation/Nesting.antt =====
-- The depth check against the height of the value.
use tool_smith.Base.{
  ℕ, suc, ◌+◌, ◌≤◌, ◌≡◌, sym, Bool, true, false, ◌&&◌, max, ltb, if◌then◌else◌, Bool-cases, inl,
  inr, le→leb, leb, arith,
}
use tool_smith.Json.{Json, arr, obj, Elems, nil, cons, Fields, end, field}
use tool_smith.Json.Depth.{height, height_elems, height_fields}
use tool_smith.Validation.{check_depth, check_elems, check_fields, validate_json_depth}

-- One level of nesting: the check of the members, one level down, decides.
container :
    (current most h : ℕ) (members : Bool)
    → (current + 1 ≤ suc most → members ≡ leb (current + 1 + h) (suc most))
    → (if ltb most current then false else members) ≡ leb (current + h) most
container current most h members e = elim (Bool-cases (ltb most current)) [
  | inl deep ↦ ground arith
  | inr fits ↦ let same = e (ground arith) in ground arith
]

member :
    (level most a b : ℕ) (first rest : Bool)
    → first ≡ leb (level + a) most
    → rest ≡ leb (level + b) (suc most)
    → (first && rest) ≡ leb (level + max (suc a) b) (suc most)
member level most a b first rest e f = ground arith

scalar : (current most : ℕ) → (if ltb most current then false else true) ≡ leb (current + 0) most
scalar current most = ground arith

mutual
  unfolding check_depth height

  check_depth-leb :
      (j : Json) (current most : ℕ) → check_depth j current most ≡ leb (current + height j) most
  check_depth-leb (arr js) current most =
      container current most (height_elems js) _ (check_elems-leb js (current + 1) most)
  check_depth-leb (obj fs) current most =
      container current most (height_fields fs) _ (check_fields-leb fs (current + 1) most)
  check_depth-leb _ current most = scalar current most

  check_elems-leb :
      (js : Elems) (level most : ℕ)
      → level ≤ suc most
      → check_elems js level most ≡ leb (level + height_elems js) (suc most)
  check_elems-leb nil level most h = sym (le→leb _ _ (omega arith))
  check_elems-leb (cons j js) level most h =
      member level most (height j) (height_elems js) _ _ (check_depth-leb j level most)
        (check_elems-leb js level most h)

  check_fields-leb :
      (fs : Fields) (level most : ℕ)
      → level ≤ suc most
      → check_fields fs level most ≡ leb (level + height_fields fs) (suc most)
  check_fields-leb end level most h = sym (le→leb _ _ (omega arith))
  check_fields-leb (field k j fs) level most h =
      member level most (height j) (height_fields fs) _ _ (check_depth-leb j level most)
        (check_fields-leb fs level most h)

-- A value passes the depth check exactly when it is nested at most max_depth deep.
pub validate_json_depth-height :
    (j : Json) (max_depth : ℕ) → validate_json_depth j max_depth ≡ leb (height j) max_depth
unfolding validate_json_depth
validate_json_depth-height j max_depth = ground (arith, check_depth-leb j 0 max_depth)
