-- ===== src/Json/Depth.antt =====
-- How deep a value is nested: the number of steps from the root down to the lowest value.
use tool_smith.Base.{ℕ, suc, max}
use tool_smith.Json.{Json, arr, obj, Elems, nil, cons, Fields, end, field}

unfoldable mutual
  pub height : Json → ℕ
  height (arr js) = height_elems js
  height (obj fs) = height_fields fs
  height _ = 0

  -- Zero for an empty container, else one more than its highest member.
  pub height_elems : Elems → ℕ
  height_elems nil = 0
  height_elems (cons j js) = max (suc (height j)) (height_elems js)

  pub height_fields : Fields → ℕ
  height_fields end = 0
  height_fields (field k j fs) = max (suc (height j)) (height_fields fs)
