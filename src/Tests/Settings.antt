-- ===== src/Tests/Settings.antt =====
-- A configuration and a list.
use tool_smith.Base.{◌≡◌, refl, arith, ℕ, ascii, [], ◌∷◌}
use tool_smith.Base.Except.{Except, ok, throw, type_error}
use tool_smith.Json.{Json, obj, end, find_field}
use tool_smith.Config.{get_thread_pool_size, split_csv, drop_blanks, drop_last_blanks}
use tool_smith.Config.Lists.{IsItem, join_csv, split_csv-join}

abbrev no_size : Json → Except ℕ
no_size j = throw type_error

eight : get_thread_pool_size no_size 64 (obj end) ≡ ok 8
unfolding get_thread_pool_size find_field
eight = refl

a_b : IsItem (ascii "a b")
unfolding drop_blanks drop_last_blanks
a_b = record {
  not_empty = refl;
  no_comma = (omega arith, (omega arith, (omega arith, tt)));
  trimmed = refl;
}

split_csv-join_example :
    split_csv (join_csv (ascii "a b" ∷ ascii "a b" ∷ [])) ≡ ascii "a b" ∷ ascii "a b" ∷ []
split_csv-join_example = split_csv-join (ascii "a b" ∷ ascii "a b" ∷ []) (a_b, (a_b, tt))
