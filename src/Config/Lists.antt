-- ===== src/Config/Lists.antt =====
-- Lists separated by commas.
use tool_smith.Base.{
  ◌≡◌, ◌≢◌, refl, ◌∙◌, ap, false, List, [], ◌∷◌, ◌++◌, arith, append_assoc, append-nil, Bytes,
  is_empty, All, ◌==◌,
}
use tool_smith.Config.{drop_blanks, drop_last_blanks, flushed, split_from, split_csv}

-- An item that a list can hold: not empty, without a comma, and no blank at either end.
pub record IsItem (s : Bytes) : Type 0 where
  pub not_empty : is_empty s ≡ false
  pub no_comma : All (λ c. c ≢ b',') s
  pub trimmed : drop_last_blanks (drop_blanks s) ≡ s

-- The items with a comma behind each but the last.
abbrev pub join_csv : List Bytes → Bytes
join_csv [] = []
join_csv (s ∷ []) = s
join_csv (s ∷ t ∷ ts) = s ++ b',' ∷ join_csv (t ∷ ts)

flushed-IsItem : (s : Bytes) → IsItem s → flushed s ≡ s ∷ []
unfolding flushed
flushed-IsItem s v = rw (v.trimmed, v.not_empty) refl

split_from-item :
    (cur s rest : Bytes)
    → All (λ c. c ≢ b',') s
    → split_from cur (s ++ b',' ∷ rest) ≡ flushed (cur ++ s) ++ split_from [] rest
unfolding split_from
split_from-item cur [] rest h = rw (append-nil cur) refl
split_from-item cur (c ∷ s) rest (p, h) =
    let other : (c == b',') ≡ false = ground arith in
    rw other (
      split_from-item (cur ++ c ∷ []) s rest h
      ∙ ap (λ t. flushed t ++ split_from [] rest) (append_assoc cur (c ∷ []) s))

split_from-last :
    (cur s : Bytes)
    → All (λ c. c ≢ b',') s
    → is_empty (cur ++ s) ≡ false
    → split_from cur s ≡ flushed (cur ++ s)
unfolding split_from
split_from-last cur [] h e =
    let given : is_empty cur ≡ false = rw (append-nil cur) at e in rw (given, append-nil cur) refl
split_from-last cur (c ∷ s) (p, h) e =
    let other : (c == b',') ≡ false = ground arith in
    let same = append_assoc cur (c ∷ []) s in
    rw other (split_from-last (cur ++ c ∷ []) s h (ap is_empty same ∙ e) ∙ ap flushed same)

split_from-nil : split_from [] [] ≡ []
unfolding split_from
split_from-nil = refl

split_from-join : (ts : List Bytes) → All IsItem ts → split_from [] (join_csv ts) ≡ ts
split_from-join [] h = split_from-nil
split_from-join (s ∷ []) (v, h) = split_from-last [] s v.no_comma v.not_empty ∙ flushed-IsItem s v
split_from-join (s ∷ t ∷ ts) (v, h) =
    split_from-item [] s (join_csv (t ∷ ts)) v.no_comma
    ∙ rw (flushed-IsItem s v, split_from-join (t ∷ ts) h) refl

-- A list of items that are not empty, have no comma and no blank at either end is read back as it
-- was.
pub split_csv-join : (ts : List Bytes) → All IsItem ts → split_csv (join_csv ts) ≡ ts
unfolding split_csv
split_csv-join ts h = split_from-join ts h
