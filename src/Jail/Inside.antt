-- ===== src/Jail/Inside.antt =====
-- What the jail holds, on canonical paths.
use mathlib.Core.Path.{ap₂, subst}
use tool_smith.Base.{
  ℕ, suc, ◌-◌, ◌≡◌, ◌↔◌, refl, sym, ◌∙◌, ap, true, false, not, Bool, [], ◌∷◌, ◌++◌, arith, Bytes,
  Bool-cases, inl, inr, is_empty, any, All, if◌then◌else◌, str_eq, str_eq_refl, str_eq_sound, ltb,
  ◌==◌,
}
use tool_smith.Base.FilePath.{
  FilePath, dot, dot_dot, is_absolute, up_from, climb, rest_by, relative_rest, relative_from,
  lexically_relative,
}
use tool_smith.Jail.{is_dot_dot, inside}

-- An element that is a name, or the root directory.
pub record IsPlain (e : Bytes) : Type 0 where
  pub not_empty : is_empty e ≡ false
  pub not_dot : str_eq e dot ≡ false
  pub not_dot_dot : is_dot_dot e ≡ false

-- An absolute path without empty elements and without dots.
pub record IsCanonical (p : FilePath) : Type 0 where
  pub absolute : is_absolute p ≡ true
  pub plain : All IsPlain p

abbrev pub Below : FilePath → FilePath → Type 0
Below root p = (rest : FilePath) × (p ≡ root ++ rest)

abbrev stays : FilePath → Bool
stays rel = if is_empty rel then false else not (any is_dot_dot rel)

plain-any : (p : FilePath) → All IsPlain p → any is_dot_dot p ≡ false
plain-any [] h = refl
plain-any (e ∷ p) (v, h) = rw (v.not_dot_dot, plain-any p h)

up_from-plain : (base : FilePath) → All IsPlain base → (up_from base).1 ≡ 0
unfolding up_from
up_from-plain [] h = refl
up_from-plain (e ∷ base) (v, h) = rw (v.not_dot_dot, v.not_empty, v.not_dot) (up_from-plain base h)

up_from-names :
    (b : Bytes) (base : FilePath)
    → All IsPlain (b ∷ base)
    → (up_from (b ∷ base)) ≡ (suc (up_from base).0, 0)
unfolding up_from
up_from-names b base (v, h) =
    rw (v.not_dot_dot, v.not_empty, v.not_dot)
      (ap (λ n. (suc (up_from base).0, n)) (up_from-plain base h))

is_dot_dot_self : is_dot_dot dot_dot ≡ true
is_dot_dot_self = str_eq_refl dot_dot

not_below : (n : ℕ) → ltb (suc n) 0 ≡ false
not_below n = ground arith

some_left : (n : ℕ) → (suc n == 0) ≡ false
some_left n = ground arith

all_left : (n : ℕ) → (suc n - 0) ≡ suc n
all_left n = omega arith

rest_by-climbs : (n : ℕ) (p : FilePath) → stays (rest_by (suc n, 0) p) ≡ false
unfolding rest_by climb
rest_by-climbs n p = rw (not_below n, all_left n, some_left n, is_dot_dot_self) refl

relative_rest-climbs :
    (p : FilePath) (b : Bytes) (base : FilePath)
    → All IsPlain (b ∷ base)
    → stays (relative_rest p (b ∷ base)) ≡ false
unfolding relative_rest
relative_rest-climbs p b base h = rw (up_from-names b base h) (rest_by-climbs (up_from base).0 p)

pub climbs_or : {A : Type 0} {b : Bool} → b ≡ false → b ≡ true → A
climbs_or f t = absurd (grind arith)

-- The two directions, on the elements.
relative_from-Below :
    (p base : FilePath) → All IsPlain base → stays (relative_from p base) ≡ true → Below base p
unfolding relative_from relative_rest rest_by up_from climb
relative_from-Below [] [] h e = ([], refl)
relative_from-Below [] (b ∷ base) h e = climbs_or (relative_rest-climbs [] b base h) e
relative_from-Below (x ∷ p) [] h e = (x ∷ p, refl)
relative_from-Below (x ∷ p) (b ∷ base) (v, h) e = elim (Bool-cases (str_eq x b)) [
  | inl same ↦
      let (rest, q) = relative_from-Below p base h (sym (ap stays (rw same refl)) ∙ e) in
      (rest, ap₂ ◌∷◌ (str_eq_sound x b same) q)
  | inr other ↦
      climbs_or (relative_rest-climbs (x ∷ p) b base (v, h)) (sym (ap stays (rw other refl)) ∙ e)
]

rest_by-plain : (rest : FilePath) → All IsPlain rest → stays (rest_by (0, 0) rest) ≡ true
unfolding rest_by climb str_eq
rest_by-plain [] h = refl
rest_by-plain (e ∷ rest) (v, h) = rw (v.not_empty, v.not_dot_dot, plain-any rest h) refl

relative_from-append :
    (base rest : FilePath) → relative_from (base ++ rest) base ≡ rest_by (0, 0) rest
unfolding relative_from relative_rest up_from
relative_from-append [] [] = refl
relative_from-append [] (e ∷ rest) = refl
relative_from-append (b ∷ base) rest = rw (str_eq_refl b) (relative_from-append base rest)

-- The comparison starts at the same root.
inside-stays :
    (root p : FilePath)
    → is_absolute root ≡ true
    → inside root p ≡ true
    → stays (relative_from p root) ≡ true
unfolding inside lexically_relative
inside-stays root p r e = elim (Bool-cases (is_absolute p)) [
  | inl both ↦ sym (rw (both, r) refl) ∙ e
  | inr one ↦ climbs_or {b = inside root p} (rw (one, r) refl) e
]

stays-inside :
    (root p : FilePath)
    → is_absolute root ≡ true
    → is_absolute p ≡ true
    → stays (relative_from p root) ≡ true
    → inside root p ≡ true
unfolding inside lexically_relative
stays-inside root p r c e = rw (c, r) e

pub inside-Below : (root p : FilePath) → IsCanonical root → inside root p ≡ true → Below root p
inside-Below root p r e = relative_from-Below p root r.plain (inside-stays root p r.absolute e)

All-append-right : (xs ys : FilePath) → All IsPlain (xs ++ ys) → All IsPlain ys
All-append-right [] ys h = h
All-append-right (x ∷ xs) ys (v, h) = All-append-right xs ys h

pub Below-inside :
    (root p : FilePath) → IsCanonical root → IsCanonical p → Below root p → inside root p ≡ true
Below-inside root p r c (rest, q) = stays-inside root p r.absolute c.absolute (
    rw (q, relative_from-append root rest)
      (rest_by-plain rest (All-append-right root rest (subst (All IsPlain) q c.plain))))

-- For a canonical directory and a canonical path, the directory contains the path exactly when the
-- path's elements begin with the directory's.
pub inside_iff :
    (root p : FilePath) → IsCanonical root → IsCanonical p → (inside root p ≡ true) ↔ Below root p
inside_iff root p r c = (inside-Below root p r, Below-inside root p r c)
