-- ===== src/Base/Maps.antt =====
-- `std::unordered_map<std::string, V>` and `std::unordered_set<std::string>` as association lists
-- and lists. The order of iteration, which the standard leaves open, is the order of insertion.
use mathlib.Core.Path.{◌≡◌, refl}
use mathlib.Core.Logic.{◌≢◌, inl, inr}
use mathlib.Core.Bool.{Bool, true, false, ◌||◌}
use mathlib.Core.Option.{Option, none, some}
use mathlib.Core.List.{List, [], ◌∷◌}
use native.Mathlib.Omega.{arith}
use tool_smith.Base.Tests.{if◌then◌else◌, Bool-cases}
use tool_smith.Base.Lists.{All}
use tool_smith.Base.Str.{Bytes, str_eq, str_eq_iff, str_eq_refl, str_eq-ne}

abbrev pub Dict {ℓ} : Type ℓ → Type ℓ
Dict V = List (Bytes × V)

module _ {ℓ} {V : Type ℓ} where
  -- `find` or `at`.
  unfoldable pub lookup : Bytes → Dict V → Option V
  lookup wanted [] = none
  lookup wanted ((key, value) ∷ rest) = if str_eq key wanted then some value else lookup wanted rest

  -- `m[k] = v`.
  unfoldable pub insert : Bytes → V → Dict V → Dict V
  insert wanted new [] = (wanted, new) ∷ []
  insert wanted new ((key, value) ∷ rest) =
      if str_eq key wanted then (key, new) ∷ rest else (key, value) ∷ insert wanted new rest

  -- `m.erase(k)`.
  unfoldable pub erase : Bytes → Dict V → Dict V
  erase k [] = []
  erase k ((j, w) ∷ m) = if str_eq j k then erase k m else (j, w) ∷ erase k m

  abbrev pub keys : Dict V → List Bytes
  keys [] = []
  keys ((k, v) ∷ m) = k ∷ keys m

  -- `count(k) > 0`.
  abbrev pub has_key : Bytes → Dict V → Bool
  has_key k m = elim (lookup k m) [ none ↦ false | some v ↦ true ]

  pub lookup-insert :
      (changed read : Bytes) (new : V) (dict : Dict V)
      → lookup read (insert changed new dict)
        ≡ (if str_eq changed read then some new else lookup read dict)
  unfolding lookup insert
  lookup-insert changed read new [] = refl
  lookup-insert changed read new ((key, value) ∷ rest) = ground (
    arith,
    lookup-insert changed read new rest,
    str_eq_iff key changed,
    str_eq_iff key read,
    str_eq_iff changed read,
  )

  pub lookup-insert_self :
      (changed : Bytes) (new : V) (dict : Dict V)
      → lookup changed (insert changed new dict) ≡ some new
  lookup-insert_self changed new dict =
      rw (lookup-insert changed changed new dict, str_eq_refl changed)

  pub lookup-insert_ne :
      (k j : Bytes) (v : V) (m : Dict V) → k ≢ j → lookup j (insert k v m) ≡ lookup j m
  lookup-insert_ne k j v m h = rw (lookup-insert k j v m, str_eq-ne k j h)

  pub lookup-erase :
      (k j : Bytes) (m : Dict V) → lookup j (erase k m) ≡ (if str_eq k j then none else lookup j m)
  unfolding lookup erase
  lookup-erase k j [] = ground arith
  lookup-erase k j ((i, w) ∷ m) =
      ground (arith, str_eq_iff k j, str_eq_iff i k, str_eq_iff i j, lookup-erase k j m)

-- Every value of the dictionary satisfies `P`.
abbrev pub AllValues {ℓ κ} : {V : Type ℓ} → (V → Type κ) → Dict V → Type κ
AllValues P = All (λ b. P b.1)

module _ {ℓ κ} {V : Type ℓ} (P : V → Type κ) where
  pub lookup-AllValues :
      (k : Bytes) (m : Dict V) {v : V} → AllValues P m → lookup k m ≡ some v → P v
  unfolding lookup
  lookup-AllValues k [] h e = cc
  lookup-AllValues k ((j, w) ∷ m) {v} (p, h) e = elim (Bool-cases (str_eq j k)) [
    | inl hit ↦ let same : some w ≡ some v = rw hit at e in ground (arith, same)
    | inr miss ↦ lookup-AllValues k m h (rw miss at e)
  ]

  pub insert-AllValues :
      (k : Bytes) (v : V) (m : Dict V) → P v → AllValues P m → AllValues P (insert k v m)
  unfolding insert
  insert-AllValues k v [] p h = (p, tt)
  insert-AllValues k v ((j, w) ∷ m) p (q, h) = ground (arith, insert-AllValues k v m p h)

-- Membership in an `unordered_set`.
unfoldable pub contains : List Bytes → Bytes → Bool
contains [] k = false
contains (j ∷ s) k = str_eq j k || contains s k

-- `s.insert(k)`.
unfoldable pub add : Bytes → List Bytes → List Bytes
unfolding contains
add k s = if contains s k then s else k ∷ s

-- `s.erase(k)`.
unfoldable pub remove : Bytes → List Bytes → List Bytes
remove k [] = []
remove k (j ∷ s) = if str_eq j k then remove k s else j ∷ remove k s

pub contains-add :
    (k j : Bytes) (s : List Bytes) → contains (add k s) j ≡ (str_eq k j || contains s j)
unfolding add contains
contains-add k j s = ground (arith, str_eq_iff k j)

pub contains-remove :
    (k j : Bytes) (s : List Bytes)
    → contains (remove k s) j ≡ (if str_eq k j then false else contains s j)
unfolding remove contains
contains-remove k j [] = ground arith
contains-remove k j (i ∷ s) =
    ground (arith, str_eq_iff k j, str_eq_iff i k, str_eq_iff i j, contains-remove k j s)
