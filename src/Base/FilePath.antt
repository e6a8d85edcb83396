-- ===== src/Base/FilePath.antt =====
-- `std::filesystem::path` on POSIX as the sequence of its elements: the root directory "/" first, if
-- the path is absolute, and an empty element last, if it ends in a slash. Only what is computed from
-- the text of a path stands here; what asks the file system is a parameter where it is used.
use Prim.Native.Nat.{ℕ, zero, suc, ◌-◌}
use mathlib.Core.Path.{◌≡◌, refl, ap}
use mathlib.Core.Logic.{◌⊎◌, inl, inr}
use mathlib.Core.Bool.{Bool, true, false, not, ◌&&◌, ◌||◌}
use mathlib.Core.List.{List, [], ◌∷◌, ◌++◌}
use tool_smith.Base.Tests.{ltb, ◌==◌, if◌then◌else◌, Bool-cases}
use tool_smith.Base.Lists.{is_empty, all, length}
use tool_smith.Base.Str.{Bytes, str_eq, str_eq_refl}

abbrev pub FilePath : Type 0
FilePath = List Bytes

abbrev pub root_directory : Bytes
root_directory = b'/' ∷ []

abbrev pub dot : Bytes
dot = b'.' ∷ []

abbrev pub dot_dot : Bytes
dot_dot = b'.' ∷ b'.' ∷ []

abbrev is_slash : ℕ → Bool
is_slash c = c == b'/'

-- The elements of a text; `cur` is the one that is being read.
unfoldable pub elements : Bytes → Bytes → FilePath
elements cur [] = if is_empty cur then [] else cur ∷ []
elements cur (c ∷ s) =
    let rest = elements [] s in
    let same = elements (cur ++ c ∷ []) s in
    if is_slash c
    then if is_empty cur then rest else cur ∷ (if all is_slash s then [] ∷ [] else rest)
    else same

unfoldable pub to_path : Bytes → FilePath
unfolding elements
to_path [] = []
to_path (c ∷ s) = if is_slash c then root_directory ∷ elements [] s else elements [] (c ∷ s)

abbrev pub is_absolute : FilePath → Bool
is_absolute [] = false
is_absolute (e ∷ _) = str_eq e root_directory

-- `p / q`, where `q` is not empty: a slash at the end of `p` is not doubled.
unfoldable pub beneath : FilePath → FilePath → FilePath
beneath [] q = q
beneath (e ∷ p) q = if is_empty e then q else e ∷ beneath p q

abbrev pub join : FilePath → FilePath → FilePath
join p q = if is_absolute q then q else beneath p q

unfoldable pub up_from : FilePath → ℕ × ℕ
up_from [] = (0, 0)
up_from (e ∷ base) =
    let (names, ups) = up_from base in
    if str_eq e dot_dot
    then (names, suc ups)
    else if is_empty e || str_eq e dot
    then (names, ups)
    else (suc names, ups)

unfoldable pub climb : ℕ → FilePath → FilePath
climb zero p = p
climb (suc n) p = dot_dot ∷ climb n p

abbrev pub starts_empty : FilePath → Bool
starts_empty [] = true
starts_empty (e ∷ _) = is_empty e

-- What is left of both paths behind their common elements, `names` and `ups` being those of the base.
unfoldable pub rest_by : ℕ × ℕ → FilePath → FilePath
unfolding climb
rest_by (names, ups) p =
    if ltb names ups
    then []
    else if names - ups == 0 && starts_empty p
    then dot ∷ []
    else climb (names - ups) p

unfoldable pub relative_rest : FilePath → FilePath → FilePath
unfolding up_from rest_by
relative_rest p base = rest_by (up_from base) p

unfoldable pub relative_from : FilePath → FilePath → FilePath
unfolding relative_rest
relative_from [] base = relative_rest [] base
relative_from (e ∷ p) [] = relative_rest (e ∷ p) []
relative_from (e ∷ p) (b ∷ base) =
    let rest = relative_from p base in if str_eq e b then rest else relative_rest (e ∷ p) (b ∷ base)

abbrev same_root : Bool → Bool → Bool
same_root true b = b
same_root false b = not b

-- `p.lexically_relative(base)`; the empty path where there is none.
unfoldable pub lexically_relative : FilePath → FilePath → FilePath
unfolding relative_from
lexically_relative p base =
    if same_root (is_absolute p) (is_absolute base) then relative_from p base else []

abbrev all_but_last : FilePath → FilePath
all_but_last [] = []
all_but_last (e ∷ []) = []
all_but_last (e ∷ f ∷ p) = e ∷ all_but_last (f ∷ p)

-- `p.parent_path()`: the root directory is its own parent.
unfoldable pub parent_path : FilePath → FilePath
parent_path [] = []
parent_path (e ∷ []) = if str_eq e root_directory then e ∷ [] else []
parent_path (e ∷ f ∷ p) = e ∷ all_but_last (f ∷ p)

abbrev pub path_eq : FilePath → FilePath → Bool
path_eq [] [] = true
path_eq [] (f ∷ q) = false
path_eq (e ∷ p) [] = false
path_eq (e ∷ p) (f ∷ q) = str_eq e f && path_eq p q

pub path_eq_refl : (p : FilePath) → path_eq p p ≡ true
path_eq_refl [] = refl
path_eq_refl (e ∷ p) = rw (str_eq_refl e) (path_eq_refl p)

length-all_but_last :
    (e : Bytes) (p : FilePath) → suc (length (all_but_last (e ∷ p))) ≡ length (e ∷ p)
length-all_but_last e [] = refl
length-all_but_last e (f ∷ p) = ap suc (length-all_but_last f p)

pub parent_path-cases :
    (p : FilePath) → (parent_path p ≡ p) ⊎ (suc (length (parent_path p)) ≡ length p)
unfolding parent_path
parent_path-cases [] = inl refl
parent_path-cases (e ∷ []) = elim (Bool-cases (str_eq e root_directory)) [
  | inl root ↦ inl (rw root refl)
  | inr name ↦ inr (rw name refl)
]
parent_path-cases (e ∷ f ∷ p) = inr (ap suc (length-all_but_last f p))
