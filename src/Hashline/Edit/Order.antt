-- ===== src/Hashline/Edit/Order.antt =====
-- Hunks that pass the overlap check are applied from the bottom of the file up, each wholly above the
-- one before it.
use tool_smith.Base.Int.{ℤ, pos, lt_int, le_int, clamp}
use tool_smith.Base.{
  ℕ, ◌≤◌, ◌<◌, ◌≡◌, ◌⊎◌, true, false, Bool, List, [], ◌∷◌, arith, All, Bool-cases, inl, inr, ltb,
  leb,
}
use tool_smith.Hashline.Edit.{
  Hunk, last_line, insert_by, sort_by, overlapping, descending, ascending,
}

abbrev pub first_of_hunk : Hunk → ℕ
first_of_hunk h = clamp h.start_line

abbrev pub last_of_hunk : Hunk → ℕ
last_of_hunk h = clamp (last_line h)

-- What the loop checks of a hunk before it looks at the file.
pub record IsProper (h : Hunk) : Type 0 where
  pub first : h.start_line ≡ pos (first_of_hunk h)
  pub last : last_line h ≡ pos (last_of_hunk h)
  pub positive : 0 < first_of_hunk h
  pub ends : first_of_hunk h ≤ last_of_hunk h

-- A relation of each element to all that stand behind it.
module _ {ℓ} {A : Type ℓ} where
  abbrev pub Pairs : (A → A → Type 0) → List A → Type 0
  Pairs R [] = Unit {0}
  Pairs R (x ∷ xs) = All (R x) xs × Pairs R xs

module _ (before : Hunk → Hunk → Bool) where
  All-insert_by :
      (P : Hunk → Type 0) (h : Hunk) (ks : List Hunk)
      → P h
      → All P ks
      → All P (insert_by before h ks)
  unfolding insert_by
  All-insert_by P h [] p q = (p, tt)
  All-insert_by P h (k ∷ ks) p (q, r) = elim (Bool-cases (before k h)) [
    | inl e ↦ rw e (q, All-insert_by P h ks p r)
    | inr e ↦ rw e (p, (q, r))
  ]

  insert_by-All :
      (P : Hunk → Type 0) (h : Hunk) (ks : List Hunk)
      → All P (insert_by before h ks)
      → P h × All P ks
  unfolding insert_by
  insert_by-All P h [] (p, _) = (p, tt)
  insert_by-All P h (k ∷ ks) a = elim (Bool-cases (before k h)) [
    | inl e ↦
        let both : P k × All P (insert_by before h ks) = rw e at a in
        let (p, r) = insert_by-All P h ks both.1 in (p, (both.0, r))
    | inr e ↦ let both : P h × (P k × All P ks) = rw e at a in (both.0, both.1)
  ]

  pub All-sort_by : (P : Hunk → Type 0) (hs : List Hunk) → All P hs → All P (sort_by before hs)
  unfolding sort_by
  All-sort_by P [] p = tt
  All-sort_by P (h ∷ hs) (p, ps) = All-insert_by P h (sort_by before hs) p (All-sort_by P hs ps)

  pub sort_by-All : (P : Hunk → Type 0) (hs : List Hunk) → All P (sort_by before hs) → All P hs
  unfolding sort_by
  sort_by-All P [] p = tt
  sort_by-All P (h ∷ hs) a =
      let (p, ps) = insert_by-All P h (sort_by before hs) a in (p, sort_by-All P hs ps)

  module _ (R : Hunk → Hunk → Type 0) (symmetric : (a b : Hunk) → R a b → R b a) where
    Pairs-insert_by :
        (h : Hunk) (ks : List Hunk) → All (R h) ks → Pairs R ks → Pairs R (insert_by before h ks)
    unfolding insert_by
    Pairs-insert_by h [] a p = (tt, tt)
    Pairs-insert_by h (k ∷ ks) (r, a) (q, p) = elim (Bool-cases (before k h)) [
      | inl e ↦ rw e (All-insert_by (R k) h ks (symmetric h k r) q, Pairs-insert_by h ks a p)
      | inr e ↦ rw e ((r, a), (q, p))
    ]

    insert_by-Pairs :
        (h : Hunk) (ks : List Hunk) → Pairs R (insert_by before h ks) → All (R h) ks × Pairs R ks
    unfolding insert_by
    insert_by-Pairs h [] p = (tt, tt)
    insert_by-Pairs h (k ∷ ks) p = elim (Bool-cases (before k h)) [
      | inl e ↦
          let both : All (R k) (insert_by before h ks) × Pairs R (insert_by before h ks) =
            rw e at p in
          let (rest, pairs) = insert_by-Pairs h ks both.1 in
          let (r, q) = insert_by-All (R k) h ks both.0 in ((symmetric k h r, rest), (q, pairs))
      | inr e ↦
          let both : (R h k × All (R h) ks) × (All (R k) ks × Pairs R ks) = rw e at p in
          (both.0, both.1)
    ]

    sort_by-Pairs : (hs : List Hunk) → Pairs R (sort_by before hs) → Pairs R hs
    unfolding sort_by
    sort_by-Pairs [] p = tt
    sort_by-Pairs (h ∷ hs) p =
        let (a, q) = insert_by-Pairs h (sort_by before hs) p in
        (sort_by-All (R h) hs a, sort_by-Pairs hs q)

    Pairs-sort_by : (hs : List Hunk) → Pairs R hs → Pairs R (sort_by before hs)
    unfolding sort_by
    Pairs-sort_by [] p = tt
    Pairs-sort_by (h ∷ hs) (a, p) =
        Pairs-insert_by h (sort_by before hs) (All-sort_by (R h) hs a) (Pairs-sort_by hs p)

abbrev pub Above : Hunk → Hunk → Type 0
Above a b = last_of_hunk a < first_of_hunk b

abbrev Disjoint : Hunk → Hunk → Type 0
Disjoint a b = Above a b ⊎ Above b a

Disjoint-symmetric : (a b : Hunk) → Disjoint a b → Disjoint b a
Disjoint-symmetric a b (inl p) = inr p
Disjoint-symmetric a b (inr p) = inl p

All-map : (P Q : Hunk → Type 0) → ((h : Hunk) → P h → Q h) → (hs : List Hunk) → All P hs → All Q hs
All-map P Q f [] p = tt
All-map P Q f (h ∷ hs) (p, ps) = (f h p, All-map P Q f hs ps)

after_of_le_int : (x y : ℤ) (a b : ℕ) → x ≡ pos a → y ≡ pos b → le_int x y ≡ false → b < a
after_of_le_int x y a b p q e = let same : leb a b ≡ false = rw (p, q) at e in ground arith

before_of_lt_int : (x y : ℤ) (a b : ℕ) → x ≡ pos a → y ≡ pos b → lt_int x y ≡ true → a < b
before_of_lt_int x y a b p q e = let same : ltb a b ≡ true = rw (p, q) at e in ground arith

from_of_lt_int : (x y : ℤ) (a b : ℕ) → x ≡ pos a → y ≡ pos b → lt_int x y ≡ false → b ≤ a
from_of_lt_int x y a b p q e = let same : ltb a b ≡ false = rw (p, q) at e in ground arith

-- Without an overlap, each hunk ends above all that come after it.
Above-rest :
    (h : Hunk) (ks : List Hunk)
    → IsProper h
    → All IsProper ks
    → overlapping (h ∷ ks) ≡ false
    → All (Above h) ks × Pairs Above ks
unfolding overlapping
Above-rest h [] p ps e = (tt, tt)
Above-rest h (k ∷ ks) p (q, qs) e = elim (Bool-cases (le_int k.start_line (last_line h))) [
  | inl clash ↦ let wrong : true ≡ false = rw clash at e in cc
  | inr apart ↦
      let later : overlapping (k ∷ ks) ≡ false = rw apart at e in
      let next = after_of_le_int _ _ _ _ q.first p.last apart in
      let (above, pairs) = Above-rest k ks q qs later in
      (
        (next, All-map (Above k) (Above h) (λ b r. omega (arith, next, q.ends, r)) ks above),
        (above, pairs),
      )
]

Above-Disjoint : (hs : List Hunk) → Pairs Above hs → Pairs Disjoint hs
Above-Disjoint [] p = tt
Above-Disjoint (h ∷ hs) (a, p) =
    (All-map (Above h) (Disjoint h) (λ k r. inl r) hs a, Above-Disjoint hs p)

Disjoint-of_apart :
    (hs : List Hunk)
    → All IsProper hs
    → overlapping (sort_by ascending hs) ≡ false
    → Pairs Disjoint hs
Disjoint-of_apart hs p e =
    sort_by-Pairs ascending Disjoint Disjoint-symmetric hs
      (go (sort_by ascending hs) (All-sort_by ascending IsProper hs p) e)
  where
    go : (ks : List Hunk) → All IsProper ks → overlapping ks ≡ false → Pairs Disjoint ks
    go [] p e = tt
    go (k ∷ ks) (q, p) e =
        let (above, pairs) = Above-rest k ks q p e in Above-Disjoint (k ∷ ks) (above, pairs)

abbrev NotBefore : Hunk → Hunk → Type 0
NotBefore a b = first_of_hunk b ≤ first_of_hunk a

insert_by-NotBefore :
    (h : Hunk) (ks : List Hunk)
    → IsProper h
    → All IsProper ks
    → Pairs NotBefore ks
    → Pairs NotBefore (insert_by descending h ks)
unfolding insert_by descending
insert_by-NotBefore h [] p ps q = (tt, tt)
insert_by-NotBefore h (k ∷ ks) p (pk, ps) (a, q) =
    elim (Bool-cases (lt_int h.start_line k.start_line)) [
      | inl e ↦ rw e (
        All-insert_by descending (NotBefore k) h ks
            (omega (arith, before_of_lt_int _ _ _ _ p.first pk.first e)) a,
        insert_by-NotBefore h ks p ps q,
      )
      | inr e ↦
          let first = from_of_lt_int _ _ _ _ p.first pk.first e in
          rw e (
            (first, All-map (NotBefore k) (NotBefore h) (λ b r. omega (arith, first, r)) ks a),
            (a, q),
          )
    ]

sort_by-NotBefore : (hs : List Hunk) → All IsProper hs → Pairs NotBefore (sort_by descending hs)
unfolding sort_by
sort_by-NotBefore [] p = tt
sort_by-NotBefore (h ∷ hs) (p, ps) =
    insert_by-NotBefore h (sort_by descending hs) p (All-sort_by descending IsProper hs ps)
      (sort_by-NotBefore hs ps)

-- In the order in which the hunks are applied, each ends above all those before it.
abbrev pub Upward : List Hunk → Type 0
Upward = Pairs (λ a b. Above b a)

Upward-of : (hs : List Hunk) → All IsProper hs → Pairs Disjoint hs → Pairs NotBefore hs → Upward hs
Upward-of [] p d n = tt
Upward-of (h ∷ hs) (p, ps) (d, ds) (n, ns) = (each hs d n, Upward-of hs ps ds ns)
  where
    one : (k : Hunk) → Disjoint h k → NotBefore h k → Above k h
    one k (inl r) m = absurd (omega (arith, p.ends))
    one k (inr r) m = r

    each : (ks : List Hunk) → All (Disjoint h) ks → All (NotBefore h) ks → All (λ k. Above k h) ks
    each [] d n = tt
    each (k ∷ ks) (d, ds) (n, ns) = (one k d n, each ks ds ns)

pub sort_by-Upward :
    (hs : List Hunk)
    → All IsProper (sort_by descending hs)
    → overlapping (sort_by ascending hs) ≡ false
    → Upward (sort_by descending hs)
sort_by-Upward hs p e =
    let proper = sort_by-All descending IsProper hs p in
    Upward-of (sort_by descending hs) p
      (Pairs-sort_by descending Disjoint Disjoint-symmetric hs (Disjoint-of_apart hs proper e))
      (sort_by-NotBefore hs proper)
