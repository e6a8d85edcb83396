-- ===== src/Hashline/Hash/Canonical.antt =====
-- The hash of a line does not depend on the white space around it.
use tool_smith.Base.{
  ℕ, ◌≡◌, refl, subst, ◌⊎◌, ◌≢◌, sym, ap, true, [], ◌∷◌, ◌++◌, map, arith, All, Bytes, Bool-cases,
  inl, inr,
}
use mathlib.Core.List.{map-append}
use mathlib.Core.Path.{ap₂}
use Prim.Native.Nat.{bit_and}
use tool_smith.Hashline.Hash.{
  is_space, untab, trim_start, trim_end, normalize_line, line_hash, fnv, hex4,
}

abbrev pub IsSpace : ℕ → Type 0
IsSpace c = is_space c ≡ true

untab-IsSpace : (c : ℕ) → IsSpace c → IsSpace (untab c)
unfolding is_space
untab-IsSpace c h = ground arith

untab-is_space : (c : ℕ) → is_space (untab c) ≡ is_space c
unfolding is_space
untab-is_space c = ground arith

map-untab-All : (s : Bytes) → All IsSpace s → All IsSpace (map untab s)
map-untab-All [] h = tt
map-untab-All (c ∷ s) (p, h) = (untab-IsSpace c p, map-untab-All s h)

trim_start-pad : (p s : Bytes) → All IsSpace p → trim_start (p ++ s) ≡ trim_start s
unfolding trim_start
trim_start-pad [] s h = refl
trim_start-pad (c ∷ p) s (e, h) = rw e (trim_start-pad p s h)

trim_end-spaces : (q : Bytes) → All IsSpace q → trim_end q ≡ []
unfolding trim_end
trim_end-spaces [] h = refl
trim_end-spaces (c ∷ q) (e, h) = rw (trim_end-spaces q h, e)

trim_end-pad : (s q : Bytes) → All IsSpace q → trim_end (s ++ q) ≡ trim_end s
unfolding trim_end
trim_end-pad [] q h = trim_end-spaces q h
trim_end-pad (c ∷ s) q h = rw (trim_end-pad s q h) refl

trim_both-pad :
    (s q : Bytes) → All IsSpace q → trim_end (trim_start (s ++ q)) ≡ trim_end (trim_start s)
unfolding trim_start trim_end
trim_both-pad [] q h = trim_end-spaces (trim_start q) (dropped q h)
  where
    dropped : (q : Bytes) → All IsSpace q → All IsSpace (trim_start q)
    dropped [] h = tt
    dropped (c ∷ q) (e, h) = rw e (dropped q h)
trim_both-pad (c ∷ s) q h = elim (Bool-cases (is_space c)) [
  | inl space ↦ rw space (trim_both-pad s q h)
  | inr kept ↦ rw kept (trim_end-pad (c ∷ s) q h)
]

normalize_line-pad :
    (before line after : Bytes)
    → All IsSpace before
    → All IsSpace after
    → normalize_line (before ++ (line ++ after)) ≡ normalize_line line
unfolding normalize_line
normalize_line-pad before line after p q =
    rw
      (
        map-append untab before (line ++ after),
        map-append untab line after,
        trim_start-pad (map untab before) (map untab line ++ map untab after)
            (map-untab-All before p),
      )
      (trim_both-pad (map untab line) (map untab after) (map-untab-All after q))

line_hash_of_normal :
    (s t : Bytes) → normalize_line s ≡ normalize_line t → line_hash s ≡ line_hash t
unfolding line_hash
line_hash_of_normal s t e = ap (λ n. hex4 (bit_and (fnv 2166136261 n) 0xffff)) e

-- White space before and after a line does not change its hash.
pub line_hash-pad :
    (before line after : Bytes)
    → All IsSpace before
    → All IsSpace after
    → line_hash (before ++ (line ++ after)) ≡ line_hash line
line_hash-pad before line after p q =
    line_hash_of_normal _ _ (normalize_line-pad before line after p q)

abbrev NoTab : ℕ → Type 0
NoTab c = c ≢ b'\t'

untab-NoTab : (c : ℕ) → NoTab (untab c)
untab-NoTab c = ground arith

map-untab-NoTab : (s : Bytes) → All NoTab (map untab s)
map-untab-NoTab [] = tt
map-untab-NoTab (c ∷ s) = (untab-NoTab c, map-untab-NoTab s)

map-untab_same : (s : Bytes) → All NoTab s → map untab s ≡ s
map-untab_same [] h = refl
map-untab_same (c ∷ s) (p, h) =
    let same : untab c ≡ c = ground arith in ap₂ ◌∷◌ same (map-untab_same s h)

All-trim_start : (s : Bytes) → All NoTab s → All NoTab (trim_start s)
unfolding trim_start
All-trim_start [] h = tt
All-trim_start (c ∷ s) (p, h) = elim (Bool-cases (is_space c)) [
  | inl space ↦ rw space (All-trim_start s h)
  | inr kept ↦ rw kept (p, h)
]

-- What `trim_end` makes of a line that goes on behind `c`.
End-cases :
    (c : ℕ) (s : Bytes)
    → ((trim_end (c ∷ s) ≡ []) × IsSpace c × (trim_end s ≡ []))
      ⊎ (trim_end (c ∷ s) ≡ c ∷ trim_end s)
unfolding trim_end
End-cases c s = go (trim_end s) refl
  where
    go :
        (t : Bytes)
        → trim_end s ≡ t
        → ((trim_end (c ∷ s) ≡ []) × IsSpace c × (trim_end s ≡ []))
          ⊎ (trim_end (c ∷ s) ≡ c ∷ trim_end s)
    go [] e = elim (Bool-cases (is_space c)) [
      | inl space ↦ inl (rw (e, space), space, e)
      | inr kept ↦ inr (rw (e, kept))
    ]
    go (d ∷ t) e = inr (rw e)

All-trim_end : (s : Bytes) → All NoTab s → All NoTab (trim_end s)
unfolding trim_end
All-trim_end [] h = tt
All-trim_end (c ∷ s) (p, h) = elim (End-cases c s) [
  | inl (e, _, _) ↦ subst (All NoTab) (sym e) tt
  | inr e ↦ subst (All NoTab) (sym e) (p, All-trim_end s h)
]

next : {c : ℕ} (d : ℕ) (t : Bytes) → trim_end (d ∷ t) ≡ d ∷ t → trim_end (c ∷ d ∷ t) ≡ c ∷ d ∷ t
unfolding trim_end
next d t e = rw e

trim_end_idem : (s : Bytes) → trim_end (trim_end s) ≡ trim_end s
unfolding trim_end
trim_end_idem [] = refl
trim_end_idem (c ∷ s) = go (trim_end s) refl (trim_end_idem s)
  where
    go :
        (t : Bytes)
        → trim_end s ≡ t
        → trim_end t ≡ t
        → trim_end (trim_end (c ∷ s)) ≡ trim_end (c ∷ s)
    go [] e ih = elim (Bool-cases (is_space c)) [
      | inl space ↦ rw (e, space)
      | inr kept ↦ rw (e, kept) (rw kept)
    ]
    go (d ∷ t) e ih = rw e (cc (next d t ih))

trim_end-nil : trim_end [] ≡ []
unfolding trim_end
trim_end-nil = refl

-- A line that is trimmed at both ends stays as it is.
trim_start-trim_end : (s : Bytes) → trim_start (trim_end (trim_start s)) ≡ trim_end (trim_start s)
unfolding trim_start
trim_start-trim_end [] = rw trim_end-nil
trim_start-trim_end (c ∷ s) = elim (Bool-cases (is_space c)) [
  | inl space ↦ rw space (trim_start-trim_end s)
  | inr kept ↦ rw kept (elim (End-cases c s) [ inl (_, space, _) ↦ cc | inr e ↦ rw e (rw kept) ])
]

normalize_line_idem : (line : Bytes) → normalize_line (normalize_line line) ≡ normalize_line line
unfolding normalize_line
normalize_line_idem line =
    let s = map untab line in
    rw
      (
        map-untab_same (trim_end (trim_start s))
            (All-trim_end (trim_start s) (All-trim_start s (map-untab-NoTab line))),
        trim_start-trim_end s,
      )
      (trim_end_idem (trim_start s))

-- A line and its normal form have one hash.
pub line_hash-normalize_line : (line : Bytes) → line_hash (normalize_line line) ≡ line_hash line
line_hash-normalize_line line = line_hash_of_normal _ _ (normalize_line_idem line)
