-- ===== src/Registry/Names.antt =====
-- The registry as a map from names to tools, and the advertised set.
use tool_smith.Base.{
  ℕ, ◌≡◌, ◌≢◌, ◌↔◌, refl, subst, ◌∙◌, ap, true, false, ◌||◌, none, some, List, [], ◌∷◌, arith,
  Bytes, Bool-cases, inl, inr, if◌then◌else◌, lookup, insert, keys, contains, lookup-insert,
  contains-add, contains-remove, All, str_eq, str_eq_iff, Dict,
}
use tool_smith.Base.Except.{ok}
use tool_smith.Registry.{
  Registry, Strategies, register_command, replace_command, resolve, advertise, unadvertise,
  is_advertised,
}

-- Registering a tool succeeds exactly when its name is not empty and not taken.
pub register_command-ok_iff :
    (name : Bytes) (command : ℕ) (r : Registry)
    → ((r' : Registry) × (register_command name command r ≡ ok r'))
      ↔ ((name ≢ []) × (resolve r name ≡ none))
unfolding register_command resolve
register_command-ok_iff name command r = (
  λ (r', e). (ground arith, ground arith),
  λ (n, f). (record r { commands = insert name command r.commands }, ground arith),
)

-- A registration that succeeds gives the name its tool, and changes what no other name stands for.
pub resolve-register_command :
    (name : Bytes) (command : ℕ) (r r' : Registry) (other : Bytes)
    → register_command name command r ≡ ok r'
    → resolve r' other ≡ (if str_eq name other then some command else resolve r other)
unfolding register_command resolve
resolve-register_command name command r r' other e =
    let free : lookup name r.commands ≡ none = ground arith in
    let same : r' ≡ record r { commands = insert name command r.commands } = ground arith in
    ap (λ s. lookup other s.commands) same ∙ lookup-insert name other command r.commands

-- No name occurs twice, and none is empty.
abbrev pub Distinct : List Bytes → Type 0
Distinct [] = Unit {0}
Distinct (k ∷ ks) = (contains ks k ≡ false) × Distinct ks

pub record IsWellFormed (r : Registry) : Type 0 where
  pub distinct : Distinct (keys r.commands)
  pub named : All (λ k. k ≢ []) (keys r.commands)

keys-insert :
    (k j : Bytes) (v : ℕ) (m : Dict ℕ)
    → contains (keys (insert k v m)) j ≡ (str_eq k j || contains (keys m) j)
unfolding insert contains
keys-insert k j v [] = refl
keys-insert k j v ((i, w) ∷ m) =
    ground (arith, str_eq_iff i k, str_eq_iff i j, str_eq_iff k j, keys-insert k j v m)

nothing : (k : Bytes) → contains [] k ≡ false
unfolding contains
nothing k = refl

Distinct-insert :
    (k : Bytes) (v : ℕ) (m : Dict ℕ) → Distinct (keys m) → Distinct (keys (insert k v m))
unfolding insert
Distinct-insert k v [] d = (nothing k, tt)
Distinct-insert k v ((i, w) ∷ m) d = elim (Bool-cases (str_eq i k)) [
  | inl same ↦ rw same d
  | inr other ↦
      let apart : str_eq k i ≡ false = ground (arith, str_eq_iff i k, str_eq_iff k i) in
      rw other (rw (keys-insert k i v m, apart) d.0, Distinct-insert k v m d.1)
]

named-insert :
    (k : Bytes) (v : ℕ) (m : Dict ℕ)
    → k ≢ []
    → All (λ k. k ≢ []) (keys m)
    → All (λ k. k ≢ []) (keys (insert k v m))
unfolding insert
named-insert k v [] n a = (n, tt)
named-insert k v ((i, w) ∷ m) n (p, a) = ground (arith, named-insert k v m n a)

-- A registration that succeeds keeps the names distinct and not empty.
pub register_command-IsWellFormed :
    (name : Bytes) (command : ℕ) (r r' : Registry)
    → IsWellFormed r
    → register_command name command r ≡ ok r'
    → IsWellFormed r'
unfolding register_command
register_command-IsWellFormed name command r r' v e =
    let not_empty : name ≢ [] = ground arith in
    let same : record r { commands = insert name command r.commands } ≡ r' = ground arith in
    subst IsWellFormed same (record {
      distinct = Distinct-insert name command r.commands v.distinct;
      named = named-insert name command r.commands not_empty v.named;
    })

-- A replacement that succeeds keeps the names distinct and not empty, whatever the shutdown of the
-- old tool does.
pub replace_command-IsWellFormed :
    {W : Type 0} (strategies : Strategies W) (name : Bytes) (command : ℕ) (r r' : Registry)
    (w w' : W)
    → IsWellFormed r
    → replace_command strategies name command (r, w) ≡ ok (r', w')
    → IsWellFormed r'
unfolding replace_command
replace_command-IsWellFormed strategies name command r r' w w' v e =
    let not_empty : name ≢ [] = ground arith in
    let same : record r { commands = insert name command r.commands } ≡ r' = ground arith in
    subst IsWellFormed same (record {
      distinct = Distinct-insert name command r.commands v.distinct;
      named = named-insert name command r.commands not_empty v.named;
    })

-- After `Advertise` of a name that is not empty, that name and those of the set before are advertised,
-- and no other, also where the filter was off.
pub is_advertised-advertise :
    (name other : Bytes) (r : Registry)
    → name ≢ []
    → is_advertised (advertise name r) other ≡ (str_eq name other || contains r.advertised other)
unfolding is_advertised advertise
is_advertised-advertise name other r n = ground (arith, contains-add name other r.advertised)

-- After `Unadvertise`, under the filter, all of the set but the name; without it, still every name.
is_advertised-unadvertise :
    (name other : Bytes) (r : Registry)
    → is_advertised (unadvertise name r) other ≡ (
        if r.filter_advertised
        then if str_eq name other then false else contains r.advertised other
        else true)
unfolding is_advertised unadvertise
is_advertised-unadvertise name other r = ground (arith, contains-remove name other r.advertised)
