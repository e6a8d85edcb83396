-- ===== src/Registry/Listing/Caps.antt =====
-- What every listed tool has, and which tools are listed.
use tool_smith.Base.{
  ℕ, ◌≤◌, ◌≡◌, ◌≢◌, refl, ◌∙◌, ap, true, false, not, Bool, ◌&&◌, List, [], ◌∷◌, arith, Bytes,
  if◌then◌else◌, keys, contains, All, Dict, length, length-take, keep, map,
}
use tool_smith.Json.{is_empty_json}
use tool_smith.Registry.{Registry, Strategies, ToolMetadata, set_advertised, is_advertised}
use tool_smith.Registry.Listing.{completed, list_entries, list_tool_metadata, described}

pub record IsPresentable (meta : ToolMetadata) : Type 0 where
  pub visible : meta.hidden ≡ false
  pub named : meta.name ≢ []
  pub capped : length meta.description ≤ 120
  pub with_schema : is_empty_json meta.input_schema ≡ false

completed-IsPresentable :
    (name : Bytes) (meta : ToolMetadata)
    → name ≢ []
    → meta.hidden ≡ false
    → IsPresentable (completed name meta)
unfolding completed
completed-IsPresentable name meta n v = record {
  visible = v;
  named = ground arith;
  capped = omega (arith, length-take 120 (described name meta.description));
  with_schema = ground arith;
}

All-listed {ℓ} :
    {A : Type ℓ} (P : A → Type 0) (skip hide : Bool) (x : A) (xs : List A)
    → All P xs
    → (hide ≡ false → P x)
    → All P (if skip then xs else if hide then xs else x ∷ xs)
All-listed P true hide x xs a f = a
All-listed P false true x xs a f = a
All-listed P false false x xs a f = (f refl, a)

map_listed {ℓ κ} :
    {A : Type ℓ} {B : Type κ} (f : A → B) (filtered known hide : Bool) (x : A) (xs : List A)
    (ys : List B)
    → ys ≡ map f xs
    → (if filtered && not known then ys else if hide then ys else f x ∷ ys)
      ≡ map f (if (if not filtered then true else known) && not hide then x ∷ xs else xs)
map_listed f true true true x xs ys e = e
map_listed f true true false x xs ys e = ap (◌∷◌ (f x)) e
map_listed f true false hide x xs ys e = e
map_listed f false known true x xs ys e = e
map_listed f false known false x xs ys e = ap (◌∷◌ (f x)) e

module _ {W : Type 0} (strategies : Strategies W) (r : Registry) (w : W) where
  list_entries-IsPresentable :
      (commands : Dict ℕ)
      → All (λ k. k ≢ []) (keys commands)
      → All IsPresentable (list_entries strategies r w commands)
  unfolding list_entries
  list_entries-IsPresentable [] n = tt
  list_entries-IsPresentable ((name, command) ∷ rest) (n, ns) =
      All-listed IsPresentable (r.filter_advertised && not (contains r.advertised name))
        (strategies.metadata command w).hidden (completed name (strategies.metadata command w))
        (list_entries strategies r w rest) (list_entries-IsPresentable rest ns)
        (completed-IsPresentable name (strategies.metadata command w) n)

  abbrev pub shown : Bytes × ℕ → Bool
  shown e = is_advertised r e.0 && not (strategies.metadata e.1 w).hidden

  abbrev pub entry : Bytes × ℕ → ToolMetadata
  entry e = completed e.0 (strategies.metadata e.1 w)

  list_entries-keep :
      (commands : Dict ℕ) → list_entries strategies r w commands ≡ map entry (keep shown commands)
  unfolding list_entries is_advertised
  list_entries-keep [] = refl
  list_entries-keep ((name, command) ∷ rest) =
      map_listed entry r.filter_advertised (contains r.advertised name)
        (strategies.metadata command w).hidden (name, command) (keep shown rest)
        (list_entries strategies r w rest) (list_entries-keep rest)

  -- The listing holds an entry for each tool that is advertised and not hidden, and for no other.
  pub list_tool_metadata-keep :
      list_tool_metadata strategies r w ≡ map entry (keep shown r.commands)
  unfolding list_tool_metadata
  list_tool_metadata-keep = list_entries-keep r.commands

  -- Where the registered names are not empty, every listed tool is visible, has a name and a
  -- schema, and a description of at most 120 bytes.
  pub list_tool_metadata-IsPresentable :
      All (λ k. k ≢ []) (keys r.commands) → All IsPresentable (list_tool_metadata strategies r w)
  unfolding list_tool_metadata
  list_tool_metadata-IsPresentable n = list_entries-IsPresentable r.commands n

keep_none {ℓ} :
    {A : Type ℓ} (p : A → Bool) → ((a : A) → p a ≡ false) → (xs : List A) → keep p xs ≡ []
keep_none p h [] = refl
keep_none p h (x ∷ xs) = rw (h x) (keep_none p h xs)

-- An empty advertised set hides every tool.
pub list_tool_metadata-set_advertised_empty :
    {W : Type 0} (strategies : Strategies W) (r : Registry) (w : W)
    → list_tool_metadata strategies (set_advertised [] r) w ≡ []
unfolding set_advertised is_advertised contains
list_tool_metadata-set_advertised_empty strategies r w =
    list_tool_metadata-keep strategies (set_advertised [] r) w
    ∙ ap (map (entry strategies (set_advertised [] r) w)) (keep_none _ (λ e. refl) r.commands)
