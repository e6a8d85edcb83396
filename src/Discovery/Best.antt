-- ===== src/Discovery/Best.antt =====
-- Which server a request is forwarded to.
use tool_smith.Base.{
  ℕ, ◌≡◌, refl, subst, suc, true, false, List, [], ◌∷◌, arith, Bytes, Bool-cases, inl, inr, some,
  none, All, keep, get_elem?,
}
use tool_smith.Base.Int.{ℤ, pos, negsuc, lt_int}
use tool_smith.Discovery.{
  McpServerEntry, insert_server, sort_servers, offers, get_servers_for_capability,
  get_best_server_for,
}

-- Not behind in priority.
abbrev pub NoWorse : McpServerEntry → McpServerEntry → Type 0
NoWorse best e = lt_int e.priority best.priority ≡ false

lt_int_irreflexive : (x : ℤ) → lt_int x x ≡ false
lt_int_irreflexive (pos a) = ground arith
lt_int_irreflexive (negsuc a) = ground arith

lt_int_asymmetric : (x y : ℤ) → lt_int x y ≡ true → lt_int y x ≡ false
lt_int_asymmetric (pos a) (pos b) h = ground arith
lt_int_asymmetric (pos a) (negsuc b) h = cc
lt_int_asymmetric (negsuc a) (pos b) h = refl
lt_int_asymmetric (negsuc a) (negsuc b) h = ground arith

-- `x` is not above `y`, and `y` not above `z`.
lt_int_trans : (x y z : ℤ) → lt_int y x ≡ false → lt_int z y ≡ false → lt_int z x ≡ false
lt_int_trans (pos a) (pos b) (pos c) p q = ground arith
lt_int_trans (pos a) (pos b) (negsuc c) p q = cc
lt_int_trans (pos a) (negsuc b) z p q = cc
lt_int_trans (negsuc a) (pos b) (pos c) p q = refl
lt_int_trans (negsuc a) (pos b) (negsuc c) p q = cc
lt_int_trans (negsuc a) (negsuc b) (pos c) p q = refl
lt_int_trans (negsuc a) (negsuc b) (negsuc c) p q = ground arith

abbrev pub OneOf : McpServerEntry → List McpServerEntry → Type 0
OneOf e es = (i : ℕ) × (get_elem? es i ≡ some e)

-- The first of a sorted list is one of the list, and no other comes before it.
abbrev Leads : List McpServerEntry → List McpServerEntry → Type 0
Leads [] es = es ≡ []
Leads (best ∷ rest) es = OneOf best es × All (NoWorse best) es

All-NoWorse :
    (e best : McpServerEntry) (es : List McpServerEntry)
    → NoWorse e best
    → All (NoWorse best) es
    → All (NoWorse e) es
All-NoWorse e best [] p h = tt
All-NoWorse e best (x ∷ es) p (q, h) =
    (lt_int_trans e.priority best.priority x.priority p q, All-NoWorse e best es p h)

insert_server-Leads :
    (e : McpServerEntry) (ks es : List McpServerEntry)
    → Leads ks es
    → Leads (insert_server e ks) (e ∷ es)
unfolding insert_server
insert_server-Leads e [] [] h = ((0, refl), (lt_int_irreflexive e.priority, tt))
insert_server-Leads e [] (x ∷ es) h = cc
insert_server-Leads e (best ∷ rest) es ((i, here), h) =
    elim (Bool-cases (lt_int best.priority e.priority)) [
      | inl before ↦
          rw before ((suc i, here), (lt_int_asymmetric best.priority e.priority before, h))
      | inr behind ↦
          rw behind ((0, refl), (lt_int_irreflexive e.priority, All-NoWorse e best es behind h))
    ]

sort_servers-Leads : (es : List McpServerEntry) → Leads (sort_servers es) es
unfolding sort_servers
sort_servers-Leads [] = refl
sort_servers-Leads (e ∷ es) = insert_server-Leads e (sort_servers es) es (sort_servers-Leads es)

Leads-first :
    (ks es : List McpServerEntry) (best : McpServerEntry)
    → Leads ks es
    → elim ks [ [] ↦ none | e ∷ _ ↦ some e ] ≡ some best
    → OneOf best es × All (NoWorse best) es
Leads-first [] es best h e = cc
Leads-first (k ∷ ks) es best h e =
    let same : k ≡ best = cc in subst (λ b. OneOf b es × All (NoWorse b) es) same h

-- The server that a request is forwarded to is one of those that offer the capability, and none of
-- these has a smaller priority number.
pub get_best_server_for-best :
    (capability : Bytes) (servers : List McpServerEntry) (best : McpServerEntry)
    → get_best_server_for capability servers ≡ some best
    → OneOf best (keep (offers capability) servers)
      × All (NoWorse best) (keep (offers capability) servers)
unfolding get_best_server_for get_servers_for_capability
get_best_server_for-best capability servers best h =
    Leads-first (sort_servers (keep (offers capability) servers)) _ best
      (sort_servers-Leads (keep (offers capability) servers)) h
