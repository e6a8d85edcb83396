-- ===== src/NativeAdapter/Interleaving.antt =====
-- Calls that overlap: a call reads the state (`refused`), then counts itself, then waits for the
-- plugin, then is no longer counted, then settles; other calls may do any of these in between.
use tool_smith.Base.{ℕ, zero, suc, ◌+◌, ◌≤◌, ◌<◌, ◌≡◌, refl, arith, Bytes, none}
use tool_smith.Json.{Json}
use tool_smith.NativeAdapter.{
  Adapter, Outcome, create, cancel, shutdown, refused, enter, leave, settle,
}
use tool_smith.NativeAdapter.Faults.{not_disabled}

-- `entering` counts the calls that were not refused and are not yet counted in `m_ActiveThreads`, and
-- `settling` those that are no longer counted, but have not yet changed the count of faults.
pub record Calls : Type 0 where
  pub adapter : Adapter
  pub entering : ℕ
  pub settling : ℕ

pub data Step : Calls → Calls → Type 0 where
  admitted :
      (c : Calls) → refused c.adapter ≡ none → Step c (record c { entering = suc c.entering })
  entered :
      (c : Calls) (n : ℕ)
      → c.entering ≡ suc n
      → Step c (record c { adapter = enter c.adapter; entering = n })
  came_back :
      (c : Calls)
      → 0 < c.adapter.active_threads
      → Step c (record c { adapter = leave c.adapter; settling = suc c.settling })
  settled :
      (c : Calls) (n : ℕ) (id : Bytes) (outcome : Outcome) (elapsed : ℕ)
      → c.settling ≡ suc n
      → Step c (record c { adapter = (settle id outcome elapsed c.adapter).1; settling = n })
  cancelled : (c : Calls) (id : Bytes) → Step c (record c { adapter = cancel id c.adapter })
  shut_down : (c : Calls) → Step c (record c { adapter = shutdown c.adapter })

pub data Reaches : Calls → Calls → Type 0 where
  here : (c : Calls) → Reaches c c
  after : (c d e : Calls) → Step c d → Reaches d e → Reaches c e

-- Disabled, with no call under way.
pub record IsDead (c : Calls) : Type 0 where
  pub disabled : 3 ≤ c.adapter.fault_count
  pub idle : c.adapter.active_threads ≡ 0
  pub none_entering : c.entering ≡ 0
  pub none_settling : c.settling ≡ 0

Step-IsDead : (c d : Calls) → Step c d → IsDead c → IsDead d
unfolding cancel shutdown
Step-IsDead _ _ (admitted c free) v =
    absurd (omega (arith, (not_disabled c.adapter free).0, v.disabled))
Step-IsDead _ _ (entered c n e) v = absurd (omega (arith, e, v.none_entering))
Step-IsDead _ _ (came_back c p) v = absurd (omega (arith, p, v.idle))
Step-IsDead _ _ (settled c n id outcome elapsed e) v = absurd (omega (arith, e, v.none_settling))
Step-IsDead _ _ (cancelled c id) v = record {
  disabled = v.disabled;
  idle = v.idle;
  none_entering = v.none_entering;
  none_settling = v.none_settling;
}
Step-IsDead _ _ (shut_down c) v = record {
  disabled = v.disabled;
  idle = v.idle;
  none_entering = v.none_entering;
  none_settling = v.none_settling;
}

-- Once the tool is disabled and no call is under way, not even one that is no longer counted and
-- has yet to settle, it stays so, whatever requests, cancellations and shutdown come.
pub Reaches-IsDead : (c d : Calls) → Reaches c d → IsDead c → IsDead d
Reaches-IsDead c _ (here _) v = v
Reaches-IsDead c e (after _ d _ s r) v = Reaches-IsDead d e r (Step-IsDead c d s v)

Reaches-trans : (c d e : Calls) → Reaches c d → Reaches d e → Reaches c e
Reaches-trans c _ e (here _) r = r
Reaches-trans c d e (after _ b _ s q) r = after c b e s (Reaches-trans b d e q r)

abbrev pub with_entering : Adapter → ℕ → Calls
with_entering a n = record { adapter = a; entering = n; settling = 0 }

many_admitted :
    (a : Adapter) (n : ℕ) → refused a ≡ none → Reaches (with_entering a 0) (with_entering a n)
many_admitted a zero free = here _
many_admitted a (suc n) free =
    Reaches-trans _ _ _ (many_admitted a n free)
      (after _ _ _ (admitted (with_entering a n) free) (here _))

many_entered :
    (a : Adapter) (n : ℕ)
    → (b : Adapter) × Reaches (with_entering a n) (with_entering b 0)
      × (b.active_threads ≡ a.active_threads + n)
unfolding enter
many_entered a zero = (a, here _, omega arith)
many_entered a (suc n) =
    let (b, r, e) = many_entered (enter a) n in
    (b, after _ _ _ (entered (with_entering a (suc n)) n refl) r, omega (arith, e))

-- Calls that arrive together all pass the check of kMaxConcurrentCalls before one is counted: any
-- number of calls can be in a new tool's plugin at once.
pub active_threads_unbounded :
    (tool_name description : Bytes) (input_schema : Json) (timeout_seconds n : ℕ)
    → (a : Adapter) × Reaches
        (with_entering (create tool_name description input_schema timeout_seconds) 0)
        (with_entering a 0)
      × (a.active_threads ≡ n)
unfolding create refused
active_threads_unbounded tool_name description input_schema timeout_seconds n =
    let start = create tool_name description input_schema timeout_seconds in
    let (a, r, e) = many_entered start n in
    (a, Reaches-trans _ _ _ (many_admitted start n refl) r, omega (arith, e))
