-- ===== src/NativeAdapter/Faults.antt =====
-- Calls one after the other: faults in a row disable the tool, and no call is left counted as active.
use tool_smith.Base.{
  ℕ, zero, suc, ◌+◌, ◌≤◌, ◌<◌, ◌≡◌, refl, sym, ◌∙◌, ap, subst, false, Option, List, [], ◌∷◌, ◌++◌,
  arith, take, Bytes, none, some, inl, inr, Option-cases, All, append-nil, append_assoc,
}
use tool_smith.Base.Except.{Exn, ok, throw, Except-cases}
use tool_smith.Json.{Json}
use tool_smith.NativeAdapter.{
  Adapter, Outcome, returned, threw, threw_unknown, Plugin, request_id_of, refused, enter, conclude,
  settle, finish, execute, create,
}

-- With the tool idle, the count of faults within its bound, and the shutdown not requested.
pub record IsSettled (a : Adapter) : Type 0 where
  pub idle : a.active_threads ≡ 0
  pub bounded : a.fault_count ≤ 3

pub not_disabled :
    (a : Adapter) → refused a ≡ none → (a.fault_count < 3) × (a.shutdown_requested ≡ false)
unfolding refused
not_disabled a h = (ground arith, ground arith)

conclude-IsSettled :
    (id : Bytes) (result : Json) (elapsed : ℕ) (a : Adapter)
    → a.active_threads ≡ 0
    → a.fault_count < 3
    → IsSettled (conclude id result elapsed a).1
unfolding conclude
conclude-IsSettled id result elapsed a i b = record { idle = ground arith; bounded = ground arith }

finish-IsSettled :
    (id : Bytes) (outcome : Outcome) (elapsed : ℕ) (a : Adapter)
    → a.active_threads ≡ 0
    → a.fault_count < 3
    → IsSettled (finish id outcome elapsed (enter a)).1
unfolding finish settle enter
finish-IsSettled id (threw what) elapsed a i b = record {
  idle = omega arith;
  bounded = omega arith;
}
finish-IsSettled id threw_unknown elapsed a i b = record {
  idle = omega arith;
  bounded = omega arith;
}
finish-IsSettled id (returned result) elapsed a i b =
    conclude-IsSettled id result elapsed _ (omega arith) b

module _ {P : Type 0} (plugin : Plugin P) (request : Json) (a : Adapter) (p : P) where
  -- What the plugin does with the request.
  abbrev did : Outcome × ℕ × P
  did = plugin request p

  execute_started :
      (id : Bytes)
      → request_id_of request ≡ ok id
      → refused a ≡ none
      → (execute plugin request (a, p)).1 ≡ ((finish id did.0 did.1 (enter a)).1, did.2)
  unfolding execute
  execute_started id good free = rw (good, execute, free) refl

  execute_refused : (why : Json) → refused a ≡ some why → (execute plugin request (a, p)).1 ≡ (a, p)
  unfolding execute
  execute_refused why shut = elim (Except-cases (request_id_of request)) [
    | inr (e, bad) ↦ rw (bad, execute) refl
    | inl (id, good) ↦ rw (good, execute, shut) refl
  ]

  execute_bad_id :
      (e : Exn) → request_id_of request ≡ throw e → (execute plugin request (a, p)).1 ≡ (a, p)
  unfolding execute
  execute_bad_id e bad = rw (bad, execute) refl

  -- From a state with no call under way and at most three faults, a call, whatever the plugin does,
  -- leads to such a state: no thread stays counted as active.
  pub execute-IsSettled : IsSettled a → IsSettled (execute plugin request (a, p)).1.0
  execute-IsSettled v = elim (Option-cases (refused a)) [
    | inr (why, shut) ↦ subst (λ s. IsSettled s.0) (sym (execute_refused why shut)) v
    | inl free ↦ elim (Except-cases (request_id_of request)) [
      | inr (e, bad) ↦ subst (λ s. IsSettled s.0) (sym (execute_bad_id e bad)) v
      | inl (id, good) ↦
          subst (λ s. IsSettled s.0) (sym (execute_started id good free))
            (finish-IsSettled id did.0 did.1 a v.idle (not_disabled a free).0)
    ]
  ]

abbrev pub execute_all {ℓ} : {P : Type ℓ} → Plugin P → List Json → Adapter × P → Adapter × P
execute_all plugin [] s = s
execute_all plugin (request ∷ requests) s = execute_all plugin requests (execute plugin request s).1

-- A plugin that, knowing which requests it got before, always throws, and keeps the requests it gets.
abbrev pub thrown : Option Bytes → Outcome
thrown none = threw_unknown
thrown (some what) = threw what

abbrev pub throwing : (List Json → Json → Option Bytes × ℕ) → Plugin (List Json)
throwing act request got =
    let (what, elapsed) = act got request in (thrown what, elapsed, got ++ request ∷ [])

-- The request is an object whose id, if it has one, is a string.
abbrev pub IsCall : Json → Type 0
IsCall request = (id : Bytes) × (request_id_of request ≡ ok id)

record IsCounting (n : ℕ) (a : Adapter) : Type 0 where
  idle : a.active_threads ≡ 0
  faults : a.fault_count ≡ n
  not_shut : a.shutdown_requested ≡ false

refused-IsCounting : (n : ℕ) (a : Adapter) → IsCounting n a → n < 3 → refused a ≡ none
unfolding refused
refused-IsCounting n a v h = ground (arith, v.idle, v.faults, v.not_shut)

refused_disabled :
    (n : ℕ) (a : Adapter) → IsCounting n a → 3 ≤ n → (why : Json) × (refused a ≡ some why)
refused_disabled n a v h = elim (Option-cases (refused a)) [
  | inr shut ↦ shut
  | inl free ↦ absurd (omega (arith, (not_disabled a free).0, v.faults))
]

finish-IsCounting :
    (n : ℕ) (id : Bytes) (what : Option Bytes) (elapsed : ℕ) (a : Adapter)
    → IsCounting n a
    → IsCounting (suc n) (finish id (thrown what) elapsed (enter a)).1
unfolding finish settle enter
finish-IsCounting n id none elapsed a v = record {
  idle = omega (arith, v.idle);
  faults = omega (arith, v.faults);
  not_shut = v.not_shut;
}
finish-IsCounting n id (some what) elapsed a v = record {
  idle = omega (arith, v.idle);
  faults = omega (arith, v.faults);
  not_shut = v.not_shut;
}

module _ (act : List Json → Json → Option Bytes × ℕ) where
  -- The requests that the plugin has got after these.
  abbrev got_by : List Json → Adapter → List Json → List Json
  got_by requests a got = (execute_all (throwing act) requests (a, got)).1

  disabled_gets :
      (requests : List Json) (n : ℕ) (a : Adapter) (got : List Json)
      → IsCounting n a
      → 3 ≤ n
      → got_by requests a got ≡ got
  disabled_gets [] n a got v h = refl
  disabled_gets (request ∷ requests) n a got v h =
      let (why, shut) = refused_disabled n a v h in
      ap (λ s. (execute_all (throwing act) requests s).1)
        (execute_refused (throwing act) request a got why shut)
      ∙ disabled_gets requests n a got v h

  gets :
      (requests : List Json) (k n : ℕ) (a : Adapter) (got : List Json)
      → IsCounting n a
      → k + n ≡ 3
      → All IsCall requests
      → got_by requests a got ≡ got ++ take k requests
  gets requests zero n a got v e h =
      disabled_gets requests n a got v (omega arith) ∙ sym (append-nil got)
  gets [] (suc k) n a got v e h = sym (append-nil got)
  gets (request ∷ requests) (suc k) n a got v e ((id, good), h) =
      let free = refused-IsCounting n a v (omega arith) in
      let (what, elapsed) = act got request in
      ap (λ s. (execute_all (throwing act) requests s).1)
        (execute_started (throwing act) request a got id good free)
      ∙ gets requests k (suc n) _ (got ++ request ∷ []) (finish-IsCounting n id what elapsed a v)
          (omega arith) h
      ∙ append_assoc got (request ∷ []) (take k requests)

-- If a new tool's plugin throws in every call that it gets, whatever it throws and however long it
-- takes, then of any list of requests, one after the other, each an object whose id is a string or
-- missing, it gets exactly the first three.
pub execute_all-take :
    (act : List Json → Json → Option Bytes × ℕ) (tool_name description : Bytes)
    (input_schema : Json) (timeout_seconds : ℕ) (requests : List Json)
    → All IsCall requests
    → (execute_all
        (throwing act)
        requests
        (create tool_name description input_schema timeout_seconds, [])).1
      ≡ take 3 requests
unfolding create
execute_all-take act tool_name description input_schema timeout_seconds requests h =
    gets act requests 3 0 _ [] (record { idle = refl; faults = refl; not_shut = refl }) refl h
