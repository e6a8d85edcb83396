-- ===== src/Protocol/Guards.antt =====
-- What a request must pass before a tool runs.
use tool_smith.Base.{
  ℕ, ◌≤◌, ◌≡◌, ◌≢◌, refl, ◌∙◌, true, none, some, arith, Bytes, Bool-cases, inl, inr, Option-cases,
  if◌then◌else◌, leb, length, All, [], ◌++◌,
}
use tool_smith.Base.Except.{Except, ok, throw, Except-cases}
use tool_smith.Json.{Json}
use tool_smith.Json.Depth.{height}
use tool_smith.Security.ApiKey.{bearer}
use tool_smith.Security.ApiKey.Exact.{IsByte, validate_iff}
use tool_smith.Validation.{validate_payload_size, validate_json_depth}
use tool_smith.Validation.Nesting.{validate_json_depth-height}
use tool_smith.Registry.{Registry, resolve}
use tool_smith.Protocol.{
  Setup, Server, command_of, call_tool, handle, respond, handle_body, admit, authorised,
  handle_request,
}

-- A request of the body that names a registered tool, and passes the depth check and the schema.
pub record IsServed {W : Type 0} (setup : Setup W) (body : Bytes) (r : Registry) : Type 0 where
  pub request : Json
  pub command : Bytes
  pub tool : ℕ
  pub parsed : setup.parse body ≡ some request
  pub shallow : height request ≤ 32
  pub in_schema : setup.request_validates request ≡ true
  pub named : command_of request ≡ ok command
  pub registered : resolve r command ≡ some tool

pub record IsAdmitted {W : Type 0} (setup : Setup W) (body client auth : Bytes) (now : ℕ)
    (s : Server W) : Type 0 where
  pub small : length body ≤ setup.max_body_size
  pub within_rate : (admit s.rate_limiter client now).0 ≡ true
  pub known_caller : authorised setup.api_key_validator auth ≡ true
  pub served : IsServed setup body s.tools.0

size-le : (body : Bytes) (n : ℕ) → validate_payload_size body n ≡ true → length body ≤ n
unfolding validate_payload_size
size-le body n h = ground arith

module _ {W : Type 0} (setup : Setup W) where
  call_tool-none :
      (command : Bytes) (request : Json) (r : Registry) (w : W)
      → resolve r command ≡ none
      → (call_tool setup command request (r, w)).1 ≡ (r, w)
  unfolding call_tool
  call_tool-none command request r w e = rw (e, call_tool)

  respond_state : (o : Except Json × (Registry × W)) → (respond setup o).1 ≡ o.1
  unfolding respond
  respond_state (ok result, s) = refl
  respond_state (throw e, s) = refl

  handle-changed :
      (request : Json) (r : Registry) (w : W)
      → (handle setup request (r, w)).1 ≢ (r, w)
      → (setup.request_validates request ≡ true)
        × ((command : Bytes) × (tool : ℕ) × (command_of request ≡ ok command)
            × (resolve r command ≡ some tool))
  unfolding handle
  handle-changed request r w h = elim (Bool-cases (setup.request_validates request)) [
    | inr bad ↦ absurd (h (rw bad refl))
    | inl good ↦ elim (Except-cases (command_of request)) [
      | inr (e, bad) ↦ absurd (h (rw (good, bad) refl))
      | inl (command, named) ↦ elim (Option-cases (resolve r command)) [
        | inl missing ↦
            absurd (h (rw (good, named, call_tool-none command request r w missing) refl))
        | inr (tool, registered) ↦ (good, (command, tool, named, registered))
      ]
    ]
  ]

  handle_body-changed :
      (body : Bytes) (r : Registry) (w : W)
      → (handle_body setup body (r, w)).1 ≢ (r, w)
      → IsServed setup body r
  unfolding handle_body
  handle_body-changed body r w h = elim (Option-cases (setup.parse body)) [
    | inl bad ↦ absurd (h (rw (bad, handle_body) refl))
    | inr (request, parsed) ↦ elim (Bool-cases (validate_json_depth request 32)) [
      | inr deep ↦ absurd (h (rw (parsed, handle_body, deep) refl))
      | inl shallow ↦
          let ran : (handle setup request (r, w)).1 ≢ (r, w) = λ same. h (
            rw (parsed, handle_body, shallow)
              (respond_state (handle setup request (r, w)) ∙ same)) in
          let (good, (command, tool, named, registered)) = handle-changed request r w ran in
          record {
            request = request;
            command = command;
            tool = tool;
            parsed = parsed;
            shallow = ground (arith, validate_json_depth-height request 32);
            in_schema = good;
            named = named;
            registered = registered;
          }
    ]
  ]

  -- The registry and the tools' state change only on a request that is small enough, within its
  -- client's rate, from a known caller, and whose body parses to a value that is at most 32 levels
  -- deep, passes the schema and names a registered tool.
  pub handle_request-IsAdmitted :
      (body client auth : Bytes) (now : ℕ) (s : Server W)
      → (handle_request setup body client auth now s).1.tools ≢ s.tools
      → IsAdmitted setup body client auth now s
  unfolding handle_request
  handle_request-IsAdmitted body client auth now s h =
      elim (Bool-cases (validate_payload_size body setup.max_body_size)) [
        | inr big ↦ absurd (h (rw big refl))
        | inl small ↦ elim (Bool-cases (admit s.rate_limiter client now).0) [
          | inr limited ↦ absurd (h (rw (small, limited) refl))
          | inl within ↦ elim (Bool-cases (authorised setup.api_key_validator auth)) [
            | inr unknown ↦ absurd (h (rw (small, within, unknown) refl))
            | inl known ↦ record {
              small = size-le body setup.max_body_size small;
              within_rate = within;
              known_caller = known;
              served =
                  handle_body-changed body s.tools.0 s.tools.1
                    (λ same. h (rw (small, within, known) same));
            }
          ]
        ]
      ]

  -- With a key set and enabled, key and header made of bytes, the registry and the tools' state
  -- change only on a request with the header "Bearer " and that key, and then the key is not empty.
  pub handle_request-bearer :
      (key body client auth : Bytes) (now : ℕ) (s : Server W)
      → setup.api_key_validator ≡ some (record { expected_key = key; enabled = true })
      → All IsByte key
      → All IsByte auth
      → (handle_request setup body client auth now s).1.tools ≢ s.tools
      → (key ≢ []) × (auth ≡ bearer ++ key)
  unfolding authorised
  handle_request-bearer key body client auth now s guarded p q h =
      let known = (handle_request-IsAdmitted body client auth now s h).known_caller in
      (validate_iff key auth p q).0 (rw guarded at known)

  -- A request spends from its client's bucket unless its body is too large, whatever comes of it.
  pub handle_request-rate_limiter :
      (body client auth : Bytes) (now : ℕ) (s : Server W)
      → (handle_request setup body client auth now s).1.rate_limiter ≡ (
          if leb (length body) setup.max_body_size
          then (admit s.rate_limiter client now).1
          else s.rate_limiter)
  unfolding handle_request validate_payload_size
  handle_request-rate_limiter body client auth now s =
      elim (Bool-cases (leb (length body) setup.max_body_size)) [
        | inr big ↦ rw big refl
        | inl small ↦ elim (Bool-cases (admit s.rate_limiter client now).0) [
          | inr limited ↦ rw (small, limited) refl
          | inl within ↦ elim (Bool-cases (authorised setup.api_key_validator auth)) [
            | inr unknown ↦ rw (small, within, unknown) refl
            | inl known ↦ rw (small, within, known) refl
          ]
        ]
      ]
