-- ===== src/Protocol/Errors.antt =====
-- When handling a request throws.
use tool_smith.Base.{ℕ, ◌≡◌, refl, true, arith, Bytes, Bool-cases, inl, inr, Option-cases}
use tool_smith.Base.Except.{Except, ok, throw, Exn}
use tool_smith.Json.{Json}
use tool_smith.Validation.{validate_payload_size, validate_json_depth}
use tool_smith.Registry.{Registry, resolve, list_commands}
use tool_smith.Registry.Chain.{execute_with_chaining}
use tool_smith.Protocol.{
  Setup, Server, command_of, call_tool, caught, handle, respond, handle_body, admit, authorised,
  handle_request, create_response, not_available, invalid_schema,
}

module _ {W : Type 0} (setup : Setup W)
    -- The request schema asks for a member "command" that is a string.
    (has_command : (request : Json)
      → setup.request_validates request ≡ true
      → (command : Bytes) × (command_of request ≡ ok command)) where
  caught_ok {ℓ} : {S : Type ℓ} (o : Except Json × S) → (result : Json) × ((caught o).0 ≡ ok result)
  unfolding caught
  caught_ok (ok result, s) = (result, refl)
  caught_ok (throw e, s) = (_, refl)

  call_tool_ok :
      (command : Bytes) (request : Json) (r : Registry) (w : W)
      → (result : Json) × ((call_tool setup command request (r, w)).0 ≡ ok result)
  unfolding call_tool
  call_tool_ok command request r w = elim (Option-cases (resolve r command)) [
    | inl missing ↦ (not_available command (list_commands r), rw (missing, call_tool) refl)
    | inr (tool, found) ↦
        let (result, e) =
          caught_ok (execute_with_chaining setup.strategies command request (r, w)) in
        (result, rw (found, call_tool) e)
  ]

  handle_ok :
      (request : Json) (r : Registry) (w : W)
      → (result : Json) × ((handle setup request (r, w)).0 ≡ ok result)
  unfolding handle
  handle_ok request r w = elim (Bool-cases (setup.request_validates request)) [
    | inr bad ↦ (invalid_schema, rw bad refl)
    | inl good ↦
        let (command, named) = has_command request good in
        let (result, e) = call_tool_ok command request r w in (result, rw (good, named) e)
  ]

  create_response-throws :
      (result : Json) (e : Exn)
      → create_response setup result ≡ throw e
      → setup.dump result ≡ throw e
  unfolding create_response
  create_response-throws result e h = ground arith

  respond-throws {ℓ} :
      {S : Type ℓ} (o : Except Json × S) (result : Json) (e : Exn)
      → o.0 ≡ ok result
      → (respond setup o).0 ≡ throw e
      → setup.dump result ≡ throw e
  unfolding respond
  respond-throws (ok other, s) result e p h =
      let same : other ≡ result = cc in rw same at (create_response-throws other e h)
  respond-throws (throw d, s) result e p h = cc

  handle_body-throws :
      (body : Bytes) (s : Registry × W) (e : Exn)
      → (handle_body setup body s).0 ≡ throw e
      → (result : Json) × (setup.dump result ≡ throw e)
  unfolding handle_body
  handle_body-throws body (r, w) e h = elim (Option-cases (setup.parse body)) [
    | inl bad ↦ let wrong = rw (bad, handle_body) at h in cc
    | inr (request, parsed) ↦ elim (Bool-cases (validate_json_depth request 32)) [
      | inr deep ↦ let wrong = rw (parsed, handle_body, deep) at h in cc
      | inl shallow ↦
          let (result, done) = handle_ok request r w in
          (
            result,
            respond-throws (handle setup request (r, w)) result e done
                (rw (parsed, handle_body, shallow) at h),
          )
    ]
  ]

  -- If the request validator lets pass only requests whose "command" is a string, an exception that
  -- leaves the handler is one that the printer threw on some value: a tool's own exceptions never
  -- leave it.
  pub handle_request-throws :
      (body client auth : Bytes) (now : ℕ) (s : Server W) (e : Exn)
      → (handle_request setup body client auth now s).0 ≡ throw e
      → (result : Json) × (setup.dump result ≡ throw e)
  unfolding handle_request
  handle_request-throws body client auth now s e h =
      elim (Bool-cases (validate_payload_size body setup.max_body_size)) [
        | inr big ↦ let wrong = rw big at h in cc
        | inl small ↦ elim (Bool-cases (admit s.rate_limiter client now).0) [
          | inr limited ↦ let wrong = rw (small, limited) at h in cc
          | inl within ↦ elim (Bool-cases (authorised setup.api_key_validator auth)) [
            | inr unknown ↦ let wrong = rw (small, within, unknown) at h in cc
            | inl known ↦ handle_body-throws body s.tools e (rw (small, within, known) at h)
          ]
        ]
      ]
