-- ===== src/Transport/Serve/Replies.antt =====
-- A reply carries the id of its request.
use tool_smith.Base.{
  ℕ, ◌≡◌, refl, Bool, true, false, List, Option, none, some, Bytes, ascii, str_eq, if◌then◌else◌,
}
use tool_smith.Base.Int.{ℤ}
use tool_smith.Base.Except.{Except, Exn, ok, throw, ◌>>=◌}
use tool_smith.Registry.Chain.{value_or}
use tool_smith.Json.{Json, null, arr, obj, end, Elems, find, find_field}
use tool_smith.Transport.{
  Engine, Host, Transport, make_response, make_error, make_error_with, internal_error, member,
  array_of,
}
use tool_smith.Transport.Calls.{
  reply_with, run_call, run_prepared, call_resolved, call_named, handle_tools_call, PendingCall,
  batch_reply, batch_given, handle_tools_call_batch, handle_tools_list,
}
use tool_smith.Transport.Prompts.{
  handle_prompts_list, rendered_reply, render_skill, render_with, prompt_named, handle_prompts_get,
}

-- The member "id" of a reply.
abbrev pub IsReplyTo : Json → Json → Type 0
IsReplyTo id reply = find (ascii "id") reply ≡ some id

make_response-IsReplyTo : (id result : Json) → IsReplyTo id (make_response id result)
unfolding make_response find_field str_eq
make_response-IsReplyTo id result = refl

pub make_error-IsReplyTo :
    (id : Json) (code : ℤ) (message : Bytes) → IsReplyTo id (make_error id code message)
unfolding make_error_with find_field str_eq
make_error-IsReplyTo id code message = refl

-- What a handler gives: an exception, no reply, or a reply to the id.
pub data Replies (id : Json) : Except Json → Type 0 where
  throws : (e : Exn) → Replies id (throw e)
  quiet : Replies id (ok null)
  replies : (reply : Json) → IsReplyTo id reply → Replies id (ok reply)

pub make_response-Replies : (id result : Json) → Replies id (ok (make_response id result))
make_response-Replies id result =
    replies (make_response id result) (make_response-IsReplyTo id result)

pub make_error-Replies :
    (id : Json) (code : ℤ) (message : Bytes) → Replies id (ok (make_error id code message))
make_error-Replies id code message =
    replies (make_error id code message) (make_error-IsReplyTo id code message)

pub if_cases {ℓ κ} :
    {A : Type ℓ} (P : A → Type κ) (b : Bool) (x y : A) → P x → P y → P (if b then x else y)
if_cases P true x y t f = t
if_cases P false x y t f = f

-- Of a handler's result with the state after it.
abbrev pub Reacts : {W : Type 0} → Json → Except Json × Transport W → Type 0
Reacts id r = Replies id r.0

module _ {W : Type 0} (host : Host W) (id : Json) where
  reply_with-Replies : (x : Except Json) → Replies id (ok (reply_with host id x))
  reply_with-Replies (ok result) = make_response-Replies id result
  reply_with-Replies (throw e) = make_error-Replies id internal_error (host.what e)

  run_prepared-Replies :
      (tool : Bytes) (t : Transport W) (x : Except (Bytes × Json))
      → Reacts id (run_prepared host tool id t x)
  unfolding run_call
  run_prepared-Replies tool t (throw e) = throws e
  run_prepared-Replies tool t (ok (key, arguments)) = reply_with-Replies _

  call_resolved-Replies :
      (tool : Bytes) (arguments : Json) (t : Transport W) (o : Option ℕ)
      → Reacts id (call_resolved host tool arguments id t o)
  call_resolved-Replies tool arguments t none = make_error-Replies id _ _
  call_resolved-Replies tool arguments t (some command) = run_prepared-Replies tool t _

  call_named-Replies :
      (params : Json) (t : Transport W) (o : Option Bytes)
      → Reacts id (call_named host params id t o)
  call_named-Replies params t none = make_error-Replies id _ _
  call_named-Replies params t (some tool) = call_resolved-Replies tool _ t _

  pub handle_tools_call-Replies :
      (params : Json) (t : Transport W) → Reacts id (handle_tools_call host params id t)
  unfolding handle_tools_call
  handle_tools_call-Replies params t = call_named-Replies params t _

  batch_reply-Replies :
      (t : Transport W) (x : Except (List PendingCall)) → Reacts id (batch_reply host id t x)
  batch_reply-Replies t (throw e) = throws e
  batch_reply-Replies t (ok calls) = make_response-Replies id _

  batch_given-Replies : (t : Transport W) (o : Option Elems) → Reacts id (batch_given host id t o)
  batch_given-Replies t none = make_error-Replies id _ _
  batch_given-Replies t (some calls) = batch_reply-Replies t _

  pub handle_tools_call_batch-Replies :
      (params : Json) (t : Transport W) → Reacts id (handle_tools_call_batch host params id t)
  unfolding handle_tools_call_batch
  handle_tools_call_batch-Replies params t = batch_given-Replies t _

  pub handle_tools_list-Replies : (t : Transport W) → Replies id (ok (handle_tools_list host id t))
  unfolding handle_tools_list
  handle_tools_list-Replies t = make_response-Replies id _

  prompts-Replies :
      (x : Except (List Json))
      → Replies id (
          x >>= (λ prompts.
            ok (make_response id (member (ascii "prompts") (arr (array_of prompts))))))
  prompts-Replies (ok prompts) = make_response-Replies id _
  prompts-Replies (throw e) = throws e

  pub handle_prompts_list-Replies : Replies id (handle_prompts_list host id)
  unfolding handle_prompts_list
  handle_prompts_list-Replies = prompts-Replies _

  rendered_reply-Replies : (x : Except Bytes) → Replies id (ok (rendered_reply host id x))
  rendered_reply-Replies (ok rendered) = make_response-Replies id _
  rendered_reply-Replies (throw e) = make_error-Replies id _ _

  render_with-Replies :
      (name : Bytes) (arguments : Json) (o : Option Engine)
      → Replies id (ok (render_with host id name arguments o))
  render_with-Replies name arguments none = make_error-Replies id _ _
  render_with-Replies name arguments (some e) = render_skill-Replies (e.resolve_skill name)
    where
      render_skill-Replies :
          (o : Option ℕ) → Replies id (ok (render_skill host e id name arguments o))
      render_skill-Replies none = make_error-Replies id _ _
      render_skill-Replies (some skill) = rendered_reply-Replies _

  prompt_named-Replies :
      (params : Json) (o : Option Bytes) → Replies id (ok (prompt_named host params id o))
  prompt_named-Replies params none = make_error-Replies id _ _
  prompt_named-Replies params (some name) =
      render_with-Replies name (value_or (obj end) (find (ascii "arguments") params)) host.engine

  pub handle_prompts_get-Replies :
      (params : Json) → Replies id (ok (handle_prompts_get host params id))
  unfolding handle_prompts_get
  handle_prompts_get-Replies params = prompt_named-Replies params _
