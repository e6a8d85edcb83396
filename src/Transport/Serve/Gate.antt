-- ===== src/Transport/Serve/Gate.antt =====
-- What `Dispatch` lets through before initialization, and what it replies.
use tool_smith.Base.{◌≡◌, refl, false, not, Option, none, some, Bytes, ascii, str_eq}
use tool_smith.Base.Except.{Except, ok, throw}
use tool_smith.Json.{Json, find}
use tool_smith.Transport.{Host, Transport, make_error, message_id, invalid_request}
use tool_smith.Transport.Calls.{cancel_key, cancel_given, handle_cancel, request_key}
use tool_smith.Transport.Serve.{returns, handle_initialize, serve_method, dispatch_method, dispatch}
use tool_smith.Transport.Serve.Replies.{
  Replies, throws, quiet, Reacts, make_response-Replies, make_error-Replies, if_cases,
  handle_tools_call-Replies, handle_tools_call_batch-Replies, handle_tools_list-Replies,
  handle_prompts_list-Replies, handle_prompts_get-Replies,
}
use tool_smith.Transport.Serve.Files.{
  handle_resources_list-Replies, handle_resources_read-Replies, handle_resources_subscribe-Replies,
  handle_resources_unsubscribe-Replies,
}

module _ {W : Type 0} (host : Host W) (id : Json) (params : Json) (t : Transport W) where
  cancel_key-Replies : (x : Except Bytes) → Reacts id (cancel_key host t x)
  cancel_key-Replies (throw e) = throws e
  cancel_key-Replies (ok key) = quiet

  cancel_given-Replies : (o : Option Json) → Reacts id (cancel_given host t o)
  cancel_given-Replies none = quiet
  cancel_given-Replies (some j) = cancel_key-Replies (request_key host j)

  handle_cancel-Replies : Reacts id (handle_cancel host params t)
  unfolding handle_cancel
  handle_cancel-Replies = cancel_given-Replies (find (ascii "requestId") params)

  handle_initialize-Replies : Reacts id (returns (handle_initialize host id t))
  unfolding handle_initialize
  handle_initialize-Replies = make_response-Replies id _

  serve_method-Replies : (method : Bytes) → Reacts id (serve_method host method params id t)
  unfolding serve_method
  serve_method-Replies method =
      if_cases (Reacts id) (str_eq method (ascii "tools/list")) _ _
        (handle_tools_list-Replies host id t)
        (if_cases (Reacts id) (str_eq method (ascii "tools/call")) _ _
          (handle_tools_call-Replies host id params t)
          (if_cases (Reacts id) (str_eq method (ascii "tools/call_batch")) _ _
            (handle_tools_call_batch-Replies host id params t)
            (if_cases (Reacts id) (str_eq method (ascii "prompts/list")) _ _
              (handle_prompts_list-Replies host id)
              (if_cases (Reacts id) (str_eq method (ascii "prompts/get")) _ _
                (handle_prompts_get-Replies host id params)
                (if_cases (Reacts id) (str_eq method (ascii "resources/list")) _ _
                  (handle_resources_list-Replies host id t)
                  (if_cases (Reacts id) (str_eq method (ascii "resources/read")) _ _
                    (handle_resources_read-Replies host id params t)
                    (if_cases (Reacts id) (str_eq method (ascii "resources/subscribe")) _ _
                      (handle_resources_subscribe-Replies host id params t)
                      (if_cases (Reacts id) (str_eq method (ascii "resources/unsubscribe")) _ _
                        (handle_resources_unsubscribe-Replies params id t)
                        (make_error-Replies id _ _)))))))))

  dispatch_method-Replies : (method : Bytes) → Reacts id (dispatch_method host method params id t)
  unfolding dispatch_method
  dispatch_method-Replies method =
      if_cases (Reacts id) (str_eq method (ascii "initialize")) _ _ handle_initialize-Replies (
        if_cases (Reacts id) (str_eq method (ascii "notifications/initialized")) _ _ quiet (
          if_cases (Reacts id) (str_eq method (ascii "notifications/cancelled")) _ _
            handle_cancel-Replies
            (if_cases (Reacts id) (not t.initialized) _ _ (make_error-Replies id _ _)
              (serve_method-Replies method))))

-- A dispatch throws, gives null, or gives a reply with the message's id.
pub dispatch-Replies :
    {W : Type 0} (host : Host W) (method : Bytes) (message : Json) (t : Transport W)
    → Replies (message_id message) (dispatch host method message t).0
unfolding dispatch
dispatch-Replies host method message t =
    dispatch_method-Replies host (message_id message) _ t method

-- Before initialization, a method other than initialize and the two notifications is answered with
-- "Server not initialized", and the state stays as it is.
pub dispatch-gate :
    {W : Type 0} (host : Host W) (method : Bytes) (message : Json) (t : Transport W)
    → t.initialized ≡ false
    → str_eq method (ascii "initialize") ≡ false
    → str_eq method (ascii "notifications/initialized") ≡ false
    → str_eq method (ascii "notifications/cancelled") ≡ false
    → dispatch host method message t
      ≡ (ok (make_error (message_id message) invalid_request (ascii "Server not initialized")), t)
unfolding dispatch dispatch_method
dispatch-gate host method message t fresh a b c = rw (a, b, c, fresh) refl
