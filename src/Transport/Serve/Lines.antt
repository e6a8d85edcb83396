-- ===== src/Transport/Serve/Lines.antt =====
-- What a message may lead to.
use tool_smith.Base.{
  ◌≡◌, refl, Bool, true, false, ◌&&◌, ◌⊎◌, inl, inr, [], ◌∷◌, Bool-cases, arith, Bytes, ascii,
  str_eq,
}
use tool_smith.Base.Except.{Except, Exn, ok, throw, Except-cases}
use tool_smith.Json.{Json, has, is_null}
use tool_smith.Transport.{Host, Transport, message_id}
use tool_smith.Transport.Serve.{
  dispatch, is_request, Effect, sends, raises, send, reply_effect, kept, pooled, direct, run_method,
  process_message,
}
use tool_smith.Transport.Serve.Replies.{Replies, quiet, replies, IsReplyTo, make_error-IsReplyTo}
use tool_smith.Transport.Serve.Gate.{dispatch-Replies}

-- At most one reply, which carries the id of the message; none to a notification.
pub data AtMostOne (message : Json) : Effect → Type 0 where
  silent : AtMostOne message (sends [])
  once :
      (reply : Json)
      → IsReplyTo (message_id message) reply
      → (has (ascii "id") message ≡ true) ⊎ (is_request message ≡ false)
      → AtMostOne message (sends (reply ∷ []))
  raised : (e : Exn) → AtMostOne message (raises e)

kept-AtMostOne :
    (message : Json) (effect : Effect) → AtMostOne message effect → AtMostOne message (kept effect)
kept-AtMostOne message _ silent = silent
kept-AtMostOne message _ (once reply h w) = once reply h w
kept-AtMostOne message _ (raised e) = silent

module _ {W : Type 0} (host : Host W) (message : Json) where
  send-AtMostOne :
      (reply : Json)
      → IsReplyTo (message_id message) reply
      → (has (ascii "id") message ≡ true) ⊎ (is_request message ≡ false)
      → AtMostOne message (send host reply)
  send-AtMostOne reply h w = elim (Except-cases (host.dump reply)) [
    | inl (text, printed) ↦ rw (printed, send) (once reply h w)
    | inr (e, thrown) ↦ rw (thrown, send) (raised e)
  ]

  reply_effect-AtMostOne :
      (wanted : Bool) (reply : Json)
      → has (ascii "id") message ≡ wanted
      → Replies (message_id message) (ok reply)
      → AtMostOne message (reply_effect host wanted reply)
  reply_effect-AtMostOne false reply w r = silent
  reply_effect-AtMostOne true _ w quiet = silent
  reply_effect-AtMostOne true reply w (replies _ h) = elim (Bool-cases (is_null reply)) [
    | inl absent ↦ rw absent silent
    | inr present ↦ rw present (send-AtMostOne reply h (inl w))
  ]

  direct-AtMostOne :
      (wanted : Bool) (x : Except Json) (t : Transport W)
      → has (ascii "id") message ≡ wanted
      → Replies (message_id message) x
      → AtMostOne message (direct host wanted (x, t)).0
  direct-AtMostOne wanted (throw e) t w r = raised e
  direct-AtMostOne wanted (ok reply) t w r = reply_effect-AtMostOne wanted reply w r

  pooled-AtMostOne :
      (x : Except Json) (t : Transport W)
      → has (ascii "id") message ≡ true
      → Replies (message_id message) x
      → AtMostOne message (pooled host (x, t)).0
  pooled-AtMostOne (throw e) t w r = silent
  pooled-AtMostOne (ok reply) t w r =
      kept-AtMostOne message _ (reply_effect-AtMostOne true reply w r)

abbrev First : {W : Type 0} → Json → Effect × Transport W → Type 0
First message r = AtMostOne message r.0

run_method-AtMostOne :
    {W : Type 0} (host : Host W) (message : Json) (t : Transport W) (x : Except Bytes)
    → AtMostOne message (run_method host message t x).0
run_method-AtMostOne host message t (throw e) = raised e
run_method-AtMostOne host message t (ok method) =
    let reply = dispatch-Replies host method message t in
    let (x, t') = dispatch host method message t in
    elim (Bool-cases (str_eq method (ascii "tools/call") && has (ascii "id") message)) [
      | inl pool ↦ rw pool (pooled-AtMostOne host message _ _ (ground arith) reply)
      | inr loop ↦ rw loop (direct-AtMostOne host message _ _ _ refl reply)
    ]

-- Whatever the message and the state, at most one reply is sent for a message, it carries the id of
-- the message (null, if there is none), and none is sent for a request without an id; or an
-- exception leaves the loop.
pub process_message-AtMostOne :
    {W : Type 0} (host : Host W) (message : Json) (t : Transport W)
    → AtMostOne message (process_message host message t).0
unfolding process_message
process_message-AtMostOne host message t = elim (Bool-cases (is_request message)) [
  | inl request ↦ rw request (run_method-AtMostOne host message t _)
  | inr bad ↦ rw bad (send-AtMostOne host message _ (make_error-IsReplyTo _ _ _) (inr bad))
]
