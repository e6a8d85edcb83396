-- ===== src/Transport/Calls/InFlight.antt =====
-- What is in flight before and after a call.
use tool_smith.Base.{
  ℕ, ◌≡◌, refl, Option, none, some, arith, Bytes, ascii, Dict, lookup, insert, erase, lookup-erase,
  lookup-insert,
}
use tool_smith.Base.Except.{Except, ok, throw}
use tool_smith.Json.{Json, find, string_of}
use tool_smith.Registry.{resolve}
use tool_smith.Transport.{Host, Transport}
use tool_smith.Transport.Calls.{
  run_call, run_prepared, prepare, call_resolved, call_named, handle_tools_call, tell, cancel_tool,
  cancel_key, cancel_given, handle_cancel, request_key,
}

-- Nothing is in flight after it that was not in flight before.
abbrev pub Settles : {W : Type 0} → Transport W → Transport W → Type 0
Settles before after =
    (key tool : Bytes)
    → lookup key after.in_flight ≡ some tool
    → lookup key before.in_flight ≡ some tool

in_and_out :
    (m : Dict Bytes) (key tool k v : Bytes)
    → lookup k (erase key (insert key tool m)) ≡ some v
    → lookup k m ≡ some v
in_and_out m key tool k v h =
    ground (arith, lookup-erase key k (insert key tool m), lookup-insert key k tool m)

module _ {W : Type 0} (host : Host W) (id : Json) (t : Transport W) where
  run_prepared-Settles : (tool : Bytes) (x : _) → Settles t (run_prepared host tool id t x).1
  unfolding run_call
  run_prepared-Settles tool (throw e) = λ key v h. h
  run_prepared-Settles tool (ok (key, arguments)) = λ k v h. in_and_out t.in_flight key tool k v h

  call_resolved-Settles :
      (tool : Bytes) (arguments : Json) (o : Option ℕ)
      → Settles t (call_resolved host tool arguments id t o).1
  call_resolved-Settles tool arguments none = λ key v h. h
  call_resolved-Settles tool arguments (some command) =
      run_prepared-Settles tool
        (prepare host (host.strategies.metadata command t.tools.1) id arguments)

  call_named-Settles :
      (params : Json) (o : Option Bytes) → Settles t (call_named host params id t o).1
  call_named-Settles params none = λ key v h. h
  call_named-Settles params (some tool) = call_resolved-Settles tool _ (resolve t.tools.0 tool)

-- A tools/call leaves nothing in flight that was not in flight before.
pub handle_tools_call-Settles :
    {W : Type 0} (host : Host W) (params id : Json) (t : Transport W)
    → Settles t (handle_tools_call host params id t).1
unfolding handle_tools_call
handle_tools_call-Settles host params id t =
    call_named-Settles host id t params (string_of (find (ascii "name") params))

-- The call that a cancellation asks for: the key that its `requestId` makes, a tool in flight under that
-- key, and the command that the tool's name stands for.
pub record IsAsked {W : Type 0} (host : Host W) (params : Json) (t : Transport W) (key tool : Bytes)
    (command : ℕ) : Type 0 where
  pub id : Json
  pub given : find (ascii "requestId") params ≡ some id
  pub keyed : request_key host id ≡ ok key
  pub flies : lookup key t.in_flight ≡ some tool
  pub stands : resolve t.tools.0 tool ≡ some command

-- What a cancellation does: nothing, where there is no call that it asks for, or it tells that call's tool.
pub data Cancels {W : Type 0} (host : Host W) (params : Json) (t : Transport W)
    : Transport W → Type 0 where
  nothing :
      ((key tool : Bytes) (command : ℕ) → ¬ IsAsked host params t key tool command)
      → Cancels host params t t
  tells :
      (key tool : Bytes) (command : ℕ)
      → IsAsked host params t key tool command
      → Cancels host params t
          (record t { tools = (t.tools.0, host.cancel_command command key t.tools.1) })

module _ {W : Type 0} (host : Host W) (params : Json) (t : Transport W) where
  tell-Cancels :
      (id : Json) (key tool : Bytes) (o : Option ℕ)
      → find (ascii "requestId") params ≡ some id
      → request_key host id ≡ ok key
      → lookup key t.in_flight ≡ some tool
      → resolve t.tools.0 tool ≡ o
      → Cancels host params t (tell host key t o)
  tell-Cancels id key tool none g k f r = nothing (λ key' tool' command v.
      let same_id : id ≡ v.id = cc in
      let same_key : key ≡ key' = cc in let same_tool : tool ≡ tool' = cc in cc)
  tell-Cancels id key tool (some command) g k f r =
      tells key tool command (record { id = id; given = g; keyed = k; flies = f; stands = r })

  cancel_tool-Cancels :
      (id : Json) (key : Bytes) (o : Option Bytes)
      → find (ascii "requestId") params ≡ some id
      → request_key host id ≡ ok key
      → lookup key t.in_flight ≡ o
      → Cancels host params t (cancel_tool host key o t)
  cancel_tool-Cancels id key none g k f =
      nothing (λ key' tool' command v.
        let same_id : id ≡ v.id = cc in let same_key : key ≡ key' = cc in cc)
  cancel_tool-Cancels id key (some tool) g k f =
      tell-Cancels id key tool (resolve t.tools.0 tool) g k f refl

  cancel_key-Cancels :
      (id : Json) (x : Except Bytes)
      → find (ascii "requestId") params ≡ some id
      → request_key host id ≡ x
      → Cancels host params t (cancel_key host t x).1
  cancel_key-Cancels id (throw e) g k =
      nothing (λ key' tool' command v. let same_id : id ≡ v.id = cc in cc)
  cancel_key-Cancels id (ok key) g k = cancel_tool-Cancels id key (lookup key t.in_flight) g k refl

  cancel_given-Cancels :
      (o : Option Json)
      → find (ascii "requestId") params ≡ o
      → Cancels host params t (cancel_given host t o).1
  cancel_given-Cancels none g = nothing (λ key' tool' command v. cc)
  cancel_given-Cancels (some id) g = cancel_key-Cancels id (request_key host id) g refl

-- A cancellation tells the tool of the call that it asks for, and does nothing only where there is none.
pub handle_cancel-Cancels :
    {W : Type 0} (host : Host W) (params : Json) (t : Transport W)
    → Cancels host params t (handle_cancel host params t).1
unfolding handle_cancel
handle_cancel-Cancels host params t =
    cancel_given-Cancels host params t (find (ascii "requestId") params) refl
