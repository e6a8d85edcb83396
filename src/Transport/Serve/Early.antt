-- ===== src/Transport/Serve/Early.antt =====
-- The lines before initialization.
use tool_smith.Base.{
  arith, ◌≡◌, ◌≢◌, refl, sym, ◌∙◌, ap, Bool, true, false, not, ◌&&◌, inl, inr, List, [], ◌∷◌,
  Option, none, some, Bool-cases, Bytes, ascii, str_eq, str_eq_sound, is_empty, lookup, All, subst,
  if◌then◌else◌,
}
use tool_smith.Base.Except.{Except, ok, throw}
use tool_smith.Json.{Json, null, bool, int, real, str, arr, obj, find, has, string_of}
use tool_smith.Registry.{Registry}
use tool_smith.Registry.Chain.{text_or}
use tool_smith.Transport.{Host, Transport}
use tool_smith.Transport.Calls.InFlight.{Cancels, nothing, tells, handle_cancel-Cancels}
use tool_smith.Transport.Serve.{
  dispatch_method, dispatch, is_request, Effect, sends, raises, pooled, direct, run_method,
  process_message, process_parsed, process_line, without_cr, RunOutcome, go_on, run_loop,
}

-- What a parsed line asks for, if it is a message with a method.
abbrev pub asks : Option Json → Option Bytes
asks none = none
asks (some message) = string_of (find (ascii "method") message)

-- A line that does not ask to initialize.
abbrev pub IsEarly : {W : Type 0} → Host W → Bytes → Type 0
IsEarly host line = asks (host.parse (without_cr line)) ≢ some (ascii "initialize")

-- Not initialized, and nothing in flight.
pub record IsFresh {W : Type 0} (t : Transport W) : Type 0 where
  pub uninitialized : t.initialized ≡ false
  pub idle : t.in_flight ≡ []

if_cases {ℓ κ} :
    {A : Type ℓ} (P : A → Type κ) (b : Bool) (x y : A)
    → (b ≡ true → P x)
    → (b ≡ false → P y)
    → P (if b then x else y)
if_cases P true x y t f = t refl
if_cases P false x y t f = f refl

clash : {A : Type 0} {b : Bool} → b ≡ true → b ≡ false → A
clash t f = absurd (grind arith)

no_call :
    {W : Type 0} (host : Host W) (params : Json) (t next : Transport W)
    → t.in_flight ≡ []
    → Cancels host params t next
    → next ≡ t
unfolding lookup
no_call host params t _ h (nothing absent) = refl
no_call host params t _ h (tells key tool command v) =
    let wrong : none ≡ some tool = rw h at v.flies in absurd cc

abbrev Leaves : {W : Type 0} → Transport W → Except Json × Transport W → Type 0
Leaves t r = r.1 ≡ t

abbrev Passes : {W : Type 0} → Transport W → Effect × Transport W → Type 0
Passes t r = r.1 ≡ t

module _ {W : Type 0} (host : Host W) (t : Transport W) (f : IsFresh t) where
  dispatch_method-fresh :
      (method : Bytes) (params id : Json)
      → str_eq method (ascii "initialize") ≡ false
      → Leaves t (dispatch_method host method params id t)
  unfolding dispatch_method
  dispatch_method-fresh method params id other =
      if_cases (Leaves t) (str_eq method (ascii "initialize")) _ _ (λ asked. clash asked other)
        (λ _.
          if_cases (Leaves t) (str_eq method (ascii "notifications/initialized")) _ _ (λ _. refl)
            (λ _.
              if_cases (Leaves t) (str_eq method (ascii "notifications/cancelled")) _ _
                (λ _. no_call host params t _ f.idle (handle_cancel-Cancels host params t))
                (λ _.
                  if_cases (Leaves t) (not t.initialized) _ _ (λ _. refl)
                    (λ ready. clash (ap not f.uninitialized) ready))))

  dispatch-fresh :
      (method : Bytes) (message : Json)
      → str_eq method (ascii "initialize") ≡ false
      → Leaves t (dispatch host method message t)
  unfolding dispatch
  dispatch-fresh method message other = dispatch_method-fresh method _ _ other

  pooled-fresh : (r : Except Json × Transport W) → Leaves t r → Passes t (pooled host r)
  pooled-fresh (ok reply, t') h = h
  pooled-fresh (throw e, t') h = h

  direct-fresh :
      (wanted : Bool) (r : Except Json × Transport W) → Leaves t r → Passes t (direct host wanted r)
  direct-fresh wanted (ok reply, t') h = h
  direct-fresh wanted (throw e, t') h = h

  run_method-fresh :
      (message : Json) (x : Except Bytes)
      → ((m : Bytes) → x ≡ ok m → str_eq m (ascii "initialize") ≡ false)
      → Passes t (run_method host message t x)
  run_method-fresh message (throw e) h = refl
  run_method-fresh message (ok method) h =
      let same = dispatch-fresh method message (h method refl) in
      if_cases (Passes t) (str_eq method (ascii "tools/call") && has (ascii "id") message) _ _
        (λ _. pooled-fresh (dispatch host method message t) same)
        (λ _. direct-fresh (has (ascii "id") message) (dispatch host method message t) same)

-- The method that is read is the one that is asked for.
text_or-other :
    (o : Option Json) (m : Bytes)
    → string_of o ≢ some (ascii "initialize")
    → text_or [] o ≡ ok m
    → str_eq m (ascii "initialize") ≡ false
unfolding text_or str_eq
text_or-other none m h e =
    let same : [] ≡ m = cc in subst (λ s. str_eq s (ascii "initialize") ≡ false) same refl
text_or-other (some (str s)) m h e =
    let same : s ≡ m = cc in
    elim (Bool-cases (str_eq m (ascii "initialize"))) [
      | inl asked ↦ absurd (h (ap some (same ∙ str_eq_sound m (ascii "initialize") asked)))
      | inr other ↦ other
    ]
text_or-other (some null) m h e = absurd cc
text_or-other (some (bool b)) m h e = absurd cc
text_or-other (some (int n)) m h e = absurd cc
text_or-other (some (real r)) m h e = absurd cc
text_or-other (some (arr js)) m h e = absurd cc
text_or-other (some (obj fs)) m h e = absurd cc

module _ {W : Type 0} (host : Host W) (t : Transport W) (f : IsFresh t) where
  process_message-fresh :
      (message : Json)
      → string_of (find (ascii "method") message) ≢ some (ascii "initialize")
      → Passes t (process_message host message t)
  unfolding process_message
  process_message-fresh message h =
      if_cases (Passes t) (not (is_request message)) _ _ (λ _. refl)
        (λ _.
          run_method-fresh host t f message _
            (λ m e. text_or-other (find (ascii "method") message) m h e))

  process_parsed-fresh :
      (o : Option Json) → asks o ≢ some (ascii "initialize") → Passes t (process_parsed host t o)
  process_parsed-fresh none h = refl
  process_parsed-fresh (some message) h = process_message-fresh message h

  process_line-fresh : (line : Bytes) → IsEarly host line → Passes t (process_line host line t)
  unfolding process_line
  process_line-fresh line h =
      if_cases (Passes t) (is_empty line) _ _ (λ _. refl)
        (λ _. process_parsed-fresh (host.parse (without_cr line)) h)

go_on-tools :
    {W : Type 0} (effect : Effect) (t : Transport W) (rest : RunOutcome W) (tools : Registry × W)
    → t.tools ≡ tools
    → rest.state.tools ≡ tools
    → (go_on effect t rest).state.tools ≡ tools
go_on-tools (raises e) t rest tools h k = h
go_on-tools (sends messages) t rest tools h k = k

abbrev tools_of : {W : Type 0} → Transport W → Registry × W
tools_of t = t.tools

-- From a transport that is not initialized and has nothing in flight, lines of which none asks to
-- initialize leave the registry and the tools' state as they were.
pub run_loop-untouched :
    {W : Type 0} (host : Host W) (lines : List Bytes) (t : Transport W)
    → IsFresh t
    → All (IsEarly host) lines
    → (run_loop host lines t).state.tools ≡ t.tools
unfolding run_loop
run_loop-untouched host [] t f h = refl
run_loop-untouched host (line ∷ lines) t f (e, h) =
    let same = process_line-fresh host t f line e in
    let next = (process_line host line t).1 in
    go_on-tools (process_line host line t).0 next (run_loop host lines next) t.tools
      (ap tools_of same)
      (run_loop-untouched host lines next (subst IsFresh (sym same) f) h ∙ ap tools_of same)
