-- ===== src/Transport/Resources/Watcher/Hang.antt =====
-- When the watcher runs, and how the last unsubscription can hang.
use tool_smith.Base.{
  ◌≡◌, refl, sym, ap, subst, Bool, true, false, List, [], ◌∷◌, arith, Bool-cases, inl, inr, Bytes,
  contains, is_empty, add, remove, ℕ, zero, suc, ◌≤◌, ◌<◌, length, str_eq_refl,
}
use tool_smith.Transport.Resources.Watcher.{
  Watcher, absent, sleeping, at_mutex, polling, ended, Handler, idle, joining, Session,
  first_session, is_absent, is_polling, start_resource_watcher, stop_resource_watcher,
  subscribe_uri, unsubscribe_uri, Step, subscribed, unsubscribed, joined, left, woke, locked,
  polled, Reaches, here, after,
}

add-not_empty : (u : Bytes) (us : List Bytes) → is_empty (add u us) ≡ false
unfolding add contains
add-not_empty u [] = refl
add-not_empty u (v ∷ us) = elim (Bool-cases (contains (v ∷ us) u)) [
  | inl h ↦ rw h refl
  | inr h ↦ rw h refl
]

-- The watcher of a server that is idle or joins it.
data IsRunning : Session → Type 0 where
  unwatched :
      (stop : Bool) → IsRunning (record { uris = []; stop = stop; watcher = absent; server = idle })
  sleeps :
      (uris : List Bytes)
      → is_empty uris ≡ false
      → IsRunning (record { uris = uris; stop = false; watcher = sleeping; server = idle })
  waits :
      (uris : List Bytes)
      → is_empty uris ≡ false
      → IsRunning (record { uris = uris; stop = false; watcher = at_mutex; server = idle })
  polls :
      (uris : List Bytes)
      → is_empty uris ≡ false
      → IsRunning (record { uris = uris; stop = false; watcher = polling; server = idle })
  joins :
      (w : Watcher)
      → is_absent w ≡ false
      → IsRunning (record { uris = []; stop = true; watcher = w; server = joining })

abbrev made : List Bytes → Bool → Watcher → Handler → Session
made uris stop w v = record { uris = uris; stop = stop; watcher = w; server = v }

no_uris : (us : List Bytes) → is_empty us ≡ true → us ≡ []
no_uris [] h = refl
no_uris (u ∷ us) h = absurd cc

-- An unsubscription from a session that is watched, while the watcher does not poll.
unsubscribed-IsRunning :
    (uri : Bytes) (uris : List Bytes) (w : Watcher)
    → is_absent w ≡ false
    → ((us : List Bytes) → is_empty us ≡ false → IsRunning (made us false w idle))
    → IsRunning (unsubscribe_uri uri (made uris false w idle))
unfolding unsubscribe_uri stop_resource_watcher
unsubscribed-IsRunning uri uris w there k = elim (Bool-cases (is_empty (remove uri uris))) [
  | inl gone ↦
      rw (gone, there)
        (subst (λ us. IsRunning (made us true w joining)) (sym (no_uris (remove uri uris) gone))
          (joins w there))
  | inr rest ↦ rw rest (k (remove uri uris) rest)
]

subscribed-IsRunning :
    (uri : Bytes) (s : Session)
    → s.server ≡ idle
    → is_polling s.watcher ≡ false
    → IsRunning s
    → IsRunning (subscribe_uri uri s)
unfolding subscribe_uri start_resource_watcher
subscribed-IsRunning uri _ e f (unwatched stop) = sleeps _ (add-not_empty uri [])
subscribed-IsRunning uri _ e f (sleeps us h) = sleeps _ (add-not_empty uri us)
subscribed-IsRunning uri _ e f (waits us h) = waits _ (add-not_empty uri us)
subscribed-IsRunning uri _ e f (polls us h) = absurd cc
subscribed-IsRunning uri _ e f (joins w h) = absurd cc

unsubscribed_at :
    (uri : Bytes) (s : Session)
    → s.server ≡ idle
    → is_polling s.watcher ≡ false
    → IsRunning s
    → IsRunning (unsubscribe_uri uri s)
unfolding unsubscribe_uri stop_resource_watcher remove
unsubscribed_at uri _ e f (unwatched stop) = unwatched true
unsubscribed_at uri _ e f (sleeps us h) = unsubscribed-IsRunning uri us sleeping refl sleeps
unsubscribed_at uri _ e f (waits us h) = unsubscribed-IsRunning uri us at_mutex refl waits
unsubscribed_at uri _ e f (polls us h) = absurd cc
unsubscribed_at uri _ e f (joins w h) = absurd cc

joined_at :
    (s : Session)
    → s.server ≡ joining
    → IsRunning s
    → IsRunning (record s { watcher = absent; server = idle })
joined_at _ e (unwatched stop) = absurd cc
joined_at _ e (sleeps us h) = absurd cc
joined_at _ e (waits us h) = absurd cc
joined_at _ e (polls us h) = absurd cc
joined_at _ e (joins w h) = unwatched true

-- A watcher that is there goes on; where the server is idle, it does not return.
moved_at :
    (s : Session) (w : Watcher)
    → is_absent s.watcher ≡ false
    → is_absent w ≡ false
    → (s.server ≡ idle
        → (us : List Bytes) → is_empty us ≡ false
        → s.stop ≡ false
        → IsRunning (made us false w idle))
    → IsRunning s
    → IsRunning (record s { watcher = w })
moved_at _ w f g k (unwatched stop) = absurd cc
moved_at _ w f g k (sleeps us h) = k refl us h refl
moved_at _ w f g k (waits us h) = k refl us h refl
moved_at _ w f g k (polls us h) = k refl us h refl
moved_at _ w f g k (joins v h) = joins w g

Step-IsRunning : (s t : Session) → Step s t → IsRunning s → IsRunning t
Step-IsRunning _ _ (subscribed s uri e f) v = subscribed-IsRunning uri s e f v
Step-IsRunning _ _ (unsubscribed s uri e f) v = unsubscribed_at uri s e f v
Step-IsRunning _ _ (joined s e f) v = joined_at s e v
Step-IsRunning _ _ (left s e f) v = moved_at s ended (ap is_absent e) refl (λ i us h g. absurd cc) v
Step-IsRunning _ _ (woke s e f) v =
    moved_at s at_mutex (ap is_absent e) refl (λ i us h g. waits us h) v
Step-IsRunning _ _ (locked s e f) v =
    moved_at s polling (ap is_absent e) refl (λ i us h g. polls us h) v
Step-IsRunning _ _ (polled s e) v =
    moved_at s sleeping (ap is_absent e) refl (λ i us h g. sleeps us h) v

Reaches-IsRunning : (s t : Session) → Reaches s t → IsRunning s → IsRunning t
Reaches-IsRunning s _ (here _) v = v
Reaches-IsRunning s u (after _ t _ m r) v = Reaches-IsRunning t u r (Step-IsRunning s t m v)

-- The server joins a watcher that waits for the mutex, which the server holds; nothing moves any more.
abbrev pub IsHung : Session → Type 0
IsHung s = (s.server ≡ joining) × (s.watcher ≡ at_mutex) × ((t : Session) → ¬ Step s t)

stuck : (s : Session) → s.server ≡ joining → s.watcher ≡ at_mutex → (t : Session) → ¬ Step s t
stuck s e f t m = go s t m e f
  where
    go : (s t : Session) → Step s t → s.server ≡ joining → ¬ (s.watcher ≡ at_mutex)
    go _ _ (subscribed s uri e f) a b = absurd cc
    go _ _ (unsubscribed s uri e f) a b = absurd cc
    go _ _ (joined s e f) a b = absurd cc
    go _ _ (left s e f) a b = absurd cc
    go _ _ (woke s e f) a b = absurd cc
    go _ _ (locked s e f) a b = absurd cc
    go _ _ (polled s e) a b = absurd cc

-- The last unsubscription, with the watcher at the mutex.
last_at_mutex :
    (uri : Bytes) (uris : List Bytes)
    → is_empty (remove uri uris) ≡ true
    → (t : Session) × Step (made uris false at_mutex idle) t × IsHung t
unfolding unsubscribe_uri stop_resource_watcher
last_at_mutex uri uris gone =
    let hung : Session = made (remove uri uris) true at_mutex joining in
    let same : unsubscribe_uri uri (made uris false at_mutex idle) ≡ hung = rw gone refl in
    (
      hung,
      subst (Step (made uris false at_mutex idle)) same
          (unsubscribed (made uris false at_mutex idle) uri refl refl),
      (refl, refl, stuck hung refl refl),
    )

abbrev pub MayHang : Session → Type 0
MayHang s = (t : Session) × Reaches s t × IsHung t

length-remove-le : (u : Bytes) (us : List Bytes) → length (remove u us) ≤ length us
unfolding remove
length-remove-le u [] = omega arith
length-remove-le u (v ∷ us) = ground (arith, length-remove-le u us)

length-remove-lt : (u : Bytes) (us : List Bytes) → length (remove u (u ∷ us)) < length (u ∷ us)
unfolding remove
length-remove-lt u us = rw (str_eq_refl u) (omega (arith, length-remove-le u us))

-- With the watcher at the mutex, one unsubscription after the other.
drain :
    (fuel : ℕ) (us : List Bytes)
    → length us ≤ fuel
    → is_empty us ≡ false
    → MayHang (made us false at_mutex idle)
unfolding unsubscribe_uri
drain fuel [] le some = absurd cc
drain zero (u ∷ us) le some = absurd (omega (arith, le))
drain (suc fuel) (u ∷ us) le some = elim (Bool-cases (is_empty (remove u (u ∷ us)))) [
  | inl gone ↦ let (t, m, hung) = last_at_mutex u (u ∷ us) gone in (t, after _ _ _ m (here t), hung)
  | inr rest ↦
      let from = made (u ∷ us) false at_mutex idle in
      let same : unsubscribe_uri u from ≡ made (remove u (u ∷ us)) false at_mutex idle =
        rw rest refl in
      let (t, r, hung) =
        drain fuel (remove u (u ∷ us)) (omega (arith, le, length-remove-lt u us)) rest in
      (t, after _ _ _ (subst (Step from) same (unsubscribed from u refl refl)) r, hung)
]

from_mutex : (us : List Bytes) → is_empty us ≡ false → MayHang (made us false at_mutex idle)
from_mutex us some = drain (length us) us (omega arith) some

from_sleep : (us : List Bytes) → is_empty us ≡ false → MayHang (made us false sleeping idle)
from_sleep us some =
    let (t, r, hung) = from_mutex us some in
    (t, after _ _ _ (woke (made us false sleeping idle) refl refl) r, hung)

from_poll : (us : List Bytes) → is_empty us ≡ false → MayHang (made us false polling idle)
from_poll us some =
    let (t, r, hung) = from_sleep us some in
    (t, after _ _ _ (polled (made us false polling idle) refl) r, hung)

-- Nothing is subscribed and no watcher runs; or something is, the watcher runs, and may come to hang.
pub data Watch (s : Session) : Type 0 where
  none_needed : is_empty s.uris ≡ true → s.watcher ≡ absent → Watch s
  needed :
      is_empty s.uris ≡ false → is_absent s.watcher ≡ false → s.stop ≡ false → MayHang s → Watch s

running-Watch : (s : Session) → s.server ≡ idle → IsRunning s → Watch s
running-Watch _ i (unwatched stop) = none_needed refl refl
running-Watch _ i (sleeps us h) = needed h refl refl (from_sleep us h)
running-Watch _ i (waits us h) = needed h refl refl (from_mutex us h)
running-Watch _ i (polls us h) = needed h refl refl (from_poll us h)
running-Watch _ i (joins w h) = absurd cc

-- Whenever the server is between two messages, nothing is subscribed and there is no watcher, or
-- something is subscribed, the watcher is there and not asked to stop; and in the second case steps
-- lead to a state in which nothing moves: the server holds the mutex and joins the watcher, which
-- waits for the mutex.
pub Reaches-Watch : (s : Session) → Reaches first_session s → s.server ≡ idle → Watch s
Reaches-Watch s r i = running-Watch s i (Reaches-IsRunning first_session s r (unwatched false))
