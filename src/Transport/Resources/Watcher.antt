-- ===== src/Transport/Resources/Watcher.antt =====
-- `StartResourceWatcher` and `StopResourceWatcher`: the server's thread and the watcher's, which share
-- m_SubscriptionMutex, as a step relation. What the watcher sends while it polls is left out.
pub mod Hang
use tool_smith.Base.{
  ◌≡◌, refl, sym, ◌∙◌, ap, Bool, true, false, not, List, [], ◌∷◌, Bool-cases, inl, inr, Bytes,
  contains, is_empty, add, remove, if◌then◌else◌,
}

-- No thread that could be joined; a thread that sleeps, that has passed its last check and waits for the
-- mutex, that polls, holding it, and that has returned.
pub data Watcher : Type 0 where
  absent : Watcher
  sleeping : Watcher
  at_mutex : Watcher
  polling : Watcher
  ended : Watcher

-- The server's thread is between two messages, or joins the watcher, holding the mutex.
pub data Handler : Type 0 where
  idle : Handler
  joining : Handler

pub record Session : Type 0 where
  pub uris : List Bytes
  pub stop : Bool
  pub watcher : Watcher
  pub server : Handler

abbrev pub first_session : Session
first_session = record { uris = []; stop = false; watcher = absent; server = idle }

abbrev pub is_absent : Watcher → Bool
is_absent absent = true
is_absent _ = false

abbrev pub is_polling : Watcher → Bool
is_polling polling = true
is_polling _ = false

-- A thread is started unless there is one.
unfoldable pub start_resource_watcher : Session → Session
start_resource_watcher s =
    if is_absent s.watcher then record s { stop = false; watcher = sleeping } else s

-- Where there is a thread, the server joins it.
unfoldable pub stop_resource_watcher : Session → Session
stop_resource_watcher s =
    if is_absent s.watcher
    then record s { stop = true }
    else record s { stop = true; server = joining }

unfoldable pub subscribe_uri : Bytes → Session → Session
subscribe_uri uri s = start_resource_watcher (record s { uris = add uri s.uris })

unfoldable pub unsubscribe_uri : Bytes → Session → Session
unsubscribe_uri uri s =
    let s' = record s { uris = remove uri s.uris } in
    let stopped = stop_resource_watcher s' in if is_empty s'.uris then stopped else s'

pub data Step : Session → Session → Type 0 where
  -- The server takes the mutex, which the watcher does not hold.
  subscribed :
      (s : Session) (uri : Bytes)
      → s.server ≡ idle
      → is_polling s.watcher ≡ false
      → Step s (subscribe_uri uri s)
  unsubscribed :
      (s : Session) (uri : Bytes)
      → s.server ≡ idle
      → is_polling s.watcher ≡ false
      → Step s (unsubscribe_uri uri s)
  joined :
      (s : Session)
      → s.server ≡ joining
      → s.watcher ≡ ended
      → Step s (record s { watcher = absent; server = idle })
  -- The watcher looks at the stop, while it sleeps and behind that,
  left :
      (s : Session) → s.watcher ≡ sleeping → s.stop ≡ true → Step s (record s { watcher = ended })
  woke :
      (s : Session)
      → s.watcher ≡ sleeping
      → s.stop ≡ false
      → Step s (record s { watcher = at_mutex })
  -- takes the mutex, which the server does not hold, and polls.
  locked :
      (s : Session)
      → s.watcher ≡ at_mutex
      → s.server ≡ idle
      → Step s (record s { watcher = polling })
  polled : (s : Session) → s.watcher ≡ polling → Step s (record s { watcher = sleeping })

pub data Reaches : Session → Session → Type 0 where
  here : (s : Session) → Reaches s s
  after : (s t u : Session) → Step s t → Reaches t u → Reaches s u
