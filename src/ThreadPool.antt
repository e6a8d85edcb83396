-- ===== src/ThreadPool.antt =====
-- src/core/ThreadPool.cpp and include/core/ThreadPool.h: workers that take tasks from one queue, as a
-- step relation; what holds the mutex in the code is one step, and so is a notification, which comes after the
-- mutex is released. A task is known by a number, and is run outside the mutex. `accepted` and `started`
-- record the tasks of the past, and decide nothing.
pub mod Order
pub mod Rest
use tool_smith.Base.{
  ℕ, zero, suc, ◌+◌, ◌-◌, ◌≡◌, Bool, true, false, List, [], ◌∷◌, ◌++◌, ◌==◌, if◌then◌else◌, ascii,
  min,
}
use tool_smith.Base.Except.{Except, ok, throw, runtime_error}

pub record Pool : Type 0 where
  pub tasks : List ℕ
  pub stopping : Bool
  -- Workers that wait on the condition variable, that are about to look at its predicate, that run a task,
  -- and that have returned.
  pub asleep : ℕ
  pub awake : ℕ
  pub running : ℕ
  pub returned : ℕ
  -- Calls of `Submit` and of `Shutdown` that have released the mutex and not yet notified.
  pub to_notify : ℕ
  pub to_notify_all : ℕ
  pub accepted : List ℕ
  pub started : List ℕ

abbrev pub size_of : ℕ → ℕ
size_of n = if n == 0 then 1 else n

unfoldable pub create : ℕ → Pool
create n = record {
  tasks = [];
  stopping = false;
  asleep = 0;
  awake = size_of n;
  running = 0;
  returned = 0;
  to_notify = 0;
  to_notify_all = 0;
  accepted = [];
  started = [];
}

-- What `Submit` does under the mutex.
unfoldable pub submit : ℕ → Pool → Except Pool
submit task p =
    if p.stopping
    then throw (runtime_error (ascii "submit on stopped ThreadPool"))
    else ok (record p {
      tasks = p.tasks ++ task ∷ [];
      to_notify = suc p.to_notify;
      accepted = p.accepted ++ task ∷ [];
    })

-- What `Shutdown` does under the mutex; after the notification it waits for the workers to return.
unfoldable pub stop : Pool → Pool
stop p = record p { stopping = true; to_notify_all = suc p.to_notify_all }

-- `notify_one` wakes a worker that waits, if there is one; `notify_all` wakes them all.
unfoldable pub notify_one : Pool → Pool
notify_one p = record p { asleep = p.asleep - 1; awake = p.awake + min 1 p.asleep }

unfoldable pub notify_all : Pool → Pool
notify_all p = record p { asleep = 0; awake = p.awake + p.asleep }

-- What the workers do, and the calls of `Submit` and `Shutdown` that have to notify.
pub data Move : Pool → Pool → Type 0 where
  -- A worker finds neither a task nor the stop, and waits,
  slept :
      (p : Pool) (n : ℕ)
      → p.tasks ≡ []
      → p.stopping ≡ false
      → p.awake ≡ suc n
      → Move p (record p { awake = n; asleep = suc p.asleep })
  -- or finds a task, and starts it,
  taken :
      (p : Pool) (task n : ℕ) (rest : List ℕ)
      → p.tasks ≡ task ∷ rest
      → p.awake ≡ suc n
      → Move p (record p {
        tasks = rest;
        awake = n;
        running = suc p.running;
        started = p.started ++ task ∷ [];
      })
  -- or finds that there is none and the pool stops, and returns.
  left :
      (p : Pool) (n : ℕ)
      → p.tasks ≡ []
      → p.stopping ≡ true
      → p.awake ≡ suc n
      → Move p (record p { awake = n; returned = suc p.returned })
  -- A task returns.
  finished :
      (p : Pool) (n : ℕ)
      → p.running ≡ suc n
      → Move p (record p { running = n; awake = suc p.awake })
  notified :
      (p : Pool) (n : ℕ) → p.to_notify ≡ suc n → Move p (notify_one (record p { to_notify = n }))
  notified_all :
      (p : Pool) (n : ℕ)
      → p.to_notify_all ≡ suc n
      → Move p (notify_all (record p { to_notify_all = n }))

-- A move, a call from outside, or a worker that wakes without a notification.
pub data Step : Pool → Pool → Type 0 where
  moved : (p q : Pool) → Move p q → Step p q
  submitted : (p q : Pool) (task : ℕ) → submit task p ≡ ok q → Step p q
  stopped : (p : Pool) → Step p (stop p)
  woken :
      (p : Pool) (n : ℕ) → p.asleep ≡ suc n → Step p (record p { asleep = n; awake = suc p.awake })

pub data Reaches : Pool → Pool → Type 0 where
  here : (p : Pool) → Reaches p p
  after : (p q r : Pool) → Step p q → Reaches q r → Reaches p r

-- So many moves, one after the other, with nothing in between.
pub data Moves : ℕ → Pool → Pool → Type 0 where
  none_more : (p : Pool) → Moves zero p p
  one_more : (n : ℕ) (p q r : Pool) → Move p q → Moves n q r → Moves (suc n) p r
