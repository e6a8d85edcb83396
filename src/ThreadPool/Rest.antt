-- ===== src/ThreadPool/Rest.antt =====
-- No wake-up is lost: left to themselves, the workers come to rest, and rest only when all is done.
use tool_smith.Base.{
  ℕ, zero, suc, ◌+◌, ◌*◌, ◌≤◌, ◌<◌, ◌≡◌, refl, sym, ◌∙◌, ap, subst, true, false, ◌⊎◌, inl, inr,
  List, [], ◌∷◌, ◌++◌, arith, Bool, Bool-cases, length, length-append, ◌==◌, append-nil,
}
use tool_smith.ThreadPool.{
  Pool, size_of, create, stop, notify_one, notify_all, Move, slept, taken, left, finished, notified,
  notified_all, Step, moved, submitted, stopped, woken, Reaches, here, after, Moves, none_more,
  one_more,
}
use tool_smith.ThreadPool.Order.{IsOrderly, Move-IsOrderly, Reaches-IsOrderly, submit_ok}

-- For every task in the queue, a worker is awake or will be notified, unless none waits; and where the pool
-- stops, all will be notified, unless none waits.
record IsAlert (p : Pool) : Type 0 where
  served : (p.asleep ≡ 0) ⊎ (length p.tasks ≤ p.awake + p.to_notify)
  summoned : p.stopping ≡ true → (p.asleep ≡ 0) ⊎ (0 < p.to_notify_all)

Move-IsAlert : (p q : Pool) → Move p q → IsAlert p → IsAlert q
unfolding notify_one notify_all
Move-IsAlert _ _ (slept p n e s w) v = record {
  served = inr (omega (arith, ap length e));
  summoned = λ h. cc (s, h);
}
Move-IsAlert _ _ (taken p task n rest e w) v = record {
  served = elim v.served [
    | inl none_asleep ↦ inl none_asleep
    | inr enough ↦ inr (omega (arith, enough, w, ap length e))
  ];
  summoned = v.summoned;
}
Move-IsAlert _ _ (left p n e s w) v = record {
  served = inr (omega (arith, ap length e));
  summoned = v.summoned;
}
Move-IsAlert _ _ (finished p n r) v = record {
  served = elim v.served [
    | inl none_asleep ↦ inl none_asleep
    | inr enough ↦ inr (omega (arith, enough))
  ];
  summoned = v.summoned;
}
Move-IsAlert _ _ (notified p n e) v = record {
  served = elim v.served [
    | inl none_asleep ↦ inl (omega (arith, none_asleep))
    | inr enough ↦ elim (Bool-cases (p.asleep == 0)) [
      | inl none_asleep ↦ inl (ground (arith, none_asleep))
      | inr some_asleep ↦ inr (ground (arith, enough, e, some_asleep))
    ]
  ];
  summoned = λ h. elim (v.summoned h) [
    | inl none_asleep ↦ inl (omega (arith, none_asleep))
    | inr called ↦ inr called
  ];
}
Move-IsAlert _ _ (notified_all p n e) v = record { served = inl refl; summoned = λ h. inl refl }

Step-IsAlert : (p q : Pool) → Step p q → IsAlert p → IsAlert q
unfolding stop
Step-IsAlert p q (moved _ _ m) v = Move-IsAlert p q m v
Step-IsAlert _ _ (submitted p q task e) v =
    let (open_still, same) = submit_ok task p q e in
    subst IsAlert same (record {
      served = elim v.served [
        | inl none_asleep ↦ inl none_asleep
        | inr enough ↦ inr (omega (arith, enough, length-append p.tasks (task ∷ [])))
      ];
      summoned = v.summoned;
    })
Step-IsAlert _ _ (stopped p) v = record { served = v.served; summoned = λ h. inr (omega arith) }
Step-IsAlert _ _ (woken p n e) v = record {
  served = elim v.served [
    | inl none_asleep ↦ absurd (omega (arith, none_asleep, e))
    | inr enough ↦ inr (omega (arith, enough))
  ];
  summoned = λ h. elim (v.summoned h) [
    | inl none_asleep ↦ absurd (omega (arith, none_asleep, e))
    | inr called ↦ inr called
  ];
}

Reaches-IsAlert : (p q : Pool) → Reaches p q → IsAlert p → IsAlert q
Reaches-IsAlert p _ (here _) v = v
Reaches-IsAlert p r (after _ q _ s rest) v = Reaches-IsAlert q r rest (Step-IsAlert p q s v)

-- A bound on the moves that are left, with `most` more than there are workers.
abbrev alarms : ℕ → ℕ → ℕ
alarms most zero = 0
alarms most (suc k) = most + alarms most k

abbrev pub work_left : ℕ → Pool → ℕ
work_left n p =
    2 * length p.tasks
    + 3 * p.running
    + 2 * p.awake
    + p.asleep
    + 2 * p.to_notify
    + alarms (suc (size_of n)) p.to_notify_all

Move-less : (n : ℕ) (p q : Pool) → Move p q → IsOrderly n p → work_left n q < work_left n p
unfolding notify_one notify_all
Move-less n _ _ (slept p k e s w) v = omega (arith, w)
Move-less n _ _ (taken p task k rest e w) v = omega (arith, w, ap length e)
Move-less n _ _ (left p k e s w) v = omega (arith, w)
Move-less n _ _ (finished p k r) v = omega (arith, r)
Move-less n _ _ (notified p k e) v = omega (arith, e)
Move-less n _ _ (notified_all p k e) v = omega (arith, v.workers, ap (alarms (suc (size_of n))) e)

Moves-le :
    (n k : ℕ) (p q : Pool)
    → Moves k p q
    → IsOrderly n p
    → IsAlert p
    → (k ≤ work_left n p) × IsOrderly n q × IsAlert q
Moves-le n _ p _ (none_more _) v a = (omega arith, v, a)
Moves-le n _ p r (one_more k _ q _ m ms) v a =
    let (le, w, b) = Moves-le n k q r ms (Move-IsOrderly n p q m v) (Move-IsAlert p q m a) in
    (omega (arith, le, Move-less n p q m v), w, b)

abbrev pub CanMove : Pool → Type 0
CanMove p = (q : Pool) × Move p q

-- Every task that was accepted was started, none runs, and the pool is not stopping or all workers have
-- returned.
pub record IsDone (n : ℕ) (p : Pool) : Type 0 where
  pub none_running : p.running ≡ 0
  pub all_started : p.started ≡ p.accepted
  pub joined : (p.stopping ≡ false) ⊎ (p.returned ≡ size_of n)

no_tasks : (ts : List ℕ) → length ts ≤ 0 → ts ≡ []
no_tasks [] h = refl
no_tasks (t ∷ ts) h = absurd (omega arith)

size_positive : (n : ℕ) → 0 < size_of n
size_positive n = ground arith

-- No worker is awake or runs a task, and nobody has to notify.
record IsStill (p : Pool) : Type 0 where
  none_awake : p.awake ≡ 0
  none_running : p.running ≡ 0
  none_notifies : p.to_notify ≡ 0
  none_notifies_all : p.to_notify_all ≡ 0

still-empty : (n : ℕ) (p : Pool) → IsOrderly n p → IsAlert p → IsStill p → p.tasks ≡ []
still-empty n p v a s = elim a.served [
  | inr enough ↦ no_tasks p.tasks (omega (arith, enough, s.none_awake, s.none_notifies))
  | inl none_asleep ↦ elim v.drained [
    | inl none_left ↦ absurd (
        omega
          (arith, none_left, none_asleep, s.none_running, s.none_awake, v.workers, size_positive n))
    | inr closed ↦ closed.0
  ]
]

still-joined :
    (n : ℕ) (p : Pool)
    → IsOrderly n p
    → IsAlert p
    → IsStill p
    → (p.stopping ≡ false) ⊎ (p.returned ≡ size_of n)
still-joined n p v a s = elim (Bool-cases p.stopping) [
  | inr open_still ↦ inl open_still
  | inl stops ↦ elim (a.summoned stops) [
    | inl none_asleep ↦ inr (omega (arith, none_asleep, s.none_running, s.none_awake, v.workers))
    | inr called ↦ absurd (omega (arith, called, s.none_notifies_all))
  ]
]

still-IsDone : (n : ℕ) (p : Pool) → IsOrderly n p → IsAlert p → IsStill p → IsDone n p
still-IsDone n p v a s =
    let empty = still-empty n p v a s in
    record {
      none_running = s.none_running;
      all_started =
          sym (append-nil p.started) ∙ ap (λ ts. p.started ++ ts) (sym empty) ∙ v.in_order;
      joined = still-joined n p v a s;
    }

-- A worker that is awake can do one of three things.
awake-CanMove : (p : Pool) (m : ℕ) → p.awake ≡ suc m → CanMove p
awake-CanMove p m e = looks p.tasks p.stopping refl refl
  where
    looks : (ts : List ℕ) (s : Bool) → p.tasks ≡ ts → p.stopping ≡ s → CanMove p
    looks [] false a b = (_, slept p m a b e)
    looks [] true a b = (_, left p m a b e)
    looks (t ∷ ts) s a b = (_, taken p t m ts a e)

progress_of : (n : ℕ) (p : Pool) → IsOrderly n p → IsAlert p → CanMove p ⊎ IsDone n p
progress_of n p v a = go p.awake p.running p.to_notify p.to_notify_all refl refl refl refl
  where
    go :
        (w r k l : ℕ)
        → p.awake ≡ w
        → p.running ≡ r
        → p.to_notify ≡ k
        → p.to_notify_all ≡ l
        → CanMove p ⊎ IsDone n p
    go (suc w) r k l b c d e = inl (awake-CanMove p w b)
    go zero (suc r) k l b c d e = inl (_, finished p r c)
    go zero zero (suc k) l b c d e = inl (_, notified p k d)
    go zero zero zero (suc l) b c d e = inl (_, notified_all p l e)
    go zero zero zero zero b c d e = inr (
        still-IsDone n p v a
          (record { none_awake = b; none_running = c; none_notifies = d; none_notifies_all = e }))

-- From every state of a pool, the workers and the notifications that are due can make only so many
-- moves as its tasks, workers and notifications allow, if no call from outside and no spurious
-- wake-up comes in between; and where they can make none any more, every task that was accepted was
-- started, none runs, and if the pool is stopping all workers have returned. Tasks are taken to
-- return.
pub Reaches-rests :
    (n k : ℕ) (p q : Pool)
    → Reaches (create n) p
    → Moves k p q
    → (k ≤ work_left n p) × (CanMove q ⊎ IsDone n q)
unfolding create
Reaches-rests n k p q r ms =
    let alert =
      Reaches-IsAlert (create n) p r (record { served = inl refl; summoned = λ h. inl refl }) in
    let (le, w, b) = Moves-le n k p q ms (Reaches-IsOrderly n p r) alert in
    (le, progress_of n q w b)
