-- ===== src/ThreadPool/Order.antt =====
-- Tasks start in the order in which they were submitted, and none is lost at a shutdown.
use tool_smith.Base.{
  ℕ, suc, ◌+◌, ◌<◌, ◌≡◌, refl, sym, ◌∙◌, ap, subst, true, false, ◌⊎◌, inl, inr, [], ◌∷◌, ◌++◌,
  arith, append_assoc, append-nil,
}
use tool_smith.Base.Except.{ok}
use tool_smith.ThreadPool.{
  Pool, size_of, create, submit, stop, notify_one, notify_all, Move, slept, taken, left, finished,
  notified, notified_all, Step, moved, submitted, stopped, woken, Reaches, here, after,
}

pub record IsOrderly (n : ℕ) (p : Pool) : Type 0 where
  pub in_order : p.started ++ p.tasks ≡ p.accepted
  pub workers : p.asleep + p.awake + p.running + p.returned ≡ size_of n
  -- A worker returns only when nothing is left, and nothing is added from then on.
  pub drained : (p.returned ≡ 0) ⊎ ((p.tasks ≡ []) × (p.stopping ≡ true))

abbrev pub submitted_pool : ℕ → Pool → Pool
submitted_pool task p = record p {
  tasks = p.tasks ++ task ∷ [];
  to_notify = suc p.to_notify;
  accepted = p.accepted ++ task ∷ [];
}

pub submit_ok :
    (task : ℕ) (p q : Pool)
    → submit task p ≡ ok q
    → (p.stopping ≡ false) × (submitted_pool task p ≡ q)
unfolding submit
submit_ok task p q e = (ground arith, ground arith)

pub Move-IsOrderly : (n : ℕ) (p q : Pool) → Move p q → IsOrderly n p → IsOrderly n q
unfolding notify_one notify_all
Move-IsOrderly n _ _ (slept p k e s w) v = record {
  in_order = v.in_order;
  workers = omega (arith, v.workers, w);
  drained = v.drained;
}
Move-IsOrderly n _ _ (taken p task k rest e w) v = record {
  in_order =
      append_assoc p.started (task ∷ []) rest ∙ ap (λ ts. p.started ++ ts) (sym e) ∙ v.in_order;
  workers = omega (arith, v.workers, w);
  drained = elim v.drained [ inl none_left ↦ inl none_left | inr closed ↦ cc (closed.0, e) ];
}
Move-IsOrderly n _ _ (left p k e s w) v = record {
  in_order = v.in_order;
  workers = omega (arith, v.workers, w);
  drained = inr (e, s);
}
Move-IsOrderly n _ _ (finished p k r) v = record {
  in_order = v.in_order;
  workers = omega (arith, v.workers, r);
  drained = v.drained;
}
Move-IsOrderly n _ _ (notified p k e) v = record {
  in_order = v.in_order;
  workers = omega (arith, v.workers);
  drained = v.drained;
}
Move-IsOrderly n _ _ (notified_all p k e) v = record {
  in_order = v.in_order;
  workers = omega (arith, v.workers);
  drained = v.drained;
}

Step-IsOrderly : (n : ℕ) (p q : Pool) → Step p q → IsOrderly n p → IsOrderly n q
unfolding stop
Step-IsOrderly n p q (moved _ _ m) v = Move-IsOrderly n p q m v
Step-IsOrderly n _ _ (submitted p q task e) v =
    let (open_still, same) = submit_ok task p q e in
    subst (IsOrderly n) same (record {
      in_order =
          sym (append_assoc p.started p.tasks (task ∷ [])) ∙ ap (λ ts. ts ++ task ∷ []) v.in_order;
      workers = v.workers;
      drained = elim v.drained [
        | inl none_left ↦ inl none_left
        | inr closed ↦ cc (closed.1, open_still)
      ];
    })
Step-IsOrderly n _ _ (stopped p) v = record {
  in_order = v.in_order;
  workers = v.workers;
  drained = elim v.drained [ inl none_left ↦ inl none_left | inr closed ↦ inr (closed.0, refl) ];
}
Step-IsOrderly n _ _ (woken p k e) v = record {
  in_order = v.in_order;
  workers = omega (arith, v.workers, e);
  drained = v.drained;
}

Reaches-IsOrderly_from : (n : ℕ) (p q : Pool) → Reaches p q → IsOrderly n p → IsOrderly n q
Reaches-IsOrderly_from n p _ (here _) v = v
Reaches-IsOrderly_from n p r (after _ q _ s rest) v =
    Reaches-IsOrderly_from n q r rest (Step-IsOrderly n p q s v)

-- In every state of a pool the tasks that were started, followed by those in the queue, are the
-- tasks that were accepted, in order; the workers are as many as were asked for, one where none
-- was; and once one has returned the queue is empty and the pool is stopping.
pub Reaches-IsOrderly : (n : ℕ) (p : Pool) → Reaches (create n) p → IsOrderly n p
unfolding create
Reaches-IsOrderly n p r =
    Reaches-IsOrderly_from n _ p r
      (record { in_order = refl; workers = omega arith; drained = inl refl })

size_of-positive : (n : ℕ) → 0 < size_of n
size_of-positive n = ground arith

-- When Shutdown has waited for all workers, every task that was accepted was started, in order, and
-- none runs any more.
pub Reaches-joined :
    (n : ℕ) (p : Pool)
    → Reaches (create n) p
    → p.returned ≡ size_of n
    → (p.started ≡ p.accepted) × (p.running ≡ 0)
Reaches-joined n p r joined =
    let v = Reaches-IsOrderly n p r in
    let empty : p.tasks ≡ [] = elim v.drained [
      | inl none_left ↦ absurd (omega (arith, none_left, joined, size_of-positive n))
      | inr closed ↦ closed.0
    ] in
    (
      sym (append-nil p.started) ∙ ap (λ ts. p.started ++ ts) (sym empty) ∙ v.in_order,
      omega (arith, v.workers, joined),
    )
