-- ===== src/Tests/Workers.antt =====
-- A pool with one worker and one task.
use tool_smith.Base.{◌≡◌, ◌≤◌, ◌⊎◌, refl, [], ◌∷◌, true, false}
use tool_smith.ThreadPool.{
  Pool, create, submit, stop, submitted, stopped, Move, taken, left, finished, moved, Reaches, here,
  after, none_more, one_more,
}
use tool_smith.ThreadPool.Order.{IsOrderly, Reaches-IsOrderly, Reaches-joined}
use tool_smith.ThreadPool.Rest.{work_left, CanMove, IsDone, Reaches-rests}

abbrev new : Pool
new = record {
  tasks = [];
  stopping = false;
  asleep = 0;
  awake = 1;
  running = 0;
  returned = 0;
  to_notify = 0;
  to_notify_all = 0;
  accepted = [];
  started = [];
}

abbrev queued : Pool
queued = record new { tasks = 7 ∷ []; to_notify = 1; accepted = 7 ∷ [] }

abbrev closing : Pool
closing = record queued { stopping = true; to_notify_all = 1 }

abbrev busy : Pool
busy = record closing { tasks = []; awake = 0; running = 1; started = 7 ∷ [] }

abbrev ready : Pool
ready = record busy { awake = 1; running = 0 }

abbrev joined : Pool
joined = record ready { awake = 0; returned = 1 }

to_closing : Reaches (create 1) closing
unfolding create submit stop
to_closing =
    after new queued closing (submitted new queued 7 refl)
      (after queued closing closing (stopped queued) (here closing))

-- The moves of a pool that stops, without the notifications, which come too late.
taking : Move closing busy
taking = taken closing 7 0 [] refl refl

finishing : Move busy ready
finishing = finished busy 0 refl

leaving : Move ready joined
leaving = left ready 0 refl refl refl

to_joined : Reaches (create 1) joined
unfolding create submit stop
to_joined = after new queued joined (submitted new queued 7 refl) (
    after queued closing joined (stopped queued) (
      after closing busy joined (moved closing busy taking) (
        after busy ready joined (moved busy ready finishing)
          (after ready joined joined (moved ready joined leaving) (here joined)))))

Reaches-IsOrderly_example : IsOrderly 1 closing
Reaches-IsOrderly_example = Reaches-IsOrderly 1 closing to_closing

Reaches-joined_example : (joined.started ≡ joined.accepted) × (joined.running ≡ 0)
Reaches-joined_example = Reaches-joined 1 joined to_joined refl

Reaches-rests_example : (3 ≤ work_left 1 closing) × (CanMove joined ⊎ IsDone 1 joined)
Reaches-rests_example = Reaches-rests 1 3 closing joined to_closing (
    one_more 2 closing busy joined taking (
      one_more 1 busy ready joined finishing
        (one_more 0 ready joined joined leaving (none_more joined))))
