-- ===== src/Tests/Calls.antt =====
-- Calls of a native plugin.
use tool_smith.Base.{
  ◌≡◌, ℕ, suc, refl, false, ascii, List, [], ◌∷◌, arith, Bytes, Option, none, All,
}
use tool_smith.Base.Except.{ok}
use tool_smith.Json.{Json, null, obj, end, find_field}
use tool_smith.Registry.Chain.{text_or}
use tool_smith.NativeAdapter.{Adapter, Plugin, threw, create, execute, request_id_of, shutdown}
use tool_smith.NativeAdapter.Faults.{
  IsSettled, execute-IsSettled, execute_all, throwing, execute_all-take, IsCall,
}
use tool_smith.NativeAdapter.Interleaving.{
  Calls, Step, Reaches, here, after, IsDead, Reaches-IsDead, with_entering,
  active_threads_unbounded,
}

abbrev new_tool : Adapter
new_tool = record {
  tool_name = ascii "t";
  description = [];
  input_schema = null;
  timeout_seconds = 30;
  fault_count = 2;
  active_threads = 0;
  shutdown_requested = false;
  cancelled_requests = [];
}

-- A plugin that always throws, in five nanoseconds, and counts its calls.
abbrev counting : Plugin ℕ
counting request n = (threw (ascii "bad"), 5, suc n)

execute-IsSettled_example : IsSettled (execute counting (obj end) (new_tool, 0)).1.0
execute-IsSettled_example =
    execute-IsSettled counting (obj end) new_tool 0 (record { idle = refl; bounded = omega arith })

no_id : request_id_of (obj end) ≡ ok []
unfolding request_id_of text_or find_field
no_id = refl

abbrev crash : List Json → Json → Option Bytes × ℕ
crash got request = (none, 5)

abbrev four_calls : List Json
four_calls = obj end ∷ obj end ∷ obj end ∷ obj end ∷ []

four_calls-IsCall : All IsCall four_calls
four_calls-IsCall = (([], no_id), (([], no_id), (([], no_id), (([], no_id), tt))))

execute_all-take_example :
    (execute_all (throwing crash) four_calls (create (ascii "t") [] null 30, [])).1
    ≡ obj end ∷ obj end ∷ obj end ∷ []
execute_all-take_example =
    execute_all-take crash (ascii "t") [] null 30 four_calls four_calls-IsCall

abbrev dead : Calls
dead = record { adapter = record new_tool { fault_count = 3 }; entering = 0; settling = 0 }

abbrev dead_and_shut : Calls
dead_and_shut = record dead { adapter = shutdown dead.adapter }

Reaches-IsDead_example : IsDead dead_and_shut
Reaches-IsDead_example =
    Reaches-IsDead dead dead_and_shut
      (after dead dead_and_shut dead_and_shut (Step.shut_down dead) (here dead_and_shut))
      (record { disabled = omega arith; idle = refl; none_entering = refl; none_settling = refl })

active_threads_unbounded_example :
    (a : Adapter) × Reaches (with_entering (create (ascii "t") [] null 30) 0) (with_entering a 0)
    × (a.active_threads ≡ 20)
active_threads_unbounded_example = active_threads_unbounded (ascii "t") [] null 30 20
