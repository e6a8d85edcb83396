-- ===== src/Tests/Messages.antt =====
-- A transport with one tool, before and after initialization.
use tool_smith.Base.{
  ◌≡◌, refl, ℕ, suc, Bool, true, false, [], ◌∷◌, none, some, Bytes, ascii, str_eq, add, contains,
}
use tool_smith.Base.Except.{ok}
use tool_smith.Json.{Json, null, str, int, obj, end, field, find_field}
use tool_smith.Base.Int.{pos}
use tool_smith.Registry.{Registry, Strategies, ToolMetadata, built_in}
use tool_smith.Transport.{Host, Transport, Volume}
use tool_smith.Transport.Resources.Watcher.{
  Session, sleeping, idle, first_session, subscribe_uri, start_resource_watcher, subscribed,
  Reaches, here, after,
}
use tool_smith.Transport.Resources.Watcher.Hang.{Watch, Reaches-Watch}
use tool_smith.Transport.Serve.{process_message, run_loop}
use tool_smith.Transport.Serve.Lines.{AtMostOne, process_message-AtMostOne}
use tool_smith.Transport.Serve.Early.{IsEarly, run_loop-untouched}
use tool_smith.Tests.Workspaces.{disk}

-- The tools' state is the number of calls and cancellations.
abbrev strategies : Strategies ℕ
strategies = record {
  execute = λ command request s.
      (ok (obj (field (ascii "status") (str (ascii "ok")) end)), (s.0, suc s.1));
  metadata = λ command w. record {
    name = ascii "echo";
    description = [];
    input_schema = null;
    default_model = ascii "small";
    default_parameters = null;
    source = built_in;
    hidden = false;
  };
  shutdown = λ command w. w;
}

abbrev volume : Volume
volume = record {
  disk = disk;
  lexically_normal = λ p. p;
  walk = λ p. [];
  is_regular_file = λ p. true;
  read_all = λ p. none;
  last_write_time = λ p. some 7;
}

abbrev message : Bytes → Json → Json
message method params = obj (
    field (ascii "jsonrpc") (str (ascii "2.0")) (
      field (ascii "id") (int (pos 1))
        (field (ascii "method") (str method) (field (ascii "params") params end))))

abbrev call_params : Json
call_params = obj (field (ascii "name") (str (ascii "echo")) end)

-- Every line is a call of the tool.
abbrev host : Host ℕ
host = record {
  strategies = strategies;
  cancel_command = λ command key w. suc w;
  parse = λ s. some (message (ascii "tools/call") call_params);
  dump = λ j. ok (ascii "1");
  what = λ e. ascii "error";
  server_name = ascii "toolsmith";
  server_version = ascii "1.0.0";
  engine = none;
  skills = none;
  volume = volume;
  resource_root = b'/' ∷ ascii "w";
}

abbrev registry : Registry
registry = record {
  commands = (ascii "echo", 3) ∷ [];
  advertised = [];
  filter_advertised = false;
  chaining_enabled = true;
}

abbrev transport : Bool → Transport ℕ
transport initialized = record {
  initialized = initialized;
  in_flight = [];
  subscribed_uris = [];
  subscribed_mtimes = [];
  watching = false;
  tools = (registry, 0);
}

process_message-AtMostOne_example :
    AtMostOne
      (message (ascii "tools/list") (obj end))
      (process_message host (message (ascii "tools/list") (obj end)) (transport true)).0
process_message-AtMostOne_example =
    process_message-AtMostOne host (message (ascii "tools/list") (obj end)) (transport true)

abbrev line : Bytes
line = ascii "x"

early : IsEarly host line
unfolding find_field str_eq
early h = let same : ascii "tools/call" ≡ ascii "initialize" = cc in cc

run_loop-untouched_example :
    (run_loop host (line ∷ line ∷ []) (transport false)).state.tools ≡ (transport false).tools
run_loop-untouched_example =
    run_loop-untouched host (line ∷ line ∷ []) (transport false)
      (record { uninitialized = refl; idle = refl }) (early, (early, tt))

-- A call with the id "7", in flight and cancelled.
abbrev echo_metadata : ToolMetadata
echo_metadata = strategies.metadata 3 0

abbrev cancel_params : Json
cancel_params = obj (field (ascii "requestId") (str (ascii "7")) end)

abbrev keyed_arguments : Json
keyed_arguments =
    obj (
      field (ascii "model") (str (ascii "small"))
        (field (ascii "_requestId") (str (ascii "7")) end))

-- A subscription, after which the watcher runs.
abbrev watched : Session
watched = record { uris = ascii "a" ∷ []; stop = false; watcher = sleeping; server = idle }

to_watched : Reaches first_session watched
unfolding subscribe_uri start_resource_watcher add contains
to_watched =
    after first_session watched watched (subscribed first_session (ascii "a") refl refl)
      (here watched)

Reaches-Watch_example : Watch watched
Reaches-Watch_example = Reaches-Watch watched to_watched refl
