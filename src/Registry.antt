-- ===== src/Registry.antt =====
-- src/commands/CommandRegistry.cpp, include/commands/CommandRegistry.h, ToolMetadata.h and
-- ICommandStrategy.h: the tools by name, which of them are advertised, and the chaining of calls.
-- A strategy object is known by its address; the mutex makes each method one step.
pub mod Chain
pub mod Listing
pub mod Names
use tool_smith.Base.{
  ℕ, Bool, true, false, not, Option, none, some, List, [], ◌∷◌, ◌++◌, Bytes, ascii, Dict, lookup,
  insert, keys, has_key, contains, add, remove, is_empty, if◌then◌else◌,
}
use tool_smith.Base.Except.{Except, ok, throw, invalid_argument, runtime_error}
use tool_smith.Json.{Json}

pub data ToolSource : Type 0 where
  built_in json_skill plugin native_plugin script_plugin : ToolSource

pub record ToolMetadata : Type 0 where
  pub name : Bytes
  pub description : Bytes
  pub input_schema : Json
  pub default_model : Bytes
  pub default_parameters : Json
  pub source : ToolSource
  pub hidden : Bool

pub record Registry : Type 0 where
  pub commands : Dict ℕ
  pub advertised : List Bytes
  pub filter_advertised : Bool
  pub chaining_enabled : Bool

-- The strategies, which the registry only calls: `ExecuteAsync(request).get()`, which may use and
-- change the registry as well as the rest of the program's state, `GetMetadata` and `Shutdown`.
pub record Strategies (W : Type 0) : Type 0 where
  pub execute : ℕ → Json → Registry × W → Except Json × (Registry × W)
  pub metadata : ℕ → W → ToolMetadata
  pub shutdown : ℕ → W → W

unfoldable pub init : Registry
init = record { commands = []; advertised = []; filter_advertised = false; chaining_enabled = true }

unfoldable pub register_command : Bytes → ℕ → Registry → Except Registry
register_command name command r =
    if is_empty name
    then throw (invalid_argument (ascii "Command name cannot be empty"))
    else if has_key name r.commands
    then throw (
        runtime_error (ascii "Tool name collision: '" ++ (name ++ ascii "' is already registered")))
    else ok (record r { commands = insert name command r.commands })

unfoldable pub replace_command :
    {W : Type 0} → Strategies W → Bytes → ℕ → Registry × W → Except (Registry × W)
replace_command strategies name command (r, w) =
    if is_empty name
    then throw (invalid_argument (ascii "Command name cannot be empty"))
    else ok (
      record r { commands = insert name command r.commands },
      elim (lookup name r.commands) [ none ↦ w | some old ↦ strategies.shutdown old w ],
    )

unfoldable pub resolve : Registry → Bytes → Option ℕ
resolve r name = lookup name r.commands

unfoldable pub has_command : Registry → Bytes → Bool
has_command r name = has_key name r.commands

unfoldable pub list_commands : Registry → List Bytes
list_commands r = keys r.commands

unfoldable pub set_advertised : List Bytes → Registry → Registry
set_advertised names r = record r { advertised = names; filter_advertised = true }

unfoldable pub clear_advertised_filter : Registry → Registry
clear_advertised_filter r = record r { advertised = []; filter_advertised = false }

unfoldable pub advertise : Bytes → Registry → Registry
advertise name r =
    if is_empty name
    then r
    else record r { filter_advertised = true; advertised = add name r.advertised }

unfoldable pub unadvertise : Bytes → Registry → Registry
unadvertise name r = record r { advertised = remove name r.advertised }

unfoldable pub is_advertised : Registry → Bytes → Bool
is_advertised r name = if not r.filter_advertised then true else contains r.advertised name

unfoldable pub set_chaining_enabled : Bool → Registry → Registry
set_chaining_enabled enabled r = record r { chaining_enabled = enabled }
