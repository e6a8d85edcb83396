-- ===== src/Registry/Listing.antt =====
-- `ListToolMetadata`: what tools/list shows.
pub mod Caps
use tool_smith.Base.{
  ℕ, Bool, true, false, not, ◌&&◌, Option, none, some, List, [], ◌∷◌, ◌++◌, Bytes, ascii, Dict,
  contains, is_empty, take, if◌then◌else◌,
}
use tool_smith.Json.{Json, null, bool, obj, str, Fields, end, field, is_empty_json}
use tool_smith.Registry.{Registry, Strategies, ToolMetadata}

-- include/core/ResultBudget.h.
abbrev pub description_max_chars : ℕ
description_max_chars = 120

abbrev pub open_schema : Json
open_schema = obj (
    field (ascii "type") (str (ascii "object"))
      (field (ascii "properties") (obj end) (field (ascii "additionalProperties") (bool true) end)))

abbrev pub described : Bytes → Bytes → Bytes
described name description =
    if is_empty description then ascii "Execute the " ++ (name ++ ascii " command") else description

-- The defaults for what the metadata leaves open, and the cap on the description.
unfoldable pub completed : Bytes → ToolMetadata → ToolMetadata
completed name meta = record meta {
  name = if is_empty meta.name then name else meta.name;
  description = take description_max_chars (described name meta.description);
  input_schema = if is_empty_json meta.input_schema then open_schema else meta.input_schema;
}

unfoldable pub list_entries :
    {W : Type 0} → Strategies W → Registry → W → Dict ℕ → List ToolMetadata
list_entries strategies r w [] = []
list_entries strategies r w ((name, command) ∷ rest) =
    let later = list_entries strategies r w rest in
    if r.filter_advertised && not (contains r.advertised name)
    then later
    else if (strategies.metadata command w).hidden
    then later
    else completed name (strategies.metadata command w) ∷ later

unfoldable pub list_tool_metadata : {W : Type 0} → Strategies W → Registry → W → List ToolMetadata
list_tool_metadata strategies r w = list_entries strategies r w r.commands
