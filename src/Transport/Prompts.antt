-- ===== src/Transport/Prompts.antt =====
-- prompts/list and prompts/get.
use tool_smith.Base.{ℕ, true, Option, none, some, List, [], ◌∷◌, ◌++◌, Bytes, ascii}
use tool_smith.Base.Except.{Except, ok, throw, type_error, ◌>>=◌}
use tool_smith.Json.{
  Json, null, bool, str, arr, obj, nil, cons, Fields, end, field, find, elems, string_of,
}
use tool_smith.Registry.Chain.{text_or, value_or}
use tool_smith.Transport.{Engine, Host, make_response, make_error, invalid_params, member, array_of}

abbrev argument : Bytes → Json
argument name = obj (
    field (ascii "name") (str name) (
      field (ascii "description") (str (ascii "Required variable"))
        (field (ascii "required") (bool true) end)))

-- `var.get<std::string>()` throws where a variable is no string.
unfoldable pub arguments_of : List Json → Except (List Json)
arguments_of [] = ok []
arguments_of (str v ∷ vs) = do rest ← arguments_of vs; ok (argument v ∷ rest)
arguments_of (_ ∷ vs) = throw type_error

-- The elements that a loop over a value goes through.
abbrev iterated : Option Json → List Json
iterated (some (arr js)) = elems js
iterated (some (obj fs)) = values fs
  where
    values : Fields → List Json
    values end = []
    values (field k v gs) = v ∷ values gs
iterated none = []
iterated (some null) = []
iterated (some j) = j ∷ []

unfoldable pub prompt_of : Json → Except Json
prompt_of (obj fs) = do
  name ← text_or [] (find (ascii "name") (obj fs))
  description ← text_or [] (find (ascii "description") (obj fs))
  arguments ← arguments_of (iterated (find (ascii "required_variables") (obj fs)))
  ok (
      obj (
        field (ascii "name") (str name) (
          field (ascii "description") (str description)
            (field (ascii "arguments") (arr (array_of arguments)) end))))
prompt_of _ = throw type_error

unfoldable pub prompts_of : List Json → Except (List Json)
prompts_of [] = ok []
prompts_of (j ∷ js) = do p ← prompt_of j; ps ← prompts_of js; ok (p ∷ ps)

abbrev listed : Option Engine → List Json
listed none = []
listed (some e) = e.list_skills_json

unfoldable pub handle_prompts_list : {W : Type 0} → Host W → Json → Except Json
handle_prompts_list host id = do
  prompts ← prompts_of (listed host.engine)
  ok (make_response id (member (ascii "prompts") (arr (array_of prompts))))

abbrev message_of : Bytes → Json
message_of rendered = obj (
    field (ascii "role") (str (ascii "user")) (
      field (ascii "content")
        (obj (field (ascii "type") (str (ascii "text")) (field (ascii "text") (str rendered) end)))
        end))

abbrev pub rendered_reply : {W : Type 0} → Host W → Json → Except Bytes → Json
rendered_reply host id (ok rendered) =
    make_response id (member (ascii "messages") (arr (cons (message_of rendered) nil)))
rendered_reply host id (throw e) = make_error id invalid_params (host.what e)

abbrev pub render_skill : {W : Type 0} → Host W → Engine → Json → Bytes → Json → Option ℕ → Json
render_skill host e id name arguments none =
    make_error id invalid_params (ascii "Unknown prompt: " ++ name)
render_skill host e id name arguments (some skill) =
    rendered_reply host id (e.render_prompt skill arguments)

abbrev pub render_with : {W : Type 0} → Host W → Json → Bytes → Json → Option Engine → Json
render_with host id name arguments none =
    make_error id invalid_params (ascii "No skill engine available")
render_with host id name arguments (some e) =
    render_skill host e id name arguments (e.resolve_skill name)

abbrev pub prompt_named : {W : Type 0} → Host W → Json → Json → Option Bytes → Json
prompt_named host params id none =
    make_error id invalid_params (ascii "Missing required parameter: name")
prompt_named host params id (some name) =
    render_with host id name (value_or (obj end) (find (ascii "arguments") params)) host.engine

unfoldable pub handle_prompts_get : {W : Type 0} → Host W → Json → Json → Json
handle_prompts_get host params id =
    prompt_named host params id (string_of (find (ascii "name") params))
