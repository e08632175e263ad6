-- ===== src/Protocol/Options/Tools.antt =====
-- src/mlx_moe_stream/server/protocol.py: _parse_tools, _parse_response_format and the choices of a
-- tool.
--
-- The check of a JSON schema by the validator's library is an argument.
pub mod Parsed
pub mod Offered
use Prim.Native.Char.{code}
use Prim.Native.String.{String}
use text.Mathlib.Text.{◌==◌ as str_eq}
use serve_mlx.Base.{
  ℕ, ◌≡◌, Option, none, some, Bool, true, false, List, [], ◌∷◌, map, length, Result, ok, raise,
  api_request, guard, Check, ◌>>◌, ◌>>=◌, ◌&&◌, ◌||◌, not, if◌then◌else◌, leb, ◌==◌,
}
use serve_mlx.Json.{
  Value, Items, Fields, null, bool, int, float, str, arr, obj, nil, cons, end, field, member,
  is_text,
}
use serve_mlx.Manifest.{is_in, is_empty}
use serve_mlx.Protocol.Options.{bad, get, has, text_length, count_items}

-- a normalized tool
pub record Tool (F : Type 0) : Type 0 where
  pub name : String
  pub parameters : Fields F
  pub description : Option String

pub record Tools (F : Type 0) : Type 0 where
  pub tools : List (Tool F)
  pub choice : Option String
  pub required_name : Option String

pub data ResponseFormat (F : Type 0) : Type 0 where
  json_object : ResponseFormat F
  json_schema : String → Fields F → ResponseFormat F

-- `[A-Za-z0-9_-]`
abbrev is_name_code : ℕ → Bool
is_name_code c =
    (leb b'A' c && leb c b'Z')
    || (leb b'a' c && leb c b'z')
    || (leb b'0' c && leb c b'9')
    || c == b'_'
    || c == b'-'

unfoldable pub has_name_codes : String → Bool
has_name_codes String.[] = true
has_name_codes (String.◌∷◌ c s) = is_name_code (code c) && has_name_codes s

-- `re.fullmatch(r"[A-Za-z0-9_-]{1,64}", name)`
abbrev pub is_tool_name : String → Bool
is_tool_name name = leb 1 (text_length name) && leb (text_length name) 64 && has_name_codes name

abbrev pub is_none_choice : Option String → Bool
is_none_choice none = false
is_none_choice (some c) = str_eq c "none"

-- whether a call has another name than the required one
unfoldable pub any_other : String → List String → Bool
any_other name [] = false
any_other name (c ∷ calls) = not (str_eq c name) || any_other name calls

abbrev pub is_required : Option String → Bool
is_required none = false
is_required (some c) = str_eq c "required"

module _ {F : Type 0} where
  abbrev pub names : List (Tool F) → List String
  names tools = map (λ t. t.name) tools

  -- `function.get("parameters", {"type": "object", "properties": {}})`
  abbrev pub no_parameters : Value F
  no_parameters = obj (field "type" (str "object") (field "properties" (obj end) end))

  -- the description, where there is one
  unfoldable pub description_of : Fields F → Result (Option String)
  unfolding member
  description_of function = elim (member "description" function) [
    | none ↦ ok none
    | some (str s) ↦ ok (some s)
    | some _ ↦ raise (bad "tools")
  ]

  -- `template_tools`
  unfoldable pub named : String → List (Tool F) → List (Tool F)
  named name [] = []
  named name (t ∷ tools) =
      let rest = named name tools in if str_eq t.name name then t ∷ rest else rest

  unfoldable pub template_tools : Tools F → List (Tool F)
  unfolding named
  template_tools t =
      if is_none_choice t.choice
      then []
      else elim t.required_name [ none ↦ t.tools | some name ↦ named name t.tools ]

  -- `enforce_tool_choice`, over the names of the calls
  unfoldable pub enforce_tool_choice : Tools F → List String → Check
  unfolding any_other
  enforce_tool_choice t calls =
      let refused = api_request 422 (some "tool_choice") (some "tool_choice_not_satisfied") in
      guard (not (is_required t.choice && is_empty calls)) refused >> elim t.required_name [
        | none ↦ ok tt
        | some name ↦ guard (not (any_other name calls)) refused
      ]

module _ {F : Type 0} (valid_schema : Fields F → Bool) where
  -- the loop body over the tools, once `function` is an object with a name
  unfoldable pub parse_function : String → Fields F → List String → Result (Tool F)
  unfolding get has_name_codes is_in description_of
  parse_function name function seen =
      guard (is_tool_name name && not (is_in name seen)) (bad "tools")
      >> elim (get "parameters" no_parameters function) [
        | obj parameters ↦
            guard (valid_schema parameters) (bad "tools")
            >> (description_of function >>= λ description.
                ok (record { name = name; parameters = parameters; description = description }))
        | _ ↦ raise (bad "tools")
      ]

  -- `function.get("name")` with its check
  unfoldable pub parse_named : Value F → List String → Result (Tool F)
  unfolding parse_function
  parse_named (obj function) seen = elim (get "name" null function) [
    | str name ↦ parse_function name function seen
    | _ ↦ raise (bad "tools")
  ]
  parse_named _ seen = raise (bad "tools")

  -- the loop body over the tools
  unfoldable pub parse_tool : Value F → List String → Result (Tool F)
  unfolding parse_named
  parse_tool (obj raw_tool) seen =
      guard (is_text (get "type" null raw_tool) "function") (bad "tools")
      >> parse_named (get "function" null raw_tool) seen
  parse_tool _ seen = raise (bad "tools")

  unfoldable pub parse_each : Items F → List String → Result (List (Tool F))
  unfolding parse_tool
  parse_each nil seen = ok []
  parse_each (cons raw_tool rest) seen = parse_tool raw_tool seen >>= λ tool.
      parse_each rest (tool.name ∷ seen) >>= λ others. ok (tool ∷ others)

  -- the name in a `tool_choice` of a function
  unfoldable pub parse_choice_name : Value F → List String → Result String
  unfolding is_in
  parse_choice_name (str name) seen = guard (is_in name seen) (bad "tool_choice") >> ok name
  parse_choice_name _ seen = raise (bad "tool_choice")

  unfoldable pub choose_function : Value F → List (Tool F) → Result (Tools F)
  unfolding parse_choice_name
  choose_function (obj function) tools =
      parse_choice_name (get "name" null function) (names tools) >>= λ name.
      ok (record { tools = tools; choice = some "function"; required_name = some name })
  choose_function _ tools = raise (bad "tool_choice")

  unfoldable pub choose : Value F → List (Tool F) → Result (Tools F)
  unfolding choose_function is_in
  choose (str c) tools =
      guard (is_in c ("auto" ∷ "required" ∷ "none" ∷ [])) (bad "tool_choice")
      >> ok (record { tools = tools; choice = some c; required_name = none })
  choose (obj choice) tools =
      guard (is_text (get "type" null choice) "function") (bad "tool_choice")
      >> choose_function (get "function" null choice) tools
  choose _ tools = raise (bad "tool_choice")

  -- `tool_choice` of a request without tools: null, "none" or absent
  unfoldable pub without_tools : Fields F → Result (Tools F)
  unfolding get
  without_tools payload = elim (get "tool_choice" null payload) [
    | null ↦ ok (record { tools = []; choice = none; required_name = none })
    | str c ↦
        guard (str_eq c "none") (bad "tool_choice")
        >> ok (record { tools = []; choice = some "none"; required_name = none })
    | _ ↦ raise (bad "tool_choice")
  ]

  unfoldable pub parse_tools : Fields F → Result (Tools F)
  unfolding without_tools parse_each choose
  parse_tools payload = elim (get "tools" null payload) [
    | null ↦ without_tools payload
    | arr items ↦
        guard (leb 1 (count_items items)) (bad "tools")
        >> guard (leb (count_items items) 128) (bad "tools")
        >> (parse_each items [] >>= λ tools. choose (get "tool_choice" (str "auto") payload) tools)
    | _ ↦ raise (bad "tools")
  ]

  -- the branch of "json_schema"
  unfoldable pub parse_json_schema : Value F → Result (Option (ResponseFormat F))
  unfolding get
  parse_json_schema (obj format) = elim (get "name" null format) [
    | str name ↦ elim (get "schema" null format) [
      | obj schema ↦
          guard (valid_schema schema) (bad "response_format") >> ok (some (json_schema name schema))
      | _ ↦ raise (bad "response_format")
    ]
    | _ ↦ raise (bad "response_format")
  ]
  parse_json_schema _ = raise (bad "response_format")

  unfoldable pub parse_response_format : Value F → Result (Option (ResponseFormat F))
  unfolding parse_json_schema
  parse_response_format null = ok none
  parse_response_format (obj value) =
      let response_type = get "type" null value in
      let schema = parse_json_schema (get "json_schema" null value) in
      if is_text response_type "text"
      then ok none
      else if is_text response_type "json_object"
      then ok (some json_object)
      else if is_text response_type "json_schema"
      then schema
      else raise (bad "response_format")
  parse_response_format _ = raise (bad "response_format")
