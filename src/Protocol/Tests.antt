-- ===== src/Protocol/Tests.antt =====
-- A chat request with a stop, a seed, a bias and a required tool, over numbers that are integers.
use Prim.Native.String.{String}
use mathlib.Core.List.{Mem}
use serve_mlx.Base.{
  ◌≡◌, ◌≢◌, refl, ◌⊎◌, none, some, true, false, if◌then◌else◌, List, [], ◌∷◌, map, ok, raise,
  overflow_error, type_error, ℕ_discrete,
}
use serve_mlx.Base.Int.{ℤ, pos, negsuc, leb_ℤ, eqb_ℤ}
use serve_mlx.Json.{Value, Fields, int, str, arr, obj, nil, cons, end, field}
use serve_mlx.Protocol.Text.{Text, codes}
use serve_mlx.Protocol.Stop.{init, stream}
use serve_mlx.Protocol.Stop.Reference.{collect}
use serve_mlx.Protocol.Options.{Numbers, number, parse_reasoning_effort}
use serve_mlx.Protocol.Options.Tools.{Tool, Tools, parse_tools, template_tools}
use serve_mlx.Protocol.Options.Tools.Offered.{parse_tools-template_tools}
use serve_mlx.Protocol.Options.Request.{
  chat_completion, GenerationOptions, Bounds, parse_generation_options,
}
use serve_mlx.Protocol.Options.Request.Checked.{
  IsWithin, IsAllowed, parse_generation_options-IsWithin,
}
use serve_mlx.Protocol.Composed.{parse_generation_options-stream}

abbrev numbers : Numbers ℤ
numbers = record {
  of_int = λ n. if leb_ℤ n (pos 1000) then some n else none;
  is_finite = λ x. true;
  le = leb_ℤ;
  is_one = λ x. eqb_ℤ x (pos 1);
  int_of = λ s. some (pos 5);
}

abbrev bounds : Bounds ℤ
bounds = record {
  minus_hundred = negsuc 99;
  minus_two = negsuc 1;
  zero = pos 0;
  one = pos 1;
  two = pos 2;
  hundred = pos 100;
}

abbrev schema : Fields ℤ
schema = field "type" (str "object") end

abbrev function : Fields ℤ
function = field "name" (str "look_up") (field "parameters" (obj schema) end)

abbrev tool_value : Value ℤ
tool_value = obj (field "type" (str "function") (field "function" (obj function) end))

abbrev payload : Fields ℤ
payload = field "max_tokens" (int (pos 20)) (
    field "temperature" (int (pos 1)) (
      field "stop" (str "12") (
        field "seed" (int (pos 7)) (
          field "logit_bias" (obj (field "5" (int (pos 3)) end))
            (field "tools" (arr (cons tool_value nil)) (field "tool_choice" tool_value end))))))

abbrev tool : Tool ℤ
tool = record { name = "look_up"; parameters = schema; description = none }

abbrev tools : Tools ℤ
tools = record { tools = tool ∷ []; choice = some "function"; required_name = some "look_up" }

abbrev options : GenerationOptions ℤ
options = record {
  model_id = "m";
  max_tokens = pos 20;
  stream = false;
  temperature = pos 1;
  top_p = pos 1;
  stop = "12" ∷ [];
  seed = some (pos 7);
  presence_penalty = pos 0;
  frequency_penalty = pos 0;
  logit_bias = some ((5, pos 3) ∷ []);
  tools = tools;
  response_format = none;
  reasoning_effort = "medium";
  include_usage = false;
}

parsed_tools : parse_tools (λ s. true) payload ≡ ok tools
unfolding parse_tools
parsed_tools = refl

parsed :
    parse_generation_options numbers bounds
      (λ s. true)
      (λ m. true)
      chat_completion
      payload
      "m"
      (pos 64)
    ≡ ok options
unfolding parse_generation_options ℕ_discrete
parsed = refl

-- an integer that no float can hold
too_large :
    number numbers (field "top_p" (int (pos 2000)) end) "top_p" (pos 1) (pos 0) (pos 1)
    ≡ raise overflow_error
unfolding number
too_large = refl

-- a value that no set can hold
no_hash : parse_reasoning_effort {F = ℤ} (obj end) ≡ raise type_error
unfolding parse_reasoning_effort
no_hash = refl

parse_generation_options-IsWithin_example :
    IsWithin numbers bounds (λ s. true) (λ m. true) (pos 64) options
    × IsAllowed numbers bounds (λ s. true) (λ m. true) chat_completion payload options
parse_generation_options-IsWithin_example =
    parse_generation_options-IsWithin numbers bounds (λ s. true) (λ m. true) chat_completion payload
      "m" (pos 64) options parsed

abbrev deltas : List Text
deltas = (55 ∷ 49 ∷ []) ∷ (50 ∷ 57 ∷ []) ∷ []

parse_generation_options-stream_example :
    stream (map codes options.stop) deltas init ≡ collect (map codes options.stop) [] deltas
parse_generation_options-stream_example =
    parse_generation_options-stream numbers bounds (λ s. true) (λ m. true) chat_completion payload
      "m" (pos 64) options deltas parsed

parse_tools-template_tools_example :
    ((tools.choice ≡ some "none") × (template_tools tools ≡ []))
    ⊎ (((tools.choice ≡ some "function")
          × ((name : String) × ((tools.required_name ≡ some name)
                × ((t : Tool ℤ) × ((template_tools tools ≡ t ∷ [])
                      × ((t.name ≡ name) × Mem t tools.tools))))))
        ⊎ ((tools.choice ≢ some "none")
            × ((tools.required_name ≡ none) × (template_tools tools ≡ tools.tools))))
parse_tools-template_tools_example =
    parse_tools-template_tools (λ s. true) payload tools parsed_tools
