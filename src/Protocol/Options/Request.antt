-- ===== src/Protocol/Options/Request.antt =====
-- src/mlx_moe_stream/server/protocol.py: GenerationOptions and parse_generation_options.
--
-- Whether a model exists is an argument, and so are the floats that are the bounds of the numbers.
pub mod Checked
use Prim.Native.String.{String}
use serve_mlx.Base.{
  ℕ, Option, none, some, Bool, true, false, List, [], ◌∷◌, Result, Check, ok, raise, api_request,
  guard, ◌>>◌, ◌>>=◌, ◌&&◌, ◌||◌, not, if◌then◌else◌,
}
use serve_mlx.Base.Int.{ℤ, pos, eqb_ℤ}
use serve_mlx.Json.{Value, Fields, null, bool, int, float, str, arr, obj}
use serve_mlx.Manifest.{is_empty}
use serve_mlx.Protocol.Options.{
  Numbers, bad, get, has, max_tokens, boolean, parse_stop, parse_seed, parse_reasoning_effort,
  parse_stream_options, number, parse_logit_bias,
}
use serve_mlx.Protocol.Options.Tools.{
  Tool, Tools, ResponseFormat, parse_tools, parse_response_format,
}

pub data Endpoint : Type 0 where
  completion chat_completion : Endpoint

pub record GenerationOptions (F : Type 0) : Type 0 where
  pub model_id : String
  pub max_tokens : ℤ
  pub stream : Bool
  pub temperature : F
  pub top_p : F
  pub stop : List String
  pub seed : Option ℤ
  pub presence_penalty : F
  pub frequency_penalty : F
  pub logit_bias : Option (List (ℕ × F))
  pub tools : Tools F
  pub response_format : Option (ResponseFormat F)
  pub reasoning_effort : String
  pub include_usage : Bool

-- the floats in the source: -100, -2, 0, 1, 2 and 100
pub record Bounds (F : Type 0) : Type 0 where
  pub minus_hundred : F
  pub minus_two : F
  pub zero : F
  pub one : F
  pub two : F
  pub hundred : F

abbrev pub is_some {ℓ} : {A : Type ℓ} → Option A → Bool
is_some none = false
is_some (some a) = true

module _ {F : Type 0} (numbers : Numbers F) (bounds : Bounds F) (valid_schema : Fields F → Bool)
    (model_exists : String → Bool) where
  unfoldable pub parse_model : Value F → Result String
  parse_model (str model) =
      guard (model_exists model) (api_request 404 (some "model") (some "model_not_found"))
      >> ok model
  parse_model _ = raise (api_request 404 (some "model") (some "model_not_found"))

  -- `value == 1`
  abbrev pub is_one : Value F → Bool
  is_one (int n) = eqb_ℤ n (pos 1)
  is_one (bool b) = b
  is_one (float x) = numbers.is_one x
  is_one _ = false

  -- the checks of the endpoint and of streaming
  unfoldable pub check_endpoint : Endpoint → Fields F → GenerationOptions F → Check
  unfolding has
  check_endpoint chat_completion payload o =
      guard (not (o.stream && is_some o.response_format)) (bad "response_format")
  check_endpoint completion payload o =
      guard (is_empty o.tools.tools && not (has "tool_choice" payload)) (bad "tools")
      >> guard (not (has "reasoning_effort" payload)) (bad "reasoning_effort")
      >> guard (not (is_some o.response_format)) (bad "response_format")
      >> guard (not (o.stream && is_some o.response_format)) (bad "response_format")

  unfoldable pub parse_options : Fields F → String → ℤ → Result (GenerationOptions F)
  unfolding get parse_model boolean max_tokens number parse_stop parse_seed parse_logit_bias
      parse_tools parse_response_format parse_reasoning_effort parse_stream_options
  parse_options payload default_model_id max_completion_tokens = do
    model ← parse_model (get "model" (str default_model_id) payload)
    stream ← boolean payload "stream" false
    _ ← guard (is_one (get "n" (int (pos 1)) payload)) (bad "n")
    limit ← max_tokens payload max_completion_tokens
    temperature ← number numbers payload "temperature" bounds.zero bounds.zero bounds.two
    top_p ← number numbers payload "top_p" bounds.one bounds.zero bounds.one
    presence ← number numbers payload "presence_penalty" bounds.zero bounds.minus_two bounds.two
    frequency ← number numbers payload "frequency_penalty" bounds.zero bounds.minus_two bounds.two
    stop ← parse_stop (get "stop" null payload)
    seed ← parse_seed (get "seed" null payload)
    bias ←
        parse_logit_bias numbers bounds.minus_hundred bounds.hundred (get "logit_bias" null payload)
    tools ← parse_tools valid_schema payload
    format ← parse_response_format valid_schema (get "response_format" null payload)
    effort ← parse_reasoning_effort (get "reasoning_effort" (str "medium") payload)
    usage ← parse_stream_options (get "stream_options" null payload)
    ok (record {
      model_id = model;
      max_tokens = limit;
      stream = stream;
      temperature = temperature;
      top_p = top_p;
      stop = stop;
      seed = seed;
      presence_penalty = presence;
      frequency_penalty = frequency;
      logit_bias = bias;
      tools = tools;
      response_format = format;
      reasoning_effort = effort;
      include_usage = usage;
    })

  unfoldable pub parse_generation_options :
      Endpoint → Fields F → String → ℤ → Result (GenerationOptions F)
  unfolding parse_options check_endpoint
  parse_generation_options endpoint payload default_model_id max_completion_tokens =
      parse_options payload default_model_id max_completion_tokens >>= λ o.
      check_endpoint endpoint payload o >> ok o
