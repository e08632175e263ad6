-- ===== src/Protocol/Options/Request/Checked.antt =====
-- What the options of an accepted request satisfy together.
use Prim.Native.String.{String}
use serve_mlx.Base.{
  ◌≡◌, refl, some, Bool, true, false, Error, ok, api_request, guard, >>=_ok, guard_ok, ok-injective,
  ◌&&◌, &&_iff, not, arith,
}
use mathlib.Core.Path.{subst}
use serve_mlx.Base.Int.{ℤ, pos, ◌≤ℤ◌}
use serve_mlx.Json.{Value, Fields, null, int, str}
use serve_mlx.Manifest.{is_empty, is_in}
use serve_mlx.Manifest.Valid.{not_iff}
use serve_mlx.Protocol.Options.{
  Numbers, bad, get, has, efforts, max_tokens, boolean, parse_stop, parse_seed, number,
  parse_logit_bias, parse_stream_options, parse_reasoning_effort,
}
use serve_mlx.Protocol.Options.Ranges.{
  IsStops, IsSeed, IsNumber, IsBiasOption, max_tokens_bound, parse_stop-IsStops, parse_seed-IsSeed,
  parse_reasoning_effort_lem, number-IsNumber, parse_logit_bias-IsBias,
}
use serve_mlx.Protocol.Options.Tools.{parse_tools, parse_response_format}
use serve_mlx.Protocol.Options.Tools.Parsed.{IsTools, parse_tools-IsTools}
use serve_mlx.Protocol.Options.Request.{
  Endpoint, completion, chat_completion, GenerationOptions, Bounds, is_some, is_one, parse_model,
  check_endpoint, parse_options, parse_generation_options,
}

passed_guard : (b : Bool) (e : Error) → guard {0} b e ≡ ok tt → b ≡ true
passed_guard true e h = refl
passed_guard false e h = absurd (let x = h in cc)

not_both : (a b : Bool) → not (a && b) ≡ true → a ≡ true → b ≡ false
not_both a b h e = ground (arith, h, e)

module _ {F : Type 0} (numbers : Numbers F) (bounds : Bounds F) (valid_schema : Fields F → Bool)
    (model_exists : String → Bool) where
  -- options whose model is there and whose values are within their bounds
  pub record IsWithin (limit : ℤ) (o : GenerationOptions F) : Type 0 where
    pub model : model_exists o.model_id ≡ true
    pub tokens : (pos 0 ≤ℤ o.max_tokens) × (o.max_tokens ≤ℤ limit)
    pub temperature : IsNumber numbers bounds.zero bounds.two o.temperature
    pub top_p : IsNumber numbers bounds.zero bounds.one o.top_p
    pub presence : IsNumber numbers bounds.minus_two bounds.two o.presence_penalty
    pub frequency : IsNumber numbers bounds.minus_two bounds.two o.frequency_penalty
    pub stops : IsStops o.stop
    pub seed : IsSeed o.seed
    pub bias : IsBiasOption numbers bounds.minus_hundred bounds.hundred o.logit_bias
    pub tools : IsTools valid_schema o.tools
    pub effort : is_in o.reasoning_effort efforts ≡ true

  model_lem :
      (v : Value F) (model : String)
      → parse_model numbers bounds valid_schema model_exists v ≡ ok model
      → model_exists model ≡ true
  unfolding parse_model
  model_lem (str m) model h =
      let (c, same) =
        guard_ok (model_exists m) (api_request 404 (some "model") (some "model_not_found")) (ok m)
          model h in
      subst (λ n. model_exists n ≡ true) (ok-injective same) c
  model_lem _ model h = absurd (let x = h in cc)

  options-IsWithin :
      (payload : Fields F) (model : String) (limit : ℤ) (o : GenerationOptions F)
      → parse_options numbers bounds valid_schema model_exists payload model limit ≡ ok o
      → IsWithin limit o
  unfolding parse_options
  options-IsWithin payload model limit o h =
      let (chosen, (is_model, h1)) =
        >>=_ok
          (parse_model numbers bounds valid_schema model_exists (get "model" (str model) payload)) _
          o h in
      let (stream, (is_stream, h2)) = >>=_ok (boolean payload "stream" false) _ o h1 in
      let (_, (_, h3)) =
        >>=_ok
          (guard (is_one numbers bounds valid_schema model_exists (get "n" (int (pos 1)) payload))
            (bad "n"))
          _ o h2 in
      let (tokens, (is_tokens, h4)) = >>=_ok (max_tokens payload limit) _ o h3 in
      let (temperature, (is_temperature, h5)) =
        >>=_ok (number numbers payload "temperature" bounds.zero bounds.zero bounds.two) _ o h4 in
      let (top_p, (is_top_p, h6)) =
        >>=_ok (number numbers payload "top_p" bounds.one bounds.zero bounds.one) _ o h5 in
      let (presence, (is_presence, h7)) =
        >>=_ok (number numbers payload "presence_penalty" bounds.zero bounds.minus_two bounds.two) _
          o h6 in
      let (frequency, (is_frequency, h8)) =
        >>=_ok (number numbers payload "frequency_penalty" bounds.zero bounds.minus_two bounds.two)
          _ o h7 in
      let (stop, (is_stop, h9)) = >>=_ok (parse_stop (get "stop" null payload)) _ o h8 in
      let (seed, (is_seed, h10)) = >>=_ok (parse_seed (get "seed" null payload)) _ o h9 in
      let (bias, (is_bias, h11)) =
        >>=_ok
          (parse_logit_bias numbers bounds.minus_hundred bounds.hundred
            (get "logit_bias" null payload))
          _ o h10 in
      let (tools, (is_tools, h12)) = >>=_ok (parse_tools valid_schema payload) _ o h11 in
      let (format, (is_format, h13)) =
        >>=_ok (parse_response_format valid_schema (get "response_format" null payload)) _ o h12 in
      let (effort, (is_effort, h14)) =
        >>=_ok (parse_reasoning_effort (get "reasoning_effort" (str "medium") payload)) _ o h13 in
      let (usage, (is_usage, h15)) =
        >>=_ok (parse_stream_options (get "stream_options" null payload)) _ o h14 in
      subst (IsWithin limit) (ok-injective h15) (record {
        model = model_lem (get "model" (str model) payload) chosen is_model;
        tokens = max_tokens_bound payload limit tokens is_tokens;
        temperature =
            number-IsNumber numbers payload "temperature" bounds.zero bounds.zero bounds.two
              temperature is_temperature;
        top_p =
            number-IsNumber numbers payload "top_p" bounds.one bounds.zero bounds.one top_p
              is_top_p;
        presence =
            number-IsNumber numbers payload "presence_penalty" bounds.zero bounds.minus_two
              bounds.two presence is_presence;
        frequency =
            number-IsNumber numbers payload "frequency_penalty" bounds.zero bounds.minus_two
              bounds.two frequency is_frequency;
        stops = parse_stop-IsStops (get "stop" null payload) stop is_stop;
        seed = parse_seed-IsSeed (get "seed" null payload) seed is_seed;
        bias =
            parse_logit_bias-IsBias numbers bounds.minus_hundred bounds.hundred
              (get "logit_bias" null payload) bias is_bias;
        tools = parse_tools-IsTools valid_schema payload tools is_tools;
        effort =
            parse_reasoning_effort_lem (get "reasoning_effort" (str "medium") payload) effort
              is_effort;
      })

  -- no structured output where the response is streamed
  abbrev pub IsStreamable : GenerationOptions F → Type 0
  IsStreamable o = o.stream ≡ true → is_some o.response_format ≡ false

  -- what the endpoint allows
  abbrev pub IsAllowed : Endpoint → Fields F → GenerationOptions F → Type 0
  IsAllowed chat_completion payload o = IsStreamable o
  IsAllowed completion payload o =
      ((is_empty o.tools.tools ≡ true) × (has "tool_choice" payload ≡ false))
      × ((has "reasoning_effort" payload ≡ false) × (is_some o.response_format ≡ false))

  check_endpoint-IsAllowed :
      (endpoint : Endpoint) (payload : Fields F) (o : GenerationOptions F)
      → check_endpoint numbers bounds valid_schema model_exists endpoint payload o ≡ ok tt
      → IsAllowed endpoint payload o
  unfolding check_endpoint
  check_endpoint-IsAllowed chat_completion payload o h =
      not_both o.stream (is_some o.response_format) (passed_guard _ _ h)
  check_endpoint-IsAllowed completion payload o h =
      let (a, h1) =
        guard_ok (is_empty o.tools.tools && not (has "tool_choice" payload)) (bad "tools") _ tt h in
      let (b, h2) =
        guard_ok (not (has "reasoning_effort" payload)) (bad "reasoning_effort") _ tt h1 in
      let (c, _) = guard_ok (not (is_some o.response_format)) (bad "response_format") _ tt h2 in
      let (empty, absent) =
        (&&_iff (is_empty o.tools.tools) (not (has "tool_choice" payload))).0 a in
      (
        (empty, (not_iff (has "tool_choice" payload)).0 absent),
        ((not_iff (has "reasoning_effort" payload)).0 b, (not_iff (is_some o.response_format)).0 c),
      )

  -- The options of an accepted request: the model is there, the limit of tokens is between 0 and the
  -- server's, the numbers are finite and within their bounds, there are at most four stops and none
  -- is empty, the seed has 32 bits, the tools have distinct names and valid schemas and the required
  -- one is among them, and what the endpoint or streaming does not support was not asked for.
  pub parse_generation_options-IsWithin :
      (endpoint : Endpoint) (payload : Fields F) (default_model_id : String) (limit : ℤ)
      (o : GenerationOptions F)
      → parse_generation_options numbers bounds valid_schema model_exists endpoint payload
          default_model_id limit
        ≡ ok o
      → IsWithin limit o × IsAllowed endpoint payload o
  unfolding parse_generation_options
  parse_generation_options-IsWithin endpoint payload default_model_id limit o h =
      let (p, (parsed, h1)) =
        >>=_ok
          (parse_options numbers bounds valid_schema model_exists payload default_model_id limit) _
          o h in
      let (_, (checked, same)) =
        >>=_ok (check_endpoint numbers bounds valid_schema model_exists endpoint payload p) _ o
          h1 in
      subst (λ z. IsWithin limit z × IsAllowed endpoint payload z) (ok-injective same)
        (
          options-IsWithin payload default_model_id limit p parsed,
          check_endpoint-IsAllowed endpoint payload p checked,
        )
