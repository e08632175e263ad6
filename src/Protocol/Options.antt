-- ===== src/Protocol/Options.antt =====
-- src/mlx_moe_stream/server/protocol.py: the parsers of the single options of a request.
--
-- What Python's numbers and `int` of a text give is an argument, the record `Numbers`: `of_int` has
-- `none` for an OverflowError. A request is a decoded JSON object.
pub mod Tools
pub mod Request
pub mod Ranges
use Prim.Native.String.{String}
use text.Mathlib.Text.{◌==◌ as str_eq}
use serve_mlx.Base.{
  ℕ, zero, suc, ◌+◌, ◌^◌, ◌≡◌, Option, none, some, Bool, true, false, List, [], ◌∷◌, length, map,
  Result, Error, ok, raise, api_request, type_error, overflow_error, guard, ◌>>◌, ◌>>=◌, ◌&&◌, ◌||◌,
  not, if◌then◌else◌, leb, ℕ_discrete,
}
use serve_mlx.Base.Int.{ℤ, pos, pos_part, leb_ℤ}
use serve_mlx.Dict.{put}
use serve_mlx.Json.{
  Value, Items, Fields, null, bool, int, float, str, arr, obj, nil, cons, end, field, member,
}
use serve_mlx.Manifest.{is_in}
use serve_mlx.Protocol.Text.{Text}

pub record Numbers (F : Type 0) : Type 0 where
  pub of_int : ℤ → Option F
  pub is_finite : F → Bool
  pub le : F → F → Bool
  pub is_one : F → Bool
  pub int_of : String → Option ℤ

-- `ApiRequestError(..., parameter=parameter)`
abbrev pub bad : String → Error
bad parameter = api_request 400 (some parameter) none

-- the number of code points of a text
abbrev pub text_length : String → ℕ
text_length String.[] = 0
text_length (String.◌∷◌ c s) = suc (text_length s)

abbrev pub efforts : List String
efforts = "none" ∷ "minimal" ∷ "low" ∷ "medium" ∷ "high" ∷ "xhigh" ∷ "max" ∷ "ultra" ∷ []

module _ {F : Type 0} where
  -- `payload.get(name, default)`
  unfoldable pub get : String → Value F → Fields F → Value F
  unfolding member
  get name default payload = elim (member name payload) [ none ↦ default | some v ↦ v ]

  -- `name in payload`
  unfoldable pub has : String → Fields F → Bool
  unfolding member
  has name payload = elim (member name payload) [ none ↦ false | some v ↦ true ]

  abbrev pub value_within : String → ℤ → Value F → Result ℤ
  value_within parameter maximum (int n) =
      guard (leb_ℤ (pos 0) n) (bad parameter) >> guard (leb_ℤ n maximum) (bad parameter) >> ok n
  value_within parameter maximum _ = raise (bad parameter)

  unfoldable pub max_tokens : Fields F → ℤ → Result ℤ
  unfolding get has
  max_tokens payload maximum =
      let has_new = has "max_completion_tokens" payload in
      let parameter = if has_new then "max_completion_tokens" else "max_tokens" in
      guard (not (has "max_tokens" payload && has_new)) (bad "max_tokens")
      >> value_within parameter maximum (get parameter (int maximum) payload)

  unfoldable pub boolean : Fields F → String → Bool → Result Bool
  unfolding get
  boolean payload name default = elim (get name (bool default) payload) [
    | bool b ↦ ok b
    | _ ↦ raise (bad name)
  ]

  -- the checks of the items of `stop`
  unfoldable pub stop_items : Items F → Result (List String)
  stop_items nil = ok []
  stop_items (cons v rest) =
      let others = stop_items rest in
      elim v [
        | str s ↦
            guard (leb 1 (text_length s) && leb (text_length s) 256) (bad "stop")
            >> (others >>= λ stops. ok (s ∷ stops))
        | _ ↦ raise (bad "stop")
      ]

  abbrev pub count_items : Items F → ℕ
  count_items nil = 0
  count_items (cons v rest) = suc (count_items rest)

  unfoldable pub stop_values : Items F → Result (List String)
  unfolding stop_items
  stop_values items =
      guard (leb 1 (count_items items) && leb (count_items items) 4) (bad "stop")
      >> stop_items items

  unfoldable pub parse_stop : Value F → Result (List String)
  unfolding stop_values
  parse_stop null = ok []
  parse_stop (str s) = stop_values (cons (str s) nil)
  parse_stop (arr items) = stop_values items
  parse_stop _ = raise (bad "stop")

  unfoldable pub parse_seed : Value F → Result (Option ℤ)
  parse_seed null = ok none
  parse_seed (int n) =
      guard (leb_ℤ (pos 0) n && not (leb_ℤ (pos (2 ^ 32)) n)) (bad "seed") >> ok (some n)
  parse_seed _ = raise (bad "seed")

  -- A list or an object has no hash, so its test for membership in a set is a TypeError.
  unfoldable pub parse_reasoning_effort : Value F → Result String
  unfolding is_in
  parse_reasoning_effort (str s) = guard (is_in s efforts) (bad "reasoning_effort") >> ok s
  parse_reasoning_effort (arr items) = raise type_error
  parse_reasoning_effort (obj fields) = raise type_error
  parse_reasoning_effort _ = raise (bad "reasoning_effort")

  unfoldable pub parse_stream_options : Value F → Result Bool
  unfolding get
  parse_stream_options null = ok false
  parse_stream_options (obj fields) = elim (get "include_usage" (bool false) fields) [
    | bool b ↦ ok b
    | _ ↦ raise (bad "stream_options")
  ]
  parse_stream_options _ = raise (bad "stream_options")

module _ {F : Type 0} (numbers : Numbers F) where
  -- `math.isfinite(value)` and `float(value)` of a number
  abbrev pub finite : String → Value F → Result F
  finite name (int n) = elim (numbers.of_int n) [
    | none ↦ raise overflow_error
    | some x ↦ guard (numbers.is_finite x) (bad name) >> ok x
  ]
  finite name (float x) = guard (numbers.is_finite x) (bad name) >> ok x
  finite name _ = raise (bad name)

  unfoldable pub number : Fields F → String → F → F → F → Result F
  unfolding get
  number payload name default minimum maximum =
      finite name (get name (float default) payload) >>= λ x.
      guard (numbers.le minimum x && numbers.le x maximum) (bad name) >> ok x

  -- the loop body of `_parse_logit_bias` up to the new entry
  unfoldable pub bias_entry : F → F → String → Value F → Result (ℕ × F)
  bias_entry minimum maximum token_id bias = elim (numbers.int_of token_id) [
    | none ↦ raise (bad "logit_bias")
    | some id ↦
        guard (leb_ℤ (pos 0) id) (bad "logit_bias")
        >> (finite "logit_bias" bias >>= λ x.
            guard (numbers.le minimum x && numbers.le x maximum) (bad "logit_bias")
            >> ok (pos_part id, x))
  ]

  unfoldable pub bias_entries : F → F → Fields F → List (ℕ × F) → Result (List (ℕ × F))
  unfolding bias_entry put
  bias_entries minimum maximum end normalized = ok normalized
  bias_entries minimum maximum (field token_id bias rest) normalized =
      bias_entry minimum maximum token_id bias >>= λ entry.
      bias_entries minimum maximum rest (put ℕ_discrete entry.0 entry.1 normalized)

  -- `minimum` and `maximum` are the floats -100 and 100
  unfoldable pub parse_logit_bias : F → F → Value F → Result (Option (List (ℕ × F)))
  unfolding bias_entries
  parse_logit_bias minimum maximum null = ok none
  parse_logit_bias minimum maximum (obj fields) =
      bias_entries minimum maximum fields [] >>= λ normalized. ok (some normalized)
  parse_logit_bias minimum maximum _ = raise (bad "logit_bias")
